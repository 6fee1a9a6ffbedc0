-- ===== src/ControlPlane/Runs.antt =====
-- Restores, health reports and shard placement at small inputs.
use repo_ark.Prelude.{
  not, sum_of, min, String, ◌≡◌, refl, ◌⊎◌, true, false, none, some, List, [], ◌∷◌, arith, length,
  count_if, In,
}
use repo_ark.Prelude.Int.{ℤ, pos, ◌≤ℤ◌, ◌-ℤ◌, sub64, wrap64}
use repo_ark.Prelude.Text.{eqs, trim_space}
use repo_ark.Prelude.Table.{Table, get, has_key, DistinctKeys}
use repo_ark.ControlPlane.Model.{Agent}
use repo_ark.ControlPlane.Agents.{
  agent_accepts_placement, agent_has_capacity_for, agent_failure_domain,
}
use repo_ark.ControlPlane.Agents.Capacity.{capacity_keeps_reserve}
use repo_ark.ControlPlane.Store.Generations.{list_all_generations}
use repo_ark.ControlPlane.Store.ErasureSets.{list_erasure_sets}
use repo_ark.ControlPlane.Restores.{affinity_from_meta_path, select_restore_affinity_with_storage}
use repo_ark.ControlPlane.Restores.Affinity.{can_serve, restore_affinity}
use repo_ark.ControlPlane.ReplicationHealth.{
  tally, is_healthy, min_healthy_of, replication_health_with_storage,
}
use repo_ark.ControlPlane.ReplicationHealth.Verdict.{ready_of, live_of, health_report}
use repo_ark.ControlPlane.ReplicationHealth.Counted.{is_well, is_spread}
use repo_ark.ControlPlane.Erasure.{keys_of, desired_shard_agents}
use repo_ark.ControlPlane.Erasure.Placement.{desired_agents}
use repo_ark.ControlPlane.Erasure.Health.{
  copies_of, verdict, set_healthy, evaluate_distributed_erasure_health,
}
use repo_ark.ControlPlane.Erasure.Health.Traces.{IsDistinctIndices, Copy}
use repo_ark.ControlPlane.Erasure.Health.Resilience.{healthy_survives}
use repo_ark.ControlPlane.Erasure.Health.Report.{ReportsWell, erasure_report}
use repo_ark.ControlPlane.Samples.{
  two_nodes, node, replica, shard, one_of_two, plain_platform, by_site, erasure_by_site,
  storage_by_site,
}

has_room : agent_has_capacity_for (node "n1") storage_by_site (pos 500) ≡ true
unfolding agent_has_capacity_for agent_accepts_placement sub64 wrap64
has_room = refl

capacity_keeps_reserve_example :
    (agent_accepts_placement (node "n1") storage_by_site ≡ true)
    × (pos 500 ≤ℤ pos 600)
    × (pos 100 ≤ℤ pos 600 -ℤ pos 500)
capacity_keeps_reserve_example =
    capacity_keeps_reserve (node "n1") storage_by_site (pos 500) (ground arith) (ground arith)
      (omega arith) (omega arith) has_room

restore_affinity_example :
    let chosen =
      select_restore_affinity_with_storage plain_platform 1000 "g1" "agent://n2/g1" by_site
        storage_by_site two_nodes in
    let can =
      can_serve plain_platform 1000 "g1" "agent://n2/g1" by_site storage_by_site two_nodes in
    (can (affinity_from_meta_path "agent://n2/g1") ≡ true
      → chosen ≡ some (affinity_from_meta_path "agent://n2/g1"))
    × (((chosen ≡ none) × ((id : String) → can id ≡ false))
        ⊎ ((id : String) × (chosen ≡ some id) × (can id ≡ true)))
restore_affinity_example =
    restore_affinity plain_platform 1000 "g1" "agent://n2/g1" by_site storage_by_site two_nodes

health_report_example :
    let r = replication_health_with_storage plain_platform by_site 1000 storage_by_site two_nodes in
    let gens = list_all_generations (pos 20000) two_nodes in
    let well = is_well plain_platform by_site 1000 storage_by_site two_nodes in
    let spread = is_spread plain_platform by_site 1000 storage_by_site two_nodes in
    (r.generations ≡ length gens)
    × (r.healthy_generations ≡ count_if well gens)
    × (r.deficits ≡ count_if (λ g. not (well g)) gens)
    × (r.failure_domain_deficits ≡ count_if (λ g. not (spread g)) gens)
    × (r.ready_replicas
        ≡ sum_of (ready_of plain_platform by_site 1000 storage_by_site two_nodes) gens)
    × (r.online_ready_replicas
        ≡ sum_of (live_of plain_platform by_site 1000 storage_by_site two_nodes) gens)
health_report_example = health_report plain_platform by_site 1000 storage_by_site two_nodes

abbrev both : Table Agent
both = ("n1", node "n1") ∷ ("n2", node "n2") ∷ []

on_both :
    is_healthy plain_platform by_site
      (min_healthy_of plain_platform by_site)
      (tally plain_platform by_site both (replica "n1" ∷ replica "n2" ∷ []))
    ≡ true
unfolding tally get agent_failure_domain trim_space
on_both = refl

desired_agents_example :
    let out = desired_shard_agents plain_platform "o1" 0 (pos 2) both "site" in
    (length out ≡ min 2 2)
    × DistinctKeys out
    × ((id : String) → has_key id out ≡ true → has_key id (keys_of both) ≡ true)
desired_agents_example =
    desired_agents plain_platform "o1" 0 (pos 2) both "site" (refl, (refl, tt)) refl

both_shards_healthy :
    verdict erasure_by_site one_of_two
      (copies_of plain_platform "site" both
        (shard (pos 0) "n1" ∷ shard (pos 1) "n2" ∷ [])).index_domains
    ≡ set_healthy
unfolding verdict copies_of get agent_failure_domain trim_space
both_shards_healthy = refl

healthy_survives_example :
    (left : List ℤ) × IsDistinctIndices left
    × (pos 1 ≤ℤ pos (length left))
    × ((i : ℤ)
        → In i left
        → (d : String) × (eqs d "n1" ≡ false)
          × Copy plain_platform "site" both (shard (pos 0) "n1" ∷ shard (pos 1) "n2" ∷ []) i d)
healthy_survives_example =
    healthy_survives plain_platform "site" "n1" both erasure_by_site one_of_two
      (shard (pos 0) "n1" ∷ shard (pos 1) "n2" ∷ []) both_shards_healthy

erasure_report_example :
    ReportsWell plain_platform 1000 by_site storage_by_site two_nodes
      (list_erasure_sets (pos 20000) two_nodes)
      (evaluate_distributed_erasure_health plain_platform 1000 by_site storage_by_site two_nodes)
erasure_report_example =
    erasure_report plain_platform 1000 by_site storage_by_site two_nodes refl refl
