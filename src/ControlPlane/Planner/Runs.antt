-- ===== src/ControlPlane/Planner/Runs.antt =====
-- A generation with one replica among three agents, in internal/controlplane/replication.go.
use repo_ark.Prelude.{
  count_if, min, ◌*◌, ◌≤◌, String, ◌≡◌, refl, true, some, List, [], ◌∷◌, length, arith, sym, subst,
  In, inl,
}
use repo_ark.Prelude.Int.{pos, sub64, wrap64}
use repo_ark.Prelude.Text.{trim_space}
use repo_ark.Prelude.Table.{Keys, get, put}
use repo_ark.Prelude.Sort.{sort_by}
use repo_ark.Prelude.Clock.{minute}
use repo_ark.ControlPlane.Model.{Agent, GenerationReplica}
use repo_ark.ControlPlane.Agents.{
  agent_accepts_placement, agent_has_capacity_for, agent_counts_durable, agent_allowed,
  agent_failure_domain, agent_bandwidth_mbps,
}
use repo_ark.ControlPlane.Samples.{node, replica, plain_platform, by_site, storage_by_site}
use repo_ark.ControlPlane.Planner.Survey.{
  Roster, empty_roster, survey, is_in, IsRoster, survey-IsRoster, empty-IsRoster,
}
use repo_ark.ControlPlane.Planner.{
  holdings, is_met, ready_sources, generation_bytes, candidates, need_of, assign, plan,
}
use repo_ark.ControlPlane.Planner.Choice.{HasReady, planned_copies}
use repo_ark.ControlPlane.Planner.Copies.{shortfall, free_targets, is_source, plan_fills}
use repo_ark.ControlPlane.Planner.Held.{holders, is_counted_copy, is_healthy_copy, held_domains}

abbrev three : List Agent
three = node "n1" ∷ node "n2" ∷ node "n3" ∷ []

abbrev roster : Roster
roster = survey plain_platform by_site storage_by_site 1000 (pos (2 * minute)) three empty_roster

abbrev one_replica : List GenerationReplica
one_replica = replica "n1" ∷ []

one_copy : plan plain_platform by_site storage_by_site roster one_replica ≡ ("n1", "n2") ∷ []
unfolding plan holdings ready_sources candidates need_of assign is_met survey get put sort_by
    agent_accepts_placement agent_has_capacity_for agent_counts_durable agent_allowed
    agent_failure_domain agent_bandwidth_mbps trim_space sub64 wrap64
one_copy = refl

roster_ok : IsRoster storage_by_site roster
unfolding get
roster_ok =
    survey-IsRoster plain_platform by_site storage_by_site 1000 (pos (2 * minute)) three
      empty_roster (empty-IsRoster storage_by_site) ((refl, (refl, tt)), ((refl, tt), (tt, tt)))
      (refl, (refl, (refl, tt)))

planned_copies_example :
    HasReady "n1" one_replica
    × (is_in "n1" roster.online_sources ≡ true)
    × ((a : Agent) × (get "n2" roster.target_eligible ≡ some a)
        × (get "n2" roster.online_sources ≡ some a)
        × (agent_accepts_placement a storage_by_site ≡ true)
        × (agent_has_capacity_for a storage_by_site (generation_bytes (pos 0) one_replica) ≡ true))
    × (¬ HasReady "n2" one_replica)
planned_copies_example =
    planned_copies plain_platform by_site storage_by_site roster roster_ok one_replica "n1" "n2"
      (subst (λ (cs : List (String × String)). In ("n1", "n2") cs) (sym one_copy) (inl refl))

abbrev held : Keys
held = holders (is_counted_copy plain_platform by_site storage_by_site roster) one_replica []

abbrev healthy : Keys
healthy = holders (is_healthy_copy plain_platform by_site storage_by_site roster) one_replica []

abbrev domains : Keys
domains = held_domains plain_platform by_site storage_by_site roster one_replica []

one_held : (length held ≡ 1) × (length healthy ≡ 1) × (length domains ≡ 1)
unfolding survey get put agent_accepts_placement agent_counts_durable agent_allowed
    agent_failure_domain trim_space
one_held = (refl, refl, refl)

-- One copy is missing, and two agents can take it.
one_short :
    (shortfall plain_platform by_site storage_by_site roster 1 1 1 ≡ 1)
    × (free_targets plain_platform by_site storage_by_site roster held one_replica ≡ 2)
unfolding survey get put agent_accepts_placement agent_counts_durable agent_allowed
    agent_failure_domain agent_has_capacity_for trim_space sub64 wrap64
one_short = (refl, refl)

plan_fills_example :
    let copies = length (plan plain_platform by_site storage_by_site roster one_replica) in
    let sources = count_if (is_source plain_platform by_site storage_by_site roster) one_replica in
    (1 ≤ sources
      → copies
        ≡ min
            (shortfall plain_platform by_site storage_by_site roster
              (length held)
              (length healthy)
              (length domains))
            (free_targets plain_platform by_site storage_by_site roster held one_replica))
    × (sources ≡ 0 → copies ≡ 0)
plan_fills_example =
    plan_fills plain_platform by_site storage_by_site roster one_replica (omega arith) (omega arith)
      (omega arith) (omega (arith, one_held)) (omega (arith, one_held)) (omega (arith, one_held))
