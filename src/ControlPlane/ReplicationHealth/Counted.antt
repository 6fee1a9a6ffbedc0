-- ===== src/ControlPlane/ReplicationHealth/Counted.antt =====
-- What ReplicationHealthWithStorage of internal/controlplane/replication.go counts of a generation, in
-- terms of the listed agents and the replicas, without the maps that it fills.
use repo_ark.Prelude.{
  String, ◌≡◌, refl, ◌∙◌, ap, Bool, true, false, ◌&&◌, ◌||◌, Option, none, some, List, [], ◌∷◌,
  arith, length, count_if, Bool-cases, Option-cases, inl, inr, if◌then◌else◌,
}
use repo_ark.Prelude.Int.{pos, lei}
use repo_ark.Prelude.Text.{eqs, trim_space}
use repo_ark.Prelude.Table.{Table, Keys, get, add_key}
use repo_ark.Prelude.Clock.{Time, time_sub}
use repo_ark.ControlPlane.Model.{
  Agent, Generation, GenerationReplica, local_worker_affinity, is_replica_ready,
}
use repo_ark.ControlPlane.Config.{ReplicationConfig, StorageDataConfig}
use repo_ark.ControlPlane.Platform.{Platform}
use repo_ark.ControlPlane.Store.{MemoryStore}
use repo_ark.ControlPlane.Store.Repositories.{list_agents}
use repo_ark.ControlPlane.Store.Generations.{list_replicas}
use repo_ark.ControlPlane.Agents.{
  agent_allowed, agent_counts_durable, agent_failure_domain, timeout_of,
}
use repo_ark.ControlPlane.Agents.Latest.{latest, filled, get-filled}
use repo_ark.ControlPlane.ReplicationHealth.{local_agent, online_table, online_of, tally}

module _ (p : Platform) (cfg : ReplicationConfig) (now : Time) (storage : StorageDataConfig)
    (m : MemoryStore) where
  -- The agent is allowed, was seen within the timeout, and holds durable copies.
  abbrev pub counts : Agent → Bool
  counts a =
      agent_allowed a.id cfg.allowed_agents cfg.excluded_agents
      && (lei (time_sub now a.last_seen_at) (timeout_of p cfg.agent_timeout)
          && agent_counts_durable a storage)

  -- The agent under an ID that counts: a listed one, or the local worker where it is included.
  abbrev pub counted_agent : String → Option Agent
  counted_agent id =
      latest counts id (list_agents m)
        (if cfg.include_local && eqs local_worker_affinity id then some local_agent else none)

  -- A ready replica on an agent that counts.
  abbrev pub is_live_copy : GenerationReplica → Bool
  is_live_copy r =
      is_replica_ready r.state && (elim (counted_agent r.agent_id) [ none ↦ false | some _ ↦ true ])

  -- The failure domains of these, each once.
  abbrev domain_of : Option Agent → Keys → Keys
  domain_of none ds = ds
  domain_of (some a) ds =
      let d = agent_failure_domain p a cfg.failure_domain_label in
      if eqs d "" then ds else add_key d ds

  abbrev pub live_domains : List GenerationReplica → Keys
  live_domains [] = []
  live_domains (r ∷ rest) =
      let later = live_domains rest in
      if is_replica_ready r.state then domain_of (counted_agent r.agent_id) later else later

  -- As many failure domains as are asked for, where a label for them is set.
  abbrev pub is_spread : Generation → Bool
  is_spread g =
      eqs (trim_space cfg.failure_domain_label) ""
      || lei cfg.min_failure_domains (pos (length (live_domains (list_replicas g.id m))))

  -- And at least one ready replica on an agent that counts, or as many as are asked for.
  abbrev pub is_well : Generation → Bool
  is_well g =
      let live = pos (count_if is_live_copy (list_replicas g.id m)) in
      lei (pos 1) live && lei cfg.min_healthy live && is_spread g

  online-filled :
      (agents : List Agent) (t : Table Agent)
      → online_table now (timeout_of p cfg.agent_timeout) cfg storage agents t
        ≡ filled counts agents t
  online-filled [] t = refl
  online-filled (a ∷ rest) t = online-filled rest _

  get-online_of : (id : String) → get id (online_of p cfg now storage m) ≡ counted_agent id
  unfolding get
  get-online_of id =
      let start = if cfg.include_local then (local_worker_affinity, local_agent) ∷ [] else [] in
      ap (get id) (online-filled (list_agents m) start)
      ∙ get-filled counts id (list_agents m) start
      ∙ ap (latest counts id (list_agents m)) (elim (Bool-cases cfg.include_local) [
        | inl here ↦ ground arith
        | inr away ↦ ground arith
      ])

  -- The tally of a generation in these terms.
  pub tally_is :
      (rs : List GenerationReplica)
      → let t = tally p cfg (online_of p cfg now storage m) rs in
        (t.ready ≡ count_if (λ r. is_replica_ready r.state) rs)
        × (t.healthy ≡ count_if is_live_copy rs)
        × (t.domains ≡ live_domains rs)
  unfolding tally
  tally_is [] = (refl, refl, refl)
  tally_is (r ∷ rs) =
      let k = get-online_of r.agent_id in
      elim (Option-cases (counted_agent r.agent_id)) [
        | inl e ↦ rw (tally, k ∙ e, e) ground (arith, tally_is rs)
        | inr (a, e) ↦ rw (tally, k ∙ e, e) ground (arith, tally_is rs)
      ]
