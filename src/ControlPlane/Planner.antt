-- ===== src/ControlPlane/Planner.antt =====
-- ReplicationReconciler.Reconcile of internal/controlplane/replication.go, up to the reconcilers that
-- it calls at its end: which copies of which generation are made where. The agent of the local
-- worker, whose key and free space are read from the machine, the JSON of a payload, the clock and
-- new identifiers are arguments.
pub mod Survey
pub mod Choice
pub mod Held
pub mod Copies
mod Runs
use Prim.Native.String.{◌++◌ as ◌<>◌}
use repo_ark.Prelude.{
  ℕ, zero, suc, ◌+◌, ◌%◌, String, Bool, true, false, not, ◌&&◌, ◌||◌, Option, none, some, List, [],
  ◌∷◌, length, take, if◌then◌else◌, ◌==◌,
}
use repo_ark.Prelude.Int.{ℤ, pos, pos_part, sub64, lti, lei, eqi}
use repo_ark.Prelude.Text.{eqs, lts, trim_space}
use repo_ark.Prelude.Table.{Table, Keys, get, put, has_key, add_key}
use repo_ark.Prelude.Sort.{sort_by}
use repo_ark.Prelude.Clock.{Time, Duration, zero_time, is_zero}
use repo_ark.ControlPlane.Model.{
  Agent, Generation, GenerationReplica, Job, JobStatus, is_replica_ready, is_job_queued,
  is_job_running, local_worker_affinity,
}
use repo_ark.ControlPlane.Config.{ReplicationConfig, StorageDataConfig}
use repo_ark.ControlPlane.Platform.{Platform}
use repo_ark.ControlPlane.Store.{MemoryStore}
use repo_ark.ControlPlane.Store.Jobs.{enqueue, list_jobs}
use repo_ark.ControlPlane.Store.Repositories.{list_agents}
use repo_ark.ControlPlane.Store.Generations.{list_all_generations, list_replicas}
use repo_ark.ControlPlane.Agents.{
  agent_accepts_placement, agent_counts_durable, agent_has_capacity_for, agent_bandwidth_mbps,
  agent_failure_domain, timeout_of,
}
use repo_ark.ControlPlane.Erasure.{nth}
use repo_ark.ControlPlane.ReplicationHealth.{
  zero_agent, add_domain, wants_domains, domains_ok, cleanup_expired_replication_transfers,
}
use repo_ark.ControlPlane.Planner.Survey.{
  Roster, empty_roster, survey, as_local, add_online, add_local, is_in, agent_at,
}

-- ready, healthyReady and healthyDomains of a generation, as their keys.
pub record Holdings : Type 0 where
  pub ready : Keys
  pub healthy_ready : Keys
  pub healthy_domains : Keys

-- replicateGenerationPayload
pub record ReplicatePayload : Type 0 where
  pub transfer_id : String
  pub repository_id : String
  pub repository : String
  pub generation_id : String
  pub source_agent : String
  pub target_agent : String
  pub target_replication_public_key : String

-- The agents online that hold a ready replica.
unfoldable pub ready_sources : Roster → List GenerationReplica → List String
ready_sources roster [] = []
ready_sources roster (r ∷ rest) =
    let later = ready_sources roster rest in
    if is_replica_ready r.state && is_in r.agent_id roster.online_sources
    then r.agent_id ∷ later
    else later

-- The size of the largest replica.
abbrev pub generation_bytes : ℤ → List GenerationReplica → ℤ
generation_bytes n [] = n
generation_bytes n (r ∷ rest) = generation_bytes (if lti n r.bytes then r.bytes else n) rest

-- A failure domain that no healthy replica is in.
abbrev pub is_new_domain : Keys → String → Bool
is_new_domain domains d = not (eqs d "") && not (has_key d domains)

abbrev pub is_old_domain : Keys → String → Bool
is_old_domain domains d = eqs d "" || has_key d domains

-- n - have, and 0 where that is negative
abbrev pub missing : ℤ → ℕ → ℤ
missing n have = let d = sub64 n (pos have) in if lti d (pos 0) then pos 0 else d

abbrev pub larger : ℤ → ℤ → ℤ
larger x y = if lti x y then y else x

-- The loop over i: source i % len(sources), target i.
unfoldable pub assign : List String → ℕ → ℕ → List String → List (String × String)
assign sources i zero targets = []
assign sources i (suc n) [] = []
assign sources i (suc n) (t ∷ targets) =
    (nth (i % length sources) sources, t) ∷ assign sources (i + 1) n targets

-- The agents that can take a copy, in the order of the table.
unfoldable pub candidates : StorageDataConfig → Keys → ℤ → Table Agent → List String
candidates storage ready bytes [] = []
candidates storage ready bytes ((id, a) ∷ rest) =
    let later = candidates storage ready bytes rest in
    if not (has_key id ready) && agent_has_capacity_for a storage bytes then id ∷ later else later

module _ (p : Platform) (cfg : ReplicationConfig) (storage : StorageDataConfig) where
  -- A ready replica on an agent that is considered, where `a` is its agent, and `b` the same if it
  -- can take a copy.
  abbrev pub count_ready : Agent → String → Keys → Keys
  count_ready a id ready =
      if not storage.evacuate_degraded || agent_counts_durable a storage
      then add_key id ready
      else ready

  abbrev pub hold_at : Option Agent → Option Agent → String → Holdings → Holdings
  hold_at none b id h = h
  hold_at (some a) none id h = record h { ready = count_ready a id h.ready }
  hold_at (some a) (some b) id h = record {
    ready = count_ready a id h.ready;
    healthy_ready = add_key id h.healthy_ready;
    healthy_domains =
        add_domain (agent_failure_domain p b cfg.failure_domain_label) h.healthy_domains;
  }

  abbrev pub hold : Roster → GenerationReplica → Holdings → Holdings
  hold roster r h =
      if is_replica_ready r.state
      then hold_at (get r.agent_id roster.placement) (get r.agent_id roster.target_eligible)
          r.agent_id h
      else h

  unfoldable pub holdings : Roster → List GenerationReplica → Holdings → Holdings
  holdings roster [] h = h
  holdings roster (r ∷ rest) h = holdings roster rest (hold roster r h)

  -- Enough copies, enough healthy ones, and enough failure domains.
  unfoldable pub is_met : Holdings → Bool
  is_met h =
      lei cfg.factor (pos (length h.ready))
      && lei cfg.min_healthy (pos (length h.healthy_ready))
      && domains_ok p cfg h.healthy_domains

  abbrev pub source_less : Table Agent → String → String → Bool
  source_less online x y =
      let a = agent_at x online in
      let b = agent_at y online in
      let da = agent_counts_durable a storage in
      let db = agent_counts_durable b storage in
      let ba = agent_bandwidth_mbps p a in
      let bb = agent_bandwidth_mbps p b in
      if (da && not db) || (not da && db)
      then da
      else if not (eqi ba bb)
      then lti bb ba
      else lts x y

  abbrev pub target_less : Table Agent → Keys → String → String → Bool
  target_less eligible domains x y =
      let a = agent_at x eligible in
      let b = agent_at y eligible in
      let da = agent_failure_domain p a cfg.failure_domain_label in
      let db = agent_failure_domain p b cfg.failure_domain_label in
      let ba = agent_bandwidth_mbps p a in
      let bb = agent_bandwidth_mbps p b in
      if is_new_domain domains da && is_old_domain domains db
      then true
      else if is_new_domain domains db && is_old_domain domains da
      then false
      else if not (eqi ba bb)
      then lti bb ba
      else if not (eqi a.storage_free_percent b.storage_free_percent)
      then lti b.storage_free_percent a.storage_free_percent
      else if not (eqi a.storage_free_bytes b.storage_free_bytes)
      then lti b.storage_free_bytes a.storage_free_bytes
      else lts x y

  -- needCopies, needHealthy and needDomains, the largest of them
  unfoldable pub need_of : Holdings → ℤ
  need_of h =
      larger
        (larger (missing cfg.factor (length h.ready))
          (missing cfg.min_healthy (length h.healthy_ready)))
        (if wants_domains p cfg
          then missing cfg.min_failure_domains (length h.healthy_domains)
          else pos 0)

  -- The copies of a generation, as pairs of a source and a target.
  unfoldable pub plan : Roster → List GenerationReplica → List (String × String)
  plan roster replicas =
      let h =
        holdings roster replicas
          (record { ready = []; healthy_ready = []; healthy_domains = [] }) in
      let sources = ready_sources roster replicas in
      let targets =
        sort_by (target_less roster.target_eligible h.healthy_domains)
          (candidates storage h.ready (generation_bytes (pos 0) replicas) roster.target_eligible) in
      if is_met h || length sources == 0
      then []
      else assign (sort_by (source_less roster.online_sources) sources) 0 (pos_part (need_of h))
          targets

-- The job of a copy. `marshal` is json.Marshal of the payload.
abbrev pub copy_job :
    (ReplicatePayload → String)
    → Time
    → ℤ
    → Table Agent
    → String
    → Generation
    → String × String
    → Job
copy_job marshal now max_attempts eligible transfer g (source, target) = record {
  id = "";
  kind = "replicate-generation";
  target = g.id <> ("@" <> target);
  payload = marshal (record {
    transfer_id = transfer;
    repository_id = g.repository_id;
    repository = g.repository;
    generation_id = g.id;
    source_agent = source;
    target_agent = target;
    target_replication_public_key = (agent_at target eligible).replication_public_key;
  });
  status = JobStatus.unset;
  priority = pos 150;
  attempts = pos 0;
  max_attempts = max_attempts;
  not_before = now;
  affinity = source;
  lease_owner = "";
  lease_until = zero_time;
  created_at = zero_time;
  updated_at = zero_time;
  last_error = "";
}

-- activePlacement
unfoldable pub active_placement : List Job → Keys
active_placement [] = []
active_placement (j ∷ rest) =
    let later = active_placement rest in
    if (eqs j.kind "replicate-generation" || eqs j.kind "install-replica")
      && (is_job_queued j.status || is_job_running j.status)
    then add_key j.target later
    else later

-- The reading of the clock, the identifier of the job and that of the transfer in the turn of a copy.
pub record Turns : Type 0 where
  pub clock : String → Time
  pub fresh : String → String
  pub transfer : String → String

module _ (p : Platform) (cfg : ReplicationConfig) (storage : StorageDataConfig)
    (marshal : ReplicatePayload → String) (turns : Turns) (max_attempts : ℤ) where
  unfoldable pub enqueue_copies :
      Time
      → Table Agent
      → Keys
      → Generation
      → List (String × String)
      → MemoryStore
      → ℕ × MemoryStore
  enqueue_copies now eligible busy g [] m = (0, m)
  enqueue_copies now eligible busy g (c ∷ rest) m =
      let t = g.id <> ("@" <> c.1) in
      let job = copy_job marshal now max_attempts eligible (turns.transfer t) g c in
      let ((j, created), m') = enqueue (turns.clock t) (turns.fresh t) job m in
      let (n, end) = enqueue_copies now eligible busy g rest (if has_key t busy then m else m') in
      (if not (has_key t busy) && created then suc n else n, end)

  unfoldable pub replicate_generations :
      Time → Roster → Keys → List Generation → MemoryStore → ℕ × MemoryStore
  replicate_generations now roster busy [] m = (0, m)
  replicate_generations now roster busy (g ∷ rest) m =
      let copies = plan p cfg storage roster (list_replicas g.id m) in
      let (n, m') = enqueue_copies now roster.target_eligible busy g copies m in
      let (k, end) = replicate_generations now roster busy rest m' in (n + k, end)

  -- `local` has the key of the local worker and what the probe of its disk found.
  unfoldable pub reconcile_replication : Time → Agent → MemoryStore → ℕ × MemoryStore
  reconcile_replication now local m =
      if not cfg.enabled
      then (0, m)
      else let (k, cleaned) = cleanup_expired_replication_transfers now m in
        let surveyed =
          survey p cfg storage now (timeout_of p cfg.agent_timeout) (list_agents cleaned)
            empty_roster in
        let roster =
          if cfg.include_local then add_local storage (as_local now local) surveyed else surveyed in
        replicate_generations now roster (active_placement (list_jobs (pos 10000) cleaned))
          (list_all_generations (pos 20000) cleaned) cleaned
