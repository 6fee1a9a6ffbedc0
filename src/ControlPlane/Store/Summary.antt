-- ===== src/ControlPlane/Store/Summary.antt =====
-- Stats of internal/controlplane/memory.go. A counter of the source is an int that counts entries of
-- the store, so it is a natural number here.
use repo_ark.Prelude.{
  suc, ◌+◌, ◌*◌, ◌-◌, ◌≤◌, String, ◌≡◌, refl, ap, ◌⊎◌, inl, inr, any-In, Bool, true, false, not,
  ◌&&◌, ◌||◌, List, [], ◌∷◌, arith, length, count_if, In, any, if◌then◌else◌,
}
use repo_ark.Prelude.Int.{negsuc}
use repo_ark.Prelude.Text.{eqs, eq_iff}
use repo_ark.Prelude.Table.{Table, Keys, values, has_key, add_key, has_key-add_key}
use repo_ark.Prelude.Clock.{Time, time_add, is_zero, is_after, minute}
use repo_ark.ControlPlane.Model.{
  Job, Agent, RestoreApproval, ObjectLease, Health, Stats, local_worker_affinity, is_job_queued,
  is_job_running, is_job_failed, is_replica_ready, is_shard_ready, is_approval_pending,
}
use repo_ark.ControlPlane.Store.{MemoryStore}
use repo_ark.ControlPlane.Store.Repositories.{is_due}
use repo_ark.ControlPlane.Store.Generations.{joined}

-- a.LastSeenAt.After(now.Add(-2 * time.Minute))
abbrev pub is_connected : Time → Agent → Bool
is_connected now a = is_after a.last_seen_at (time_add now (negsuc (2 * minute - 1)))

-- The identifiers of the connected agents.
abbrev pub connected_ids : Time → List Agent → Keys
connected_ids now [] = []
connected_ids now (a ∷ rest) =
    let ids = connected_ids now rest in if is_connected now a then add_key a.id ids else ids

abbrev pub is_storage_degraded : Agent → Bool
is_storage_degraded a = elim a.storage_health [ Health.degraded ↦ true | _ ↦ false ]

abbrev pub is_storage_unhealthy : Agent → Bool
is_storage_unhealthy a = elim a.storage_health [ Health.unhealthy ↦ true | _ ↦ false ]

-- An unfinished job that only an agent which is not connected may run.
abbrev pub is_stranded : Keys → Job → Bool
is_stranded connected j =
    not (
      eqs j.affinity ""
      || eqs j.affinity local_worker_affinity
      || (not (is_job_queued j.status) && not (is_job_running j.status)))
    && not (has_key j.affinity connected)

abbrev pub is_open : Time → RestoreApproval → Bool
is_open now a = is_approval_pending a.status && (is_zero a.expires_at || is_after a.expires_at now)

unfoldable pub stats : Time → MemoryStore → Stats
stats now m =
    let jobs = values m.jobs in
    let agents = values m.agents in
    record {
      queued_jobs = count_if (λ j. is_job_queued j.status) jobs;
      running_jobs = count_if (λ j. is_job_running j.status) jobs;
      failed_jobs = count_if (λ j. is_job_failed j.status) jobs;
      repositories = length m.repos;
      due_repositories = count_if (is_due now) (values m.repos);
      generations = length (joined (values m.generations));
      connected_agents = count_if (is_connected now) agents;
      stranded_jobs = count_if (is_stranded (connected_ids now agents)) jobs;
      ready_replicas = count_if (λ r. is_replica_ready r.state) (joined (values m.replicas));
      replica_deficits = 0;
      pending_approvals = count_if (is_open now) (values m.approvals);
      active_transfers = length m.transfers;
      degraded_storage_agents = count_if is_storage_degraded agents;
      unhealthy_storage_agents = count_if is_storage_unhealthy agents;
      object_refs = length m.object_refs;
      active_object_leases = count_if (λ l. is_after l.expires_at now) (values m.object_leases);
      erasure_sets = length m.erasure_sets;
      erasure_shard_copies =
          count_if (λ s. is_shard_ready s.state) (joined (values m.erasure_shards));
    }

has_key-connected_ids :
    (now : Time) (id : String) (xs : List Agent)
    → has_key id (connected_ids now xs) ≡ any (λ a. eqs a.id id && is_connected now a) xs
has_key-connected_ids now id [] = refl
has_key-connected_ids now id (a ∷ xs) =
    ground (arith, has_key-connected_ids now id xs, has_key-add_key a.id id (connected_ids now xs))

stranded_le :
    (connected : Keys) (xs : List Job)
    → count_if (is_stranded connected) xs
      ≤ count_if (λ j. is_job_queued j.status) xs + count_if (λ j. is_job_running j.status) xs
stranded_le connected [] = omega arith
stranded_le connected (x ∷ xs) = ground (arith, stranded_le connected xs)

statuses_le :
    (xs : List Job)
    → count_if (λ j. is_job_queued j.status) xs
        + count_if (λ j. is_job_running j.status) xs
        + count_if (λ j. is_job_failed j.status) xs
      ≤ length xs
statuses_le [] = omega arith
statuses_le (x ∷ xs) = ground (arith, statuses_le xs)

length-values : {V : Type 0} (t : Table V) → length (values t) ≡ length t
length-values [] = refl
length-values ((k, v) ∷ t) = ap suc (length-values t)

count_if-le : {A : Type 0} (p : A → Bool) (xs : List A) → count_if p xs ≤ length xs
count_if-le p [] = omega arith
count_if-le p (x ∷ xs) = ground (arith, count_if-le p xs)

-- The counters of Stats agree with each other: the queued, running and failed jobs are no more than
-- the jobs, the stranded ones are among the queued and the running, the due repositories among the
-- repositories, the pending approvals among the approvals, and the active leases among the leases.
pub stats_agree :
    (now : Time) (m : MemoryStore)
    → let s = stats now m in
      (s.queued_jobs + s.running_jobs + s.failed_jobs ≤ length m.jobs)
      × (s.stranded_jobs ≤ s.queued_jobs + s.running_jobs)
      × (s.due_repositories ≤ s.repositories)
      × (s.pending_approvals ≤ length m.approvals)
      × (s.active_object_leases ≤ length m.object_leases)
unfolding stats
stats_agree now m = (
  omega (arith, statuses_le (values m.jobs), length-values m.jobs),
  stranded_le (connected_ids now (values m.agents)) (values m.jobs),
  omega (arith, count_if-le (is_due now) (values m.repos), length-values m.repos),
  omega (arith, count_if-le (is_open now) (values m.approvals), length-values m.approvals),
  omega (
    arith,
    count_if-le (λ (l : ObjectLease). is_after l.expires_at now) (values m.object_leases),
    length-values m.object_leases,
  ),
)

-- Stats counts no job as stranded whose agent was seen within the last two minutes, none that any
-- worker may run, and none of the local worker.
pub stranded_not_connected :
    (now : Time) (j : Job) (a : Agent) (m : MemoryStore)
    → In a (values m.agents)
    → is_connected now a ≡ true
    → (a.id ≡ j.affinity) ⊎ (j.affinity ≡ "") ⊎ (j.affinity ≡ local_worker_affinity)
    → is_stranded (connected_ids now (values m.agents)) j ≡ false
stranded_not_connected now j a m here seen (inl same) = ground (
  arith,
  has_key-connected_ids now j.affinity (values m.agents),
  any-In (λ (x : Agent). eqs x.id j.affinity && is_connected now x) (values m.agents) a here,
  eq_iff a.id j.affinity,
)
stranded_not_connected now j a m here seen (inr (inl free)) = ground (arith, eq_iff j.affinity "")
stranded_not_connected now j a m here seen (inr (inr local)) =
    ground (arith, eq_iff j.affinity local_worker_affinity)
