-- ===== src/ControlPlane/Store/Jobs/History.antt =====
-- The job queue over every sequence of its calls.
use repo_ark.Prelude.{
  String, ◌≡◌, refl, sym, subst, inl, inr, true, false, Option, some, List, [], ◌∷◌, All, arith,
  Option-cases, Bool-cases,
}
use repo_ark.Prelude.Int.{ℤ, lei}
use repo_ark.Prelude.Text.{eqs, eq_iff}
use repo_ark.Prelude.Table.{Table, get, put, get-put}
use repo_ark.Prelude.Clock.{Time, Duration}
use repo_ark.ControlPlane.Model.{Job, is_job_running}
use repo_ark.ControlPlane.Store.{MemoryStore}
use repo_ark.ControlPlane.Store.Jobs.{
  enqueue, out_of_attempts, expire_job, leasable, grant, lease, succeeded_job, complete,
  failed_attempt, fail, retry_job,
}
use repo_ark.ControlPlane.Store.Jobs.Leasing.{lease_origin}
use repo_ark.ControlPlane.Store.Jobs.Completion.{complete_inversion}
use repo_ark.ControlPlane.Store.Jobs.Distinct.{
  IsDistinct, Carries, Follows, Follows-IsDistinct, enqueue-IsDistinct,
}
use repo_ark.ControlPlane.Store.Jobs.Soundness.{
  IsSound, IsNewJob, enqueue-IsSound, lease-IsSound, complete-IsSound, fail-IsSound,
  retry_job-IsSound,
}

-- The calls that change the queue, each with its reading of the clock.
pub data Call : Type 0 where
  enqueues : Time → String → Job → Call
  leases : Time → String → ℤ → Duration → Call
  completes : Time → String → String → Call
  fails : Time → String → String → String → Duration → Call
  retries : Time → String → Call

-- Enqueued jobs are new ones.
abbrev pub IsAdmissible : Call → Type 0
IsAdmissible (enqueues now fresh j) = IsNewJob j
IsAdmissible _ = Unit

-- Besides, failures are reported by a named worker, and nobody calls RetryJob.
abbrev pub IsUnretried : Call → Type 0
IsUnretried (enqueues now fresh j) = IsNewJob j
IsUnretried (fails now id owner detail retry) = eqs owner "" ≡ false
IsUnretried (retries now id) = ⊥
IsUnretried _ = Unit

Carries-refl : (j : Job) → Carries j j
Carries-refl j = record {
  same_kind = refl;
  same_target = refl;
  same_affinity = refl;
  active_before = λ h. h;
}

expire_job-Carries : (now : Time) (j : Job) → Carries j (expire_job now j)
unfolding expire_job
expire_job-Carries now j = elim (Bool-cases (out_of_attempts now j)) [
  | inl e ↦ rw (e, expire_job) (ground arith)
  | inr e ↦ rw (e, expire_job) (Carries-refl j)
]

grant-Carries :
    (now : Time) (owner : String) (d : Duration) (j : Job)
    → leasable now owner j ≡ true
    → Carries j (grant now owner d j)
unfolding grant leasable
grant-Carries now owner d j fit = ground arith

failed_attempt-Carries :
    (now : Time) (detail : String) (retry : Duration) (j : Job)
    → is_job_running j.status ≡ true
    → Carries j (failed_attempt now detail retry j)
unfolding failed_attempt
failed_attempt-Carries now detail retry j h = elim (Bool-cases (lei j.max_attempts j.attempts)) [
  | inl e ↦ rw (e, failed_attempt) (ground arith)
  | inr e ↦ rw (e, failed_attempt) (ground arith)
]

Follows-refl : (t : Table Job) → Follows t t
Follows-refl t = record { origin = λ k x e. (x, e, Carries-refl x) }

put-Follows :
    (t : Table Job) (k : String) (j j' : Job)
    → get k t ≡ some j
    → Carries j j'
    → Follows t (put k j' t)
put-Follows t k j j' e c = record {
  origin = λ l x e'. elim (Bool-cases (eqs k l)) [
    | inl hit ↦ (
      j,
      subst (λ s. get s t ≡ some j) ((eq_iff k l).0 hit) e,
      subst (Carries j) (ground (arith, get-put k l j' t)) c,
    )
    | inr other ↦ (x, ground (arith, get-put k l j' t), Carries-refl x)
  ];
}

lease-Follows :
    (now : Time) (owner : String) (limit : ℤ) (d : Duration) (m : MemoryStore)
    → IsSound m.jobs
    → Follows m.jobs (lease now owner limit d m).1.jobs
lease-Follows now owner limit d m s = record {
  origin = λ k x e.
      let (j, here, how) = lease_origin now owner limit d m s.keyed k x e in
      (
        j,
        here,
        elim how [
          | inl same ↦ subst (Carries j) (sym same) (expire_job-Carries now j)
          | inr (fit, same) ↦ subst (Carries j) (sym same) (grant-Carries now owner d j fit)
        ],
      );
}

complete-Follows :
    (approval_id : String → Option String) (now : Time) (id owner : String) (m : MemoryStore)
    → Follows m.jobs (complete approval_id now id owner m).1.jobs
complete-Follows approval_id now id owner m = elim (complete_inversion approval_id now id owner m) [
  | inl (e, failed, same, _) ↦
      subst (λ (x : MemoryStore). Follows m.jobs x.jobs) (sym same) (Follows-refl m.jobs)
  | inr (j, done, c) ↦
      subst (Follows m.jobs) (sym c.jobs_after)
        (put-Follows m.jobs id j (succeeded_job now j) c.stored (ground arith))
]

fail-Follows :
    (now : Time) (id owner detail : String) (retry : Duration) (m : MemoryStore)
    → eqs owner "" ≡ false
    → IsSound m.jobs
    → Follows m.jobs (fail now id owner detail retry m).1.jobs
unfolding fail
fail-Follows now id owner detail retry m named s = elim (Option-cases (get id m.jobs)) [
  | inl e ↦ rw (e, fail) (Follows-refl m.jobs)
  | inr (j, e) ↦
      rw (e, fail)
        (elim (Bool-cases (eqs j.lease_owner owner)) [
          | inl mine ↦
              let owned =
                subst (λ o. eqs o "" ≡ false) (sym ((eq_iff j.lease_owner owner).0 mine)) named in
              rw mine (
                put-Follows m.jobs id j (failed_attempt now detail retry j) e
                  (failed_attempt-Carries now detail retry j ((s.each id j e).owner_runs owned)))
          | inr not_mine ↦ rw not_mine (Follows-refl m.jobs)
        ])
]

module _ (approval_id : String → Option String) where
  -- One call, whose result is dropped.
  pub step : Call → MemoryStore → MemoryStore
  step (enqueues now fresh j) m = (enqueue now fresh j m).1
  step (leases now owner limit d) m = (lease now owner limit d m).1
  step (completes now id owner) m = (complete approval_id now id owner m).1
  step (fails now id owner detail retry) m = (fail now id owner detail retry m).1
  step (retries now id) m = (retry_job now id m).1

  pub run : List Call → MemoryStore → MemoryStore
  unfolding step
  run [] m = m
  run (c ∷ cs) m = run cs (step c m)

  step-IsSound :
      (c : Call) (m : MemoryStore) → IsAdmissible c → IsSound m.jobs → IsSound (step c m).jobs
  unfolding step
  step-IsSound (enqueues now fresh j) m a s = enqueue-IsSound now fresh j m a s
  step-IsSound (leases now owner limit d) m a s = lease-IsSound now owner limit d m s
  step-IsSound (completes now id owner) m a s = complete-IsSound approval_id now id owner m s
  step-IsSound (fails now id owner detail retry) m a s = fail-IsSound now id owner detail retry m s
  step-IsSound (retries now id) m a s = retry_job-IsSound now id m s

  -- Any sequence of calls that enqueues only new jobs keeps a sound queue sound: keys are IDs, only
  -- running jobs have an owner, and no job is tried more often than its maximum.
  pub run-IsSound :
      (cs : List Call) (m : MemoryStore)
      → All IsAdmissible cs
      → IsSound m.jobs
      → IsSound (run cs m).jobs
  unfolding run
  run-IsSound [] m a s = s
  run-IsSound (c ∷ cs) m a s = run-IsSound cs (step c m) a.1 (step-IsSound c m a.0 s)

  unretried : (c : Call) → IsUnretried c → IsAdmissible c
  unretried (enqueues now fresh j) u = u
  unretried (leases now owner limit d) u = tt
  unretried (completes now id owner) u = tt
  unretried (fails now id owner detail retry) u = tt
  unretried (retries now id) u = tt

  step-IsDistinct :
      (c : Call) (m : MemoryStore)
      → IsUnretried c
      → IsSound m.jobs
      → IsDistinct m.jobs
      → IsDistinct (step c m).jobs
  unfolding step
  step-IsDistinct (enqueues now fresh j) m u s = enqueue-IsDistinct now fresh j m
  step-IsDistinct (leases now owner limit d) m u s =
      Follows-IsDistinct m.jobs (lease now owner limit d m).1.jobs
        (lease-Follows now owner limit d m s)
  step-IsDistinct (completes now id owner) m u s =
      Follows-IsDistinct m.jobs (complete approval_id now id owner m).1.jobs
        (complete-Follows approval_id now id owner m)
  step-IsDistinct (fails now id owner detail retry) m u s =
      Follows-IsDistinct m.jobs (fail now id owner detail retry m).1.jobs
        (fail-Follows now id owner detail retry m u s)
  step-IsDistinct (retries now id) m u s = absurd u

  -- From a sound queue without duplicates, no sequence of calls without RetryJob that enqueues only
  -- new jobs and reports failures under a name gives two active jobs the same work.
  pub run-IsDistinct :
      (cs : List Call) (m : MemoryStore)
      → All IsUnretried cs
      → IsSound m.jobs
      → IsDistinct m.jobs
      → IsDistinct (run cs m).jobs
  unfolding run
  run-IsDistinct [] m u s d = d
  run-IsDistinct (c ∷ cs) m u s d =
      run-IsDistinct cs (step c m) u.1 (step-IsSound c m (unretried c u.0) s)
        (step-IsDistinct c m u.0 s d)
