-- ===== src/ControlPlane/Store/Jobs/Soundness.antt =====
-- What holds of the job queue after any sequence of calls.
use repo_ark.Prelude.{
  String, ◌≡◌, refl, sym, subst, ◌∙◌, inl, inr, true, false, Option, some, arith, find_first,
  Option-cases, Bool-cases,
}
use repo_ark.Prelude.Int.{ℤ, pos, ◌≤ℤ◌, IsInt64, lei, add64_one}
use repo_ark.Prelude.Text.{eqs}
use repo_ark.Prelude.Table.{Table, values, get, put, get-put, Keyed-put, key_of_get}
use repo_ark.Prelude.Clock.{Time, Duration}
use repo_ark.ControlPlane.Model.{Job, is_job_running, is_job_failed}
use repo_ark.ControlPlane.Store.{MemoryStore}
use repo_ark.ControlPlane.Store.Jobs.{
  succeeded_job, same_work, fill_job, enqueue, out_of_attempts, expire_job, leasable, grant, lease,
  complete, failed_attempt, fail, retried, retry_job,
}
use repo_ark.ControlPlane.Store.Jobs.Completion.{complete_inversion}
use repo_ark.ControlPlane.Store.Jobs.Leasing.{IsKeyed, lease_origin, lease-IsKeyed}

-- What holds of each job: only a running job has an owner, and attempts stay within the maximum.
pub record IsSoundJob (j : Job) : Type 0 where
  pub owner_runs : eqs j.lease_owner "" ≡ false → is_job_running j.status ≡ true
  pub counted : pos 0 ≤ℤ j.attempts
  pub capped : j.attempts ≤ℤ j.max_attempts
  pub in_range : IsInt64 j.max_attempts

pub record IsSound (t : Table Job) : Type 0 where
  pub keyed : IsKeyed t
  pub each : (k : String) (j : Job) → get k t ≡ some j → IsSoundJob j

-- A job as the source's callers of Enqueue build it: no attempts, no owner, a maximum in range.
pub record IsNewJob (j : Job) : Type 0 where
  pub unowned : eqs j.lease_owner "" ≡ true
  pub untried : j.attempts ≡ pos 0
  pub limited : pos 0 ≤ℤ j.max_attempts
  pub in_range : IsInt64 j.max_attempts

fill_job-IsSoundJob :
    (now : Time) (fresh : String) (j : Job) → IsNewJob j → IsSoundJob (fill_job now fresh j)
fill_job-IsSoundJob now fresh j h = ground arith

expire_job-IsSoundJob : (now : Time) (j : Job) → IsSoundJob j → IsSoundJob (expire_job now j)
unfolding expire_job
expire_job-IsSoundJob now j h = elim (Bool-cases (out_of_attempts now j)) [
  | inl e ↦ rw (e, expire_job) (ground arith)
  | inr e ↦ rw (e, expire_job) h
]

grant-IsSoundJob :
    (now : Time) (owner : String) (d : Duration) (j : Job)
    → leasable now owner j ≡ true
    → IsSoundJob j
    → IsSoundJob (grant now owner d j)
unfolding grant leasable
grant-IsSoundJob now owner d j fit h = ground (arith, add64_one j.attempts j.max_attempts)

failed_attempt-IsSoundJob :
    (now : Time) (detail : String) (retry : Duration) (j : Job)
    → IsSoundJob j
    → IsSoundJob (failed_attempt now detail retry j)
unfolding failed_attempt
failed_attempt-IsSoundJob now detail retry j h = elim (Bool-cases (lei j.max_attempts j.attempts)) [
  | inl e ↦ rw (e, failed_attempt) (ground arith)
  | inr e ↦ rw (e, failed_attempt) (ground arith)
]

id-failed_attempt :
    (now : Time) (detail : String) (retry : Duration) (j : Job)
    → (failed_attempt now detail retry j).id ≡ j.id
unfolding failed_attempt
id-failed_attempt now detail retry j = ground arith

retried-IsSoundJob :
    (now : Time) (j : Job)
    → is_job_failed j.status ≡ true
    → IsSoundJob j
    → IsSoundJob (retried now j)
unfolding retried
retried-IsSoundJob now j failed h = ground arith

-- A job that took its place in the table under its own key keeps the table sound.
put-IsSound : (t : Table Job) (j : Job) → IsSound t → IsSoundJob j → IsSound (put j.id j t)
put-IsSound t j s h = record {
  keyed = Keyed-put (λ (x : Job). x.id) j.id j t refl s.keyed;
  each = λ k x e. elim (Bool-cases (eqs j.id k)) [
    | inl hit ↦ subst IsSoundJob (ground (arith, get-put j.id k j t)) h
    | inr other ↦ s.each k x (ground (arith, get-put j.id k j t))
  ];
}

-- The same for a job that was read from the table, whatever key it was read by.
update-IsSound :
    (t : Table Job) (k : String) (j j' : Job)
    → IsSound t
    → get k t ≡ some j
    → j'.id ≡ j.id
    → IsSoundJob j'
    → IsSound (put k j' t)
update-IsSound t k j j' s e same h =
    rw (key_of_get (λ (x : Job). x.id) k t j s.keyed e ∙ sym same) (put-IsSound t j' s h)

pub enqueue-IsSound :
    (now : Time) (fresh : String) (j : Job) (m : MemoryStore)
    → IsNewJob j
    → IsSound m.jobs
    → IsSound (enqueue now fresh j m).1.jobs
unfolding enqueue
enqueue-IsSound now fresh j m new s =
    elim (Option-cases (find_first (same_work j) (values m.jobs))) [
      | inl e ↦
          rw (e, enqueue)
            (put-IsSound m.jobs (fill_job now fresh j) s (fill_job-IsSoundJob now fresh j new))
      | inr (x, e) ↦ rw (e, enqueue) s
    ]

pub lease-IsSound :
    (now : Time) (owner : String) (limit : ℤ) (d : Duration) (m : MemoryStore)
    → IsSound m.jobs
    → IsSound (lease now owner limit d m).1.jobs
lease-IsSound now owner limit d m s = record {
  keyed = lease-IsKeyed now owner limit d m s.keyed;
  each = λ k j' e.
      let (j, here, how) = lease_origin now owner limit d m s.keyed k j' e in
      elim how [
        | inl same ↦ subst IsSoundJob (sym same) (expire_job-IsSoundJob now j (s.each k j here))
        | inr (fit, same) ↦
            subst IsSoundJob (sym same) (grant-IsSoundJob now owner d j fit (s.each k j here))
      ];
}

pub fail-IsSound :
    (now : Time) (id owner detail : String) (retry : Duration) (m : MemoryStore)
    → IsSound m.jobs
    → IsSound (fail now id owner detail retry m).1.jobs
unfolding fail
fail-IsSound now id owner detail retry m s = elim (Option-cases (get id m.jobs)) [
  | inl e ↦ rw (e, fail) s
  | inr (j, e) ↦
      rw (e, fail)
        (elim (Bool-cases (eqs j.lease_owner owner)) [
          | inl mine ↦ rw mine (
              update-IsSound m.jobs id j (failed_attempt now detail retry j) s e
                (id-failed_attempt now detail retry j)
                (failed_attempt-IsSoundJob now detail retry j (s.each id j e)))
          | inr not_mine ↦ rw not_mine s
        ])
]

succeeded_job-IsSoundJob : (now : Time) (j : Job) → IsSoundJob j → IsSoundJob (succeeded_job now j)
succeeded_job-IsSoundJob now j h = ground arith

pub complete-IsSound :
    (approval_id : String → Option String) (now : Time) (id owner : String) (m : MemoryStore)
    → IsSound m.jobs
    → IsSound (complete approval_id now id owner m).1.jobs
complete-IsSound approval_id now id owner m s =
    elim (complete_inversion approval_id now id owner m) [
      | inl (e, failed, same, _) ↦ subst (λ (x : MemoryStore). IsSound x.jobs) (sym same) s
      | inr (j, done, c) ↦ subst IsSound (sym c.jobs_after) (
          update-IsSound m.jobs id j (succeeded_job now j) s c.stored refl
            (succeeded_job-IsSoundJob now j (s.each id j c.stored)))
    ]

pub retry_job-IsSound :
    (now : Time) (id : String) (m : MemoryStore)
    → IsSound m.jobs
    → IsSound (retry_job now id m).1.jobs
unfolding retry_job
retry_job-IsSound now id m s = elim (Option-cases (get id m.jobs)) [
  | inl e ↦ rw (e, retry_job) s
  | inr (j, e) ↦
      rw (e, retry_job)
        (elim (Bool-cases (is_job_failed j.status)) [
          | inl dead ↦ rw dead (
              update-IsSound m.jobs id j (retried now j) s e (unfold retried in refl)
                (retried-IsSoundJob now j dead (s.each id j e)))
          | inr alive ↦ rw alive s
        ])
]
