-- ===== src/ControlPlane/Store/Jobs.antt =====
-- The job queue of internal/controlplane/memory.go: Enqueue, Lease, Complete, Fail, ListJobs, GetJob
-- and RetryJob. `now` is the reading of time.Now() in the method, and `fresh` the result of newID.
pub mod Distinct
pub mod Eligible
pub mod Leasing
pub mod Picking
pub mod Soundness
pub mod Named
pub mod Completion
pub mod Finishing
pub mod History
use repo_ark.Prelude.{
  ℕ, zero, suc, ◌+◌, ◌≤◌, String, ◌≡◌, Bool, true, false, not, ◌&&◌, ◌||◌, Option, none, some, List,
  [], ◌∷◌, length, take, select, find_first, leb, ltb, if◌then◌else◌,
}
use repo_ark.Prelude.Int.{ℤ, pos, pos_part, add64, lti, lei, eqi}
use repo_ark.Prelude.Text.{eqs}
use repo_ark.Prelude.Table.{Table, get, put, values, update_all}
use repo_ark.Prelude.Sort.{sort_by}
use repo_ark.Prelude.Clock.{Time, Duration, zero_time, is_zero, is_after, is_before, time_add}
use repo_ark.ControlPlane.Model.{
  Job, JobStatus, RestoreApproval, ApprovalStatus, is_job_queued, is_job_running, is_job_failed,
  is_approval_scheduled,
}
use repo_ark.ControlPlane.Store.{
  MemoryStore, Result, ok, err, Outcome, job_not_leased, job_not_found, failed_job_not_found,
  approval_not_scheduled,
}

-- A job that is queued or running.
abbrev pub is_active : Job → Bool
is_active j = is_job_queued j.status || is_job_running j.status

-- The test by which Enqueue finds a job that is already there.
abbrev pub same_work : Job → Job → Bool
same_work j x =
    eqs x.kind j.kind && eqs x.target j.target && eqs x.affinity j.affinity && is_active x

-- The defaults that Enqueue fills in.
abbrev pub fill_job : Time → String → Job → Job
fill_job now fresh j = record j {
  id = if eqs j.id "" then fresh else j.id;
  status = elim j.status [ JobStatus.unset ↦ JobStatus.queued | s ↦ s ];
  max_attempts = if eqi j.max_attempts (pos 0) then pos 5 else j.max_attempts;
  not_before = if is_zero j.not_before then now else j.not_before;
  created_at = now;
  updated_at = now;
}

unfoldable pub enqueue : Time → String → Job → MemoryStore → (Job × Bool) × MemoryStore
enqueue now fresh j m = elim (find_first (same_work j) (values m.jobs)) [
  | some x ↦ ((x, false), m)
  | none ↦
      let filled = fill_job now fresh j in
      ((filled, true), record m { jobs = put filled.id filled m.jobs })
]

-- A running job whose lease is set and has run out.
abbrev pub lease_over : Time → Job → Bool
lease_over now j =
    is_job_running j.status && not (is_zero j.lease_until) && not (is_after j.lease_until now)

-- A final attempt whose lease has run out.
abbrev pub out_of_attempts : Time → Job → Bool
out_of_attempts now j = lease_over now j && not (lti j.attempts j.max_attempts)

-- The first half of the loop of Lease: a final attempt that ran out fails.
unfoldable pub expire_job : Time → Job → Job
expire_job now j =
    if out_of_attempts now j
    then record j {
      status = JobStatus.failed;
      lease_owner = "";
      lease_until = zero_time;
      updated_at = now;
      last_error = if eqs j.last_error "" then "lease expired on final attempt" else j.last_error;
    }
    else j

-- The second half: what may be leased to `owner`.
unfoldable pub leasable : Time → String → Job → Bool
leasable now owner j =
    lti j.attempts j.max_attempts
    && not (is_after j.not_before now)
    && (eqs j.affinity "" || eqs j.affinity owner)
    && (is_job_queued j.status || lease_over now j)

-- sort.Slice by priority, then by age.
unfoldable pub job_less : Job → Job → Bool
job_less x y =
    if eqi x.priority y.priority
    then is_before x.created_at y.created_at
    else lti y.priority x.priority

-- `limit <= 0 || limit > len(xs)` takes all.
abbrev pub limit_of {ℓ} : {A : Type ℓ} → ℤ → List A → ℕ
limit_of limit xs =
    if lei limit (pos 0) || ltb (length xs) (pos_part limit) then length xs else pos_part limit

unfoldable pub grant : Time → String → Duration → Job → Job
grant now owner lease j = record j {
  status = JobStatus.running;
  attempts = add64 j.attempts (pos 1);
  lease_owner = owner;
  lease_until = time_add now lease;
  updated_at = now;
}

-- The jobs that Lease picks, before it changes them.
unfoldable pub picked : Time → String → ℤ → Table Job → List Job
picked now owner limit jobs =
    let xs = sort_by job_less (select (leasable now owner) (values jobs)) in
    take (limit_of limit xs) xs

-- The last loop: m.Jobs[j.ID] = j for each job that is granted.
unfoldable pub grant_all : (Job → Job) → List Job → Table Job → Table Job
grant_all g [] t = t
grant_all g (j ∷ js) t = grant_all g js (put j.id (g j) t)

unfoldable pub granted : (Job → Job) → List Job → List Job
granted g [] = []
granted g (j ∷ js) = g j ∷ granted g js

-- A job that expires in the first half is never picked in the second: `leasable` wants attempts
-- left.
unfoldable pub lease : Time → String → ℤ → Duration → MemoryStore → List Job × MemoryStore
lease now owner limit d m =
    let xs = picked now owner limit m.jobs in
    let g = grant now owner d in
    (granted g xs, record m { jobs = grant_all g xs (update_all (expire_job now) m.jobs) })

abbrev pub succeeded_job : Time → Job → Job
succeeded_job now j = record j {
  status = JobStatus.succeeded;
  lease_owner = "";
  lease_until = zero_time;
  updated_at = now;
}

abbrev pub executed_approval : Time → RestoreApproval → RestoreApproval
executed_approval now a = record a { status = ApprovalStatus.executed; updated_at = now }

-- The approval that a restore-generation job carries, `none` where the payload does not parse or
-- names none. `approval_id` is the decoding of the payload by encoding/json.
module _ (approval_id : String → Option String) where
  abbrev pub approval_of : Job → Option String
  approval_of j =
      if eqs j.kind "restore-generation"
      then elim (approval_id j.payload) [ none ↦ none | some a ↦ if eqs a "" then none else some a ]
      else none

  abbrev pub succeed : Time → String → Job → MemoryStore → MemoryStore
  succeed now id j m = record m { jobs = put id (succeeded_job now j) m.jobs }

  abbrev pub complete_approval :
      Time → String → Job → Option String → MemoryStore → Outcome (Unit {0})
  complete_approval now id j none m = (ok tt, succeed now id j m)
  complete_approval now id j (some aid) m = elim (get aid m.approvals) [
    | none ↦ (err approval_not_scheduled, m)
    | some a ↦
        if is_approval_scheduled a.status
        then (
          ok tt,
          succeed now id j (record m { approvals = put aid (executed_approval now a) m.approvals }),
        )
        else (err approval_not_scheduled, m)
  ]

  unfoldable pub complete : Time → String → String → MemoryStore → Outcome (Unit {0})
  complete now id owner m = elim (get id m.jobs) [
    | none ↦ (err job_not_leased, m)
    | some j ↦
        if is_job_running j.status && eqs j.lease_owner owner
        then complete_approval now id j (approval_of j) m
        else (err job_not_leased, m)
  ]

unfoldable pub failed_attempt : Time → String → Duration → Job → Job
failed_attempt now detail retry j =
    let released = record j {
      last_error = detail;
      lease_owner = "";
      lease_until = zero_time;
      updated_at = now;
    } in
    if lei j.max_attempts j.attempts
    then record released { status = JobStatus.failed }
    else record released { status = JobStatus.queued; not_before = time_add now retry }

unfoldable pub fail : Time → String → String → String → Duration → MemoryStore → Outcome (Unit {0})
fail now id owner detail retry m = elim (get id m.jobs) [
  | none ↦ (err job_not_leased, m)
  | some j ↦
      if eqs j.lease_owner owner
      then (ok tt, record m { jobs = put id (failed_attempt now detail retry j) m.jobs })
      else (err job_not_leased, m)
]

-- sort.Slice, newest first; a positive limit cuts.
unfoldable pub list_jobs : ℤ → MemoryStore → List Job
list_jobs limit m =
    let out = sort_by (λ x y. is_after x.created_at y.created_at) (values m.jobs) in
    if lti (pos 0) limit && ltb (pos_part limit) (length out)
    then take (pos_part limit) out
    else out

unfoldable pub get_job : String → MemoryStore → Result Job
get_job id m = elim (get id m.jobs) [ none ↦ err job_not_found | some j ↦ ok j ]

unfoldable pub retried : Time → Job → Job
retried now j = record j {
  status = JobStatus.queued;
  attempts = pos 0;
  last_error = "";
  not_before = now;
}

unfoldable pub retry_job : Time → String → MemoryStore → Outcome (Unit {0})
retry_job now id m = elim (get id m.jobs) [
  | none ↦ (err failed_job_not_found, m)
  | some j ↦
      if is_job_failed j.status
      then (ok tt, record m { jobs = put id (retried now j) m.jobs })
      else (err failed_job_not_found, m)
]
