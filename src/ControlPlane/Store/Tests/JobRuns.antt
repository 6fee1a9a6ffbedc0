-- ===== src/ControlPlane/Store/Tests/JobRuns.antt =====
-- The job queue at small inputs.
use mathlib.Core.Bool.{false≢true}
use repo_ark.Prelude.{
  ◌≤◌, ◌<◌, String, ◌≡◌, refl, sym, ap, ◌⊎◌, inl, inr, true, false, some, List, [], ◌∷◌, arith, In,
  if◌then◌else◌, length,
}
use repo_ark.Prelude.Int.{pos, ◌<ℤ◌}
use repo_ark.Prelude.Text.{eqs}
use repo_ark.Prelude.Table.{Table, get, put, values, update_all}
use repo_ark.Prelude.Sort.{sort_by}
use repo_ark.ControlPlane.Model.{Job, JobStatus, ApprovalStatus}
use repo_ark.ControlPlane.Store.{MemoryStore, Error, err, ok, new_memory_store}
use repo_ark.ControlPlane.Store.Jobs.{
  expire_job, leasable, job_less, grant, picked, granted, grant_all, lease, complete, enqueue,
  retry_job,
}
use repo_ark.ControlPlane.Store.Jobs.Leasing.{HandedOut, lease_exclusive, lease_grants}
use repo_ark.ControlPlane.Store.Jobs.Picking.{picked_best, lease_progress}
use repo_ark.ControlPlane.Store.Jobs.Distinct.{
  IsDistinct, DoesWork, Entered, enqueue_result, retry_job_duplicates,
}
use repo_ark.ControlPlane.Store.Jobs.Finishing.{
  CompleteResult, complete_cases, complete_fenced, approval_used_once,
}
use repo_ark.ControlPlane.Store.Jobs.Soundness.{IsSound}
use repo_ark.ControlPlane.Store.Jobs.History.{
  Call, enqueues, leases, completes, fails, run, run-IsSound, run-IsDistinct,
}
use repo_ark.ControlPlane.Samples.{
  payload_id, backup_job, waiting_job, running_job, restore_job, approval, store_of_jobs,
}

abbrev a_day : List Call
a_day =
    enqueues 100 "j1" backup_job
    ∷ leases 200 "w1" (pos 5) (pos 300)
    ∷ fails 300 "j1" "w1" "timeout" (pos 10)
    ∷ leases 400 "w2" (pos 5) (pos 300)
    ∷ completes 500 "j1" "w2"
    ∷ []

empty-IsSound : IsSound new_memory_store.jobs
unfolding new_memory_store get
empty-IsSound = record { keyed = tt; each = λ k j e. cc }

empty-IsDistinct : IsDistinct new_memory_store.jobs
unfolding new_memory_store get
empty-IsDistinct = record { at_keys = λ k l x y e. cc }

run-IsSound_example : IsSound (run payload_id a_day new_memory_store).jobs
run-IsSound_example = run-IsSound payload_id a_day new_memory_store (ground arith) empty-IsSound

run-IsDistinct_example : IsDistinct (run payload_id a_day new_memory_store).jobs
run-IsDistinct_example =
    run-IsDistinct payload_id a_day new_memory_store (ground arith) empty-IsSound empty-IsDistinct

abbrev busy : MemoryStore
busy = store_of_jobs (("j1", running_job) ∷ [])

abbrev waiting : MemoryStore
waiting = store_of_jobs (("j1", waiting_job) ∷ [])

lease_exclusive_example : get "j1" (lease 200 "w2" (pos 5) (pos 300) busy).1.jobs ≡ some running_job
unfolding get
lease_exclusive_example =
    lease_exclusive 200 "w2" (pos 5) (pos 300) busy (refl, tt, tt) "j1" running_job refl refl refl

abbrev granted_job : Job
granted_job = grant 200 "w2" (pos 300) waiting_job

granted_here : In granted_job (lease 200 "w2" (pos 5) (pos 300) waiting).0
unfolding lease picked leasable granted grant sort_by
granted_here = inl refl

lease_grants_example : (j : Job) × HandedOut 200 "w2" (pos 5) (pos 300) waiting j granted_job
lease_grants_example =
    lease_grants 200 "w2" (pos 5) (pos 300) waiting (refl, tt, tt) granted_job granted_here

granted_stored : get "j1" (lease 200 "w2" (pos 5) (pos 300) waiting).1.jobs ≡ some granted_job
unfolding lease picked leasable grant_all grant sort_by get put update_all expire_job
granted_stored = refl

waiting_leasable : leasable 200 "w2" waiting_job ≡ true
unfolding leasable
waiting_leasable = refl

abbrev later_job : Job
later_job = record waiting_job { id = "j2"; created_at = 150 }

abbrev two_waiting : Table Job
two_waiting = ("j1", waiting_job) ∷ ("j2", later_job) ∷ []

first_picked : In waiting_job (picked 200 "w2" (pos 1) two_waiting)
unfolding picked leasable job_less sort_by
first_picked = inl refl

second_left : ¬ In later_job (picked 200 "w2" (pos 1) two_waiting)
unfolding picked leasable job_less sort_by
second_left (inl e) = absurd (false≢true (sym (ap (λ (j : Job). eqs j.id "j2") e)))
second_left (inr e) = e

later_leasable : leasable 200 "w2" later_job ≡ true
unfolding leasable
later_leasable = refl

picked_best_example : job_less later_job waiting_job ≡ false
picked_best_example =
    picked_best 200 "w2" (pos 1) two_waiting waiting_job later_job first_picked (inr (inl refl))
      later_leasable second_left

lease_progress_example :
    (0 < length (lease 200 "w2" (pos 1) (pos 300) waiting).0)
    × (pos 0 <ℤ pos 1 → length (lease 200 "w2" (pos 1) (pos 300) waiting).0 ≤ 1)
lease_progress_example =
    lease_progress 200 "w2" (pos 1) (pos 300) waiting waiting_job (inl refl) waiting_leasable

complete_fenced_example :
    ((e : Error) × ((complete payload_id 300 "j1" "w1"
          (lease 200 "w2" (pos 5) (pos 300) waiting).1).0
        ≡ err e))
    × ((complete payload_id 300 "j1" "w1" (lease 200 "w2" (pos 5) (pos 300) waiting).1).1
        ≡ (lease 200 "w2" (pos 5) (pos 300) waiting).1)
unfolding grant
complete_fenced_example =
    complete_fenced payload_id 200 300 "w1" "w2" (pos 5) (pos 300) waiting granted_job
      (refl, tt, tt) granted_here refl

abbrev two_restores : MemoryStore
two_restores = record (store_of_jobs (("j1", restore_job "j1") ∷ ("j2", restore_job "j2") ∷ [])) {
  approvals = ("a1", approval ApprovalStatus.scheduled) ∷ [];
}

first_completes : (complete payload_id 300 "j1" "w1" two_restores).0 ≡ ok tt
unfolding complete get put
first_completes = refl

approval_used_once_example :
    let m' = (complete payload_id 300 "j1" "w1" two_restores).1 in
    ((e : Error) × ((complete payload_id 400 "j2" "w1" m').0 ≡ err e))
    × ((complete payload_id 400 "j2" "w1" m').1 ≡ m')
unfolding get
approval_used_once_example =
    approval_used_once payload_id 300 400 "j1" "j2" "w1" "w1" "a1" two_restores (restore_job "j1")
      (restore_job "j2") first_completes refl (refl, refl, refl) refl refl (refl, refl, refl)

complete_cases_example :
    CompleteResult payload_id 300 "j1" "w1" busy (complete payload_id 300 "j1" "w1" busy)
complete_cases_example = complete_cases payload_id 300 "j1" "w1" busy

enqueue_result_example :
    let r = enqueue 200 "j9" backup_job waiting in
    ((r.0.1 ≡ false) × (r.1 ≡ waiting) × DoesWork backup_job r.0.0 × In r.0.0 (values waiting.jobs))
    ⊎ ((r.0.1 ≡ true)
        × Entered 200 "j9" backup_job r.0.0
        × ((y : Job) → In y (values waiting.jobs) → ¬ DoesWork backup_job y)
        × ((k : String)
            → get k r.1.jobs ≡ (if eqs r.0.0.id k then some r.0.0 else get k waiting.jobs))
        × (r.1 ≡ record waiting { jobs = r.1.jobs }))
enqueue_result_example = enqueue_result 200 "j9" backup_job waiting

abbrev failed_job : Job
failed_job = record backup_job { id = "j3"; status = JobStatus.failed }

abbrev failed_and_waiting : MemoryStore
failed_and_waiting = store_of_jobs (("j3", failed_job) ∷ ("j1", waiting_job) ∷ [])

retry_job_duplicates_example :
    ((retry_job 300 "j3" failed_and_waiting).0 ≡ ok tt)
    × (¬ IsDistinct (retry_job 300 "j3" failed_and_waiting).1.jobs)
unfolding get
retry_job_duplicates_example =
    retry_job_duplicates 300 "j3" "j1" failed_and_waiting failed_job waiting_job refl refl refl refl
