-- ===== src/ControlPlane/Store/Tests/ApprovalRuns.antt =====
-- The approval workflow at small inputs.
use repo_ark.Prelude.{String, ◌≡◌, refl, ◌⊎◌, inl, true, some, List, [], ◌∷◌, In}
use repo_ark.Prelude.Table.{get, put}
use repo_ark.Prelude.Clock.{Time}
use repo_ark.ControlPlane.Model.{ApprovalStatus}
use repo_ark.ControlPlane.Store.{MemoryStore, new_memory_store}
use repo_ark.ControlPlane.Store.Approvals.{
  create_restore_approval, approve_restore, schedule_restore,
}
use repo_ark.ControlPlane.Store.Approvals.History.{Call, creates, approves, schedules, step, run}
use repo_ark.ControlPlane.Store.Approvals.TwoPerson.{IsTwoPerson, run-IsTwoPerson}
use repo_ark.ControlPlane.Store.Approvals.Granted.{GrantedAt, granted_needs_approval, closed_stays}
use repo_ark.ControlPlane.Samples.{payload_id, approval}

abbrev workflow : List Call
workflow =
    creates 100 "a1" (approval ApprovalStatus.unset)
    ∷ approves 200 "a1" "bob"
    ∷ schedules 300 "a1"
    ∷ []

empty-IsTwoPerson : IsTwoPerson new_memory_store.approvals
unfolding new_memory_store get
empty-IsTwoPerson = record { each = λ k a e. cc }

run-IsTwoPerson_example : IsTwoPerson (run payload_id true workflow new_memory_store).approvals
run-IsTwoPerson_example =
    run-IsTwoPerson payload_id workflow new_memory_store (refl, (tt, (tt, tt))) empty-IsTwoPerson

workflow_granted : GrantedAt "a1" (run payload_id true workflow new_memory_store).approvals
unfolding run step create_restore_approval approve_restore schedule_restore get put new_memory_store
workflow_granted = (_, refl, refl)

granted_needs_approval_example :
    GrantedAt "a1" new_memory_store.approvals
    ⊎ ((now : Time) × (actor : String) × In (approves now "a1" actor) workflow)
granted_needs_approval_example =
    granted_needs_approval payload_id true "a1" workflow new_memory_store (refl, (tt, (tt, tt)))
      workflow_granted

abbrev executed_store : MemoryStore
executed_store = record new_memory_store {
  approvals = ("a1", approval ApprovalStatus.executed) ∷ [];
}

closed_stays_example :
    get "a1"
      (run payload_id true
        (approves 200 "a1" "eve" ∷ schedules 300 "a1" ∷ [])
        executed_store).approvals
    ≡ some (approval ApprovalStatus.executed)
unfolding get
closed_stays_example =
    closed_stays payload_id true "a1" (approves 200 "a1" "eve" ∷ schedules 300 "a1" ∷ [])
      executed_store (approval ApprovalStatus.executed) (tt, (tt, tt)) refl (inl refl)
