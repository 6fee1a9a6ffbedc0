-- ===== src/ControlPlane/Store/Approvals.antt =====
-- The restore approvals of internal/controlplane/memory.go: CreateRestoreApproval,
-- GetRestoreApproval, ListRestoreApprovals, ApproveRestore, ScheduleRestore, ReleaseRestoreSchedule
-- and MarkRestoreExecuted.
pub mod Lifecycle
pub mod History
pub mod TwoPerson
pub mod Granted
use repo_ark.Prelude.{
  ℕ, ◌+◌, String, Bool, true, false, not, ◌&&◌, Option, none, some, List, length, take, ltb,
  if◌then◌else◌,
}
use repo_ark.Prelude.Int.{ℤ, pos, pos_part, lti}
use repo_ark.Prelude.Text.{eqs}
use repo_ark.Prelude.Table.{Table, get, put, values}
use repo_ark.Prelude.Sort.{sort_by}
use repo_ark.Prelude.Clock.{Time, is_zero, is_after}
use repo_ark.ControlPlane.Model.{
  RestoreApproval, ApprovalStatus, is_approval_pending, is_approval_approved, is_approval_scheduled,
}
use repo_ark.ControlPlane.Store.{
  MemoryStore, Result, ok, err, Outcome, approval_not_found, approval_wrong_status,
  approval_expired, requester_cannot_approve,
}

-- The defaults of CreateRestoreApproval; `fresh` is the result of newID("restore").
abbrev pub fill_approval : Time → String → RestoreApproval → RestoreApproval
fill_approval now fresh a = record a {
  id = if eqs a.id "" then fresh else a.id;
  created_at = if is_zero a.created_at then now else a.created_at;
  updated_at = now;
  status = elim a.status [ ApprovalStatus.unset ↦ ApprovalStatus.pending | s ↦ s ];
}

unfoldable pub create_restore_approval : Time → String → RestoreApproval → MemoryStore → MemoryStore
create_restore_approval now fresh a m =
    let filled = fill_approval now fresh a in
    record m { approvals = put filled.id filled m.approvals }

unfoldable pub get_restore_approval : String → MemoryStore → Result RestoreApproval
get_restore_approval id m = elim (get id m.approvals) [
  | none ↦ err approval_not_found
  | some a ↦ ok a
]

unfoldable pub list_restore_approvals : ℤ → MemoryStore → List RestoreApproval
list_restore_approvals limit m =
    let out = sort_by (λ x y. is_after x.created_at y.created_at) (values m.approvals) in
    if lti (pos 0) limit && ltb (pos_part limit) (length out)
    then take (pos_part limit) out
    else out

-- m.Approvals[id] = a
abbrev pub put_approval : String → RestoreApproval → MemoryStore → MemoryStore
put_approval id a m = record m { approvals = put id a m.approvals }

-- A method that reads one approval and may write it back.
abbrev pub on_approval :
    String
    → (RestoreApproval → Result (Unit {0}) × Option RestoreApproval)
    → MemoryStore
    → Outcome (Unit {0})
on_approval id f m = elim (get id m.approvals) [
  | none ↦ (err approval_not_found, m)
  | some a ↦ let (r, o) = f a in (r, elim o [ none ↦ m | some a' ↦ put_approval id a' m ])
]

-- The lifetime of an approval that has one ran out.
abbrev pub is_over : Time → RestoreApproval → Bool
is_over now a = not (is_zero a.expires_at) && not (is_after a.expires_at now)

-- The decision of ApproveRestore: an overdue approval expires with an error.
abbrev pub approve_decision :
    Time → String → Bool → RestoreApproval → Result (Unit {0}) × Option RestoreApproval
approve_decision now actor require_distinct a =
    if is_approval_pending a.status
    then if is_over now a
      then (
        err approval_expired,
        some (record a { status = ApprovalStatus.expired; updated_at = now }),
      )
      else if require_distinct && eqs a.requested_by actor
      then (err requester_cannot_approve, none)
      else (
        ok tt,
        some (record a { status = ApprovalStatus.approved; approved_by = actor; updated_at = now }),
      )
    else (err approval_wrong_status, none)

unfoldable pub approve_restore : Time → String → String → Bool → MemoryStore → Outcome (Unit {0})
approve_restore now id actor require_distinct m =
    on_approval id (approve_decision now actor require_distinct) m

abbrev pub move_status :
    Time
    → (ApprovalStatus → Bool)
    → ApprovalStatus
    → RestoreApproval
    → Result (Unit {0}) × Option RestoreApproval
move_status now test to a =
    if test a.status
    then (ok tt, some (record a { status = to; updated_at = now }))
    else (err approval_wrong_status, none)

unfoldable pub schedule_restore : Time → String → MemoryStore → Outcome (Unit {0})
schedule_restore now id m =
    on_approval id (move_status now is_approval_approved ApprovalStatus.scheduled) m

unfoldable pub release_restore_schedule : Time → String → MemoryStore → Outcome (Unit {0})
release_restore_schedule now id m =
    on_approval id (move_status now is_approval_scheduled ApprovalStatus.approved) m

unfoldable pub mark_restore_executed : Time → String → MemoryStore → Outcome (Unit {0})
mark_restore_executed now id m =
    on_approval id (move_status now is_approval_scheduled ApprovalStatus.executed) m
