-- ===== src/ControlPlane/Store/Approvals/Lifecycle.antt =====
-- The life of a restore approval as a step relation, and the methods as steps of it.
use repo_ark.Prelude.{
  String, ◌≡◌, refl, ap, inl, inr, Bool, true, false, ◌&&◌, Option, none, some, arith, Option-cases,
  Bool-cases,
}
use repo_ark.Prelude.Text.{eqs}
use repo_ark.Prelude.Table.{Table, get, put}
use repo_ark.Prelude.Clock.{Time}
use repo_ark.ControlPlane.Model.{
  RestoreApproval, ApprovalStatus, is_approval_pending, is_approval_approved, is_approval_scheduled,
}
use repo_ark.ControlPlane.Store.{MemoryStore, Result}
use repo_ark.ControlPlane.Store.Jobs.{complete, executed_approval}
use repo_ark.ControlPlane.Store.Jobs.Completion.{complete_inversion}
use repo_ark.ControlPlane.Store.Approvals.{
  is_over, put_approval, on_approval, approve_decision, move_status, approve_restore,
  schedule_restore, release_restore_schedule, mark_restore_executed,
}

-- One change of an approval, at the time `now`; `distinct` asks for an approver other than the
-- requester, and `who` is the approver, if the change may be an approval.
pub data Move (distinct : Bool) (who : Option String) (now : Time) (a b : RestoreApproval)
    : Type 0 where
  approve :
      (actor : String)
      → who ≡ some actor
      → a.status ≡ ApprovalStatus.pending
      → is_over now a ≡ false
      → (distinct && eqs a.requested_by actor) ≡ false
      → b ≡ record a { status = ApprovalStatus.approved; approved_by = actor; updated_at = now }
      → Move distinct who now a b
  expire :
      a.status ≡ ApprovalStatus.pending
      → is_over now a ≡ true
      → b ≡ record a { status = ApprovalStatus.expired; updated_at = now }
      → Move distinct who now a b
  schedule :
      a.status ≡ ApprovalStatus.approved
      → b ≡ record a { status = ApprovalStatus.scheduled; updated_at = now }
      → Move distinct who now a b
  release :
      a.status ≡ ApprovalStatus.scheduled
      → b ≡ record a { status = ApprovalStatus.approved; updated_at = now }
      → Move distinct who now a b
  execute :
      a.status ≡ ApprovalStatus.scheduled
      → b ≡ record a { status = ApprovalStatus.executed; updated_at = now }
      → Move distinct who now a b

-- `t'` differs from `t` by at most one move of the approval under `id`.
pub data Step (distinct : Bool) (who : Option String) (now : Time) (id : String)
    (t t' : Table RestoreApproval) : Type 0 where
  stay : t' ≡ t → Step distinct who now id t t'
  move :
      (a b : RestoreApproval)
      → get id t ≡ some a
      → t' ≡ put id b t
      → Move distinct who now a b
      → Step distinct who now id t t'

pending_of : (s : ApprovalStatus) → is_approval_pending s ≡ true → s ≡ ApprovalStatus.pending
pending_of s h = ground arith

approved_of : (s : ApprovalStatus) → is_approval_approved s ≡ true → s ≡ ApprovalStatus.approved
approved_of s h = ground arith

scheduled_of : (s : ApprovalStatus) → is_approval_scheduled s ≡ true → s ≡ ApprovalStatus.scheduled
scheduled_of s h = ground arith

-- What a decision may write: nothing, or a move.
abbrev Writes : Bool → Option String → Time → RestoreApproval → Option RestoreApproval → Type 0
Writes distinct who now a none = Unit
Writes distinct who now a (some b) = Move distinct who now a b

module _ (distinct : Bool) (now : Time) (id : String) where
  on_approval-Step :
      (who : Option String) (f : RestoreApproval → Result (Unit {0}) × Option RestoreApproval)
      (m : MemoryStore)
      → ((a : RestoreApproval) → Writes distinct who now a (f a).1)
      → Step distinct who now id m.approvals (on_approval id f m).1.approvals
  on_approval-Step who f m w = elim (Option-cases (get id m.approvals)) [
    | inl e ↦ rw (e, on_approval) (stay refl)
    | inr (a, e) ↦ rw (e, on_approval) (written a e (f a).1 (w a))
  ]
    where
      written :
          (a : RestoreApproval)
          → get id m.approvals ≡ some a
          → (o : Option RestoreApproval) → Writes distinct who now a o
          → Step distinct who now id m.approvals
              (elim o as (λ _. MemoryStore) [ none ↦ m | some b ↦ put_approval id b m ]).approvals
      written a e none w' = stay refl
      written a e (some b) w' = move a b e refl w'

  approve_decision-Writes :
      (actor : String) (a : RestoreApproval)
      → Writes distinct (some actor) now a (approve_decision now actor distinct a).1
  approve_decision-Writes actor a = elim (Bool-cases (is_approval_pending a.status)) [
    | inr e ↦ rw (e, approve_decision) tt
    | inl e ↦
        rw (e, approve_decision)
          (elim (Bool-cases (is_over now a)) [
            | inl late ↦ rw late (expire (pending_of a.status e) late refl)
            | inr fresh ↦ rw fresh (elim (Bool-cases (distinct && eqs a.requested_by actor)) [
              | inl own ↦ rw own tt
              | inr other ↦ rw other (approve actor refl (pending_of a.status e) fresh other refl)
            ])
          ])
  ]

  pub approve_restore-Step :
      (actor : String) (m : MemoryStore)
      → Step distinct
          (some actor)
          now
          id
          m.approvals
          (approve_restore now id actor distinct m).1.approvals
  unfolding approve_restore
  approve_restore-Step actor m =
      on_approval-Step (some actor) (approve_decision now actor distinct) m
        (approve_decision-Writes actor)

  schedule-Writes :
      (a : RestoreApproval)
      → Writes distinct none now a
          (move_status now is_approval_approved ApprovalStatus.scheduled a).1
  schedule-Writes a = elim (Bool-cases (is_approval_approved a.status)) [
    | inl e ↦ rw (e, move_status) (schedule (approved_of a.status e) refl)
    | inr e ↦ rw (e, move_status) tt
  ]

  pub schedule_restore-Step :
      (m : MemoryStore)
      → Step distinct none now id m.approvals (schedule_restore now id m).1.approvals
  unfolding schedule_restore
  schedule_restore-Step m =
      on_approval-Step none (move_status now is_approval_approved ApprovalStatus.scheduled) m
        schedule-Writes

  release-Writes :
      (a : RestoreApproval)
      → Writes distinct none now a
          (move_status now is_approval_scheduled ApprovalStatus.approved a).1
  release-Writes a = elim (Bool-cases (is_approval_scheduled a.status)) [
    | inl e ↦ rw (e, move_status) (release (scheduled_of a.status e) refl)
    | inr e ↦ rw (e, move_status) tt
  ]

  pub release_restore_schedule-Step :
      (m : MemoryStore)
      → Step distinct none now id m.approvals (release_restore_schedule now id m).1.approvals
  unfolding release_restore_schedule
  release_restore_schedule-Step m =
      on_approval-Step none (move_status now is_approval_scheduled ApprovalStatus.approved) m
        release-Writes

  execute-Writes :
      (a : RestoreApproval)
      → Writes distinct none now a
          (move_status now is_approval_scheduled ApprovalStatus.executed a).1
  execute-Writes a = elim (Bool-cases (is_approval_scheduled a.status)) [
    | inl e ↦ rw (e, move_status) (execute (scheduled_of a.status e) refl)
    | inr e ↦ rw (e, move_status) tt
  ]

  pub mark_restore_executed-Step :
      (m : MemoryStore)
      → Step distinct none now id m.approvals (mark_restore_executed now id m).1.approvals
  unfolding mark_restore_executed
  mark_restore_executed-Step m =
      on_approval-Step none (move_status now is_approval_scheduled ApprovalStatus.executed) m
        execute-Writes

-- The completion of a restore job is a step of the approval that the job names, or of none.
pub complete-Step :
    (distinct : Bool) (approval_id : String → Option String) (now : Time) (id owner : String)
    (m : MemoryStore)
    → (aid : String) × Step distinct none now aid m.approvals
        (complete approval_id now id owner m).1.approvals
complete-Step distinct approval_id now id owner m =
    elim (complete_inversion approval_id now id owner m) [
      | inl (e, failed, same, _) ↦ ("", stay (ap (λ (x : MemoryStore). x.approvals) same))
      | inr (j, done, c) ↦ elim c.settled [
        | inl (no_name, same) ↦ ("", stay same)
        | inr (aid, a, names, found, waiting, after) ↦ (
          aid,
          move a (executed_approval now a) found after
              (execute (scheduled_of a.status waiting) refl),
        )
      ]
    ]
