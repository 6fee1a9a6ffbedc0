-- ===== src/ControlPlane/Store/Approvals/TwoPerson.antt =====
-- The approval workflow over every sequence of its calls: two persons.
use repo_ark.Prelude.{
  String, ◌≡◌, sym, ap, subst, ◌∙◌, inl, inr, true, false, Option, none, some, List, [], ◌∷◌, All,
  arith,
}
use repo_ark.Prelude.Text.{eqs}
use repo_ark.Prelude.Table.{Table, get, get-put_cases}
use repo_ark.Prelude.Clock.{Time}
use repo_ark.ControlPlane.Model.{RestoreApproval}
use repo_ark.ControlPlane.Store.{MemoryStore}
use repo_ark.ControlPlane.Store.Approvals.{fill_approval, create_restore_approval}
use repo_ark.ControlPlane.Store.Approvals.Lifecycle.{
  Move, approve, expire, schedule, release, execute, Step, stay, move, approve_restore-Step,
  schedule_restore-Step, release_restore_schedule-Step, mark_restore_executed-Step, complete-Step,
}
use repo_ark.ControlPlane.Store.Approvals.History.{
  Call, creates, approves, schedules, releases, executes, completes, is_granted, IsPlain, step, run,
}

abbrev pub HasTwoPersons : RestoreApproval → Type 0
HasTwoPersons a = is_granted a.status ≡ true → eqs a.requested_by a.approved_by ≡ false

pub record IsTwoPerson (t : Table RestoreApproval) : Type 0 where
  pub each : (k : String) (a : RestoreApproval) → get k t ≡ some a → HasTwoPersons a

Move-HasTwoPersons :
    (who : Option String) (now : Time) (a b : RestoreApproval)
    → Move true who now a b
    → HasTwoPersons a
    → HasTwoPersons b
Move-HasTwoPersons who now a b (approve actor w p live other q) h = λ _. rw q (ground arith)
Move-HasTwoPersons who now a b (expire p late q) h =
    λ g. cc (ap (λ (x : RestoreApproval). is_granted x.status) q)
Move-HasTwoPersons who now a b (schedule p q) h = λ _. rw q (h (ap is_granted p))
Move-HasTwoPersons who now a b (release p q) h = λ _. rw q (h (ap is_granted p))
Move-HasTwoPersons who now a b (execute p q) h = λ _. rw q (h (ap is_granted p))

Step-IsTwoPerson :
    (who : Option String) (now : Time) (id : String) (t t' : Table RestoreApproval)
    → Step true who now id t t'
    → IsTwoPerson t
    → IsTwoPerson t'
Step-IsTwoPerson who now id t t' (stay same) h = subst IsTwoPerson (sym same) h
Step-IsTwoPerson who now id t t' (move a b e same mv) h = record {
  each = λ k x found. elim (get-put_cases id k b t x (sym (ap (get k) same) ∙ found)) [
    | inl (hit, is_b) ↦
        subst HasTwoPersons (sym is_b) (Move-HasTwoPersons who now a b mv (h.each id a e))
    | inr (other, before) ↦ h.each k x before
  ];
}

module _ (approval_id : String → Option String) where
  step-IsTwoPerson :
      (c : Call) (m : MemoryStore)
      → IsPlain c
      → IsTwoPerson m.approvals
      → IsTwoPerson (step approval_id true c m).approvals
  unfolding step create_restore_approval
  step-IsTwoPerson (creates now fresh a) m plain h = record {
    each = λ k x found.
        let new = fill_approval now fresh a in
        elim (get-put_cases new.id k new m.approvals x found) [
          | inl (hit, is_new) ↦ subst HasTwoPersons (sym is_new) (ground arith)
          | inr (other, before) ↦ h.each k x before
        ];
  }
  step-IsTwoPerson (approves now id actor) m plain h =
      Step-IsTwoPerson (some actor) now id m.approvals _ (approve_restore-Step true now id actor m)
        h
  step-IsTwoPerson (schedules now id) m plain h =
      Step-IsTwoPerson none now id m.approvals _ (schedule_restore-Step true now id m) h
  step-IsTwoPerson (releases now id) m plain h =
      Step-IsTwoPerson none now id m.approvals _ (release_restore_schedule-Step true now id m) h
  step-IsTwoPerson (executes now id) m plain h =
      Step-IsTwoPerson none now id m.approvals _ (mark_restore_executed-Step true now id m) h
  step-IsTwoPerson (completes now id owner) m plain h =
      let (aid, s) = complete-Step true approval_id now id owner m in
      Step-IsTwoPerson none now aid m.approvals _ s h

  -- Where a second person is demanded and the approvals obey it at the start, no sequence of calls
  -- that creates approvals in no granted status leaves an approved, scheduled or executed restore
  -- whose approver is its requester.
  pub run-IsTwoPerson :
      (cs : List Call) (m : MemoryStore)
      → All IsPlain cs
      → IsTwoPerson m.approvals
      → IsTwoPerson (run approval_id true cs m).approvals
  unfolding run
  run-IsTwoPerson [] m plain h = h
  run-IsTwoPerson (c ∷ cs) m plain h =
      run-IsTwoPerson cs (step approval_id true c m) plain.1 (step-IsTwoPerson c m plain.0 h)
