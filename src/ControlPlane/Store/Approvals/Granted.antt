-- ===== src/ControlPlane/Store/Approvals/Granted.antt =====
-- The approval workflow over every sequence of its calls: what a granted approval takes, and that a
-- closed one stays closed.
use repo_ark.Prelude.{
  String, ◌≡◌, sym, ap, subst, ◌∙◌, ◌⊎◌, inl, inr, Bool, true, false, Option, none, some, List, [],
  ◌∷◌, All, In, arith, Bool-cases,
}
use mathlib.Core.Option.{some-injective}
use repo_ark.Prelude.Text.{eqs, eq_iff}
use repo_ark.Prelude.Table.{Table, get, get-put, get-put_cases}
use repo_ark.Prelude.Clock.{Time}
use repo_ark.ControlPlane.Model.{RestoreApproval, ApprovalStatus}
use repo_ark.ControlPlane.Store.{MemoryStore}
use repo_ark.ControlPlane.Store.Approvals.{fill_approval, create_restore_approval}
use repo_ark.ControlPlane.Store.Approvals.Lifecycle.{
  Move, approve, expire, schedule, release, execute, Step, stay, move, approve_restore-Step,
  schedule_restore-Step, release_restore_schedule-Step, mark_restore_executed-Step, complete-Step,
}
use repo_ark.ControlPlane.Store.Approvals.History.{
  Call, creates, approves, schedules, releases, executes, completes, is_granted, IsPlain, Keeps,
  step, run,
}

-- An approval under `k` that nobody can change any more.
abbrev pub IsClosed : RestoreApproval → Type 0
IsClosed a = (a.status ≡ ApprovalStatus.executed) ⊎ (a.status ≡ ApprovalStatus.expired)

module _ (distinct : Bool) (who : Option String) (now : Time) where
  Move-open : (a b : RestoreApproval) → Move distinct who now a b → ¬ IsClosed a
  Move-open a b (approve actor w p live other q) h = ground arith
  Move-open a b (expire p late q) h = ground arith
  Move-open a b (schedule p q) h = ground arith
  Move-open a b (release p q) h = ground arith
  Move-open a b (execute p q) h = ground arith

  Step-closed :
      (id k : String) (t t' : Table RestoreApproval) (a : RestoreApproval)
      → Step distinct who now id t t'
      → get k t ≡ some a
      → IsClosed a
      → get k t' ≡ some a
  Step-closed id k t t' a (stay same) e closed = ap (get k) same ∙ e
  Step-closed id k t t' a (move x b found same mv) e closed = elim (Bool-cases (eqs id k)) [
    | inl hit ↦
        let at_k = subst (λ s. get s t ≡ some x) ((eq_iff id k).0 hit) found in
        absurd (Move-open x b mv (subst IsClosed (some-injective a x (sym e ∙ at_k)) closed))
    | inr other ↦ ap (get k) same ∙ get-put id k b t ∙ rw other e
  ]

  -- A step that makes an approval granted is the approval of a pending one.
  Step-granted :
      (id k : String) (t t' : Table RestoreApproval) (b : RestoreApproval)
      → Step distinct who now id t t'
      → get k t' ≡ some b
      → is_granted b.status ≡ true
      → ((a : RestoreApproval) × (get k t ≡ some a) × (is_granted a.status ≡ true))
        ⊎ ((actor : String) × (who ≡ some actor) × (eqs id k ≡ true))
  Step-granted id k t t' b (stay same) e g = inl (b, sym (ap (get k) same) ∙ e, g)
  Step-granted id k t t' b (move x y found same mv) e g =
      elim (get-put_cases id k y t b (sym (ap (get k) same) ∙ e)) [
        | inr (other, before) ↦ inl (b, before, g)
        | inl (hit, is_y) ↦
            let at_k = subst (λ s. get s t ≡ some x) ((eq_iff id k).0 hit) found in
            elim (Move-granted x y mv
              (subst (λ (v : RestoreApproval). is_granted v.status ≡ true) is_y g)) [
                | inl before ↦ inl (x, at_k, before)
                | inr (actor, w, pending) ↦ inr (actor, w, hit)
              ]
      ]
    where
      Move-granted :
          (x y : RestoreApproval)
          → Move distinct who now x y
          → is_granted y.status ≡ true
          → (is_granted x.status ≡ true)
            ⊎ ((actor : String) × (who ≡ some actor) × (x.status ≡ ApprovalStatus.pending))
      Move-granted x y (approve actor w p live other q) g' = inr (actor, w, p)
      Move-granted x y (expire p late q) g' =
          cc (ap (λ (v : RestoreApproval). is_granted v.status) q)
      Move-granted x y (schedule p q) g' = inl (ap is_granted p)
      Move-granted x y (release p q) g' = inl (ap is_granted p)
      Move-granted x y (execute p q) g' = inl (ap is_granted p)

-- The approval under `k` in a table, if there is one, is granted.
abbrev pub GrantedAt : String → Table RestoreApproval → Type 0
GrantedAt k t = (a : RestoreApproval) × (get k t ≡ some a) × (is_granted a.status ≡ true)

fill_approval-plain :
    (now : Time) (fresh : String) (a : RestoreApproval)
    → is_granted a.status ≡ false
    → is_granted (fill_approval now fresh a).status ≡ false
fill_approval-plain now fresh a h = ground arith

module _ (approval_id : String → Option String) (distinct : Bool) (k : String) where
  step-granted :
      (c : Call) (m : MemoryStore)
      → IsPlain c
      → GrantedAt k (step approval_id distinct c m).approvals
      → GrantedAt k m.approvals ⊎ ((now : Time) × (actor : String) × (c ≡ approves now k actor))
  unfolding step create_restore_approval
  step-granted (creates now fresh a) m plain (b, e, g) =
      let new = fill_approval now fresh a in
      elim (get-put_cases new.id k new m.approvals b e) [
        | inl (hit, is_new) ↦ cc (
          ap (λ (v : RestoreApproval). is_granted v.status) is_new,
          fill_approval-plain now fresh a plain,
        )
        | inr (other, before) ↦ inl (b, before, g)
      ]
  step-granted (approves now id actor) m plain (b, e, g) =
      elim (Step-granted distinct (some actor) now id k m.approvals _ b
        (approve_restore-Step distinct now id actor m) e g) [
          | inl before ↦ inl before
          | inr (other, w, hit) ↦
              inr (now, actor, ap (λ s. approves now s actor) ((eq_iff id k).0 hit))
        ]
  step-granted (schedules now id) m plain (b, e, g) =
      elim (Step-granted distinct none now id k m.approvals _ b
        (schedule_restore-Step distinct now id m) e g) [
          | inl before ↦ inl before
          | inr (other, w, hit) ↦ cc
        ]
  step-granted (releases now id) m plain (b, e, g) =
      elim (Step-granted distinct none now id k m.approvals _ b
        (release_restore_schedule-Step distinct now id m) e g) [
          | inl before ↦ inl before
          | inr (other, w, hit) ↦ cc
        ]
  step-granted (executes now id) m plain (b, e, g) =
      elim (Step-granted distinct none now id k m.approvals _ b
        (mark_restore_executed-Step distinct now id m) e g) [
          | inl before ↦ inl before
          | inr (other, w, hit) ↦ cc
        ]
  step-granted (completes now id owner) m plain (b, e, g) =
      let (aid, s) = complete-Step distinct approval_id now id owner m in
      elim (Step-granted distinct none now aid k m.approvals _ b s e g) [
        | inl before ↦ inl before
        | inr (other, w, hit) ↦ cc
      ]

  -- After calls that create approvals in no granted status, no restore is approved, scheduled or
  -- executed unless it was so from the start or an ApproveRestore of it is among the calls.
  pub granted_needs_approval :
      (cs : List Call) (m : MemoryStore)
      → All IsPlain cs
      → GrantedAt k (run approval_id distinct cs m).approvals
      → GrantedAt k m.approvals ⊎ ((now : Time) × (actor : String) × In (approves now k actor) cs)
  unfolding run
  granted_needs_approval [] m plain g = inl g
  granted_needs_approval (c ∷ cs) m plain g =
      elim (granted_needs_approval cs (step approval_id distinct c m) plain.1 g) [
        | inr (now, actor, later) ↦ inr (now, actor, inr later)
        | inl after ↦ elim (step-granted c m plain.0 after) [
          | inl before ↦ inl before
          | inr (now, actor, this) ↦ inr (now, actor, inl (sym this))
        ]
      ]

  step-closed :
      (c : Call) (m : MemoryStore) (a : RestoreApproval)
      → Keeps k c
      → get k m.approvals ≡ some a
      → IsClosed a
      → get k (step approval_id distinct c m).approvals ≡ some a
  unfolding step create_restore_approval
  step-closed (creates now fresh x) m a keep e closed =
      let new = fill_approval now fresh x in get-put new.id k new m.approvals ∙ rw keep e
  step-closed (approves now id actor) m a keep e closed =
      Step-closed distinct (some actor) now id k m.approvals _ a
        (approve_restore-Step distinct now id actor m) e closed
  step-closed (schedules now id) m a keep e closed =
      Step-closed distinct none now id k m.approvals _ a (schedule_restore-Step distinct now id m) e
        closed
  step-closed (releases now id) m a keep e closed =
      Step-closed distinct none now id k m.approvals _ a
        (release_restore_schedule-Step distinct now id m) e closed
  step-closed (executes now id) m a keep e closed =
      Step-closed distinct none now id k m.approvals _ a
        (mark_restore_executed-Step distinct now id m) e closed
  step-closed (completes now id owner) m a keep e closed =
      let (aid, s) = complete-Step distinct approval_id now id owner m in
      Step-closed distinct none now aid k m.approvals _ a s e closed

  -- An executed or expired approval stays as it is through every sequence of calls that does not
  -- create an approval with its ID.
  pub closed_stays :
      (cs : List Call) (m : MemoryStore) (a : RestoreApproval)
      → All (Keeps k) cs
      → get k m.approvals ≡ some a
      → IsClosed a
      → get k (run approval_id distinct cs m).approvals ≡ some a
  unfolding run
  closed_stays [] m a keep e closed = e
  closed_stays (c ∷ cs) m a keep e closed =
      closed_stays cs (step approval_id distinct c m) a keep.1 (step-closed c m a keep.0 e closed)
        closed
