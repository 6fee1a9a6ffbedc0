-- ===== src/ControlPlane/Store/Jobs/Completion.antt =====
-- How Complete of internal/controlplane/memory.go can go, in terms of its own helpers.
use repo_ark.Prelude.{
  String, ◌≡◌, refl, sym, subst, ◌∙◌, ◌⊎◌, inl, inr, Bool, true, false, if◌then◌else◌, ◌&&◌, Option,
  none, some, Option-cases, Bool-cases, &&-both,
}
use mathlib.Core.Option.{some-injective}
use repo_ark.Prelude.Text.{eqs}
use repo_ark.Prelude.Table.{get, put}
use repo_ark.Prelude.Clock.{Time}
use repo_ark.ControlPlane.Model.{Job, RestoreApproval, is_job_running, is_approval_scheduled}
use repo_ark.ControlPlane.Store.{
  MemoryStore, Error, Outcome, ok, err, approval_not_scheduled, job_not_leased,
}
use repo_ark.ControlPlane.Store.Jobs.{
  approval_of, succeeded_job, executed_approval, complete_approval, complete,
}

module _ (approval_id : String → Option String) where
  -- What a completed call does to the approvals: it uses up the scheduled one that the job names.
  abbrev pub Settled : Time → Job → MemoryStore → MemoryStore → Type 0
  Settled now j m m' =
      ((approval_of approval_id j ≡ none) × (m'.approvals ≡ m.approvals))
      ⊎ ((aid : String) × (a : RestoreApproval) × (approval_of approval_id j ≡ some aid)
          × (get aid m.approvals ≡ some a)
          × (is_approval_scheduled a.status ≡ true)
          × (m'.approvals ≡ put aid (executed_approval now a) m.approvals))

  -- A call of Complete that returns without an error.
  pub record Completed (now : Time) (id owner : String) (m m' : MemoryStore) (j : Job)
      : Type 0 where
    pub stored : get id m.jobs ≡ some j
    pub running : is_job_running j.status ≡ true
    pub owned : eqs j.lease_owner owner ≡ true
    pub jobs_after : m'.jobs ≡ put id (succeeded_job now j) m.jobs
    pub settled : Settled now j m m'
    pub rest : m' ≡ record m { jobs = m'.jobs; approvals = m'.approvals }

  -- Why a call of Complete fails.
  abbrev pub Refused : String → String → MemoryStore → Error → Type 0
  Refused id owner m e =
      ((e ≡ job_not_leased)
        × ((j : Job)
            → get id m.jobs ≡ some j
            → (is_job_running j.status && eqs j.lease_owner owner) ≡ false))
      ⊎ ((j : Job) × (aid : String) × (e ≡ approval_not_scheduled)
          × (get id m.jobs ≡ some j)
          × (is_job_running j.status ≡ true)
          × (eqs j.lease_owner owner ≡ true)
          × (approval_of approval_id j ≡ some aid)
          × ((a : RestoreApproval)
              → get aid m.approvals ≡ some a
              → is_approval_scheduled a.status ≡ false))

  abbrev pub Returned : Time → String → String → MemoryStore → Outcome (Unit {0}) → Type 0
  Returned now id owner m r =
      ((e : Error) × (r.0 ≡ err e) × (r.1 ≡ m) × Refused id owner m e)
      ⊎ ((j : Job) × (r.0 ≡ ok tt) × Completed now id owner m r.1 j)

  complete_approval_cases :
      (now : Time) (id owner : String) (j : Job) (m : MemoryStore)
      → get id m.jobs ≡ some j
      → is_job_running j.status ≡ true
      → eqs j.lease_owner owner ≡ true
      → (o : Option String) → approval_of approval_id j ≡ o
      → Returned now id owner m (complete_approval approval_id now id j o m)
  complete_approval_cases now id owner j m e running owned none at_none = inr (
    j,
    refl,
    record {
      stored = e;
      running = running;
      owned = owned;
      jobs_after = refl;
      settled = inl (at_none, refl);
      rest = refl;
    },
  )
  complete_approval_cases now id owner j m e running owned (some aid) at_some =
      elim (Option-cases (get aid m.approvals)) [
        | inl gone ↦
            rw (gone, complete_approval)
              (inl (
                approval_not_scheduled,
                refl,
                refl,
                inr (j, aid, refl, e, running, owned, at_some, λ b f. cc),
              ))
        | inr (a, found) ↦
            rw (found, complete_approval)
              (elim (Bool-cases (is_approval_scheduled a.status)) [
                | inl waiting ↦ rw waiting (
                    inr (
                      j,
                      refl,
                      record {
                        stored = e;
                        running = running;
                        owned = owned;
                        jobs_after = refl;
                        settled = inr (aid, a, at_some, found, waiting, refl);
                        rest = refl;
                      },
                    ))
                | inr not_waiting ↦ rw not_waiting (
                    inl (
                      approval_not_scheduled,
                      refl,
                      refl,
                      inr (
                        j,
                        aid,
                        refl,
                        e,
                        running,
                        owned,
                        at_some,
                        λ b f.
                            subst (λ (x : RestoreApproval). is_approval_scheduled x.status ≡ false)
                              (some-injective a b (sym found ∙ f)) not_waiting,
                      ),
                    ))
              ])
      ]

  complete_held :
      (now : Time) (id owner : String) (m : MemoryStore) (j : Job)
      → get id m.jobs ≡ some j
      → complete approval_id now id owner m ≡ (
          if is_job_running j.status && eqs j.lease_owner owner
          then complete_approval approval_id now id j (approval_of approval_id j) m
          else (err job_not_leased, m))
  unfolding complete
  complete_held now id owner m j e = rw (e, complete) refl

  complete_missing :
      (now : Time) (id owner : String) (m : MemoryStore)
      → get id m.jobs ≡ none
      → complete approval_id now id owner m ≡ (err job_not_leased, m)
  unfolding complete
  complete_missing now id owner m e = rw (e, complete) refl

  -- How a call of Complete can go.
  pub complete_inversion :
      (now : Time) (id owner : String) (m : MemoryStore)
      → Returned now id owner m (complete approval_id now id owner m)
  complete_inversion now id owner m = elim (Option-cases (get id m.jobs)) [
    | inl e ↦
        subst (Returned now id owner m) (sym (complete_missing now id owner m e))
          (inl (job_not_leased, refl, refl, inl (refl, λ x f. absurd (clash (sym e ∙ f)))))
    | inr (j, e) ↦
        subst (Returned now id owner m) (sym (complete_held now id owner m j e))
          (elim (Bool-cases (is_job_running j.status && eqs j.lease_owner owner)) [
            | inl held ↦
                subst
                  (λ (b : Bool). Returned now id owner m (
                    if b
                    then complete_approval approval_id now id j (approval_of approval_id j) m
                    else (err job_not_leased, m)))
                  (sym held)
                  (complete_approval_cases now id owner j m e
                    (&&-both (is_job_running j.status) (eqs j.lease_owner owner) held).0
                    (&&-both (is_job_running j.status) (eqs j.lease_owner owner) held).1
                    (approval_of approval_id j) refl)
            | inr not_held ↦
                subst
                  (λ (b : Bool). Returned now id owner m (
                    if b
                    then complete_approval approval_id now id j (approval_of approval_id j) m
                    else (err job_not_leased, m)))
                  (sym not_held)
                  (inl (
                    job_not_leased,
                    refl,
                    refl,
                    inl (
                      refl,
                      λ x f.
                          subst
                            (λ (y : Job).
                              (is_job_running y.status && eqs y.lease_owner owner) ≡ false)
                            (some-injective j x (sym e ∙ f)) not_held,
                    ),
                  ))
          ])
  ]
    where
      clash : {x : Job} → none ≡ some x → ⊥
      clash h = cc
