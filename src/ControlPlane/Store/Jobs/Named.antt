-- ===== src/ControlPlane/Store/Jobs/Named.antt =====
-- The approval that a restore job of internal/controlplane/memory.go names, in plain terms.
use repo_ark.Prelude.{
  String, ◌≡◌, refl, inl, inr, false, Option, none, some, Bool-cases, if◌then◌else◌, arith,
}
use repo_ark.Prelude.Text.{eqs, eq_iff}
use repo_ark.ControlPlane.Model.{Job}
use repo_ark.ControlPlane.Store.Jobs.{approval_of}

module _ (approval_id : String → Option String) where
  -- The job is a restore whose payload names the approval.
  abbrev pub Names : Job → String → Type 0
  Names j aid =
      (j.kind ≡ "restore-generation") × (approval_id j.payload ≡ some aid) × (eqs aid "" ≡ false)

  pub named_by : (j : Job) (aid : String) → approval_of approval_id j ≡ some aid → Names j aid
  named_by j aid h = elim (Bool-cases (eqs j.kind "restore-generation")) [
    | inr other ↦ absurd (clash (rw other at h))
    | inl restore ↦
        let (payload, set) = of_payload (approval_id j.payload) (rw restore at h) in
        ((eq_iff j.kind "restore-generation").0 restore, payload, set)
  ]
    where
      clash : none ≡ some aid → ⊥
      clash e = cc

      of_payload :
          (o : Option String)
          → (elim o [ none ↦ none | some a ↦ if eqs a "" then none else some a ]) ≡ some aid
          → (o ≡ some aid) × (eqs aid "" ≡ false)
      of_payload none e = cc
      of_payload (some a) e = ground arith

  pub approval_named : (j : Job) (aid : String) → Names j aid → approval_of approval_id j ≡ some aid
  approval_named j aid (kind, payload, set) =
      rw ((eq_iff j.kind "restore-generation").1 kind, payload, set) refl
