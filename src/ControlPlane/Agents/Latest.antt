-- ===== src/ControlPlane/Agents/Latest.antt =====
-- The agents that a report counts, as the loops of internal/controlplane fill their maps: where two
-- records have one ID, the later one that counts is kept.
use repo_ark.Prelude.{
  String, ◌≡◌, refl, ◌∙◌, ap, Bool, ◌&&◌, Option, some, List, [], ◌∷◌, arith, Bool-cases, inl, inr,
  if◌then◌else◌,
}
use repo_ark.Prelude.Text.{eqs}
use repo_ark.Prelude.Table.{Table, get, put, get-put}
use repo_ark.ControlPlane.Model.{Agent}

module _ (counts : Agent → Bool) where
  -- The last agent of the list with the ID that counts, else what was known before.
  abbrev pub latest : String → List Agent → Option Agent → Option Agent
  latest id [] before = before
  latest id (a ∷ rest) before = latest id rest (if eqs a.id id && counts a then some a else before)

  -- A table that is filled with the agents that count.
  abbrev pub filled : List Agent → Table Agent → Table Agent
  filled [] t = t
  filled (a ∷ rest) t = filled rest (if counts a then put a.id a t else t)

  pub get-filled :
      (id : String) (agents : List Agent) (t : Table Agent)
      → get id (filled agents t) ≡ latest id agents (get id t)
  get-filled id [] t = refl
  get-filled id (a ∷ rest) t =
      get-filled id rest (if counts a then put a.id a t else t)
      ∙ ap (latest id rest) (elim (Bool-cases (counts a)) [
        | inl c ↦ ground (arith, get-put a.id id a t)
        | inr c ↦ ground arith
      ])
