-- ===== src/ControlPlane/Erasure/Health/Resilience.antt =====
-- What a healthy erasure set survives, and how the report adds up.
use mathlib.Core.Bool.{false≢true}
use repo_ark.Prelude.{
  suc, ◌≤◌, String, ◌≡◌, refl, sym, ap, subst, ◌∙◌, inl, inr, Bool, true, false, not, ◌||◌, List,
  [], ◌∷◌, arith, select, length-select, In-select, length, any, In, Bool-cases,
}
use repo_ark.Prelude.Int.{ℤ, pos, ◌≤ℤ◌, lti, eqi}
use repo_ark.Prelude.Text.{eqs, eq_iff}
use repo_ark.Prelude.Table.{Table, Keys, has_key, has_key-add_key}
use repo_ark.ControlPlane.Model.{Agent, ErasureSet, ErasureShard}
use repo_ark.ControlPlane.Config.{ErasureConfig}
use repo_ark.ControlPlane.Platform.{Platform}
use repo_ark.ControlPlane.Erasure.Health.{
  IndexDomains, copies_of, add_all, all_domains, is_outside, remaining, set_healthy, verdict,
}
use repo_ark.ControlPlane.Erasure.Health.Traces.{
  IsFilled, IsDistinctIndices, indices, Copy, copies_of-IsTraced,
}

has_key-add_all :
    (d : String) (ds out : Keys) → has_key d (add_all ds out) ≡ (has_key d ds || has_key d out)
has_key-add_all d [] out = refl
has_key-add_all d (x ∷ ds) out =
    ground (arith, has_key-add_all d ds out, has_key-add_key x d (add_all ds out))

-- A domain that is not among all domains has no copy: each shard with a copy is outside it.
outside_of_absent :
    (lost : String) (ds : Keys)
    → 1 ≤ length ds
    → has_key lost ds ≡ false
    → any (λ d. not (eqs d lost)) ds ≡ true
outside_of_absent lost [] h e = absurd (omega (arith, h))
outside_of_absent lost (d ∷ ds) h e = ground arith

remaining_of_absent :
    (lost : String) (xs : IndexDomains)
    → IsFilled xs
    → has_key lost (all_domains xs) ≡ false
    → remaining lost xs ≡ length xs
remaining_of_absent lost [] f e = refl
remaining_of_absent lost ((i, ds) ∷ xs) f e = ground (
  arith,
  remaining_of_absent lost xs f.1,
  outside_of_absent lost ds f.0,
  has_key-add_all lost ds (all_domains xs),
)

any-has_key :
    (q : String → Bool) (d : String) (ds : Keys)
    → has_key d ds ≡ true
    → q d ≡ true
    → any q ds ≡ true
any-has_key q d [] h e = cc
any-has_key q d (x ∷ ds) h e = ground (arith, any-has_key q d ds, eq_iff x d, ap q)

-- A healthy set has all its data shards whichever domain is lost, one of its own or any other.
healthy_remaining :
    (ecfg : ErasureConfig) (set : ErasureSet) (xs : IndexDomains) (lost : String)
    → IsFilled xs
    → verdict ecfg set xs ≡ set_healthy
    → set.data_shards ≤ℤ pos (remaining lost xs)
unfolding verdict
healthy_remaining ecfg set xs lost f h = elim (Bool-cases (has_key lost (all_domains xs))) [
  | inl e ↦ ground (
    arith,
    any-has_key (λ (l : String). lti (pos (remaining l xs)) set.data_shards) lost (all_domains xs)
        e,
  )
  | inr e ↦ ground (arith, remaining_of_absent lost xs f e)
]

remaining_indices :
    (lost : String) (xs : IndexDomains) (k : ℤ)
    → any (λ j. eqi j k) (indices xs) ≡ false
    → any (λ j. eqi j k) (indices (select (is_outside lost) xs)) ≡ false
remaining_indices lost [] k h = refl
remaining_indices lost (e ∷ xs) k h = ground (arith, remaining_indices lost xs k)

distinct-select :
    (lost : String) (xs : IndexDomains)
    → IsDistinctIndices (indices xs)
    → IsDistinctIndices (indices (select (is_outside lost) xs))
distinct-select lost [] h = tt
distinct-select lost (e ∷ xs) h =
    ground (arith, distinct-select lost xs, remaining_indices lost xs e.0)

length-indices : (xs : IndexDomains) → length (indices xs) ≡ length xs
length-indices [] = refl
length-indices (e ∷ xs) = ap suc (length-indices xs)

In-indices : (i : ℤ) (xs : IndexDomains) → In i (indices xs) → (e : ℤ × Keys) × In e xs × (e.0 ≡ i)
In-indices i [] m = absurd m
In-indices i (e ∷ xs) (inl q) = (e, inl refl, sym q)
In-indices i (e ∷ xs) (inr m) = let (x, k, q) = In-indices i xs m in (x, inr k, q)

outside-found :
    (lost : String) (ds : Keys)
    → any (λ d. not (eqs d lost)) ds ≡ true
    → (d : String) × (has_key d ds ≡ true) × (eqs d lost ≡ false)
outside-found lost [] h = absurd (false≢true h)
outside-found lost (x ∷ ds) h = elim (Bool-cases (eqs x lost)) [
  | inl e ↦ let (d, m, q) = outside-found lost ds (rw e at h) in (d, ground (arith, m), q)
  | inr e ↦ (x, ground (arith, eq_iff x x), e)
]

module _ (p : Platform) (key lost : String) (online : Table Agent) (ecfg : ErasureConfig)
    (set : ErasureSet) (shards : List ErasureShard) where
  -- A set that is judged healthy survives the loss of any one failure domain: there are at least as
  -- many different shard indices as data shards of which a ready copy is left, on an agent that
  -- counts and that is in another domain.
  pub healthy_survives :
      verdict ecfg set (copies_of p key online shards).index_domains ≡ set_healthy
      → (left : List ℤ) × IsDistinctIndices left
        × (set.data_shards ≤ℤ pos (length left))
        × ((i : ℤ) → In i left → (d : String) × (eqs d lost ≡ false) × Copy p key online shards i d)
  healthy_survives h =
      let xs = (copies_of p key online shards).index_domains in
      let t = copies_of-IsTraced p key online shards in
      let kept = select (is_outside lost) xs in
      (
        indices kept,
        distinct-select lost xs t.distinct,
        subst (λ n. set.data_shards ≤ℤ pos n)
            (sym (length-indices kept ∙ length-select (is_outside lost) xs))
            (healthy_remaining ecfg set xs lost t.filled h),
        λ i m.
            let (e, here, same) = In-indices i kept m in
            let (before, outside) = In-select (is_outside lost) xs e here in
            let (d, held, other) = outside-found lost e.1 outside in
            (d, other, subst (λ k. Copy p key online shards k d) same (t.traced e before d held)),
      )
