-- ===== src/Prelude/Sort.antt =====
-- sort.Slice by a comparison. Go leaves the order of ties open; this sort keeps them in place, and
-- the theorems about its clients hold for every order of the input, so for every order of ties.
use Prim.Native.Nat.{ℕ, zero, suc}
use mathlib.Core.Path.{◌≡◌, refl, ◌∙◌, ap, sym, subst}
use mathlib.Core.Logic.{◌⊎◌, inl, inr}
use mathlib.Core.Bool.{Bool, true, false}
use mathlib.Core.List.{List, [], ◌∷◌}
use native.Mathlib.Omega.{arith}
use repo_ark.Prelude.Tests.{if◌then◌else◌}
use repo_ark.Prelude.Lists.{length, take, In}

module _ {A : Type 0} (less : A → A → Bool) where
  insert_by : A → List A → List A
  insert_by x [] = x ∷ []
  insert_by x (y ∷ ys) = let later = insert_by x ys in if less y x then y ∷ later else x ∷ y ∷ ys

  unfoldable pub sort_by : List A → List A
  unfolding insert_by
  sort_by [] = []
  sort_by (x ∷ xs) = insert_by x (sort_by xs)

  length-insert_by : (x : A) (xs : List A) → length (insert_by x xs) ≡ suc (length xs)
  unfolding insert_by
  length-insert_by x [] = refl
  length-insert_by x (y ∷ ys) = ground (arith, length-insert_by x ys)

  pub length-sort_by : (xs : List A) → length (sort_by xs) ≡ length xs
  unfolding sort_by
  length-sort_by [] = refl
  length-sort_by (x ∷ xs) = length-insert_by x (sort_by xs) ∙ ap suc (length-sort_by xs)

  In-insert_by : (x : A) (xs : List A) (a : A) → In a (insert_by x xs) → (a ≡ x) ⊎ In a xs
  unfolding insert_by
  In-insert_by x [] a m = m
  In-insert_by x (y ∷ ys) a m = ground (arith, In-insert_by x ys a)

  In-insert_by_of : (x : A) (xs : List A) (a : A) → (a ≡ x) ⊎ In a xs → In a (insert_by x xs)
  unfolding insert_by
  In-insert_by_of x [] a m = m
  In-insert_by_of x (y ∷ ys) a m = ground (arith, In-insert_by_of x ys a)

  -- Sorting adds no element,
  pub In-sort_by : (xs : List A) (a : A) → In a (sort_by xs) → In a xs
  unfolding sort_by
  In-sort_by [] a m = m
  In-sort_by (x ∷ xs) a m = ground (arith, In-insert_by x (sort_by xs) a, In-sort_by xs a)

  -- and loses none.
  pub In-sort_by_of : (xs : List A) (a : A) → In a xs → In a (sort_by xs)
  unfolding sort_by
  In-sort_by_of [] a m = m
  In-sort_by_of (x ∷ xs) a m = ground (arith, In-insert_by_of x (sort_by xs) a, In-sort_by_of xs a)

  -- No element is less than the one in front of it.
  abbrev pub Ordered : List A → Type 0
  Ordered [] = Unit
  Ordered (x ∷ []) = Unit
  Ordered (x ∷ y ∷ ys) = (less y x ≡ false) × Ordered (y ∷ ys)

  module _ (asym : (x y : A) → less x y ≡ true → less y x ≡ false) where
    Ordered-insert_by : (x : A) (xs : List A) → Ordered xs → Ordered (insert_by x xs)
    unfolding insert_by
    Ordered-insert_by x [] h = tt
    Ordered-insert_by x (y ∷ []) h = ground (arith, asym y x)
    Ordered-insert_by x (y ∷ z ∷ zs) h = ground (arith, asym y x, Ordered-insert_by x (z ∷ zs) h.1)

    pub Ordered-sort_by : (xs : List A) → Ordered (sort_by xs)
    unfolding sort_by
    Ordered-sort_by [] = tt
    Ordered-sort_by (x ∷ xs) = Ordered-insert_by x (sort_by xs) (Ordered-sort_by xs)

  -- Where "not less" is transitive, nothing later is less than what stands earlier: whoever is left
  -- out by a cut is not less than whoever is kept.
  module _ (asym : (x y : A) → less x y ≡ true → less y x ≡ false)
      (trans : (x y z : A) → less y x ≡ false → less z y ≡ false → less z x ≡ false) where
    Bounded : A → List A → Type 0
    Bounded x ys = (y : A) → In y ys → less y x ≡ false

    Ordered-Bounded : (x : A) (xs : List A) → Ordered (x ∷ xs) → Bounded x xs
    unfolding Bounded
    Ordered-Bounded x [] h y m = absurd m
    Ordered-Bounded x (z ∷ zs) h y (inl e) = subst (λ v. less v x ≡ false) (sym e) h.0
    Ordered-Bounded x (z ∷ zs) h y (inr m) = trans x z y h.0 (Ordered-Bounded z zs h.1 y m)

    Ordered-tail : (x : A) (xs : List A) → Ordered (x ∷ xs) → Ordered xs
    Ordered-tail x [] h = tt
    Ordered-tail x (y ∷ ys) h = h.1

    take_best :
        (n : ℕ) (xs : List A) (a b : A)
        → Ordered xs
        → In a (take n xs)
        → In b xs
        → ¬ In b (take n xs)
        → less b a ≡ false
    unfolding Bounded
    take_best zero xs a b h ma mb out = absurd ma
    take_best (suc n) [] a b h ma mb out = absurd ma
    take_best (suc n) (x ∷ xs) a b h ma (inl e) out = absurd (out (inl e))
    take_best (suc n) (x ∷ xs) a b h (inl e) (inr mb) out =
        subst (λ v. less b v ≡ false) (sym e) (Ordered-Bounded x xs h b mb)
    take_best (suc n) (x ∷ xs) a b h (inr ma) (inr mb) out =
        take_best n xs a b (Ordered-tail x xs h) ma mb (λ m. out (inr m))

    -- Of a sorted list cut short, nothing left out is less than anything kept.
    pub take-sort_by_best :
        (n : ℕ) (xs : List A) (a b : A)
        → In a (take n (sort_by xs))
        → In b xs
        → ¬ In b (take n (sort_by xs))
        → less b a ≡ false
    take-sort_by_best n xs a b ma mb out =
        take_best n (sort_by xs) a b (Ordered-sort_by asym xs) ma (In-sort_by_of xs b mb) out
