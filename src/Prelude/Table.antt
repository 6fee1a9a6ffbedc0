-- ===== src/Prelude/Table.antt =====
-- A Go map from strings, as the list of its entries. Go iterates over a map in any order: here the
-- order is that of the list, and theorems range over every table, so over every order.
use Prim.Native.Nat.{suc}
use Prim.Native.String.{String}
use mathlib.Core.Path.{◌≡◌, refl, sym, subst, ◌∙◌}
use mathlib.Core.Logic.{◌⊎◌, inl, inr}
use mathlib.Core.Bool.{Bool, true, false, ◌||◌}
use mathlib.Core.Option.{Option, none, some}
use mathlib.Core.List.{List, [], ◌∷◌}
use native.Mathlib.Omega.{arith}
use repo_ark.Prelude.Text.{eqs, eq_iff}
use repo_ark.Prelude.Tests.{Bool-cases, if◌then◌else◌}
use repo_ark.Prelude.Lists.{length, In}

abbrev pub Table {ℓ} : Type ℓ → Type ℓ
Table V = List (String × V)

-- The keys of a set, map[string]struct{}.
abbrev pub Keys : Type 0
Keys = List String

abbrev pub has_key : String → Keys → Bool
has_key k [] = false
has_key k (x ∷ xs) = eqs x k || has_key k xs

-- set[k] = struct{}{}
abbrev pub add_key : String → Keys → Keys
add_key k xs = if has_key k xs then xs else k ∷ xs

-- delete(set, k)
abbrev pub remove_key : String → Keys → Keys
remove_key k [] = []
remove_key k (x ∷ xs) = let rest = remove_key k xs in if eqs x k then rest else x ∷ rest

module _ {ℓ} {V : Type ℓ} where
  -- v, ok := m[k]
  unfoldable pub get : String → Table V → Option V
  get k [] = none
  get k ((j, v) ∷ t) = if eqs j k then some v else get k t

  -- m[k] = v
  unfoldable pub put : String → V → Table V → Table V
  put k v [] = (k, v) ∷ []
  put k v ((j, w) ∷ t) = let rest = put k v t in if eqs j k then (j, v) ∷ t else (j, w) ∷ rest

  -- delete(m, k)
  unfoldable pub delete : String → Table V → Table V
  delete k [] = []
  delete k ((j, w) ∷ t) = let rest = delete k t in if eqs j k then rest else (j, w) ∷ rest

  -- for _, v := range m
  abbrev pub values : Table V → List V
  values [] = []
  values ((k, v) ∷ t) = v ∷ values t

  -- for k, v := range m { m[k] = f(v) }
  unfoldable pub update_all : (V → V) → Table V → Table V
  update_all f [] = []
  update_all f ((k, v) ∷ t) = (k, f v) ∷ update_all f t

  pub get-put :
      (k j : String) (v : V) (t : Table V)
      → get j (put k v t) ≡ (if eqs k j then some v else get j t)
  unfolding get put
  get-put k j v [] = refl
  get-put k j v ((i, w) ∷ t) = ground (arith, get-put k j v t, eq_iff i k, eq_iff k j, eq_iff i j)

  pub get-delete :
      (k j : String) (t : Table V) → get j (delete k t) ≡ (if eqs k j then none else get j t)
  unfolding get delete
  get-delete k j [] = ground arith
  get-delete k j ((i, w) ∷ t) = ground (arith, get-delete k j t, eq_iff i k, eq_iff k j, eq_iff i j)

  -- `put` on a key that is there keeps the number of entries; on a new key it adds one.
  pub length-put :
      (k : String) (v : V) (t : Table V)
      → length (put k v t) ≡ (elim (get k t) [ none ↦ suc (length t) | some _ ↦ length t ])
  unfolding get put
  length-put k v [] = refl
  length-put k v ((i, w) ∷ t) = ground (arith, length-put k v t)

module _ {V : Type 0} where
  -- What is found after a write is what was written, or what was found before.
  pub get-put_cases :
      (k j : String) (v : V) (t : Table V) (w : V)
      → get j (put k v t) ≡ some w
      → ((eqs k j ≡ true) × (w ≡ v)) ⊎ ((eqs k j ≡ false) × (get j t ≡ some w))
  get-put_cases k j v t w e = elim (Bool-cases (eqs k j)) [
    | inl hit ↦ inl (hit, ground (arith, get-put k j v t))
    | inr other ↦ inr (other, ground (arith, get-put k j v t))
  ]

  pub get-put_self : (k : String) (v : V) (t : Table V) → get k (put k v t) ≡ some v
  get-put_self k v t = ground (arith, get-put k k v t, eq_iff k k)

  pub get-update_all :
      (f : V → V) (k : String) (t : Table V)
      → get k (update_all f t) ≡ (elim (get k t) [ none ↦ none | some v ↦ some (f v) ])
  unfolding get update_all
  get-update_all f k [] = refl
  get-update_all f k ((j, v) ∷ t) = ground (arith, get-update_all f k t)

  -- An entry that a lookup finds is among the values.
  pub In-get : (k : String) (t : Table V) (v : V) → get k t ≡ some v → In v (values t)
  unfolding get
  In-get k [] v e = cc
  In-get k ((j, w) ∷ t) v e = ground (arith, In-get k t v)

  pub In-put :
      (k : String) (v : V) (t : Table V) (a : V)
      → In a (values (put k v t))
      → (a ≡ v) ⊎ In a (values t)
  unfolding put
  In-put k v [] a m = m
  In-put k v ((j, w) ∷ t) a m = ground (arith, In-put k v t a)

  -- Every key of the table is what `key` says of its value, and no key stands twice.
  abbrev pub Absent : String → Table V → Type 0
  Absent k [] = Unit
  Absent k ((j, v) ∷ t) = (eqs j k ≡ false) × Absent k t

  module _ (key : V → String) where
    abbrev pub Keyed : Table V → Type 0
    Keyed [] = Unit
    Keyed ((j, v) ∷ t) = (j ≡ key v) × Absent j t × Keyed t

    Absent-put :
        (k j : String) (v : V) (t : Table V) → Absent j t → eqs k j ≡ false → Absent j (put k v t)
    unfolding put
    Absent-put k j v [] a e = (e, tt)
    Absent-put k j v ((i, w) ∷ t) a e =
        ground (arith, Absent-put k j v t, eq_iff i k, eq_iff k j, eq_iff i j)

    pub Keyed-put : (k : String) (v : V) (t : Table V) → k ≡ key v → Keyed t → Keyed (put k v t)
    unfolding put
    Keyed-put k v [] e h = (e, tt, tt)
    Keyed-put k v ((i, w) ∷ t) e h =
        ground (arith, Keyed-put k v t e, Absent-put k i v t, eq_iff i k, eq_iff k i)

    Absent-get :
        (k : String) (t : Table V) (v : V)
        → Absent k t
        → In v (values t)
        → Keyed t
        → eqs (key v) k ≡ false
    Absent-get k [] v a m h = absurd m
    Absent-get k ((j, w) ∷ t) v a m h = ground (arith, Absent-get k t v)

    -- A value of the table is found under its key.
    pub get_of_In : (t : Table V) (v : V) → Keyed t → In v (values t) → get (key v) t ≡ some v
    unfolding get
    get_of_In [] v h m = absurd m
    get_of_In ((j, w) ∷ t) v h m =
        ground (arith, get_of_In t v, Absent-get j t v, eq_iff j (key v), eq_iff (key v) j)

    -- What is found under a key has that key.
    pub key_of_get : (k : String) (t : Table V) (v : V) → Keyed t → get k t ≡ some v → k ≡ key v
    unfolding get
    key_of_get k [] v h e = cc
    key_of_get k ((j, w) ∷ t) v h e = ground (arith, key_of_get k t v, eq_iff j k)

    Absent-update_all :
        (f : V → V) (k : String) (t : Table V) → Absent k t → Absent k (update_all f t)
    unfolding update_all
    Absent-update_all f k [] a = tt
    Absent-update_all f k ((j, v) ∷ t) a = (a.0, Absent-update_all f k t a.1)

    pub Keyed-update_all :
        (f : V → V)
        → ((v : V) → key (f v) ≡ key v)
        → (t : Table V) → Keyed t
        → Keyed (update_all f t)
    unfolding update_all
    Keyed-update_all f same [] h = tt
    Keyed-update_all f same ((j, v) ∷ t) h =
        (h.0 ∙ sym (same v), Absent-update_all f j t h.1, Keyed-update_all f same t h.2)

-- The laws of a set of keys.
pub has_key-add_key :
    (k j : String) (xs : Keys) → has_key j (add_key k xs) ≡ (eqs k j || has_key j xs)
has_key-add_key k j xs = ground (arith, has_key_eq k j xs, eq_iff k j)
  where
    has_key_eq :
        (k j : String) (xs : Keys) → has_key k xs ≡ true → eqs k j ≡ true → has_key j xs ≡ true
    has_key_eq k j xs h e = subst (λ s. has_key s xs ≡ true) ((eq_iff k j).0 e) h

pub has_key-remove_key :
    (k j : String) (xs : Keys)
    → has_key j (remove_key k xs) ≡ (if eqs k j then false else has_key j xs)
has_key-remove_key k j [] = ground arith
has_key-remove_key k j (x ∷ xs) =
    ground (arith, has_key-remove_key k j xs, eq_iff x k, eq_iff k j, eq_iff x j)

-- No key stands twice in a set.
abbrev pub DistinctKeys : Keys → Type 0
DistinctKeys [] = Unit
DistinctKeys (x ∷ xs) = (has_key x xs ≡ false) × DistinctKeys xs

pub DistinctKeys-add_key : (k : String) (xs : Keys) → DistinctKeys xs → DistinctKeys (add_key k xs)
DistinctKeys-add_key k xs h = ground arith

pub DistinctKeys-remove_key :
    (k : String) (xs : Keys) → DistinctKeys xs → DistinctKeys (remove_key k xs)
DistinctKeys-remove_key k [] h = tt
DistinctKeys-remove_key k (x ∷ xs) h =
    ground (arith, DistinctKeys-remove_key k xs, has_key-remove_key k x xs, eq_iff x k)

remove_key_absent : (k : String) (xs : Keys) → has_key k xs ≡ false → remove_key k xs ≡ xs
remove_key_absent k [] h = refl
remove_key_absent k (x ∷ xs) h = ground (arith, remove_key_absent k xs)

-- Removing a key that is there takes one away.
pub length-remove_key :
    (k : String) (xs : Keys)
    → DistinctKeys xs
    → has_key k xs ≡ true
    → length xs ≡ suc (length (remove_key k xs))
length-remove_key k [] h m = cc
length-remove_key k (x ∷ xs) h m =
    ground (arith, length-remove_key k xs, remove_key_absent k xs, eq_iff x k)

pub length-add_key :
    (k : String) (xs : Keys) → has_key k xs ≡ false → length (add_key k xs) ≡ suc (length xs)
length-add_key k xs h = ground arith

-- m[k] of a map of lists; a missing key reads as no elements.
abbrev pub list_at : {A : Type 0} → String → Table (List A) → List A
list_at k t = elim (get k t) [ none ↦ [] | some xs ↦ xs ]

pub list_at-put :
    {A : Type 0} (k j : String) (xs : List A) (t : Table (List A))
    → list_at j (put k xs t) ≡ (if eqs k j then xs else list_at j t)
list_at-put k j xs t = rw (list_at, get-put k j xs t) ground arith

pub list_at-put_self :
    {A : Type 0} (k : String) (xs : List A) (t : Table (List A)) → list_at k (put k xs t) ≡ xs
list_at-put_self k xs t = rw (list_at, get-put_self k xs t) refl

pub has_key-In : (id : String) (xs : Keys) → has_key id xs ≡ true → In id xs
has_key-In id [] h = cc
has_key-In id (x ∷ xs) h = ground (arith, has_key-In id xs, eq_iff x id)

pub In-has_key : (id : String) (xs : Keys) → In id xs → has_key id xs ≡ true
In-has_key id [] m = absurd m
In-has_key id (x ∷ xs) m = ground (arith, In-has_key id xs, eq_iff x id)
