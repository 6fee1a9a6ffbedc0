-- ===== src/ControlPlane/Store/Generations/Pruning.antt =====
-- PruneGenerationRecords: what is kept of a repository's generations, and of their replicas.
use repo_ark.Prelude.{
  ℕ, zero, suc, ◌≤◌, min, String, ◌≡◌, refl, ap, ◌∙◌, true, false, List, [], ◌∷◌, inl, inr, arith,
  length, take, drop, length-take, In, In-take, none,
}
use repo_ark.Prelude.Int.{ℤ, pos, pos_part, ◌<ℤ◌}
use repo_ark.Prelude.Text.{eqs, eq_iff}
use repo_ark.Prelude.Table.{Table, get, delete, get-delete, list_at, list_at-put_self}
use repo_ark.Prelude.Sort.{sort_by, length-sort_by, In-sort_by, take-sort_by_best}
use repo_ark.ControlPlane.Model.{Generation, GenerationReplica}
use repo_ark.ControlPlane.Store.{MemoryStore}
use repo_ark.ControlPlane.Store.Objects.{cut}
use repo_ark.ControlPlane.Store.Generations.{
  newer, list_replicas, without_replicas, surplus, prune_generation_records,
}

cut-positive :
    {A : Type 0} (keep : ℤ) (xs : List A) → pos 0 <ℤ keep → cut keep xs ≡ take (pos_part keep) xs
cut-positive keep xs h = ground (arith, take_all (pos_part keep) xs)
  where
    take_all : {A : Type 0} (n : ℕ) (xs : List A) → length xs ≤ n → xs ≡ take n xs
    take_all zero [] h = refl
    take_all (suc n) [] h = refl
    take_all zero (x ∷ xs) h = absurd (omega (arith, h))
    take_all (suc n) (x ∷ xs) h = ap (λ ys. x ∷ ys) (take_all n xs (omega (arith, h)))

newer_asym : (x y : Generation) → newer x y ≡ true → newer y x ≡ false
newer_asym x y h = ground arith

newer_trans : (x y z : Generation) → newer y x ≡ false → newer z y ≡ false → newer z x ≡ false
newer_trans x y z h k = ground arith

In-drop : {A : Type 0} (n : ℕ) (xs : List A) (a : A) → In a (drop n xs) → In a xs
In-drop zero xs a m = m
In-drop (suc n) [] a m = m
In-drop (suc n) (x ∷ xs) a m = inr (In-drop n xs a m)

In-surplus : (keep : ℤ) (xs : List Generation) (g : Generation) → In g (surplus keep xs) → In g xs
In-surplus keep xs g m = ground (arith, In-drop (pos_part keep) xs g)

get-without_none :
    (gs : List Generation) (id : String) (t : Table (List GenerationReplica))
    → get id t ≡ none
    → get id (without_replicas gs t) ≡ none
get-without_none [] id t h = h
get-without_none (g ∷ gs) id t h =
    get-without_none gs id (delete g.id t) (ground (arith, get-delete g.id id t))

get-without_removed :
    (gs : List Generation) (g : Generation) (t : Table (List GenerationReplica))
    → In g gs
    → get g.id (without_replicas gs t) ≡ none
get-without_removed [] g t m = absurd m
get-without_removed (x ∷ gs) g t (inl e) =
    get-without_none gs g.id (delete x.id t)
      (ground (arith, get-delete x.id g.id t, eq_iff x.id g.id, ap (λ (y : Generation). y.id) e))
get-without_removed (x ∷ gs) g t (inr m) = get-without_removed gs g (delete x.id t) m

get-without_kept :
    (gs : List Generation) (id : String) (t : Table (List GenerationReplica))
    → ((g : Generation) → In g gs → eqs g.id id ≡ false)
    → get id (without_replicas gs t) ≡ get id t
get-without_kept [] id t h = refl
get-without_kept (g ∷ gs) id t h =
    get-without_kept gs id (delete g.id t) (λ x m. h x (inr m))
    ∙ rw (get-delete g.id id t, h g (inl refl)) refl

-- The generations of the repository that a pruned store has.
abbrev pub kept_of : String → ℤ → MemoryStore → List Generation
kept_of repo keep m = list_at repo (prune_generation_records repo keep m).generations

kept_of-take :
    (repo : String) (keep : ℤ) (m : MemoryStore)
    → pos 0 <ℤ keep
    → kept_of repo keep m ≡ take (pos_part keep) (sort_by newer (list_at repo m.generations))
unfolding prune_generation_records
kept_of-take repo keep m h =
    let xs = sort_by newer (list_at repo m.generations) in
    list_at-put_self repo (cut keep xs) m.generations ∙ cut-positive keep xs h

-- PruneGenerationRecords with a positive `keep` leaves the `keep` newest generations of the
-- repository: as many as there are up to `keep`, all of them generations it had, and no generation
-- that is gone is newer than one that is kept.
pub prune_keeps_newest :
    (repo : String) (keep : ℤ) (m : MemoryStore)
    → pos 0 <ℤ keep
    → let old = list_at repo m.generations in
      let kept = kept_of repo keep m in
      (length kept ≡ min (pos_part keep) (length old))
      × ((a : Generation) → In a kept → In a old)
      × ((a b : Generation) → In a kept → In b old → ¬ In b kept → newer b a ≡ false)
prune_keeps_newest repo keep m h =
    let old = list_at repo m.generations in
    rw (kept_of-take repo keep m h) (
      omega (arith, length-take (pos_part keep) (sort_by newer old), length-sort_by newer old),
      λ a here. In-sort_by newer old a (In-take (pos_part keep) (sort_by newer old) a here),
      take-sort_by_best newer newer_asym newer_trans (pos_part keep) old,
    )

-- PruneGenerationRecords drops the replica records of each generation it removes, and keeps those of
-- a generation whose identifier no generation of the repository has.
pub prune_replicas :
    (repo : String) (keep : ℤ) (m : MemoryStore)
    → let old = sort_by newer (list_at repo m.generations) in
      let m' = prune_generation_records repo keep m in
      ((g : Generation) → In g (surplus keep old) → list_replicas g.id m' ≡ [])
      × ((id : String)
          → ((g : Generation) → In g (list_at repo m.generations) → eqs g.id id ≡ false)
          → list_replicas id m' ≡ list_replicas id m)
unfolding prune_generation_records list_replicas
prune_replicas repo keep m =
    let old = sort_by newer (list_at repo m.generations) in
    (
      λ g gone. rw (list_at, get-without_removed (surplus keep old) g m.replicas gone) refl,
      λ id other.
          rw
            (
              list_at,
              get-without_kept (surplus keep old) id m.replicas (λ g here.
                  other g
                    (In-sort_by newer (list_at repo m.generations) g (In-surplus keep old g here))),
            )
            refl,
    )
