-- ===== src/ControlPlane/Store/Objects/Protection.antt =====
-- Which digests ProtectedObjectDigests of internal/controlplane/memory.go gives.
use repo_ark.Prelude.{
  ℕ, ◌<◌, String, ◌≡◌, refl, ap, ◌∙◌, Bool, true, ◌&&◌, ◌||◌, Option, none, some, List, [], ◌∷◌,
  arith, length, any,
}
use repo_ark.Prelude.Int.{pos, lti}
use repo_ark.Prelude.Text.{eqs}
use repo_ark.Prelude.Table.{Table, Keys, get, values, has_key, has_key-add_key}
use repo_ark.Prelude.Clock.{Time, is_after}
use repo_ark.ControlPlane.Model.{ObjectRef, ObjectLease}
use repo_ark.ControlPlane.Store.{MemoryStore}
use repo_ark.ControlPlane.Store.Objects.{
  ref_at, owners_at, counted_digests, leased_digests, protected_object_digests,
}
use repo_ark.ControlPlane.Store.Objects.RefCounts.{IsCounted}

-- Some lease on the digest has not run out.
abbrev pub is_leased : Time → String → List ObjectLease → Bool
is_leased now d ls = any (λ l. eqs l.digest d && is_after l.expires_at now) ls

-- Some entry under the digest counts its object.
abbrev pub is_counted : String → Table ObjectRef → Bool
is_counted d t = any (λ e. eqs e.0 d && lti (pos 0) e.1.ref_count) t

has_key-counted_digests :
    (d : String) (t : Table ObjectRef) → has_key d (counted_digests t) ≡ is_counted d t
has_key-counted_digests d [] = refl
has_key-counted_digests d ((k, r) ∷ t) =
    ground (arith, has_key-counted_digests d t, has_key-add_key k d (counted_digests t))

has_key-leased_digests :
    (now : Time) (d : String) (ls : List ObjectLease) (out : Keys)
    → has_key d (leased_digests now ls out) ≡ (is_leased now d ls || has_key d out)
has_key-leased_digests now d [] out = refl
has_key-leased_digests now d (l ∷ ls) out = ground (
  arith,
  has_key-leased_digests now d ls out,
  has_key-add_key l.digest d (leased_digests now ls out),
)

-- A digest is protected exactly if a lease on it has not run out or a reference counts it.
pub protected_exactly :
    (now : Time) (d : String) (m : MemoryStore)
    → has_key d (protected_object_digests now m)
      ≡ (is_leased now d (values m.object_leases) || is_counted d m.object_refs)
unfolding protected_object_digests
protected_exactly now d m =
    has_key-leased_digests now d (values m.object_leases) (counted_digests m.object_refs)
    ∙ rw (has_key-counted_digests d m.object_refs) refl

is_counted_of_get :
    (d : String) (t : Table ObjectRef) (r : ObjectRef)
    → get d t ≡ some r
    → lti (pos 0) r.ref_count ≡ true
    → is_counted d t ≡ true
unfolding get
is_counted_of_get d [] r e h = cc
is_counted_of_get d ((k, x) ∷ t) r e h =
    ground (arith, is_counted_of_get d t r, ap (λ (y : ObjectRef). lti (pos 0) y.ref_count))

has_key-length : (k : String) (xs : Keys) → has_key k xs ≡ true → 0 < length xs
has_key-length k [] h = cc
has_key-length k (x ∷ xs) h = omega arith

-- An owned digest has a reference with a positive count.
owned_counted :
    (n : ℕ) (d owner : String) (m : MemoryStore)
    → IsCounted n m
    → has_key owner (owners_at d m) ≡ true
    → is_counted d m.object_refs ≡ true
owned_counted n d owner m counted held =
    let some_owner = has_key-length owner (owners_at d m) held in
    let count = (counted.at_digest d).count in
    let positive : lti (pos 0) (ref_at d m).ref_count ≡ true =
      rw count ground (arith, some_owner) in
    by_get (get d m.object_refs) refl positive
  where
    by_get :
        (o : Option ObjectRef)
        → get d m.object_refs ≡ o
        → lti (pos 0) (ref_at d m).ref_count ≡ true
        → is_counted d m.object_refs ≡ true
    by_get none e h = ground (arith, e, h)
    by_get (some r) e h = is_counted_of_get d m.object_refs r e (rw (ref_at, e) at h)

-- While the counts are right, each digest that has an owner is among those that
-- ProtectedObjectDigests gives.
pub owned_protected :
    (n : ℕ) (now : Time) (d owner : String) (m : MemoryStore)
    → IsCounted n m
    → has_key owner (owners_at d m) ≡ true
    → has_key d (protected_object_digests now m) ≡ true
owned_protected n now d owner m counted held =
    ground (arith, protected_exactly now d m, owned_counted n d owner m counted held)
