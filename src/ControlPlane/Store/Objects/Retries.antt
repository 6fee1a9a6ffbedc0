-- ===== src/ControlPlane/Store/Objects/Retries.antt =====
-- References over every sequence of calls, and retried calls.
use repo_ark.Prelude.{
  ℕ, suc, inl, inr, ◌+◌, ◌^◌, ◌≤◌, ◌<◌, String, ◌≡◌, refl, sym, ap, subst, true, false, List, [],
  ◌∷◌, All, arith, length, Bool-cases,
}
use repo_ark.Prelude.Int.{pos}
use repo_ark.Prelude.Text.{eqs, eq_iff}
use repo_ark.Prelude.Table.{get, get-put, get-put_self, has_key, add_key, has_key-add_key}
use repo_ark.Prelude.Clock.{Time}
use repo_ark.ControlPlane.Model.{ObjectRef}
use repo_ark.ControlPlane.Store.{MemoryStore, ok, new_memory_store}
use repo_ark.ControlPlane.Store.Objects.{owners_at, ensure_object_ref, release_object_ref}
use repo_ark.ControlPlane.Store.Objects.RefCounts.{IsCounted, ensure-IsCounted, release-IsCounted}

-- The calls that count references by their owners.
pub data Call : Type 0 where
  ensures : Time → ObjectRef → String → Call
  releases : Time → String → String → Call

-- A caller gives a reference without a count.
abbrev pub IsUncounted : Call → Type 0
IsUncounted (ensures now ref owner) = ref.ref_count ≡ pos 0
IsUncounted (releases now digest owner) = Unit

pub step : Call → MemoryStore → MemoryStore
step (ensures now ref owner) m = (ensure_object_ref now ref owner m).1
step (releases now digest owner) m = (release_object_ref now digest owner m).1

pub run : List Call → MemoryStore → MemoryStore
unfolding step
run [] m = m
run (c ∷ cs) m = run cs (step c m)

Counted-mono : (n n' : ℕ) (m : MemoryStore) → n ≤ n' → IsCounted n m → IsCounted n' m
Counted-mono n n' m le h = record {
  at_digest = λ d. record {
    count = (h.at_digest d).count;
    named = (h.at_digest d).named;
    distinct = (h.at_digest d).distinct;
    bounded = omega (arith, (h.at_digest d).bounded);
  };
}

step-IsCounted :
    (n : ℕ) (c : Call) (m : MemoryStore)
    → suc n < 2 ^ 63
    → IsUncounted c
    → IsCounted n m
    → IsCounted (suc n) (step c m)
unfolding step
step-IsCounted n (ensures now ref owner) m room u h = ensure-IsCounted now n m ref owner room u h
step-IsCounted n (releases now digest owner) m room u h =
    Counted-mono n (suc n) _ (omega arith) (release-IsCounted now n m digest owner (omega arith) h)

-- From a store whose counts are right, and after any sequence of EnsureObjectRef without a count
-- given and of ReleaseObjectRef, the count of every object is the number of its different owners;
-- this as long as the `n` owners of a digest at the start and the calls are fewer than 2 ^ 63.
pub run-IsCounted :
    (n : ℕ) (cs : List Call) (m : MemoryStore)
    → n + length cs < 2 ^ 63
    → All IsUncounted cs
    → IsCounted n m
    → IsCounted (n + length cs) (run cs m)
unfolding run
run-IsCounted n [] m room u h = Counted-mono n (n + 0) m (omega arith) h
run-IsCounted n (c ∷ cs) m room u h =
    Counted-mono (suc n + length cs) (n + suc (length cs)) _ (omega arith) (
      run-IsCounted (suc n) cs (step c m) (omega arith) u.1
        (step-IsCounted n c m (omega arith) u.0 h))

pub new_memory_store-IsCounted : IsCounted 0 new_memory_store
unfolding new_memory_store get
new_memory_store-IsCounted = record {
  at_digest = λ d. record { count = refl; named = λ _. refl; distinct = tt; bounded = omega arith };
}

-- An owner that is already counted is not counted again: the call reports that nothing was created,
-- and changes neither a reference nor the owners of any digest.
pub ensure_again :
    (now : Time) (ref : ObjectRef) (owner : String) (m : MemoryStore)
    → has_key owner (owners_at ref.digest m) ≡ true
    → eqs ref.digest "" ≡ false
    → eqs owner "" ≡ false
    → let r = ensure_object_ref now ref owner m in
      (r.0 ≡ ok false)
      × (r.1.object_refs ≡ m.object_refs)
      × ((d : String) → owners_at d r.1 ≡ owners_at d m)
unfolding ensure_object_ref
ensure_again now ref owner m held named by =
    rw (named, by, held, ensure_object_ref)
      (
        refl,
        refl,
        λ d. ground (
          arith,
          get-put ref.digest d (owners_at ref.digest m) m.object_ref_owners,
          eq_iff ref.digest d,
          ap (λ s. owners_at s m),
        ),
      )

-- After the call the owner is among the digest's owners.
ensure_holds :
    (now : Time) (ref : ObjectRef) (owner : String) (m : MemoryStore)
    → eqs ref.digest "" ≡ false
    → eqs owner "" ≡ false
    → has_key owner (owners_at ref.digest (ensure_object_ref now ref owner m).1) ≡ true
unfolding ensure_object_ref
ensure_holds now ref owner m named by = elim (Bool-cases (has_key owner (owners_at ref.digest m))) [
  | inl h ↦
      rw (named, by, h, ensure_object_ref) ground
        (arith, get-put_self ref.digest (owners_at ref.digest m) m.object_ref_owners)
  | inr h ↦
      rw (named, by, h, ensure_object_ref) ground
        (
          arith,
          get-put_self ref.digest (add_key owner (owners_at ref.digest m)) m.object_ref_owners,
          has_key-add_key owner owner (owners_at ref.digest m),
          eq_iff owner owner,
        )
]

-- A retry of EnsureObjectRef does nothing: the second of two calls with the same digest and owner
-- creates nothing and changes no reference.
pub ensure_twice :
    (now later : Time) (ref ref' : ObjectRef) (owner : String) (m : MemoryStore)
    → eqs ref.digest "" ≡ false
    → eqs owner "" ≡ false
    → ref'.digest ≡ ref.digest
    → let once = (ensure_object_ref now ref owner m).1 in
      let twice = ensure_object_ref later ref' owner once in
      (twice.0 ≡ ok false) × (twice.1.object_refs ≡ once.object_refs)
ensure_twice now later ref ref' owner m named by same =
    let once = (ensure_object_ref now ref owner m).1 in
    let r =
      ensure_again later ref' owner once
        (subst (λ d. has_key owner (owners_at d once) ≡ true) (sym same)
          (ensure_holds now ref owner m named by))
        (subst (λ d. eqs d "" ≡ false) (sym same) named) by in
    (r.0, r.1)
