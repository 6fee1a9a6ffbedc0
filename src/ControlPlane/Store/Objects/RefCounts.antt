-- ===== src/ControlPlane/Store/Objects/RefCounts.antt =====
-- Reference counts: the count of an object is the number of its owners, whatever the calls.
use repo_ark.Prelude.{
  ℕ, suc, ◌+◌, ◌^◌, ◌≤◌, ◌<◌, String, ◌≡◌, sym, ap, subst, ◌∙◌, inl, inr, Bool, true, false, ◌||◌,
  [], ◌∷◌, arith, length, Bool-cases, if◌then◌else◌,
}
use repo_ark.Prelude.Int.{pos, add64, sub64, lti, wrap64-IsInt64}
use repo_ark.Prelude.Text.{eqs, eq_iff}
use repo_ark.Prelude.Table.{
  Keys, put, get-put, has_key, remove_key, DistinctKeys, DistinctKeys-remove_key, length-remove_key,
}
use repo_ark.Prelude.Clock.{Time}
use repo_ark.ControlPlane.Model.{ObjectRef}
use repo_ark.ControlPlane.Store.{MemoryStore}
use repo_ark.ControlPlane.Store.Objects.{
  ref_at, merged_ref, owners_at, with_owners, ensure_object_ref, release_object_ref,
}

add64_pos : (n : ℕ) → n + 1 < 2 ^ 63 → add64 (pos n) (pos 1) ≡ pos (n + 1)
unfolding add64
add64_pos n h = ground (arith, wrap64-IsInt64 (pos (n + 1)))

sub64_pos : (n : ℕ) → suc n < 2 ^ 63 → sub64 (pos (suc n)) (pos 1) ≡ pos n
unfolding sub64
sub64_pos n h = ground (arith, wrap64-IsInt64 (pos n))

-- What holds of the reference and the owners of one digest; `n` bounds the number of owners.
pub record Counted (n : ℕ) (r : ObjectRef) (owners : Keys) : Type 0 where
  pub count : r.ref_count ≡ pos (length owners)
  pub named : eqs r.digest "" ≡ true → owners ≡ []
  pub distinct : DistinctKeys owners
  pub bounded : length owners ≤ n

pub record IsCounted (n : ℕ) (m : MemoryStore) : Type 0 where
  pub at_digest : (d : String) → Counted n (ref_at d m) (owners_at d m)

module _ (now : Time) (n : ℕ) where
  abbrev counted_up : ObjectRef → ObjectRef → ObjectRef
  counted_up ref stored =
      let cur = merged_ref ref stored in
      record cur { ref_count = add64 cur.ref_count (pos 1); updated_at = now }

  up-Counted :
      (ref r : ObjectRef) (owner : String) (owners : Keys)
      → suc n < 2 ^ 63
      → eqs ref.digest "" ≡ false
      → ref.ref_count ≡ pos 0
      → has_key owner owners ≡ false
      → Counted n r owners
      → Counted (suc n) (counted_up ref r) (owner ∷ owners)
  up-Counted ref r owner owners room named fresh new c = record {
    count = ground (
      arith,
      ap (λ x. add64 x (pos 1)) c.count,
      ap (λ x. add64 x (pos 1)) fresh,
      add64_pos (length owners),
      add64_pos 0,
      c.named,
      ap (λ (ks : Keys). length ks),
    );
    named = λ e. ground (arith, c.named);
    distinct = (new, c.distinct);
    bounded = omega (arith, c.bounded);
  }

  abbrev counted_down : ObjectRef → ObjectRef
  counted_down r = record r {
    ref_count = if lti (pos 0) r.ref_count then sub64 r.ref_count (pos 1) else r.ref_count;
    updated_at = now;
  }

  down-Counted :
      (r : ObjectRef) (owner : String) (owners : Keys)
      → n < 2 ^ 63
      → has_key owner owners ≡ true
      → Counted n r owners
      → Counted n (counted_down r) (remove_key owner owners)
  down-Counted r owner owners room held c = record {
    count =
        let shorter = length-remove_key owner owners c.distinct held in
        ground (
          arith,
          c.count,
          shorter,
          c.bounded,
          ap (λ x. sub64 x (pos 1)) (c.count ∙ ap pos shorter),
          sub64_pos (length (remove_key owner owners)),
        );
    named = λ e. cc (ap (has_key owner) (c.named e), held);
    distinct = DistinctKeys-remove_key owner owners c.distinct;
    bounded = omega (arith, length-remove_key owner owners c.distinct held, c.bounded);
  }

weaken : (n : ℕ) (r : ObjectRef) (owners : Keys) → Counted n r owners → Counted (suc n) r owners
weaken n r owners c = record {
  count = c.count;
  named = c.named;
  distinct = c.distinct;
  bounded = omega (arith, c.bounded);
}

-- Writing the reference and the owners of one digest.
put-IsCounted :
    (n n' : ℕ) (m : MemoryStore) (d : String) (r : ObjectRef) (owners : Keys)
    → n ≤ n'
    → IsCounted n m
    → Counted n' r owners
    → IsCounted n' (record m {
      object_refs = put d r m.object_refs;
      object_ref_owners = put d owners m.object_ref_owners;
    })
put-IsCounted n n' m d r owners le h c = record {
  at_digest = λ x. elim (Bool-cases (eqs d x)) [
    | inl hit ↦
        rw
          (
            get-put d x r m.object_refs,
            get-put d x owners m.object_ref_owners,
            hit,
            ref_at,
            owners_at,
          )
          c
    | inr other ↦
        rw
          (
            get-put d x r m.object_refs,
            get-put d x owners m.object_ref_owners,
            other,
            ref_at,
            owners_at,
          )
          (record {
            count = (h.at_digest x).count;
            named = (h.at_digest x).named;
            distinct = (h.at_digest x).distinct;
            bounded = omega (arith, (h.at_digest x).bounded);
          })
  ];
}

-- Making the set of owners of a digest adds no owner.
owners-with_owners :
    (d x : String) (m : MemoryStore) → owners_at x (with_owners d m) ≡ owners_at x m
owners-with_owners d x m =
    ground
      (arith, get-put d x (owners_at d m) m.object_ref_owners, eq_iff d x, ap (λ s. owners_at s m))

or_left : (a b : Bool) → (a || b) ≡ false → a ≡ false
or_left a b h = ground arith

step_up :
    {n : ℕ} {m : MemoryStore}
    → ((d : String) → Counted n (ref_at d m) (owners_at d m))
    → IsCounted (suc n) m
step_up {n} {m} h = record { at_digest = λ d. weaken n (ref_at d m) (owners_at d m) (h d) }

module _ (now : Time) (n : ℕ) (m : MemoryStore) where
  -- EnsureObjectRef by a new owner raises the count by one, and by an old owner leaves it: the count
  -- stays the number of owners, of which there is at most one more. The given reference has no count
  -- of its own.
  pub ensure-IsCounted :
      (ref : ObjectRef) (owner : String)
      → suc n < 2 ^ 63
      → ref.ref_count ≡ pos 0
      → IsCounted n m
      → IsCounted (suc n) (ensure_object_ref now ref owner m).1
  unfolding ensure_object_ref
  ensure-IsCounted ref owner room fresh h = elim (Bool-cases (eqs ref.digest "" || eqs owner "")) [
    | inl bad ↦ rw (bad, ensure_object_ref) (step_up (λ d. h.at_digest d))
    | inr good ↦
        rw (good, ensure_object_ref)
          (elim (Bool-cases (has_key owner (owners_at ref.digest m))) [
            | inl old ↦ rw old (
                step_up (λ d.
                  subst (Counted n (ref_at d m)) (sym (owners-with_owners ref.digest d m))
                    (h.at_digest d)))
            | inr new ↦ rw new (
                put-IsCounted n (suc n) m ref.digest (counted_up now n ref (ref_at ref.digest m))
                  (owner ∷ owners_at ref.digest m) (omega arith) h
                  (up-Counted now n ref (ref_at ref.digest m) owner (owners_at ref.digest m) room
                    (or_left (eqs ref.digest "") (eqs owner "") good) fresh new
                    (h.at_digest ref.digest)))
          ])
  ]

  -- ReleaseObjectRef by an owner lowers the count by one, and by anyone else changes nothing.
  pub release-IsCounted :
      (digest owner : String)
      → n < 2 ^ 63
      → IsCounted n m
      → IsCounted n (release_object_ref now digest owner m).1
  unfolding release_object_ref
  release-IsCounted digest owner room h = elim (Bool-cases (has_key owner (owners_at digest m))) [
    | inr other ↦ rw (other, release_object_ref) h
    | inl held ↦
        rw (held, release_object_ref)
          (put-IsCounted n n m digest (counted_down now n (ref_at digest m))
            (remove_key owner (owners_at digest m)) (omega arith) h
            (down-Counted now n (ref_at digest m) owner (owners_at digest m) room held
              (h.at_digest digest)))
  ]
