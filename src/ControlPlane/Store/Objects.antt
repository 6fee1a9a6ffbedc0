-- ===== src/ControlPlane/Store/Objects.antt =====
-- The object lifecycle of internal/controlplane/memory.go: references with their owners, leases, and
-- the digests that are protected.
pub mod RefCounts
pub mod Retries
pub mod Protection
use repo_ark.Prelude.{
  ℕ, ◌+◌, String, Bool, true, false, not, ◌&&◌, ◌||◌, Option, none, some, List, [], ◌∷◌, length,
  take, select, ltb, if◌then◌else◌,
}
use repo_ark.Prelude.Int.{ℤ, pos, pos_part, add64, sub64, lti}
use repo_ark.Prelude.Text.{eqs, lts}
use repo_ark.Prelude.Table.{Table, Keys, get, put, delete, values, has_key, add_key, remove_key}
use repo_ark.Prelude.Sort.{sort_by}
use repo_ark.Prelude.Clock.{Time, zero_time, is_zero, is_after, is_before}
use repo_ark.ControlPlane.Model.{ObjectRef, ObjectLease}
use repo_ark.ControlPlane.Store.{
  MemoryStore, Result, ok, err, Outcome, digest_required, negative_refcount,
  digest_and_owner_required, invalid_lease,
}

-- The zero value of ObjectRef, which a missing key reads as.
abbrev pub zero_ref : ObjectRef
zero_ref = record {
  digest = "";
  kind = "";
  bytes = pos 0;
  ref_count = pos 0;
  updated_at = zero_time;
}

-- m.ObjectRefs[digest]
abbrev pub ref_at : String → MemoryStore → ObjectRef
ref_at digest m = elim (get digest m.object_refs) [ none ↦ zero_ref | some r ↦ r ]

-- The stored reference, or the given one where there is none, with a given kind and size taken over.
abbrev pub merged_ref : ObjectRef → ObjectRef → ObjectRef
merged_ref ref stored =
    let cur = if eqs stored.digest "" then ref else stored in
    record cur {
      kind = if eqs ref.kind "" then cur.kind else ref.kind;
      bytes = if lti (pos 0) ref.bytes then ref.bytes else cur.bytes;
    }

unfoldable pub adjust_object_ref :
    Time → ObjectRef → ℤ → MemoryStore → Result ObjectRef × MemoryStore
adjust_object_ref now ref delta m =
    if eqs ref.digest ""
    then (err digest_required, m)
    else let cur = merged_ref ref (ref_at ref.digest m) in
      let count = add64 cur.ref_count delta in
      let next = record cur { ref_count = count; updated_at = now } in
      if lti count (pos 0)
      then (err negative_refcount, m)
      else (ok next, record m { object_refs = put ref.digest next m.object_refs })

-- m.ObjectRefOwners[digest]; a missing key reads as no owners.
abbrev pub owners_at : String → MemoryStore → Keys
owners_at digest m = elim (get digest m.object_ref_owners) [ none ↦ [] | some ks ↦ ks ]

-- The set of owners of a digest is made before it is looked at.
abbrev pub with_owners : String → MemoryStore → MemoryStore
with_owners digest m = record m {
  object_ref_owners = put digest (owners_at digest m) m.object_ref_owners;
}

unfoldable pub ensure_object_ref :
    Time → ObjectRef → String → MemoryStore → Result Bool × MemoryStore
ensure_object_ref now ref owner m =
    if eqs ref.digest "" || eqs owner ""
    then (err digest_and_owner_required, m)
    else let owners = owners_at ref.digest m in
      let cur = merged_ref ref (ref_at ref.digest m) in
      let next = record cur { ref_count = add64 cur.ref_count (pos 1); updated_at = now } in
      if has_key owner owners then (ok false, with_owners ref.digest m) else (
        ok true,
        record m {
          object_refs = put ref.digest next m.object_refs;
          object_ref_owners = put ref.digest (add_key owner owners) m.object_ref_owners;
        },
      )

unfoldable pub release_object_ref : Time → String → String → MemoryStore → Bool × MemoryStore
release_object_ref now digest owner m =
    let owners = owners_at digest m in
    let cur = ref_at digest m in
    let next = record cur {
      ref_count = if lti (pos 0) cur.ref_count then sub64 cur.ref_count (pos 1) else cur.ref_count;
      updated_at = now;
    } in
    if has_key owner owners
    then (
      true,
      record m {
        object_refs = put digest next m.object_refs;
        object_ref_owners = put digest (remove_key owner owners) m.object_ref_owners;
      },
    )
    else (false, m)

unfoldable pub get_object_ref : String → MemoryStore → ObjectRef × Bool
get_object_ref digest m = elim (get digest m.object_refs) [
  | none ↦ (zero_ref, false)
  | some r ↦ (r, true)
]

-- A positive limit cuts a list.
abbrev pub cut : {A : Type 0} → ℤ → List A → List A
cut limit out =
    if lti (pos 0) limit && ltb (pos_part limit) (length out)
    then take (pos_part limit) out
    else out

unfoldable pub list_object_refs : ℤ → MemoryStore → List ObjectRef
list_object_refs limit m = cut limit (sort_by (λ x y. lts x.digest y.digest) (values m.object_refs))

-- `fresh` is the result of newID("olease").
unfoldable pub acquire_object_lease : Time → String → ObjectLease → MemoryStore → Outcome (Unit {0})
acquire_object_lease now fresh l m =
    let id = if eqs l.id "" then fresh else l.id in
    if eqs l.digest "" || eqs l.owner "" || is_zero l.expires_at then (err invalid_lease, m) else (
      ok tt,
      record m { object_leases = put id (record l { id = id; updated_at = now }) m.object_leases },
    )

unfoldable pub release_object_lease : String → MemoryStore → MemoryStore
release_object_lease id m = record m { object_leases = delete id m.object_leases }

unfoldable pub list_active_object_leases : Time → ℤ → MemoryStore → List ObjectLease
list_active_object_leases now limit m = cut limit (
    sort_by (λ x y. is_before x.expires_at y.expires_at)
      (select (λ l. is_after l.expires_at now) (values m.object_leases)))

-- The keys of the references with a positive count.
abbrev pub counted_digests : Table ObjectRef → Keys
counted_digests [] = []
counted_digests ((d, r) ∷ t) =
    let rest = counted_digests t in if lti (pos 0) r.ref_count then add_key d rest else rest

-- The digests of the leases that have not run out, added to a set.
abbrev pub leased_digests : Time → List ObjectLease → Keys → Keys
leased_digests now [] out = out
leased_digests now (l ∷ ls) out =
    let rest = leased_digests now ls out in
    if is_after l.expires_at now then add_key l.digest rest else rest

unfoldable pub protected_object_digests : Time → MemoryStore → Keys
protected_object_digests now m =
    leased_digests now (values m.object_leases) (counted_digests m.object_refs)
