-- ===== src/ControlPlane/Store/Tests/ObjectRuns.antt =====
-- Object references at small inputs.
use repo_ark.Prelude.{◌+◌, ◌≡◌, refl, true, List, [], ◌∷◌, arith, length}
use repo_ark.Prelude.Table.{get, put, has_key}
use repo_ark.ControlPlane.Store.{MemoryStore, new_memory_store}
use repo_ark.ControlPlane.Store.Objects.{owners_at, ensure_object_ref, protected_object_digests}
use repo_ark.ControlPlane.Store.Objects.RefCounts.{IsCounted, ensure-IsCounted}
use repo_ark.ControlPlane.Store.Objects.Retries.{
  Call, ensures, releases, run, run-IsCounted, new_memory_store-IsCounted,
}
use repo_ark.ControlPlane.Store.Objects.Protection.{owned_protected}
use repo_ark.ControlPlane.Samples.{blob}

abbrev calls : List Call
calls =
    ensures 100 blob "g1"
    ∷ ensures 200 blob "g2"
    ∷ ensures 300 blob "g1"
    ∷ releases 400 "d1" "g2"
    ∷ []

run-IsCounted_example : IsCounted (0 + length calls) (run calls new_memory_store)
run-IsCounted_example =
    run-IsCounted 0 calls new_memory_store (omega arith) (refl, (refl, (refl, (tt, tt))))
      new_memory_store-IsCounted

abbrev owned : MemoryStore
owned = (ensure_object_ref 100 blob "g1" new_memory_store).1

owned-IsCounted : IsCounted 1 owned
owned-IsCounted =
    ensure-IsCounted 100 0 new_memory_store blob "g1" (omega arith) refl new_memory_store-IsCounted

owned_held : has_key "g1" (owners_at "d1" owned) ≡ true
unfolding ensure_object_ref get put new_memory_store
owned_held = refl

owned_protected_example : has_key "d1" (protected_object_digests 500 owned) ≡ true
owned_protected_example = owned_protected 1 500 "d1" "g1" owned owned-IsCounted owned_held
