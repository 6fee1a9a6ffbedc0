-- ===== src/ControlPlane/Store/ErasureSets.antt =====
-- Erasure sets and the copies of their shards, of internal/controlplane/memory.go.
pub mod Shards
use repo_ark.Prelude.{
  String, Option, Bool, true, false, not, ◌&&◌, ◌||◌, none, some, List, [], ◌∷◌, select,
  if◌then◌else◌,
}
use repo_ark.Prelude.Int.{ℤ, eqi}
use repo_ark.Prelude.Text.{eqs, lts}
use repo_ark.Prelude.Table.{Table, get, put, values, list_at}
use repo_ark.Prelude.Sort.{sort_by}
use repo_ark.Prelude.Clock.{Time, is_zero}
use repo_ark.ControlPlane.Model.{ErasureSet, ErasureShard}
use repo_ark.ControlPlane.Store.{
  MemoryStore, Result, ok, err, Outcome, erasure_digest_required, invalid_shard,
}
use repo_ark.ControlPlane.Store.Objects.{cut}

unfoldable pub record_erasure_set : Time → ErasureSet → MemoryStore → Outcome (Unit {0})
record_erasure_set now e m =
    let created = if is_zero e.created_at then now else e.created_at in
    let stamped = record e { created_at = created; updated_at = now } in
    if eqs e.object_sha256 ""
    then (err erasure_digest_required, m)
    else (ok tt, record m { erasure_sets = put e.object_sha256 stamped m.erasure_sets })

unfoldable pub get_erasure_set : String → MemoryStore → Option ErasureSet
get_erasure_set digest m = get digest m.erasure_sets

unfoldable pub list_erasure_sets : ℤ → MemoryStore → List ErasureSet
list_erasure_sets limit m =
    cut limit (sort_by (λ x y. lts x.object_sha256 y.object_sha256) (values m.erasure_sets))

-- A shard and an agent name one copy.
abbrev pub is_copy : ℤ → String → ErasureShard → Bool
is_copy index agent x = eqi x.shard_index index && eqs x.agent_id agent

-- The copy is replaced where it stands, and a new one comes last.
unfoldable pub put_shard : ErasureShard → List ErasureShard → List ErasureShard
put_shard sh [] = sh ∷ []
put_shard sh (x ∷ xs) =
    let rest = put_shard sh xs in if is_copy sh.shard_index sh.agent_id x then sh ∷ xs else x ∷ rest

unfoldable pub record_erasure_shard : Time → ErasureShard → MemoryStore → Outcome (Unit {0})
unfolding put_shard
record_erasure_shard now sh m =
    let xs =
      put_shard (record sh { updated_at = now }) (list_at sh.object_sha256 m.erasure_shards) in
    if eqs sh.object_sha256 "" || eqs sh.shard_sha256 "" || eqs sh.agent_id ""
    then (err invalid_shard, m)
    else (ok tt, record m { erasure_shards = put sh.object_sha256 xs m.erasure_shards })

-- The loop writes the kept copies to the front of the list it reads, which it never overtakes.
unfoldable pub delete_erasure_shard : String → ℤ → String → MemoryStore → MemoryStore
delete_erasure_shard digest index agent m =
    let out = select (λ x. not (is_copy index agent x)) (list_at digest m.erasure_shards) in
    record m { erasure_shards = put digest out m.erasure_shards }

unfoldable pub list_erasure_shards : String → MemoryStore → List ErasureShard
list_erasure_shards digest m = list_at digest m.erasure_shards
