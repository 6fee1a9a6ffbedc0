-- ===== src/ControlPlane/Restores.antt =====
-- SelectRestoreAffinity of internal/controlplane/replication.go, which chooses the agent to restore
-- a generation from, and AffinityFromMetaPath of worker.go.
pub mod Affinity
use Prim.Native.Char.{code}
use repo_ark.Prelude.{
  ℕ, String, Bool, true, false, not, ◌&&◌, Option, none, some, List, [], ◌∷◌, ◌==◌, if◌then◌else◌,
}
use repo_ark.Prelude.Text.{eqs, lts, trim_space}
use repo_ark.Prelude.Table.{Keys, has_key, add_key}
use repo_ark.Prelude.Sort.{sort_by}
use repo_ark.Prelude.Clock.{Time, Duration}
use repo_ark.ControlPlane.Model.{Agent, GenerationReplica, local_worker_affinity, is_replica_ready}
use repo_ark.ControlPlane.Config.{ReplicationConfig, StorageDataConfig}
use repo_ark.ControlPlane.Platform.{Platform}
use repo_ark.ControlPlane.Store.{MemoryStore}
use repo_ark.ControlPlane.Store.Repositories.{list_agents}
use repo_ark.ControlPlane.Store.Generations.{list_replicas}
use repo_ark.ControlPlane.Agents.{agent_readable, timeout_of, is_live}

-- strings.HasPrefix with strings.TrimPrefix
abbrev without_prefix : String → String → Option String
without_prefix String.[] s = some s
without_prefix (String.◌∷◌ c cs) String.[] = none
without_prefix (String.◌∷◌ c cs) (String.◌∷◌ d ds) =
    if code c == code d then without_prefix cs ds else none

-- strings.Cut at "/", the part before it
abbrev before_slash : String → String
before_slash String.[] = ""
before_slash (String.◌∷◌ c s) = if code c == 47 then "" else (String.◌∷◌ c (before_slash s))

unfoldable pub affinity_from_meta_path : String → String
affinity_from_meta_path meta_path = elim (without_prefix "agent://" meta_path) [
  | none ↦ local_worker_affinity
  | some rest ↦ trim_space (before_slash rest)
]

-- The local worker, and each agent that is live and readable.
abbrev pub online_agents : Time → Duration → StorageDataConfig → List Agent → Keys
online_agents now timeout storage [] = local_worker_affinity ∷ []
online_agents now timeout storage (a ∷ rest) =
    let ids = online_agents now timeout storage rest in
    if is_live now timeout a && agent_readable a storage then add_key a.id ids else ids

-- The agents online that hold a ready replica.
abbrev pub available_agents : Keys → List GenerationReplica → Keys
available_agents online [] = []
available_agents online (r ∷ rest) =
    let ids = available_agents online rest in
    if is_replica_ready r.state && has_key r.agent_id online then add_key r.agent_id ids else ids

-- ids[0] of the sorted identifiers.
abbrev pub first_of : Keys → Option String
first_of ids = elim (sort_by lts ids) [ [] ↦ none | x ∷ xs ↦ some x ]

-- `none` is the error that no online ready replica is there.
unfoldable pub select_restore_affinity_with_storage :
    Platform
    → Time
    → String
    → String
    → ReplicationConfig
    → StorageDataConfig
    → MemoryStore
    → Option String
select_restore_affinity_with_storage p now generation_id preferred_meta_path cfg storage m =
    let preferred = affinity_from_meta_path preferred_meta_path in
    let online = online_agents now (timeout_of p cfg.agent_timeout) storage (list_agents m) in
    let available = available_agents online (list_replicas generation_id m) in
    if has_key preferred available then some preferred else first_of available
