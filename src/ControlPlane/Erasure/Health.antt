-- ===== src/ControlPlane/Erasure/Health.antt =====
-- EvaluateDistributedErasureHealth of internal/controlplane/erasure_distributed.go: the verdict on
-- each erasure set.
pub mod Traces
pub mod Resilience
pub mod Report
use repo_ark.Prelude.{
  ℕ, suc, ◌+◌, String, Bool, true, false, not, ◌&&◌, ◌||◌, Option, none, some, List, [], ◌∷◌,
  length, any, count_if, if◌then◌else◌,
}
use repo_ark.Prelude.Int.{ℤ, pos, lti, eqi}
use repo_ark.Prelude.Text.{eqs}
use repo_ark.Prelude.Table.{Table, Keys, get, put, add_key}
use repo_ark.Prelude.Clock.{Time, Duration}
use repo_ark.ControlPlane.Model.{Agent, ErasureSet, ErasureShard, is_shard_ready}
use repo_ark.ControlPlane.Config.{ReplicationConfig, StorageDataConfig, ErasureConfig}
use repo_ark.ControlPlane.Platform.{Platform}
use repo_ark.ControlPlane.Store.{MemoryStore}
use repo_ark.ControlPlane.Store.Repositories.{list_agents}
use repo_ark.ControlPlane.Store.ErasureSets.{list_erasure_sets, list_erasure_shards}
use repo_ark.ControlPlane.Agents.{agent_counts_durable, agent_in_shard_pool, timeout_of, is_live}
use repo_ark.ControlPlane.Erasure.{domain_or_own}

pub record DistributedErasureHealth : Type 0 where
  pub sets : ℕ
  pub healthy : ℕ
  pub degraded : ℕ
  pub unrecoverable : ℕ
  pub shard_copies : ℕ
  pub failure_domain_deficits : ℕ

-- indexDomains: the failure domains of the copies of each shard.
abbrev pub IndexDomains : Type 0
IndexDomains = List (ℤ × Keys)

abbrev pub add_domain_at : ℤ → String → IndexDomains → IndexDomains
add_domain_at i d [] = (i, d ∷ []) ∷ []
add_domain_at i d ((j, ds) ∷ rest) =
    let others = add_domain_at i d rest in
    if eqi j i then (j, add_key d ds) ∷ rest else (j, ds) ∷ others

-- The copies that count, and where they are.
pub record Copies : Type 0 where
  pub count : ℕ
  pub index_domains : IndexDomains

module _ (p : Platform) (domain_key : String) (online : Table Agent) where
  abbrev add_copy : ErasureShard → Option Agent → Copies → Copies
  add_copy s none c = c
  add_copy s (some a) c = record {
    count = suc c.count;
    index_domains =
        add_domain_at s.shard_index (domain_or_own p domain_key s.agent_id a) c.index_domains;
  }

  unfoldable pub copies_of : List ErasureShard → Copies
  copies_of [] = record { count = 0; index_domains = [] }
  copies_of (s ∷ rest) =
      let c = copies_of rest in
      if is_shard_ready s.state then add_copy s (get s.agent_id online) c else c

abbrev pub add_all : Keys → Keys → Keys
add_all [] out = out
add_all (d ∷ ds) out = add_key d (add_all ds out)

-- The domains of all copies.
abbrev pub all_domains : IndexDomains → Keys
all_domains [] = []
all_domains ((i, ds) ∷ rest) = add_all ds (all_domains rest)

-- Some copy of the shard is outside the domain.
abbrev pub is_outside : String → ℤ × Keys → Bool
is_outside lost e = any (λ d. not (eqs d lost)) e.1

-- How many shards are left when a domain is lost.
abbrev pub remaining : String → IndexDomains → ℕ
remaining lost xs = count_if (is_outside lost) xs

abbrev pub is_resilient : ℤ → IndexDomains → Bool
is_resilient data_shards xs =
    not (any (λ lost. lti (pos (remaining lost xs)) data_shards) (all_domains xs))

pub data Verdict : Type 0 where
  set_healthy set_degraded set_unrecoverable : Verdict

unfoldable pub verdict : ErasureConfig → ErasureSet → IndexDomains → Verdict
verdict ecfg set xs =
    if lti (pos (length xs)) set.data_shards
    then set_unrecoverable
    else if lti (pos (length (all_domains xs))) ecfg.min_failure_domains
        || not (is_resilient set.data_shards xs)
    then set_degraded
    else set_healthy

abbrev pub count_set : Verdict → ℕ → DistributedErasureHealth → DistributedErasureHealth
count_set set_healthy n out = record out {
  shard_copies = out.shard_copies + n;
  healthy = suc out.healthy;
}
count_set set_degraded n out = record out {
  shard_copies = out.shard_copies + n;
  degraded = suc out.degraded;
  failure_domain_deficits = suc out.failure_domain_deficits;
}
count_set set_unrecoverable n out = record out {
  shard_copies = out.shard_copies + n;
  unrecoverable = suc out.unrecoverable;
}

abbrev pub no_health : ℕ → DistributedErasureHealth
no_health sets = record {
  sets = sets;
  healthy = 0;
  degraded = 0;
  unrecoverable = 0;
  shard_copies = 0;
  failure_domain_deficits = 0;
}

module _ (p : Platform) (now : Time) (rcfg : ReplicationConfig) (storage : StorageDataConfig) where
  abbrev pub durable_agents : List Agent → Table Agent → Table Agent
  durable_agents [] t = t
  durable_agents (a ∷ rest) t =
      let counts =
        is_live now (timeout_of p rcfg.agent_timeout) a
        && (agent_counts_durable a storage
            && agent_in_shard_pool p a storage.erasure.shard_pool_label) in
      durable_agents rest (if counts then put a.id a t else t)

  -- The copies of a set that count.
  abbrev pub copies_in : MemoryStore → ErasureSet → Copies
  copies_in m set =
      copies_of p storage.erasure.failure_domain_label (durable_agents (list_agents m) [])
        (list_erasure_shards set.object_sha256 m)

  abbrev pub count_sets :
      MemoryStore → List ErasureSet → DistributedErasureHealth → DistributedErasureHealth
  count_sets m [] out = out
  count_sets m (set ∷ sets) out =
      let c = copies_in m set in
      count_sets m sets (count_set (verdict storage.erasure set c.index_domains) c.count out)

  unfoldable pub evaluate_distributed_erasure_health : MemoryStore → DistributedErasureHealth
  evaluate_distributed_erasure_health m =
      let sets = list_erasure_sets (pos 20000) m in
      if not storage.erasure.enabled || not storage.erasure.distributed
      then no_health 0
      else count_sets m sets (no_health (length sets))
