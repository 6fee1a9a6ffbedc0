-- ===== src/ControlPlane/ReplicationHealth.antt =====
-- The health report and the clean-up of transfers of internal/controlplane/replication.go. The
-- removal of spool files, whose errors the source ignores, is not modelled.
pub mod Counted
pub mod Verdict
use repo_ark.Prelude.{
  ℕ, suc, ◌+◌, ◌*◌, String, Bool, true, false, not, ◌&&◌, ◌||◌, Option, none, some, List, [], ◌∷◌,
  length, if◌then◌else◌,
}
use repo_ark.Prelude.Int.{ℤ, pos, lti, lei}
use repo_ark.Prelude.Text.{eqs, trim_space}
use repo_ark.Prelude.Table.{Table, Keys, get, put, has_key, add_key}
use repo_ark.Prelude.Clock.{Time, Duration, time_add, hour, positive_or, zero_time}
use repo_ark.ControlPlane.Model.{
  Agent, Generation, GenerationReplica, ReplicationTransfer, Health, local_worker_affinity,
  is_replica_ready,
}
use repo_ark.ControlPlane.Config.{ReplicationConfig, StorageDataConfig}
use repo_ark.ControlPlane.Platform.{Platform}
use repo_ark.ControlPlane.Store.{MemoryStore}
use repo_ark.ControlPlane.Store.Repositories.{list_agents}
use repo_ark.ControlPlane.Store.Generations.{
  list_all_generations, list_replicas, list_expired_replication_transfers,
  delete_replication_transfer,
}
use repo_ark.ControlPlane.Agents.{
  agent_allowed, agent_counts_durable, agent_failure_domain, timeout_of, is_live,
}

pub record ReplicationHealthReport : Type 0 where
  pub enabled : Bool
  pub generations : ℕ
  pub healthy_generations : ℕ
  pub deficits : ℕ
  pub ready_replicas : ℕ
  pub online_ready_replicas : ℕ
  pub min_healthy : ℤ
  pub min_failure_domains : ℤ
  pub failure_domain_deficits : ℕ

-- The zero value of Agent.
abbrev pub zero_agent : Agent
zero_agent = record {
  id = "";
  name = "";
  cert_subject = "";
  labels_json = "";
  replication_public_key = "";
  status = "";
  storage_health = Health.unset;
  storage_total_bytes = pos 0;
  storage_free_bytes = pos 0;
  storage_free_percent = pos 0;
  storage_probe_ms = pos 0;
  storage_error = "";
  disk_risk_score = pos 0;
  disk_model = "";
  disk_serial = "";
  disk_temperature_c = pos 0;
  disk_percentage_used = pos 0;
  disk_media_errors = pos 0;
  disk_critical_warning = pos 0;
  inventory_root = "";
  inventory_objects = pos 0;
  inventory_bytes = pos 0;
  inventory_json = "";
  last_seen_at = zero_time;
  updated_at = zero_time;
}

-- The local worker as the report counts it.
abbrev pub local_agent : Agent
local_agent = record zero_agent {
  id = local_worker_affinity;
  labels_json = "{\"__repoark_local_domain\":\"local\"}";
}

-- online and onlineAgents, which have the same keys.
abbrev pub online_table :
    Time → Duration → ReplicationConfig → StorageDataConfig → List Agent → Table Agent → Table Agent
online_table now timeout cfg storage [] t = t
online_table now timeout cfg storage (a ∷ rest) t =
    let counts =
      agent_allowed a.id cfg.allowed_agents cfg.excluded_agents
      && (is_live now timeout a && agent_counts_durable a storage) in
    online_table now timeout cfg storage rest (if counts then put a.id a t else t)

-- What the loop over the replicas of a generation counts: the ready ones, the ready ones online, and
-- the failure domains of these.
pub record Tally : Type 0 where
  pub ready : ℕ
  pub healthy : ℕ
  pub domains : Keys

abbrev pub add_domain : String → Keys → Keys
add_domain d ds = if eqs d "" then ds else add_key d ds

module _ (p : Platform) (cfg : ReplicationConfig) where
  abbrev tally_one : Option Agent → GenerationReplica → Tally → Tally
  tally_one none r t = if is_replica_ready r.state then record t { ready = suc t.ready } else t
  tally_one (some a) r t =
      if is_replica_ready r.state
      then record {
        ready = suc t.ready;
        healthy = suc t.healthy;
        domains = add_domain (agent_failure_domain p a cfg.failure_domain_label) t.domains;
      }
      else t

  unfoldable pub tally : Table Agent → List GenerationReplica → Tally
  tally online [] = record { ready = 0; healthy = 0; domains = [] }
  tally online (r ∷ rest) = tally_one (get r.agent_id online) r (tally online rest)

  -- The failure domains are asked for.
  abbrev pub wants_domains : Bool
  wants_domains =
      not (eqs (trim_space cfg.failure_domain_label) "") && lti (pos 0) cfg.min_failure_domains

  abbrev pub domains_ok : Keys → Bool
  domains_ok ds = if wants_domains then lei cfg.min_failure_domains (pos (length ds)) else true

  abbrev pub is_healthy : ℤ → Tally → Bool
  is_healthy min_healthy t = lei min_healthy (pos t.healthy) && domains_ok t.domains

  abbrev pub count_generation : ℤ → Tally → ReplicationHealthReport → ReplicationHealthReport
  count_generation min_healthy t r = record r {
    ready_replicas = r.ready_replicas + t.ready;
    online_ready_replicas = r.online_ready_replicas + t.healthy;
    failure_domain_deficits =
        if domains_ok t.domains then r.failure_domain_deficits else suc r.failure_domain_deficits;
    healthy_generations =
        if is_healthy min_healthy t then suc r.healthy_generations else r.healthy_generations;
    deficits = if is_healthy min_healthy t then r.deficits else suc r.deficits;
  }

  abbrev pub count_generations :
      ℤ
      → Table Agent
      → MemoryStore
      → List Generation
      → ReplicationHealthReport
      → ReplicationHealthReport
  count_generations min_healthy online m [] r = r
  count_generations min_healthy online m (g ∷ gs) r =
      count_generations min_healthy online m gs
        (count_generation min_healthy (tally online (list_replicas g.id m)) r)

  -- The agents that count, the local worker first where the configuration includes it.
  abbrev pub online_of : Time → StorageDataConfig → MemoryStore → Table Agent
  online_of now storage m =
      online_table now (timeout_of p cfg.agent_timeout) cfg storage (list_agents m)
        (if cfg.include_local then (local_worker_affinity, local_agent) ∷ [] else [])

  abbrev pub min_healthy_of : ℤ
  min_healthy_of = if lti cfg.min_healthy (pos 1) then pos 1 else cfg.min_healthy

  abbrev pub initial_report : ℕ → ReplicationHealthReport
  initial_report generations = record {
    enabled = cfg.enabled;
    generations = generations;
    healthy_generations = 0;
    deficits = 0;
    ready_replicas = 0;
    online_ready_replicas = 0;
    min_healthy = min_healthy_of;
    min_failure_domains = cfg.min_failure_domains;
    failure_domain_deficits = 0;
  }

  unfoldable pub replication_health_with_storage :
      Time → StorageDataConfig → MemoryStore → ReplicationHealthReport
  replication_health_with_storage now storage m =
      let gens = list_all_generations (pos 20000) m in
      count_generations min_healthy_of (online_of now storage m) m gens
        (initial_report (length gens))

  unfoldable pub replication_transfer_expiry : Time → Time
  replication_transfer_expiry now =
      time_add now (positive_or (p.parse_duration cfg.transfer_ttl) (pos (2 * hour)))

abbrev pub delete_transfers : List ReplicationTransfer → MemoryStore → MemoryStore
delete_transfers [] m = m
delete_transfers (t ∷ ts) m = delete_transfers ts (delete_replication_transfer t.id m)

unfoldable pub cleanup_expired_replication_transfers : Time → MemoryStore → ℕ × MemoryStore
cleanup_expired_replication_transfers now m =
    let xs = list_expired_replication_transfers now (pos 1000) m in
    (length xs, delete_transfers xs m)
