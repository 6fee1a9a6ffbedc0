-- ===== src/ControlPlane/Config.antt =====
-- The parts of internal/config/config.go that replication, erasure and storage read. A float64 is an
-- integer that counts millionths of its unit, as in Model.
use repo_ark.Prelude.{String, Bool, List}
use repo_ark.Prelude.Int.{ℤ}

pub record ReplicationConfig : Type 0 where
  pub enabled : Bool
  pub factor : ℤ
  pub min_healthy : ℤ
  pub reconcile_interval : String
  pub agent_timeout : String
  pub transfer_ttl : String
  pub spool_root : String
  pub local_key_path : String
  pub include_local : Bool
  pub max_transfer_bytes : ℤ
  pub failure_domain_label : String
  pub min_failure_domains : ℤ
  pub allowed_agents : List String
  pub excluded_agents : List String

pub record ErasureConfig : Type 0 where
  pub enabled : Bool
  pub min_object_bytes : ℤ
  pub data_shards : ℤ
  pub parity_shards : ℤ
  pub block_bytes : ℤ
  pub distributed : Bool
  pub shard_replication : ℤ
  pub failure_domain_label : String
  pub min_failure_domains : ℤ
  pub shard_pool_label : String
  pub reconcile_interval : String

pub record DiskTelemetryConfig : Type 0 where
  pub enabled : Bool
  pub interval : String
  pub smartctl_path : String
  pub nvme_path : String
  pub device : String
  pub max_temperature_c : ℤ
  pub max_percentage_used : ℤ
  pub max_media_errors : ℤ
  pub risk_threshold : ℤ

pub record ScrubConfig : Type 0 where
  pub enabled : Bool
  pub interval : String
  pub sample_objects : ℤ
  pub repair : Bool
  pub seed_salt : String

pub record TieringConfig : Type 0 where
  pub enabled : Bool
  pub cold_root : String
  pub min_age : String
  pub min_bytes : ℤ
  pub rclone_remote : String

pub record StorageDataConfig : Type 0 where
  pub enabled : Bool
  pub min_free_bytes : ℤ
  pub min_free_percent : ℤ
  pub max_probe : String
  pub evacuate_degraded : Bool
  pub inventory_enabled : Bool
  pub inventory_interval : String
  pub chunk_bytes : ℤ
  pub chunk_retries : ℤ
  pub bandwidth_limit_mbps : ℤ
  pub object_replication_factor : ℤ
  pub object_pool_label : String
  pub disk_telemetry : DiskTelemetryConfig
  pub scrub : ScrubConfig
  pub tiering : TieringConfig
  pub erasure : ErasureConfig
