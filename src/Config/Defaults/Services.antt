-- ===== src/Config/Defaults/Services.antt =====
-- The control plane of Default in internal/config/config.go. `under` is filepath.Join of the home
-- directory and the parts of a path. A float64 counts millionths.
use repo_ark.Prelude.{String, true, false, List, [], ◌∷◌}
use repo_ark.Prelude.Int.{pos}
use repo_ark.ControlPlane.Config.{ReplicationConfig, StorageDataConfig}
use repo_ark.Config.Services.{
  StoreConfig, WorkerConfig, SchedulerConfig, GenerationConfig, MirroringConfig, AgentConfig,
  WebAuthConfig, RestoreApprovalConfig, ControlPlaneConfig,
}

abbrev pub default_store : (List String → String) → StoreConfig
default_store under = record {
  driver = "sqlite";
  sqlite_path = under (".repoark" ∷ "control" ∷ "repoark.db" ∷ []);
  dsn_env = "REPOARK_DATABASE_URL";
}

abbrev pub default_workers : WorkerConfig
default_workers = record {
  concurrency = pos 2;
  poll_interval = "2s";
  lease = "2m";
  max_attempts = pos 5;
}

abbrev pub default_scheduler : SchedulerConfig
default_scheduler = record {
  enabled = true;
  tick = "30s";
  discovery_interval = "30m";
  default_interval = "24h";
  policies =
      record { pattern = "*"; interval = "24h"; priority = pos 50; mirror_gitlab = true } ∷ [];
}

abbrev pub default_generations : (List String → String) → GenerationConfig
default_generations under = record {
  enabled = true;
  root = under (".repoark" ∷ "generations" ∷ []);
  restore_root = under (".repoark" ∷ "recovery" ∷ []);
  keep_per_repo = pos 14;
}

abbrev pub default_mirroring : MirroringConfig
default_mirroring = record { enabled = false; after_backup = true }

abbrev pub default_agents : (List String → String) → AgentConfig
default_agents under = record {
  enabled = false;
  listen = "127.0.0.1:9790";
  server_url = "https://127.0.0.1:9790";
  ca_path = under (".config" ∷ "repoark" ∷ "pki" ∷ "ca.pem" ∷ []);
  ca_key_path = under (".config" ∷ "repoark" ∷ "pki" ∷ "ca-key.pem" ∷ []);
  server_cert_path = under (".config" ∷ "repoark" ∷ "pki" ∷ "server.pem" ∷ []);
  server_key_path = under (".config" ∷ "repoark" ∷ "pki" ∷ "server-key.pem" ∷ []);
  client_cert_path = under (".config" ∷ "repoark" ∷ "pki" ∷ "agent.pem" ∷ []);
  client_key_path = under (".config" ∷ "repoark" ∷ "pki" ∷ "agent-key.pem" ∷ []);
  agent_name = "local-agent";
  heartbeat = "15s";
  replication_key_path = under (".config" ∷ "repoark" ∷ "pki" ∷ "replication-x25519.key" ∷ []);
  labels = ("role", "backup-worker") ∷ [];
}

abbrev pub default_replication : (List String → String) → ReplicationConfig
default_replication under = record {
  enabled = false;
  factor = pos 2;
  min_healthy = pos 2;
  reconcile_interval = "1m";
  agent_timeout = "2m";
  transfer_ttl = "2h";
  spool_root = under (".repoark" ∷ "replication-spool" ∷ []);
  local_key_path = under (".config" ∷ "repoark" ∷ "pki" ∷ "replication-local-x25519.key" ∷ []);
  include_local = true;
  max_transfer_bytes = pos 21474836480;
  failure_domain_label = "";
  min_failure_domains = pos 0;
  allowed_agents = [];
  excluded_agents = [];
}

abbrev pub default_restore_approval : RestoreApprovalConfig
default_restore_approval = record {
  enabled = false;
  approval_ttl = "30m";
  require_distinct_approver = true;
  requesters = [];
  approvers = [];
}

abbrev pub default_storage : (List String → String) → StorageDataConfig
default_storage under = record {
  enabled = true;
  min_free_bytes = pos 10737418240;
  min_free_percent = pos 10000000;
  max_probe = "3s";
  evacuate_degraded = true;
  inventory_enabled = true;
  inventory_interval = "10m";
  chunk_bytes = pos 8388608;
  chunk_retries = pos 5;
  bandwidth_limit_mbps = pos 0;
  object_replication_factor = pos 0;
  object_pool_label = "cas_pool";
  disk_telemetry = record {
    enabled = false;
    interval = "15m";
    smartctl_path = "smartctl";
    nvme_path = "nvme";
    device = "";
    max_temperature_c = pos 70000000;
    max_percentage_used = pos 90000000;
    max_media_errors = pos 0;
    risk_threshold = pos 60;
  };
  scrub = record {
    enabled = false;
    interval = "24h";
    sample_objects = pos 100;
    repair = true;
    seed_salt = "";
  };
  tiering = record {
    enabled = false;
    cold_root = under (".repoark" ∷ "cold-cas" ∷ []);
    min_age = "168h";
    min_bytes = pos 67108864;
    rclone_remote = "";
  };
  erasure = record {
    enabled = false;
    min_object_bytes = pos 4294967296;
    data_shards = pos 6;
    parity_shards = pos 3;
    block_bytes = pos 1048576;
    distributed = false;
    shard_replication = pos 1;
    failure_domain_label = "zone";
    min_failure_domains = pos 2;
    shard_pool_label = "cas_pool";
    reconcile_interval = "5m";
  };
}

abbrev pub default_web_auth : WebAuthConfig
default_web_auth = record {
  enabled = false;
  mode = "oidc";
  issuer = "";
  client_id = "";
  client_secret_env = "REPOARK_OIDC_CLIENT_SECRET";
  redirect_url = "";
  session_key_env = "REPOARK_SESSION_KEY";
  group_claim = "groups";
  scopes = "profile" ∷ "email" ∷ "groups" ∷ [];
  step_up_acr_values = [];
  viewer_groups = [];
  operator_groups = [];
  admin_groups = [];
  required_amr = [];
  secure_cookies = true;
}

abbrev pub default_control_plane : (List String → String) → ControlPlaneConfig
default_control_plane under = record {
  enabled = false;
  store = default_store under;
  workers = default_workers;
  scheduler = default_scheduler;
  generations = default_generations under;
  mirroring = default_mirroring;
  agents = default_agents under;
  replication = default_replication under;
  restore_approval = default_restore_approval;
  storage = default_storage under;
  web_auth = default_web_auth;
}
