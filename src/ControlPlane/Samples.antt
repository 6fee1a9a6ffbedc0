-- ===== src/ControlPlane/Samples.antt =====
-- Test data: a small control plane with two agents.
use repo_ark.Prelude.{ℕ, String, true, false, Option, none, some, [], ◌∷◌, if◌then◌else◌}
use repo_ark.Prelude.Int.{ℤ, pos}
use repo_ark.Prelude.Text.{eqs}
use repo_ark.Prelude.Table.{Table}
use repo_ark.Prelude.Clock.{zero_time}
use repo_ark.ControlPlane.Model.{
  Job, JobStatus, Repository, Generation, Agent, Health, GenerationReplica, ReplicaState, ObjectRef,
  ErasureSet, ErasureShard, ErasureState, ShardState, RestoreApproval, ApprovalStatus,
}
use repo_ark.ControlPlane.Config.{
  ReplicationConfig, ErasureConfig, StorageDataConfig, DiskTelemetryConfig, ScrubConfig,
  TieringConfig,
}
use repo_ark.ControlPlane.Platform.{Platform, text}
use repo_ark.ControlPlane.Store.{MemoryStore, new_memory_store}
use repo_ark.ControlPlane.Store.Repositories.{zero_repository}
use repo_ark.ControlPlane.Store.Objects.{zero_ref}
use repo_ark.ControlPlane.ReplicationHealth.{zero_agent}

-- The approval that a payload names: here the payload is its ID.
abbrev pub payload_id : String → Option String
payload_id s = if eqs s "" then none else some s

abbrev pub backup_job : Job
backup_job = record {
  id = "j1";
  kind = "backup-repo";
  target = "alice/tool";
  payload = "";
  status = JobStatus.unset;
  priority = pos 50;
  attempts = pos 0;
  max_attempts = pos 3;
  not_before = zero_time;
  affinity = "";
  lease_owner = "";
  lease_until = zero_time;
  created_at = 100;
  updated_at = 100;
  last_error = "";
}

abbrev pub waiting_job : Job
waiting_job = record backup_job { status = JobStatus.queued }

abbrev pub running_job : Job
running_job = record backup_job {
  status = JobStatus.running;
  attempts = pos 1;
  lease_owner = "w1";
  lease_until = 500;
}

abbrev pub restore_job : String → Job
restore_job id = record running_job {
  id = id;
  kind = "restore-generation";
  target = "t";
  payload = "a1";
}

abbrev pub store_of_jobs : Table Job → MemoryStore
store_of_jobs jobs = record new_memory_store { jobs = jobs }

abbrev pub approval : ApprovalStatus → RestoreApproval
approval status = record {
  id = "a1";
  repository = "alice/tool";
  generation_id = "g1";
  target = "/restore";
  requested_by = "alice";
  approved_by = "bob";
  status = status;
  created_at = 100;
  expires_at = 900;
  updated_at = 100;
}

abbrev pub node : String → Agent
node id = record zero_agent {
  id = id;
  replication_public_key = "k";
  storage_health = Health.healthy;
  storage_total_bytes = pos 1000;
  storage_free_bytes = pos 600;
  storage_free_percent = pos 60;
  labels_json = id;
  last_seen_at = 1000;
}

abbrev pub replica : String → GenerationReplica
replica agent = record {
  generation_id = "g1";
  repository_id = "r1";
  agent_id = agent;
  meta_path = "generation.json";
  state = ReplicaState.ready;
  bytes = pos 10;
  sha256 = "aa";
  verified_at = 100;
  updated_at = 100;
}

abbrev pub generation_at : String → ℕ → Generation
generation_at id t = record {
  id = id;
  repository_id = "r1";
  repository = "alice/tool";
  meta_path = "generation.json";
  created_at = t;
  verified = true;
  bundle_sha256 = "";
  lfs_sha256 = "";
}

abbrev pub tool : Repository
tool = record zero_repository {
  id = "r1";
  account = "alice";
  full_name = "alice/tool";
  enabled = true;
  next_run_at = 5000;
}

abbrev pub blob : ObjectRef
blob = record zero_ref { digest = "d1"; kind = "cas"; bytes = pos 7 }

abbrev pub shard : ℤ → String → ErasureShard
shard index agent = record {
  object_sha256 = "o1";
  shard_index = index;
  shard_sha256 = "s";
  agent_id = agent;
  failure_domain = agent;
  state = ShardState.ready;
  bytes = pos 4;
  updated_at = 100;
}

abbrev pub one_of_two : ErasureSet
one_of_two = record {
  object_sha256 = "o1";
  original_bytes = pos 4;
  data_shards = pos 1;
  parity_shards = pos 1;
  block_bytes = pos 4;
  state = ErasureState.ready;
  created_at = 100;
  updated_at = 100;
}

-- Two agents, a generation with a replica on each, and a set with a shard on each.
abbrev pub two_nodes : MemoryStore
two_nodes = record new_memory_store {
  repos = ("r1", tool) ∷ [];
  agents = ("n1", node "n1") ∷ ("n2", node "n2") ∷ [];
  generations = ("r1", generation_at "g1" 100 ∷ generation_at "g2" 200 ∷ []) ∷ [];
  replicas = ("g1", replica "n1" ∷ replica "n2" ∷ []) ∷ [];
  erasure_sets = ("o1", one_of_two) ∷ [];
  erasure_shards = ("o1", shard (pos 0) "n1" ∷ shard (pos 1) "n2" ∷ []) ∷ [];
}

-- Labels are the site of an agent, durations do not parse.
abbrev pub plain_platform : Platform
plain_platform = record {
  parse_duration = λ s. pos 0;
  text_labels = λ s. some (("site", s) ∷ []);
  any_labels = λ s. some (("site", text s) ∷ []);
  scan_int = λ s. pos 0;
  print_number = λ n. "0";
  is_base64 = λ s. true;
  rendezvous_score = λ object index copy agent. copy;
  print_index = λ n. "000";
}

abbrev pub by_site : ReplicationConfig
by_site = record {
  enabled = true;
  factor = pos 2;
  min_healthy = pos 2;
  reconcile_interval = "";
  agent_timeout = "";
  transfer_ttl = "";
  spool_root = "";
  local_key_path = "";
  include_local = false;
  max_transfer_bytes = pos 0;
  failure_domain_label = "site";
  min_failure_domains = pos 2;
  allowed_agents = [];
  excluded_agents = [];
}

abbrev pub erasure_by_site : ErasureConfig
erasure_by_site = record {
  enabled = true;
  min_object_bytes = pos 0;
  data_shards = pos 1;
  parity_shards = pos 1;
  block_bytes = pos 4;
  distributed = true;
  shard_replication = pos 1;
  failure_domain_label = "site";
  min_failure_domains = pos 2;
  shard_pool_label = "";
  reconcile_interval = "";
}

abbrev no_telemetry : DiskTelemetryConfig
no_telemetry = record {
  enabled = false;
  interval = "";
  smartctl_path = "";
  nvme_path = "";
  device = "";
  max_temperature_c = pos 0;
  max_percentage_used = pos 0;
  max_media_errors = pos 0;
  risk_threshold = pos 0;
}

abbrev no_scrub : ScrubConfig
no_scrub = record {
  enabled = false;
  interval = "";
  sample_objects = pos 0;
  repair = false;
  seed_salt = "";
}

abbrev no_tiering : TieringConfig
no_tiering = record {
  enabled = false;
  cold_root = "";
  min_age = "";
  min_bytes = pos 0;
  rclone_remote = "";
}

abbrev pub storage_by_site : StorageDataConfig
storage_by_site = record {
  enabled = true;
  min_free_bytes = pos 100;
  min_free_percent = pos 10;
  max_probe = "";
  evacuate_degraded = true;
  inventory_enabled = false;
  inventory_interval = "";
  chunk_bytes = pos 0;
  chunk_retries = pos 0;
  bandwidth_limit_mbps = pos 0;
  object_replication_factor = pos 0;
  object_pool_label = "";
  disk_telemetry = no_telemetry;
  scrub = no_scrub;
  tiering = no_tiering;
  erasure = erasure_by_site;
}
