-- ===== src/ControlPlane/Model.antt =====
-- internal/controlplane/model.go. A status is a string of the source that is only compared with the
-- constants: `unset` is the empty string, and `other` any further text. A float64 that is only
-- compared is an integer that counts millionths of its unit.
use repo_ark.Prelude.{ℕ, String, Bool, true, false}
use repo_ark.Prelude.Int.{ℤ}
use repo_ark.Prelude.Clock.{Time}

-- JobQueued, JobRunning, JobSucceeded, JobFailed
pub data JobStatus : Type 0 where
  unset queued running succeeded failed : JobStatus
  other : String → JobStatus

-- ReplicaReady, ReplicaStaging, ReplicaFailed
pub data ReplicaState : Type 0 where
  unset ready staging failed : ReplicaState
  other : String → ReplicaState

-- TransferReceiving, TransferReady, TransferConsumed
pub data TransferState : Type 0 where
  unset receiving ready consumed : TransferState
  other : String → TransferState

-- ApprovalPending, ApprovalApproved, ApprovalScheduled, ApprovalExecuted, ApprovalExpired
pub data ApprovalStatus : Type 0 where
  unset pending approved scheduled executed expired : ApprovalStatus
  other : String → ApprovalStatus

-- ErasureReady, ErasureDegraded, ErasureFailed
pub data ErasureState : Type 0 where
  unset ready degraded failed : ErasureState
  other : String → ErasureState

-- ShardReady, ShardStaging, ShardFailed
pub data ShardState : Type 0 where
  unset ready staging failed : ShardState
  other : String → ShardState

-- Healthy, Degraded, Unhealthy of internal/storagehealth
pub data Health : Type 0 where
  unset healthy degraded unhealthy : Health
  other : String → Health

pub record Job : Type 0 where
  pub id : String
  pub kind : String
  pub target : String
  pub payload : String
  pub status : JobStatus
  pub priority : ℤ
  pub attempts : ℤ
  pub max_attempts : ℤ
  pub not_before : Time
  pub affinity : String
  pub lease_owner : String
  pub lease_until : Time
  pub created_at : Time
  pub updated_at : Time
  pub last_error : String

pub record Repository : Type 0 where
  pub id : String
  pub account : String
  pub full_name : String
  pub backup_root : String
  pub interval_seconds : ℤ
  pub priority : ℤ
  pub mirror_gitlab : Bool
  pub enabled : Bool
  pub next_run_at : Time
  pub last_backup_at : Time
  pub last_generation_id : String
  pub last_backup_successful : Bool
  pub updated_at : Time

pub record Generation : Type 0 where
  pub id : String
  pub repository_id : String
  pub repository : String
  pub meta_path : String
  pub created_at : Time
  pub verified : Bool
  pub bundle_sha256 : String
  pub lfs_sha256 : String

pub record Agent : Type 0 where
  pub id : String
  pub name : String
  pub cert_subject : String
  pub labels_json : String
  pub replication_public_key : String
  pub status : String
  pub storage_health : Health
  pub storage_total_bytes : ℤ
  pub storage_free_bytes : ℤ
  pub storage_free_percent : ℤ
  pub storage_probe_ms : ℤ
  pub storage_error : String
  pub disk_risk_score : ℤ
  pub disk_model : String
  pub disk_serial : String
  pub disk_temperature_c : ℤ
  pub disk_percentage_used : ℤ
  pub disk_media_errors : ℤ
  pub disk_critical_warning : ℤ
  pub inventory_root : String
  pub inventory_objects : ℤ
  pub inventory_bytes : ℤ
  pub inventory_json : String
  pub last_seen_at : Time
  pub updated_at : Time

pub record GenerationReplica : Type 0 where
  pub generation_id : String
  pub repository_id : String
  pub agent_id : String
  pub meta_path : String
  pub state : ReplicaState
  pub bytes : ℤ
  pub sha256 : String
  pub verified_at : Time
  pub updated_at : Time

pub record ReplicationTransfer : Type 0 where
  pub id : String
  pub generation_id : String
  pub repository_id : String
  pub source_agent : String
  pub target_agent : String
  pub spool_path : String
  pub state : TransferState
  pub bytes : ℤ
  pub sha256 : String
  pub expires_at : Time
  pub updated_at : Time

pub record ObjectRef : Type 0 where
  pub digest : String
  pub kind : String
  pub bytes : ℤ
  pub ref_count : ℤ
  pub updated_at : Time

pub record ObjectLease : Type 0 where
  pub id : String
  pub digest : String
  pub owner : String
  pub expires_at : Time
  pub updated_at : Time

pub record ErasureSet : Type 0 where
  pub object_sha256 : String
  pub original_bytes : ℤ
  pub data_shards : ℤ
  pub parity_shards : ℤ
  pub block_bytes : ℤ
  pub state : ErasureState
  pub created_at : Time
  pub updated_at : Time

pub record ErasureShard : Type 0 where
  pub object_sha256 : String
  pub shard_index : ℤ
  pub shard_sha256 : String
  pub agent_id : String
  pub failure_domain : String
  pub state : ShardState
  pub bytes : ℤ
  pub updated_at : Time

pub record RestoreApproval : Type 0 where
  pub id : String
  pub repository : String
  pub generation_id : String
  pub target : String
  pub requested_by : String
  pub approved_by : String
  pub status : ApprovalStatus
  pub created_at : Time
  pub expires_at : Time
  pub updated_at : Time

pub record Stats : Type 0 where
  pub queued_jobs : ℕ
  pub running_jobs : ℕ
  pub failed_jobs : ℕ
  pub repositories : ℕ
  pub due_repositories : ℕ
  pub generations : ℕ
  pub connected_agents : ℕ
  pub stranded_jobs : ℕ
  pub ready_replicas : ℕ
  pub replica_deficits : ℕ
  pub pending_approvals : ℕ
  pub active_transfers : ℕ
  pub degraded_storage_agents : ℕ
  pub unhealthy_storage_agents : ℕ
  pub object_refs : ℕ
  pub active_object_leases : ℕ
  pub erasure_sets : ℕ
  pub erasure_shard_copies : ℕ

-- LocalWorkerAffinity
abbrev pub local_worker_affinity : String
local_worker_affinity = "__repoark_local__"

-- The comparisons of the source with its constants.
abbrev pub is_job_queued : JobStatus → Bool
is_job_queued JobStatus.queued = true
is_job_queued _ = false

abbrev pub is_job_running : JobStatus → Bool
is_job_running JobStatus.running = true
is_job_running _ = false

abbrev pub is_job_failed : JobStatus → Bool
is_job_failed JobStatus.failed = true
is_job_failed _ = false

abbrev pub is_job_succeeded : JobStatus → Bool
is_job_succeeded JobStatus.succeeded = true
is_job_succeeded _ = false

abbrev pub is_replica_ready : ReplicaState → Bool
is_replica_ready ReplicaState.ready = true
is_replica_ready _ = false

abbrev pub is_transfer_unset : TransferState → Bool
is_transfer_unset TransferState.unset = true
is_transfer_unset _ = false

abbrev pub is_shard_ready : ShardState → Bool
is_shard_ready ShardState.ready = true
is_shard_ready _ = false

abbrev pub is_approval_pending : ApprovalStatus → Bool
is_approval_pending ApprovalStatus.pending = true
is_approval_pending _ = false

abbrev pub is_approval_approved : ApprovalStatus → Bool
is_approval_approved ApprovalStatus.approved = true
is_approval_approved _ = false

abbrev pub is_approval_scheduled : ApprovalStatus → Bool
is_approval_scheduled ApprovalStatus.scheduled = true
is_approval_scheduled _ = false
