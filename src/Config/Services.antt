-- ===== src/Config/Services.antt =====
-- The configuration of the control plane, control_plane of internal/config/config.go.
use repo_ark.Prelude.{String, Bool, List}
use repo_ark.Prelude.Int.{ℤ}
use repo_ark.Prelude.Table.{Table}
use repo_ark.ControlPlane.Config.{ReplicationConfig, StorageDataConfig}
use repo_ark.ControlPlane.Scheduler.{RepoSchedulePolicy}

pub record StoreConfig : Type 0 where
  pub driver : String
  pub sqlite_path : String
  pub dsn_env : String

pub record WorkerConfig : Type 0 where
  pub concurrency : ℤ
  pub poll_interval : String
  pub lease : String
  pub max_attempts : ℤ

pub record SchedulerConfig : Type 0 where
  pub enabled : Bool
  pub tick : String
  pub discovery_interval : String
  pub default_interval : String
  pub policies : List RepoSchedulePolicy

pub record GenerationConfig : Type 0 where
  pub enabled : Bool
  pub root : String
  pub restore_root : String
  pub keep_per_repo : ℤ

pub record MirroringConfig : Type 0 where
  pub enabled : Bool
  pub after_backup : Bool

pub record AgentConfig : Type 0 where
  pub enabled : Bool
  pub listen : String
  pub server_url : String
  pub ca_path : String
  pub ca_key_path : String
  pub server_cert_path : String
  pub server_key_path : String
  pub client_cert_path : String
  pub client_key_path : String
  pub agent_name : String
  pub heartbeat : String
  pub replication_key_path : String
  pub labels : Table String

pub record WebAuthConfig : Type 0 where
  pub enabled : Bool
  pub mode : String
  pub issuer : String
  pub client_id : String
  pub client_secret_env : String
  pub redirect_url : String
  pub session_key_env : String
  pub group_claim : String
  pub scopes : List String
  pub step_up_acr_values : List String
  pub viewer_groups : List String
  pub operator_groups : List String
  pub admin_groups : List String
  pub required_amr : List String
  pub secure_cookies : Bool

pub record RestoreApprovalConfig : Type 0 where
  pub enabled : Bool
  pub approval_ttl : String
  pub require_distinct_approver : Bool
  pub requesters : List String
  pub approvers : List String

pub record ControlPlaneConfig : Type 0 where
  pub enabled : Bool
  pub store : StoreConfig
  pub workers : WorkerConfig
  pub scheduler : SchedulerConfig
  pub generations : GenerationConfig
  pub mirroring : MirroringConfig
  pub agents : AgentConfig
  pub replication : ReplicationConfig
  pub restore_approval : RestoreApprovalConfig
  pub storage : StorageDataConfig
  pub web_auth : WebAuthConfig
