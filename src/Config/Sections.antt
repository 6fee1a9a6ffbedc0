-- ===== src/Config/Sections.antt =====
-- The sections of the configuration in internal/config/config.go, and the whole of it.
use repo_ark.Prelude.{String, Bool, List}
use repo_ark.Prelude.Int.{ℤ}
use repo_ark.Config.Services.{ControlPlaneConfig}

pub record GitHubConfig : Type 0 where
  pub api_url : String
  pub graphql_url : String
  pub token_env : String
  pub clone_protocol : String
  pub metadata : String
  pub include_forks : Bool
  pub include_archived : Bool
  pub release_assets : Bool
  pub discussions : Bool
  pub packages : Bool
  pub oci_export : Bool
  pub max_asset_bytes : ℤ
  pub max_artifact_bytes : ℤ
  pub max_metadata_pages : ℤ
  pub actions_artifacts : Bool
  pub projects_v2 : Bool

pub record BackupConfig : Type 0 where
  pub root : String
  pub concurrency : ℤ
  pub create_bundles : Bool
  pub fetch_lfs : Bool
  pub verify_after_backup : Bool
  pub keep_manifests : ℤ

pub record GitLabRestoreDrillConfig : Type 0 where
  pub enabled : Bool
  pub work_dir : String
  pub http_port : ℤ
  pub ssh_port : ℤ
  pub timeout : String
  pub keep_on_failure : Bool

pub record GitLabConfig : Type 0 where
  pub enabled : Bool
  pub url : String
  pub token_env : String
  pub image : String
  pub hostname : String
  pub http_port : ℤ
  pub https_port : ℤ
  pub ssh_port : ℤ
  pub data_dir : String
  pub container_name : String
  pub remote_host : String
  pub preserve_namespaces : Bool
  pub restore_drill : GitLabRestoreDrillConfig

pub record DaemonConfig : Type 0 where
  pub interval : String
  pub run_on_start : Bool

pub record KmsAttestationConfig : Type 0 where
  pub enabled : Bool
  pub key_id : String
  pub signing_algorithm : String
  pub region : String
  pub profile : String
  pub endpoint_url : String
  pub require_valid : Bool

pub record SecurityConfig : Type 0 where
  pub require_verification : Bool
  pub sign_manifests : Bool
  pub signing_key_path : String
  pub kms_attestation : KmsAttestationConfig

pub record ObjectLockConfig : Type 0 where
  pub enabled : Bool
  pub bucket : String
  pub prefix : String
  pub region : String
  pub endpoint_url : String
  pub profile : String
  pub require_enabled : Bool
  pub expected_mode : String
  pub min_retention_days : ℤ

pub record OffsiteConfig : Type 0 where
  pub enabled : Bool
  pub backend : String
  pub repository_env : String
  pub password_env : String
  pub rclone_remote : String
  pub keep_daily : ℤ
  pub keep_weekly : ℤ
  pub keep_monthly : ℤ
  pub prune : Bool
  pub object_lock : ObjectLockConfig

pub record FleetAccountConfig : Type 0 where
  pub name : String
  pub api_url : String
  pub graphql_url : String
  pub token_env : String
  pub backup_root : String
  pub clone_protocol : String

pub record FleetConfig : Type 0 where
  pub enabled : Bool
  pub concurrency : ℤ
  pub accounts : List FleetAccountConfig

pub record AuditConfig : Type 0 where
  pub enabled : Bool
  pub required : Bool
  pub path : String

pub record CasConfig : Type 0 where
  pub enabled : Bool
  pub root : String
  pub min_file_size : ℤ
  pub auto_compact : Bool

pub record PolicyConfig : Type 0 where
  pub enabled : Bool
  pub enforce_in_health : Bool
  pub max_backup_age : String
  pub max_failed_repositories : ℤ
  pub max_warnings : ℤ
  pub require_signed_manifest : Bool
  pub require_audit : Bool
  pub max_recovery_drill_age : String
  pub max_gitlab_drill_age : String
  pub max_offsite_age : String
  pub max_recovery_drill_duration : String
  pub max_gitlab_drill_duration : String

pub record PackagePayloadConfig : Type 0 where
  pub enabled : Bool
  pub npm : Bool
  pub nuget : Bool
  pub maven : Bool
  pub rubygems : Bool
  pub max_bytes : ℤ
  pub npm_registry : String
  pub nuget_registry : String
  pub maven_registry : String
  pub rubygems_registry : String

pub record RecoveryDrillConfig : Type 0 where
  pub enabled : Bool
  pub sample_size : ℤ
  pub work_dir : String
  pub verify_refs : Bool
  pub keep_on_failure : Bool

pub record ObservabilityConfig : Type 0 where
  pub enabled : Bool
  pub listen : String

pub record NotificationConfig : Type 0 where
  pub enabled : Bool
  pub on_success : Bool
  pub on_failure : Bool
  pub webhook_env : String
  pub telegram_token_env : String
  pub telegram_chat_id_env : String

pub record Config : Type 0 where
  pub version : ℤ
  pub github : GitHubConfig
  pub backup : BackupConfig
  pub gitlab : GitLabConfig
  pub daemon : DaemonConfig
  pub security : SecurityConfig
  pub offsite : OffsiteConfig
  pub recovery_drill : RecoveryDrillConfig
  pub observability : ObservabilityConfig
  pub notifications : NotificationConfig
  pub fleet : FleetConfig
  pub audit : AuditConfig
  pub cas : CasConfig
  pub policy : PolicyConfig
  pub package_payloads : PackagePayloadConfig
  pub control_plane : ControlPlaneConfig
