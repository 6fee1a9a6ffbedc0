-- ===== src/Config/Defaults.antt =====
-- Default of internal/config/config.go. `under` is filepath.Join of the home directory and the parts
-- of a path.
pub mod Services
pub mod Switches
pub mod Valid
use repo_ark.Prelude.{String, Bool, true, false, List, [], ◌∷◌}
use repo_ark.Prelude.Int.{ℤ, pos, negsuc}
use repo_ark.Config.Defaults.Services.{default_control_plane}
use repo_ark.Config.Sections.{
  GitHubConfig, BackupConfig, GitLabRestoreDrillConfig, GitLabConfig, DaemonConfig,
  KmsAttestationConfig, SecurityConfig, ObjectLockConfig, OffsiteConfig, FleetConfig, AuditConfig,
  CasConfig, PolicyConfig, PackagePayloadConfig, RecoveryDrillConfig, ObservabilityConfig,
  NotificationConfig, Config,
}

abbrev pub default_github : GitHubConfig
default_github = record {
  api_url = "https://api.github.com";
  graphql_url = "https://api.github.com/graphql";
  token_env = "GITHUB_TOKEN";
  clone_protocol = "https";
  metadata = "full";
  include_forks = true;
  include_archived = true;
  release_assets = true;
  discussions = true;
  packages = true;
  oci_export = false;
  max_asset_bytes = pos 2147483648;
  max_artifact_bytes = pos 2147483648;
  max_metadata_pages = pos 100;
  actions_artifacts = true;
  projects_v2 = true;
}

abbrev pub default_backup : (List String → String) → BackupConfig
default_backup under = record {
  root = under (".repoark" ∷ "backups" ∷ []);
  concurrency = pos 4;
  create_bundles = true;
  fetch_lfs = true;
  verify_after_backup = true;
  keep_manifests = pos 30;
}

abbrev pub default_gitlab : (List String → String) → GitLabConfig
default_gitlab under = record {
  enabled = false;
  url = "http://gitlab.local:8080";
  token_env = "GITLAB_TOKEN";
  image = "gitlab/gitlab-ce:19.2.4-ce.0";
  hostname = "gitlab.local";
  http_port = pos 8080;
  https_port = pos 8443;
  ssh_port = pos 2222;
  data_dir = under (".repoark" ∷ "gitlab" ∷ []);
  container_name = "repoark-gitlab";
  remote_host = "";
  preserve_namespaces = true;
  restore_drill = record {
    enabled = false;
    work_dir = under (".repoark" ∷ "gitlab-drills" ∷ []);
    http_port = pos 18080;
    ssh_port = pos 12222;
    timeout = "20m";
    keep_on_failure = true;
  };
}

abbrev pub default_daemon : DaemonConfig
default_daemon = record { interval = "24h"; run_on_start = true }

abbrev pub default_security : (List String → String) → SecurityConfig
default_security under = record {
  require_verification = true;
  sign_manifests = true;
  signing_key_path = under (".config" ∷ "repoark" ∷ "manifest-ed25519.key" ∷ []);
  kms_attestation = record {
    enabled = false;
    key_id = "";
    signing_algorithm = "ED25519_SHA_512";
    region = "";
    profile = "";
    endpoint_url = "";
    require_valid = true;
  };
}

abbrev pub default_offsite : OffsiteConfig
default_offsite = record {
  enabled = false;
  backend = "restic";
  repository_env = "RESTIC_REPOSITORY";
  password_env = "RESTIC_PASSWORD";
  rclone_remote = "";
  keep_daily = pos 7;
  keep_weekly = pos 8;
  keep_monthly = pos 12;
  prune = true;
  object_lock = record {
    enabled = false;
    bucket = "";
    prefix = "";
    region = "";
    endpoint_url = "";
    profile = "";
    require_enabled = false;
    expected_mode = "";
    min_retention_days = pos 0;
  };
}

abbrev pub default_recovery_drill : (List String → String) → RecoveryDrillConfig
default_recovery_drill under = record {
  enabled = false;
  sample_size = pos 3;
  work_dir = under (".repoark" ∷ "drills" ∷ []);
  verify_refs = true;
  keep_on_failure = true;
}

abbrev pub default_observability : ObservabilityConfig
default_observability = record { enabled = false; listen = "127.0.0.1:9787" }

abbrev pub default_notifications : NotificationConfig
default_notifications = record {
  enabled = false;
  on_success = false;
  on_failure = true;
  webhook_env = "REPOARK_WEBHOOK_URL";
  telegram_token_env = "REPOARK_TELEGRAM_TOKEN";
  telegram_chat_id_env = "REPOARK_TELEGRAM_CHAT_ID";
}

abbrev pub default_fleet : FleetConfig
default_fleet = record { enabled = false; concurrency = pos 2; accounts = [] }

abbrev pub default_audit : (List String → String) → AuditConfig
default_audit under = record {
  enabled = true;
  required = false;
  path = under (".repoark" ∷ "audit" ∷ "ledger.jsonl" ∷ []);
}

abbrev pub default_cas : (List String → String) → CasConfig
default_cas under = record {
  enabled = true;
  root = under (".repoark" ∷ "cas" ∷ []);
  min_file_size = pos 1048576;
  auto_compact = true;
}

abbrev pub default_policy : PolicyConfig
default_policy = record {
  enabled = true;
  enforce_in_health = true;
  max_backup_age = "30h";
  max_failed_repositories = pos 0;
  max_warnings = negsuc 0;
  require_signed_manifest = true;
  require_audit = false;
  max_recovery_drill_age = "";
  max_gitlab_drill_age = "";
  max_offsite_age = "";
  max_recovery_drill_duration = "";
  max_gitlab_drill_duration = "";
}

abbrev pub default_package_payloads : PackagePayloadConfig
default_package_payloads = record {
  enabled = false;
  npm = true;
  nuget = true;
  maven = true;
  rubygems = true;
  max_bytes = pos 2147483648;
  npm_registry = "https://npm.pkg.github.com";
  nuget_registry = "https://nuget.pkg.github.com";
  maven_registry = "https://maven.pkg.github.com";
  rubygems_registry = "https://rubygems.pkg.github.com";
}

unfoldable pub default_config : (List String → String) → Config
default_config under = record {
  version = pos 8;
  github = default_github;
  backup = default_backup under;
  gitlab = default_gitlab under;
  daemon = default_daemon;
  security = default_security under;
  offsite = default_offsite;
  recovery_drill = default_recovery_drill under;
  observability = default_observability;
  notifications = default_notifications;
  fleet = default_fleet;
  audit = default_audit under;
  cas = default_cas under;
  policy = default_policy;
  package_payloads = default_package_payloads;
  control_plane = default_control_plane under;
}
