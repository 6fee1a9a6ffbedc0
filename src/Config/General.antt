-- ===== src/Config/General.antt =====
-- Validate of internal/config/config.go, but for the control plane: each section's checks, and in
-- Validity their sequence.
use Prim.Native.String.{◌++◌ as ◌<>◌}
use repo_ark.Prelude.{ℕ, ◌+◌, String, not, ◌&&◌, ◌||◌, none, some, List, [], ◌∷◌, true}
use repo_ark.Prelude.Int.{ℤ, pos, lti}
use repo_ark.Prelude.Text.{eqs, trim_space}
use repo_ark.Prelude.Table.{Keys, has_key, add_key}
use repo_ark.Config.Checks.{
  Parsers, Message, fails, ◌▷◌, when, is_blank_text, out_of_range, is_not_positive, durations,
}
use repo_ark.Config.Sections.{
  GitHubConfig, BackupConfig, GitLabConfig, GitLabRestoreDrillConfig, SecurityConfig, OffsiteConfig,
  ObjectLockConfig, FleetConfig, FleetAccountConfig, PolicyConfig, DaemonConfig, Config,
}

unfoldable pub validate_backup : BackupConfig → Message
validate_backup b =
    fails (eqs b.root "") "backup.root is empty"
    ▷ fails (out_of_range (pos 1) (pos 32) b.concurrency) "backup.concurrency must be 1..32"
    ▷ fails (lti b.keep_manifests (pos 0)) "backup.keep_manifests must be >= 0"

unfoldable pub validate_github : GitHubConfig → Message
validate_github g =
    fails (eqs g.api_url "" || eqs g.graphql_url "") "github api_url/graphql_url is empty"
    ▷ fails (not (eqs g.clone_protocol "https") && not (eqs g.clone_protocol "ssh"))
        "github.clone_protocol must be https or ssh"
    ▷ fails
        (not (eqs g.metadata "none") && not (eqs g.metadata "basic") && not (eqs g.metadata "full"))
        "github.metadata must be none, basic or full"
    ▷ fails (lti g.max_asset_bytes (pos 0)) "github.max_asset_bytes must be >= 0"
    ▷ fails (lti g.max_artifact_bytes (pos 0)) "github.max_artifact_bytes must be >= 0"
    ▷ fails (out_of_range (pos 1) (pos 1000) g.max_metadata_pages)
        "github.max_metadata_pages must be 1..1000"

-- The loop over the map of ports.
unfoldable pub validate_ports : List (String × ℤ) → Message
validate_ports [] = none
validate_ports ((name, port) ∷ rest) =
    fails (out_of_range (pos 1) (pos 65535) port) ("gitlab." <> (name <> " must be 1..65535"))
    ▷ validate_ports rest

unfoldable pub validate_gitlab : GitLabConfig → Message
validate_gitlab g = when g.enabled (
    fails (eqs g.url "" || eqs g.image "" || eqs g.data_dir "") "gitlab url/image/data_dir required"
    ▷ validate_ports
        (("http_port", g.http_port) ∷ ("https_port", g.https_port) ∷ ("ssh_port", g.ssh_port) ∷ []))

module _ (p : Parsers) where
  unfoldable pub validate_security : SecurityConfig → BackupConfig → Message
  validate_security s b =
      fails (s.require_verification && not b.verify_after_backup)
        "security.require_verification requires backup.verify_after_backup: true"
      ▷ fails (s.sign_manifests && eqs s.signing_key_path "")
          "security.signing_key_path is required when sign_manifests is enabled"
      ▷ when s.kms_attestation.enabled (
          fails (is_blank_text s.kms_attestation.key_id)
            "security.kms_attestation.key_id is required"
          ▷ fails
              (not (
                eqs (p.to_upper (trim_space s.kms_attestation.signing_algorithm))
                  "ED25519_SHA_512"))
              "security.kms_attestation currently requires ED25519_SHA_512 (RAW message mode)")

-- The switch over the backend.
unfoldable pub validate_offsite : OffsiteConfig → Message
validate_offsite o = when o.enabled (
    fails (eqs o.backend "restic" && eqs o.repository_env "")
      "offsite.repository_env is required for restic"
    ▷ fails (eqs o.backend "rclone" && is_blank_text o.rclone_remote)
        "offsite.rclone_remote is required for rclone"
    ▷ fails (not (eqs o.backend "restic") && not (eqs o.backend "rclone"))
        "offsite.backend must be restic or rclone")

-- From recovery_drill to package_payloads.
unfoldable pub validate_features : Config → Message
validate_features c =
    fails (lti c.recovery_drill.sample_size (pos 0)) "recovery_drill.sample_size must be >= 0"
    ▷ fails (c.observability.enabled && is_blank_text c.observability.listen)
        "observability.listen is required when enabled"
    ▷ fails (c.audit.enabled && is_blank_text c.audit.path)
        "audit.path is required when audit is enabled"
    ▷ when c.cas.enabled (
        fails (is_blank_text c.cas.root) "cas.root is required when cas is enabled"
        ▷ fails (lti c.cas.min_file_size (pos 0)) "cas.min_file_size must be >= 0")
    ▷ fails (lti c.package_payloads.max_bytes (pos 0)) "package_payloads.max_bytes must be >= 0"

module _ (p : Parsers) where
  unfoldable pub validate_policy : PolicyConfig → Message
  validate_policy c = when c.enabled (
      durations p true (λ name. "policy." <> (name <> " must be a positive duration"))
        (("max_backup_age", c.max_backup_age)
          ∷ ("max_recovery_drill_age", c.max_recovery_drill_age)
          ∷ ("max_gitlab_drill_age", c.max_gitlab_drill_age)
          ∷ ("max_offsite_age", c.max_offsite_age)
          ∷ ("max_recovery_drill_duration", c.max_recovery_drill_duration)
          ∷ ("max_gitlab_drill_duration", c.max_gitlab_drill_duration)
          ∷ [])
      ▷ fails (lti c.max_failed_repositories (pos 0)) "policy.max_failed_repositories must be >= 0")

  -- The loop over the accounts, with the names seen so far.
  unfoldable pub validate_accounts : ℕ → Keys → List FleetAccountConfig → Message
  validate_accounts i seen [] = none
  validate_accounts i seen (a ∷ rest) =
      fails (is_blank_text a.name || is_blank_text a.token_env)
        ("fleet.accounts[" <> (p.print_int i <> "] requires name and token_env"))
      ▷ fails (has_key a.name seen) ("duplicate fleet account name " <> p.quote a.name)
      ▷ validate_accounts (i + 1) (add_key a.name seen) rest

  unfoldable pub validate_fleet : FleetConfig → Message
  validate_fleet f = when f.enabled (
      fails (out_of_range (pos 1) (pos 16) f.concurrency) "fleet.concurrency must be 1..16"
      ▷ validate_accounts 0 [] f.accounts)

  unfoldable pub validate_object_lock : ObjectLockConfig → Message
  validate_object_lock o =
      let mode = p.to_upper (trim_space o.expected_mode) in
      when o.enabled (
        fails (is_blank_text o.bucket) "offsite.object_lock.bucket is required"
        ▷ fails (not (eqs mode "") && not (eqs mode "GOVERNANCE") && not (eqs mode "COMPLIANCE"))
            "offsite.object_lock.expected_mode must be GOVERNANCE or COMPLIANCE"
        ▷ fails (lti o.min_retention_days (pos 0))
            "offsite.object_lock.min_retention_days must be >= 0")

  unfoldable pub validate_restore_drill : GitLabRestoreDrillConfig → Message
  validate_restore_drill d = when d.enabled (
      fails (is_blank_text d.work_dir) "gitlab.restore_drill.work_dir is required"
      ▷ fails
          (out_of_range (pos 1) (pos 65535) d.http_port
            || out_of_range (pos 1) (pos 65535) d.ssh_port)
          "gitlab.restore_drill ports must be 1..65535"
      ▷ fails (is_not_positive p d.timeout)
          "gitlab.restore_drill.timeout must be a positive duration")

  unfoldable pub validate_daemon : DaemonConfig → Message
  validate_daemon d = elim (p.parse_duration d.interval) [
    | none ↦ some ("daemon.interval: " <> p.duration_error d.interval)
    | some interval ↦ fails (not (lti (pos 0) interval)) "daemon.interval must be greater than zero"
  ]
