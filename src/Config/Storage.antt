-- ===== src/Config/Storage.antt =====
-- The checks of Validate in internal/config/config.go on control_plane.storage, and the whole of
-- Validate. `replicates` and `has_agents` say whether replication and agents are enabled.
use repo_ark.Prelude.{Bool, not, ◌&&◌, ◌||◌, ◌*◌}
use repo_ark.Prelude.Int.{ℤ, pos, lti, add64}
use repo_ark.Config.Checks.{
  Parsers, Message, fails, ◌▷◌, when, is_blank_text, out_of_range, is_not_positive, is_not_natural,
}
use repo_ark.Config.Services.{ControlPlaneConfig}
use repo_ark.Config.Sections.{Config}
use repo_ark.Config.General.{
  validate_backup, validate_github, validate_gitlab, validate_security, validate_offsite,
  validate_features, validate_policy, validate_fleet, validate_object_lock, validate_restore_drill,
  validate_daemon,
}
use repo_ark.Config.Deployment.{
  validate_store, validate_timing, validate_policies, validate_replication, validate_web_auth,
  validate_restore_auth, validate_generations, validate_agents,
}
use repo_ark.ControlPlane.Config.{
  StorageDataConfig, DiskTelemetryConfig, ScrubConfig, TieringConfig, ErasureConfig,
}

-- 100 percent
abbrev pub whole_percent : ℤ
whole_percent = pos (100 * 1000000)

module _ (p : Parsers) where
  unfoldable pub validate_space : StorageDataConfig → Message
  validate_space s =
      fails (lti s.min_free_bytes (pos 0) || out_of_range (pos 0) whole_percent s.min_free_percent)
        "control_plane.storage free-space thresholds are invalid"
      ▷ fails (is_not_positive p s.max_probe) "control_plane.storage.max_probe must be positive"
      ▷ fails (is_not_positive p s.inventory_interval)
          "control_plane.storage.inventory_interval must be positive"
      ▷ fails (out_of_range (pos 65536) (pos 268435456) s.chunk_bytes)
          "control_plane.storage.chunk_bytes must be 64KiB..256MiB"
      ▷ fails (out_of_range (pos 1) (pos 20) s.chunk_retries)
          "control_plane.storage.chunk_retries must be 1..20"
      ▷ fails (lti s.bandwidth_limit_mbps (pos 0))
          "control_plane.storage.bandwidth_limit_mbps must be >= 0"

  unfoldable pub validate_objects : Bool → Bool → StorageDataConfig → Message
  validate_objects replicates has_agents s =
      fails (out_of_range (pos 0) (pos 32) s.object_replication_factor)
        "control_plane.storage.object_replication_factor must be 0..32"
      ▷ when (lti (pos 0) s.object_replication_factor) (
          fails (not replicates)
            "control_plane.storage.object_replication_factor requires control_plane.replication.enabled"
          ▷ fails (not has_agents)
              "control_plane.storage.object_replication_factor requires control_plane.agents.enabled")

  unfoldable pub validate_telemetry : DiskTelemetryConfig → Message
  validate_telemetry t = when t.enabled (
      fails (is_not_positive p t.interval)
        "control_plane.storage.disk_telemetry.interval must be positive"
      ▷ fails (out_of_range (pos 1) (pos 100) t.risk_threshold)
          "control_plane.storage.disk_telemetry.risk_threshold must be 1..100")

  unfoldable pub validate_scrub : ScrubConfig → Message
  validate_scrub s = when s.enabled (
      fails (is_not_positive p s.interval) "control_plane.storage.scrub.interval must be positive"
      ▷ fails (lti s.sample_objects (pos 1))
          "control_plane.storage.scrub.sample_objects must be >= 1")

  unfoldable pub validate_tiering : TieringConfig → Message
  validate_tiering t = when t.enabled (
      fails (is_blank_text t.cold_root && is_blank_text t.rclone_remote)
        "control_plane.storage.tiering requires cold_root or rclone_remote"
      ▷ fails (is_not_natural p t.min_age)
          "control_plane.storage.tiering.min_age must be non-negative"
      ▷ fails (lti t.min_bytes (pos 0)) "control_plane.storage.tiering.min_bytes must be >= 0")

  unfoldable pub validate_distributed : Bool → Bool → ErasureConfig → Message
  validate_distributed replicates has_agents e = when e.distributed (
      fails (not replicates || not has_agents) "distributed erasure requires replication and agents"
      ▷ fails (out_of_range (pos 1) (pos 8) e.shard_replication)
          "control_plane.storage.erasure.shard_replication must be 1..8"
      ▷ fails (is_blank_text e.failure_domain_label)
          "distributed erasure requires failure_domain_label"
      ▷ fails (lti e.min_failure_domains (pos 1))
          "distributed erasure min_failure_domains must be >= 1"
      ▷ fails (is_not_positive p e.reconcile_interval)
          "distributed erasure reconcile_interval must be positive")

  unfoldable pub validate_erasure : Bool → Bool → ErasureConfig → Message
  validate_erasure replicates has_agents e = when e.enabled (
      fails
        (out_of_range (pos 2) (pos 32) e.data_shards
          || out_of_range (pos 1) (pos 16) e.parity_shards
          || lti (pos 64) (add64 e.data_shards e.parity_shards))
        "control_plane.storage.erasure shard counts are invalid"
      ▷ fails (lti e.min_object_bytes (pos 1048576) || lti e.block_bytes (pos 65536))
          "control_plane.storage.erasure size thresholds are invalid"
      ▷ validate_distributed replicates has_agents e)

  unfoldable pub validate_storage : Bool → Bool → StorageDataConfig → Message
  validate_storage replicates has_agents s = when s.enabled (
      validate_space s
      ▷ validate_objects replicates has_agents s
      ▷ validate_telemetry s.disk_telemetry
      ▷ validate_scrub s.scrub
      ▷ validate_tiering s.tiering
      ▷ validate_erasure replicates has_agents s.erasure)

  unfoldable pub validate_control_plane : ControlPlaneConfig → Message
  validate_control_plane c = when c.enabled (
      validate_store p c.store
      ▷ validate_timing p c.workers c.scheduler c.agents
      ▷ validate_generations c.generations
      ▷ validate_policies p 0 c.scheduler.policies
      ▷ validate_replication p c.replication
      ▷ validate_storage c.replication.enabled c.agents.enabled c.storage
      ▷ validate_web_auth p c.web_auth
      ▷ validate_restore_auth p c.restore_approval
      ▷ validate_agents c.agents)

  unfoldable pub validate : Config → Message
  validate c =
      validate_backup c.backup
      ▷ validate_github c.github
      ▷ validate_gitlab c.gitlab
      ▷ validate_security p c.security c.backup
      ▷ validate_offsite c.offsite
      ▷ validate_features c
      ▷ validate_policy p c.policy
      ▷ validate_fleet p c.fleet
      ▷ validate_control_plane c.control_plane
      ▷ validate_object_lock p c.offsite.object_lock
      ▷ validate_restore_drill p c.gitlab.restore_drill
      ▷ validate_daemon p c.daemon
