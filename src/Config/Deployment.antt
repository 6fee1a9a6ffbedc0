-- ===== src/Config/Deployment.antt =====
-- The checks of Validate in internal/config/config.go on the sections of the control plane, but for
-- storage.
use Prim.Native.String.{◌++◌ as ◌<>◌}
use repo_ark.Prelude.{
  ℕ, ◌+◌, String, true, false, not, ◌&&◌, ◌||◌, none, some, List, [], ◌∷◌, ◌==◌, if◌then◌else◌,
  length,
}
use repo_ark.Prelude.Int.{pos, lti, lei, eqi}
use repo_ark.Prelude.Text.{eqs, trim_space}
use repo_ark.Config.Checks.{
  Parsers, Message, fails, ◌▷◌, when, is_blank_text, out_of_range, is_not_positive, durations,
}
use repo_ark.Config.Services.{
  StoreConfig, WorkerConfig, SchedulerConfig, GenerationConfig, AgentConfig, WebAuthConfig,
  RestoreApprovalConfig,
}
use repo_ark.ControlPlane.Config.{ReplicationConfig}
use repo_ark.ControlPlane.Scheduler.{RepoSchedulePolicy}

-- "control_plane." + name + " must be a positive duration"
abbrev pub duration_message : String → String
duration_message name = "control_plane." <> (name <> " must be a positive duration")

module _ (p : Parsers) where
  -- The switch over the driver.
  unfoldable pub validate_store : StoreConfig → Message
  validate_store s =
      let driver = p.to_lower (trim_space s.driver) in
      let is_postgres = eqs driver "postgres" || eqs driver "postgresql" in
      if eqs driver "sqlite"
      then fails (is_blank_text s.sqlite_path) "control_plane.store.sqlite_path is required"
      else if is_postgres
      then fails (is_blank_text s.dsn_env) "control_plane.store.dsn_env is required for postgres"
      else some "control_plane.store.driver must be sqlite or postgres"

  unfoldable pub validate_timing : WorkerConfig → SchedulerConfig → AgentConfig → Message
  validate_timing w s a =
      fails (out_of_range (pos 1) (pos 64) w.concurrency)
        "control_plane.workers.concurrency must be 1..64"
      ▷ fails (out_of_range (pos 1) (pos 100) w.max_attempts)
          "control_plane.workers.max_attempts must be 1..100"
      ▷ durations p true duration_message (
          ("workers.poll_interval", w.poll_interval)
          ∷ ("workers.lease", w.lease)
          ∷ ("scheduler.tick", s.tick)
          ∷ ("scheduler.discovery_interval", s.discovery_interval)
          ∷ ("scheduler.default_interval", s.default_interval)
          ∷ ("agents.heartbeat", a.heartbeat)
          ∷ [])

  -- The loop over the policies, from the index of the first.
  unfoldable pub validate_policies : ℕ → List RepoSchedulePolicy → Message
  validate_policies i [] = none
  validate_policies i (s ∷ rest) =
      fails (is_blank_text s.pattern)
        ("control_plane.scheduler.policies[" <> (p.print_int i <> "].pattern is empty"))
      ▷ fails (is_not_positive p s.interval)
          ("control_plane.scheduler.policies[" <> (p.print_int i <> "].interval must be positive"))
      ▷ validate_policies (i + 1) rest

  -- The failure domains: none without a label, 1 to the factor with one.
  unfoldable pub validate_domains : ReplicationConfig → Message
  validate_domains r =
      if is_blank_text r.failure_domain_label
      then fails (not (eqi r.min_failure_domains (pos 0)))
          "control_plane.replication.min_failure_domains requires failure_domain_label"
      else fails (out_of_range (pos 1) r.factor r.min_failure_domains)
          "control_plane.replication.min_failure_domains must be 1..factor"

  unfoldable pub validate_replication : ReplicationConfig → Message
  validate_replication r = when r.enabled (
      fails (out_of_range (pos 2) (pos 32) r.factor)
        "control_plane.replication.factor must be 2..32"
      ▷ fails (out_of_range (pos 1) r.factor r.min_healthy)
          "control_plane.replication.min_healthy must be 1..factor"
      ▷ validate_domains r
      ▷ fails (is_blank_text r.spool_root || lei r.max_transfer_bytes (pos 0))
          "control_plane.replication spool_root and max_transfer_bytes are required"
      ▷ durations p false duration_message (
          ("replication.reconcile_interval", r.reconcile_interval)
          ∷ ("replication.agent_timeout", r.agent_timeout)
          ∷ ("replication.transfer_ttl", r.transfer_ttl)
          ∷ [])
      ▷ fails (r.include_local && is_blank_text r.local_key_path)
          "control_plane.replication.local_key_path is required when include_local=true")

  unfoldable pub validate_web_auth : WebAuthConfig → Message
  validate_web_auth a = when a.enabled (
      fails (not (eqs (p.to_lower (trim_space a.mode)) "oidc"))
        "control_plane.web_auth.mode must be oidc"
      ▷ fails
          (is_blank_text a.issuer
            || is_blank_text a.client_id
            || is_blank_text a.redirect_url
            || is_blank_text a.client_secret_env
            || is_blank_text a.session_key_env)
          "control_plane.web_auth OIDC issuer/client_id/redirect_url/secret env/session env are required"
      ▷ fails (length a.viewer_groups + length a.operator_groups + length a.admin_groups == 0)
          "control_plane.web_auth requires at least one viewer/operator/admin group")

  unfoldable pub validate_restore_auth : RestoreApprovalConfig → Message
  validate_restore_auth r = when r.enabled (
      fails (is_not_positive p r.approval_ttl)
        "control_plane.restore_approval.approval_ttl must be positive")

unfoldable pub validate_generations : GenerationConfig → Message
validate_generations g = when g.enabled (
    fails (is_blank_text g.root) "control_plane.generations.root is required"
    ▷ fails (lti g.keep_per_repo (pos 1)) "control_plane.generations.keep_per_repo must be >= 1")

unfoldable pub validate_agents : AgentConfig → Message
validate_agents a = when a.enabled (
    fails (is_blank_text a.listen) "control_plane.agents.listen is required"
    ▷ fails
        (is_blank_text a.ca_path
          || is_blank_text a.server_cert_path
          || is_blank_text a.server_key_path)
        "control_plane.agents CA/server certificate paths are required")
