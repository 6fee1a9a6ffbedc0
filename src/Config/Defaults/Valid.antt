-- ===== src/Config/Defaults/Valid.antt =====
-- Validate of internal/config/config.go on the default configuration with features switched on.
use repo_ark.Prelude.{
  String, ◌≡◌, refl, Bool, true, false, none, List, [], ◌∷◌, arith, Bool-cases, inl, inr,
}
use repo_ark.Prelude.Int.{pos, add64, wrap64-IsInt64}
use repo_ark.Prelude.Text.{trim_space}
use repo_ark.Config.Checks.{Parsers, fails, ◌▷◌, when, durations}
use repo_ark.Config.Services.{ControlPlaneConfig}
use repo_ark.Config.Defaults.{default_config}
use repo_ark.Config.General.{validate_gitlab, validate_features}
use repo_ark.Config.Deployment.{
  validate_store, validate_timing, validate_policies, validate_domains, validate_replication,
  validate_web_auth, validate_restore_auth, validate_generations, validate_agents,
}
use repo_ark.Config.Storage.{
  validate_space, validate_objects, validate_telemetry, validate_scrub, validate_tiering,
  validate_distributed, validate_erasure, validate_storage, validate_control_plane, validate,
}
use repo_ark.Config.Defaults.Switches.{
  Switches, switched, ReadsDefaults, both, either_way, day, poll, two_minutes, tick, half_hour,
  heartbeat, one_minute, two_hours, probe, ten_minutes, quarter, week_natural, five_minutes,
  general_passes, gitlab_passes, drill_passes, offsite_passes, fleet_passes, features_pass,
}

-- Nine shards are within the range of int64.
no_wrap : add64 (pos 6) (pos 3) ≡ pos 9
unfolding add64
no_wrap = wrap64-IsInt64 (pos 9) (omega arith)

module _ (p : Parsers) (under : List String → String) (d : ReadsDefaults p under) where
  -- The sections of the control plane.
  abbrev plane : Switches → ControlPlaneConfig
  plane w = (switched w (default_config under)).control_plane

  store_passes : (w : Switches) → validate_store p (plane w).store ≡ none
  unfolding default_config validate_store fails trim_space
  store_passes w = rw (d.lower, d.not_blank (".repoark" ∷ "control" ∷ "repoark.db" ∷ [])) refl

  timing_passes :
      (w : Switches)
      → validate_timing p (plane w).workers (plane w).scheduler (plane w).agents ≡ none
  unfolding default_config validate_timing fails durations ◌▷◌ trim_space
  timing_passes w =
      rw
        (
          poll p under d,
          two_minutes p under d,
          tick p under d,
          half_hour p under d,
          day p under d,
          heartbeat p under d,
        )
        refl

  generations_pass : (w : Switches) → validate_generations (plane w).generations ≡ none
  unfolding default_config validate_generations fails when ◌▷◌
  generations_pass w = rw (d.not_blank (".repoark" ∷ "generations" ∷ [])) refl

  policies_pass : (w : Switches) → validate_policies p 0 (plane w).scheduler.policies ≡ none
  unfolding default_config validate_policies fails ◌▷◌ trim_space
  policies_pass w = rw (day p under d) refl

  replication_passes : (w : Switches) → validate_replication p (plane w).replication ≡ none
  unfolding default_config validate_replication validate_domains fails durations when ◌▷◌ trim_space
  replication_passes w = elim (Bool-cases w.replication) [
    | inl on ↦
        rw
          (
            on,
            d.not_blank (".repoark" ∷ "replication-spool" ∷ []),
            one_minute p under d,
            two_minutes p under d,
            two_hours p under d,
            d.not_blank (".config" ∷ "repoark" ∷ "pki" ∷ "replication-local-x25519.key" ∷ []),
          )
          refl
    | inr off ↦ rw off refl
  ]

  agents_pass : (w : Switches) → validate_agents (plane w).agents ≡ none
  unfolding default_config validate_agents fails when ◌▷◌ trim_space
  agents_pass w = elim (Bool-cases w.agents) [
    | inl on ↦
        rw
          (
            on,
            d.not_blank (".config" ∷ "repoark" ∷ "pki" ∷ "ca.pem" ∷ []),
            d.not_blank (".config" ∷ "repoark" ∷ "pki" ∷ "server.pem" ∷ []),
            d.not_blank (".config" ∷ "repoark" ∷ "pki" ∷ "server-key.pem" ∷ []),
          )
          refl
    | inr off ↦ rw off refl
  ]

  others_pass :
      (w : Switches)
      → (validate_web_auth p (plane w).web_auth ≡ none)
        × (validate_restore_auth p (plane w).restore_approval ≡ none)
  unfolding default_config validate_web_auth validate_restore_auth fails when
  others_pass w = elim (Bool-cases w.restore_approval) [
    | inl on ↦ (refl, rw (on, half_hour p under d) refl)
    | inr off ↦ (refl, rw off refl)
  ]

  parts_pass :
      (w : Switches)
      → (validate_space p (plane w).storage ≡ none)
        × (validate_objects p w.replication w.agents (plane w).storage ≡ none)
        × (validate_telemetry p (plane w).storage.disk_telemetry ≡ none)
        × (validate_scrub p (plane w).storage.scrub ≡ none)
        × (validate_tiering p (plane w).storage.tiering ≡ none)
  unfolding default_config validate_space validate_objects validate_telemetry validate_scrub
      validate_tiering fails when ◌▷◌
  parts_pass w = (
    rw (probe p under d, ten_minutes p under d) refl,
    refl,
    telemetry w.disk_telemetry,
    scrubs w.scrub,
    tiers w.tiering,
  )
    where
      telemetry :
          (on : Bool)
          → validate_telemetry p
              (record ((default_config under).control_plane.storage.disk_telemetry) {
                enabled = on;
              })
            ≡ none
      telemetry true = rw (quarter p under d) refl
      telemetry false = refl

      scrubs :
          (on : Bool)
          → validate_scrub p
              (record ((default_config under).control_plane.storage.scrub) { enabled = on })
            ≡ none
      scrubs true = rw (day p under d) refl
      scrubs false = refl

      tiers :
          (on : Bool)
          → validate_tiering p
              (record ((default_config under).control_plane.storage.tiering) { enabled = on })
            ≡ none
      tiers true = rw (d.not_blank (".repoark" ∷ "cold-cas" ∷ []), week_natural p under d) refl
      tiers false = refl

  erasure_passes :
      (w : Switches)
      → (w.distributed ≡ true → (w.replication ≡ true) × (w.agents ≡ true))
      → validate_erasure p w.replication w.agents (plane w).storage.erasure ≡ none
  unfolding default_config validate_erasure validate_distributed fails when ◌▷◌ trim_space
  erasure_passes w h = elim (Bool-cases w.erasure) [
    | inr off ↦ rw off refl
    | inl on ↦ elim (Bool-cases w.distributed) [
      | inr off ↦ rw (on, off, no_wrap) refl
      | inl far ↦ let (r, a) = h far in rw (on, far, r, a, no_wrap, five_minutes p under d) refl
    ]
  ]

  storage_passes :
      (w : Switches)
      → (w.distributed ≡ true → (w.replication ≡ true) × (w.agents ≡ true))
      → validate_storage p w.replication w.agents (plane w).storage ≡ none
  unfolding validate_storage
  storage_passes w h =
      let (a, b, c, e, f) = parts_pass w in
      either_way p under d _ _ (λ on. both p under d _ _ a (
        both p under d _ _ b (
          both p under d _ _ c (both p under d _ _ e (both p under d _ _ f (erasure_passes w h))))))

  plane_passes :
      (w : Switches)
      → (w.distributed ≡ true → (w.replication ≡ true) × (w.agents ≡ true))
      → validate_control_plane p (plane w) ≡ none
  unfolding validate_control_plane
  plane_passes w h =
      let (a, b) = others_pass w in
      either_way p under d _ _ (λ on. both p under d _ _ (store_passes w) (
        both p under d _ _ (timing_passes w) (
          both p under d _ _ (generations_pass w) (
            both p under d _ _ (policies_pass w) (
              both p under d _ _ (replication_passes w) (
                both p under d _ _ (storage_passes w h)
                  (both p under d _ _ a (both p under d _ _ b (agents_pass w)))))))))

  -- The default configuration is accepted with any of these switched on: GitLab and its restore
  -- drill, the offsite copy, observability, the fleet, the control plane, agents, replication,
  -- restore approvals, disk telemetry, scrubbing, tiering and erasure coding, where distributed
  -- erasure comes with replication and agents.
  pub defaults_accepted :
      (w : Switches)
      → (w.distributed ≡ true → (w.replication ≡ true) × (w.agents ≡ true))
      → validate p (switched w (default_config under)) ≡ none
  unfolding validate default_config validate_gitlab validate_features
  defaults_accepted w h =
      let (backup, github, security, policy, object_lock, daemon) = general_passes p under d in
      both p under d _ _ backup (
        both p under d _ _ github (
          both p under d _ _ (gitlab_passes p under d w.gitlab) (
            both p under d _ _ security (
              both p under d _ _ (offsite_passes p under d w.offsite) (
                both p under d _ _ (features_pass p under d w.observability) (
                  both p under d _ _ policy (
                    both p under d _ _ (fleet_passes p under d w.fleet) (
                      both p under d _ _ (plane_passes w h) (
                        both p under d _ _ object_lock (
                          both p under d _ _ (drill_passes p under d w.restore_drill)
                            daemon))))))))))
