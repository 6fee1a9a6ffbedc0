-- ===== src/Config/Validity.antt =====
-- What a configuration that Validate of internal/config/config.go accepts gives to the parts of the
-- control plane that read it.
use repo_ark.Prelude.{String, ◌≡◌, true, false, none, List, ◌∷◌, arith, Option-cases, inl, inr}
use repo_ark.Prelude.Int.{pos, ◌<ℤ◌, ◌≤ℤ◌, eqi_eq}
use repo_ark.Config.Checks.{
  Parsers, Message, fails, ◌▷◌, is_not_positive, durations, fails-none, ▷-none, when-none,
  IsPositive,
}
use repo_ark.Config.Services.{ControlPlaneConfig}
use repo_ark.Config.Sections.{Config}
use repo_ark.Config.General.{validate_fleet}
use repo_ark.Config.Deployment.{
  validate_policies, validate_replication, validate_domains, duration_message,
}
use repo_ark.Config.Storage.{validate, validate_control_plane, validate_storage}
use repo_ark.ControlPlane.Config.{ReplicationConfig}

-- The later of two checks, and the later of several.
pub skip : (a b : Message) → (a ▷ b) ≡ none → b ≡ none
skip a b h = (▷-none a b h).1

module _ (p : Parsers) where
  -- A duration that is neither missing nor negative nor zero.
  pub duration-IsPositive : (s : String) → is_not_positive p s ≡ false → IsPositive p s
  duration-IsPositive s h = elim (Option-cases (p.parse_duration s)) [
    | inl q ↦ absurd (ground arith)
    | inr (d, q) ↦ (d, q, ground arith)
  ]

  each_duration-IsPositive :
      (message : String → String) (name value : String) (rest : List (String × String))
      → durations p false message ((name, value) ∷ rest) ≡ none
      → IsPositive p value × (durations p false message rest ≡ none)
  unfolding durations
  each_duration-IsPositive message name value rest h =
      let (a, b) = ▷-none _ _ h in (duration-IsPositive value (ground (arith, fails-none _ _ a)), b)

  pub validate-control_plane :
      (c : Config) → validate p c ≡ none → validate_control_plane p c.control_plane ≡ none
  unfolding validate
  validate-control_plane c h =
      (▷-none _ _
        (skip _ _ (skip _ _ (skip _ _ (skip _ _ (skip _ _ (skip _ _ (skip _ _ (skip _ _ h))))))))).0

  pub validate-fleet : (c : Config) → validate p c ≡ none → validate_fleet p c.fleet ≡ none
  unfolding validate
  validate-fleet c h =
      (▷-none _ _ (skip _ _ (skip _ _ (skip _ _ (skip _ _ (skip _ _ (skip _ _ (skip _ _ h)))))))).0

  module _ (c : ControlPlaneConfig) (h : validate_control_plane p c ≡ none)
      (on : c.enabled ≡ true) where
    pub control_plane-policies : validate_policies p 0 c.scheduler.policies ≡ none
    unfolding validate_control_plane
    control_plane-policies =
        (▷-none _ _ (skip _ _ (skip _ _ (skip _ _ (when-none c.enabled _ h on))))).0

    pub control_plane-replication : validate_replication p c.replication ≡ none
    unfolding validate_control_plane
    control_plane-replication =
        (▷-none _ _ (skip _ _ (skip _ _ (skip _ _ (skip _ _ (when-none c.enabled _ h on)))))).0

    pub control_plane-storage :
        validate_storage p c.replication.enabled c.agents.enabled c.storage ≡ none
    unfolding validate_control_plane
    control_plane-storage =
        (▷-none _ _
          (skip _ _ (skip _ _ (skip _ _ (skip _ _ (skip _ _ (when-none c.enabled _ h on))))))).0

  -- What replication reads.
  pub record IsReplicable (r : ReplicationConfig) : Type 0 where
    pub factor_range : (pos 2 ≤ℤ r.factor) × (r.factor ≤ℤ pos 32)
    pub healthy_range : (pos 1 ≤ℤ r.min_healthy) × (r.min_healthy ≤ℤ r.factor)
    pub domains_range : (pos 0 ≤ℤ r.min_failure_domains) × (r.min_failure_domains ≤ℤ r.factor)
    pub room : pos 0 <ℤ r.max_transfer_bytes
    pub reconcile_positive : IsPositive p r.reconcile_interval
    pub timeout_positive : IsPositive p r.agent_timeout
    pub ttl_positive : IsPositive p r.transfer_ttl

  domains_of :
      (r : ReplicationConfig)
      → validate_domains p r ≡ none
      → pos 2 ≤ℤ r.factor
      → (pos 0 ≤ℤ r.min_failure_domains) × (r.min_failure_domains ≤ℤ r.factor)
  unfolding validate_domains fails
  domains_of r h f = ground (arith, eqi_eq r.min_failure_domains (pos 0))

  pub replication-IsReplicable :
      (r : ReplicationConfig) → validate_replication p r ≡ none → r.enabled ≡ true → IsReplicable r
  unfolding validate_replication
  replication-IsReplicable r h on =
      let (a, h1) = ▷-none _ _ (when-none r.enabled _ h on) in
      let (b, h2) = ▷-none _ _ h1 in
      let (d, h3) = ▷-none _ _ h2 in
      let (s, h4) = ▷-none _ _ h3 in
      let (t, _) = ▷-none _ _ h4 in
      let (t1, t2) = each_duration-IsPositive duration_message _ _ _ t in
      let (t3, t4) = each_duration-IsPositive duration_message _ _ _ t2 in
      let (t5, _) = each_duration-IsPositive duration_message _ _ _ t4 in
      let f = fails-none _ _ a in
      let m = fails-none _ _ b in
      let z = fails-none _ _ s in
      record {
        factor_range = ground arith;
        healthy_range = ground arith;
        domains_range = domains_of r d (ground arith);
        room = ground arith;
        reconcile_positive = t1;
        timeout_positive = t3;
        ttl_positive = t5;
      }
