-- ===== src/Config/Defaults/Switches.antt =====
-- The features of the default configuration of internal/config/config.go that need no further
-- setting can be switched on in any combination.
use repo_ark.Prelude.{
  String, ◌≡◌, refl, subst, Bool, true, false, none, List, [], ◌∷◌, arith, All, In, All-In,
  Bool-cases, inl, inr,
}
use repo_ark.Prelude.Text.{eqs, eq_iff, trim_space}
use repo_ark.Config.Checks.{
  Parsers, Message, fails, ◌▷◌, when, is_blank_text, is_not_positive, is_not_natural, durations,
  IsPositive,
}
use repo_ark.Config.Sections.{Config}
use repo_ark.Config.Defaults.{default_config}
use repo_ark.Config.General.{
  validate_backup, validate_github, validate_ports, validate_gitlab, validate_security,
  validate_offsite, validate_features, validate_policy, validate_accounts, validate_fleet,
  validate_object_lock, validate_restore_drill, validate_daemon,
}

-- What is switched on.
pub record Switches : Type 0 where
  pub gitlab : Bool
  pub restore_drill : Bool
  pub offsite : Bool
  pub observability : Bool
  pub fleet : Bool
  pub control_plane : Bool
  pub agents : Bool
  pub replication : Bool
  pub restore_approval : Bool
  pub disk_telemetry : Bool
  pub scrub : Bool
  pub tiering : Bool
  pub erasure : Bool
  pub distributed : Bool

abbrev pub switched : Switches → Config → Config
switched w c =
    let g = c.gitlab in
    let cp = c.control_plane in
    let s = cp.storage in
    record c {
      gitlab = record g {
        enabled = w.gitlab;
        restore_drill = record (g.restore_drill) { enabled = w.restore_drill };
      };
      offsite = record (c.offsite) { enabled = w.offsite };
      observability = record (c.observability) { enabled = w.observability };
      fleet = record (c.fleet) { enabled = w.fleet };
      control_plane = record cp {
        enabled = w.control_plane;
        agents = record (cp.agents) { enabled = w.agents };
        replication = record (cp.replication) { enabled = w.replication };
        restore_approval = record (cp.restore_approval) { enabled = w.restore_approval };
        storage = record s {
          disk_telemetry = record (s.disk_telemetry) { enabled = w.disk_telemetry };
          scrub = record (s.scrub) { enabled = w.scrub };
          tiering = record (s.tiering) { enabled = w.tiering };
          erasure = record (s.erasure) { enabled = w.erasure; distributed = w.distributed };
        };
      };
    }

-- The durations that the default configuration is written with.
abbrev pub default_durations : List String
default_durations =
    "24h" ∷ "20m" ∷ "30h" ∷ "2s" ∷ "2m" ∷ "30s" ∷ "30m" ∷ "15s" ∷ "1m" ∷ "2h" ∷ "3s" ∷ "10m" ∷ "15m"
    ∷ "168h" ∷ "5m" ∷ []

-- What the standard library is documented to do with the defaults: the durations are positive, the
-- driver is in lower case, and no path under the home directory is blank.
pub record ReadsDefaults (p : Parsers) (under : List String → String) : Type 0 where
  pub durations_positive : All (IsPositive p) default_durations
  pub lower : p.to_lower "sqlite" ≡ "sqlite"
  pub not_blank : (parts : List String) → is_blank_text (under parts) ≡ false

module _ (p : Parsers) (under : List String → String) (d : ReadsDefaults p under) where
  pub both : (a b : Message) → a ≡ none → b ≡ none → (a ▷ b) ≡ none
  unfolding ◌▷◌
  both a b h k = rw (h, ◌▷◌) k

  pub passes : (b : Bool) (message : String) → b ≡ false → fails b message ≡ none
  unfolding fails
  passes b message h = rw h refl

  pub either_way :
      (enabled : Bool) (checks : Message)
      → (enabled ≡ true → checks ≡ none)
      → when enabled checks ≡ none
  unfolding when
  either_way true checks h = h refl
  either_way false checks h = refl

  pub present : (parts : List String) → eqs (under parts) "" ≡ false
  unfolding trim_space
  present parts = elim (Bool-cases (eqs (under parts) "")) [
    | inl q ↦
        let e = (eq_iff (under parts) "").0 q in
        let h = subst (λ (s : String). is_blank_text s ≡ false) e (d.not_blank parts) in
        absurd (ground arith)
    | inr q ↦ q
  ]

  pub positive : (s : String) → In s default_durations → is_not_positive p s ≡ false
  positive s m =
      let (t, e, h) = All-In (IsPositive p) default_durations s d.durations_positive m in
      ground arith

  -- The durations, one by one.
  pub day : is_not_positive p "24h" ≡ false
  day = positive "24h" (inl refl)

  pub drill_time : is_not_positive p "20m" ≡ false
  drill_time = positive "20m" (inr (inl refl))

  pub backup_age : is_not_positive p "30h" ≡ false
  backup_age = positive "30h" (inr (inr (inl refl)))

  pub poll : is_not_positive p "2s" ≡ false
  poll = positive "2s" (inr (inr (inr (inl refl))))

  pub two_minutes : is_not_positive p "2m" ≡ false
  two_minutes = positive "2m" (inr (inr (inr (inr (inl refl)))))

  pub tick : is_not_positive p "30s" ≡ false
  tick = positive "30s" (inr (inr (inr (inr (inr (inl refl))))))

  pub half_hour : is_not_positive p "30m" ≡ false
  half_hour = positive "30m" (inr (inr (inr (inr (inr (inr (inl refl)))))))

  pub heartbeat : is_not_positive p "15s" ≡ false
  heartbeat = positive "15s" (inr (inr (inr (inr (inr (inr (inr (inl refl))))))))

  pub one_minute : is_not_positive p "1m" ≡ false
  one_minute = positive "1m" (inr (inr (inr (inr (inr (inr (inr (inr (inl refl)))))))))

  pub two_hours : is_not_positive p "2h" ≡ false
  two_hours = positive "2h" (inr (inr (inr (inr (inr (inr (inr (inr (inr (inl refl))))))))))

  pub probe : is_not_positive p "3s" ≡ false
  probe = positive "3s" (inr (inr (inr (inr (inr (inr (inr (inr (inr (inr (inl refl)))))))))))

  pub ten_minutes : is_not_positive p "10m" ≡ false
  ten_minutes =
      positive "10m" (inr (inr (inr (inr (inr (inr (inr (inr (inr (inr (inr (inl refl))))))))))))

  pub quarter : is_not_positive p "15m" ≡ false
  quarter =
      positive "15m"
        (inr (inr (inr (inr (inr (inr (inr (inr (inr (inr (inr (inr (inl refl)))))))))))))

  pub week : is_not_positive p "168h" ≡ false
  week =
      positive "168h"
        (inr (inr (inr (inr (inr (inr (inr (inr (inr (inr (inr (inr (inr (inl refl))))))))))))))

  pub five_minutes : is_not_positive p "5m" ≡ false
  five_minutes =
      positive "5m" (
        inr
          (inr (inr (inr (inr (inr (inr (inr (inr (inr (inr (inr (inr (inr (inl refl)))))))))))))))

  -- A positive duration is not negative.
  pub week_natural : is_not_natural p "168h" ≡ false
  week_natural =
      let (t, e, h) =
        All-In (IsPositive p) default_durations "168h" d.durations_positive (
          inr (inr (inr (inr (inr (inr (inr (inr (inr (inr (inr (inr (inr (inl refl)))))))))))))) in
      ground arith

  daily_daemon : validate_daemon p (default_config under).daemon ≡ none
  unfolding default_config validate_daemon fails
  daily_daemon = let (t, e, h) = d.durations_positive.0 in ground arith

  pub general_passes :
      (validate_backup (default_config under).backup ≡ none)
      × (validate_github (default_config under).github ≡ none)
      × (validate_security p (default_config under).security (default_config under).backup ≡ none)
      × (validate_policy p (default_config under).policy ≡ none)
      × (validate_object_lock p (default_config under).offsite.object_lock ≡ none)
      × (validate_daemon p (default_config under).daemon ≡ none)
  unfolding default_config validate_backup validate_github validate_security validate_policy
      validate_object_lock validate_daemon fails when durations ◌▷◌ trim_space
  general_passes = (
    rw (present (".repoark" ∷ "backups" ∷ [])) refl,
    refl,
    rw (present (".config" ∷ "repoark" ∷ "manifest-ed25519.key" ∷ [])) refl,
    rw backup_age refl,
    refl,
    daily_daemon,
  )

  pub gitlab_passes :
      (on : Bool) → validate_gitlab (record ((default_config under).gitlab) { enabled = on }) ≡ none
  unfolding default_config validate_gitlab validate_ports fails when ◌▷◌
  gitlab_passes false = refl
  gitlab_passes true = rw (present (".repoark" ∷ "gitlab" ∷ [])) refl

  pub drill_passes :
      (on : Bool)
      → validate_restore_drill p
          (record ((default_config under).gitlab.restore_drill) { enabled = on })
        ≡ none
  unfolding default_config validate_restore_drill fails when ◌▷◌
  drill_passes false = refl
  drill_passes true = rw (d.not_blank (".repoark" ∷ "gitlab-drills" ∷ []), drill_time) refl

  pub offsite_passes :
      (on : Bool)
      → validate_offsite (record ((default_config under).offsite) { enabled = on }) ≡ none
  unfolding default_config validate_offsite fails when ◌▷◌
  offsite_passes false = refl
  offsite_passes true = refl

  pub fleet_passes :
      (on : Bool) → validate_fleet p (record ((default_config under).fleet) { enabled = on }) ≡ none
  unfolding default_config validate_fleet validate_accounts fails when ◌▷◌
  fleet_passes false = refl
  fleet_passes true = refl

  pub features_pass :
      (on : Bool)
      → validate_features (record (default_config under) {
        observability = record ((default_config under).observability) { enabled = on };
      })
        ≡ none
  unfolding default_config validate_features fails when ◌▷◌ trim_space
  features_pass false =
      rw
        (
          d.not_blank (".repoark" ∷ "audit" ∷ "ledger.jsonl" ∷ []),
          d.not_blank (".repoark" ∷ "cas" ∷ []),
        )
        refl
  features_pass true =
      rw
        (
          d.not_blank (".repoark" ∷ "audit" ∷ "ledger.jsonl" ∷ []),
          d.not_blank (".repoark" ∷ "cas" ∷ []),
        )
        refl
