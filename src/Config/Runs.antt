-- ===== src/Config/Runs.antt =====
-- The default configuration with every feature switched on, under a small parser of durations.
use repo_ark.Prelude.{
  ◌*◌, ◌≤◌, String, ◌≡◌, refl, ap, true, false, Option, none, some, List, [], ◌∷◌, arith, length,
  find_first, All,
}
use repo_ark.Prelude.Int.{pos, ◌≤ℤ◌, ◌<ℤ◌, ◌+ℤ◌, add64, wrap64}
use repo_ark.Prelude.Text.{trim_space}
use repo_ark.Prelude.Table.{Table, get, DistinctKeys}
use repo_ark.Prelude.Clock.{Duration, second, minute, hour, positive_or}
use repo_ark.Config.Checks.{Parsers, fails, when, durations, ◌▷◌}
use repo_ark.Config.Sections.{Config, FleetAccountConfig}
use repo_ark.Config.General.{
  validate_backup, validate_github, validate_ports, validate_gitlab, validate_security,
  validate_offsite, validate_features, validate_policy, validate_accounts, validate_fleet,
  validate_object_lock, validate_restore_drill, validate_daemon,
}
use repo_ark.Config.Deployment.{
  validate_store, validate_timing, validate_policies, validate_domains, validate_replication,
  validate_web_auth, validate_restore_auth, validate_generations, validate_agents,
}
use repo_ark.Config.Storage.{
  validate_space, validate_objects, validate_telemetry, validate_scrub, validate_tiering,
  validate_distributed, validate_erasure, validate_storage, validate_control_plane, validate,
}
use repo_ark.Config.Consequences.{
  Parses, names_of, IsNamed, validated_replication, validated_schedule, validated_erasure,
  validated_fleet,
}
use repo_ark.Config.Defaults.{default_config}
use repo_ark.Config.Defaults.Switches.{Switches, switched, ReadsDefaults}
use repo_ark.Config.Defaults.Valid.{defaults_accepted}
use repo_ark.ControlPlane.Agents.{timeout_of}
use repo_ark.ControlPlane.Platform.{Platform}
use repo_ark.ControlPlane.Erasure.{desired_shard_agents}
use repo_ark.ControlPlane.Scheduler.{matches_policy, schedule_for}
use repo_ark.ControlPlane.Samples.{plain_platform, two_nodes}

abbrev small_durations : Table Duration
small_durations =
    ("24h", pos (24 * hour))
    ∷ ("20m", pos (20 * minute))
    ∷ ("30h", pos (30 * hour))
    ∷ ("2s", pos (2 * second))
    ∷ ("2m", pos (2 * minute))
    ∷ ("30s", pos (30 * second))
    ∷ ("30m", pos (30 * minute))
    ∷ ("15s", pos (15 * second))
    ∷ ("1m", pos minute)
    ∷ ("2h", pos (2 * hour))
    ∷ ("3s", pos (3 * second))
    ∷ ("10m", pos (10 * minute))
    ∷ ("15m", pos (15 * minute))
    ∷ ("168h", pos (168 * hour))
    ∷ ("5m", pos (5 * minute))
    ∷ []

abbrev small_parsers : Parsers
small_parsers = record {
  parse_duration = λ s. get s small_durations;
  duration_error = λ s. "invalid";
  to_lower = λ s. s;
  to_upper = λ s. s;
  print_int = λ n. "0";
  quote = λ s. s;
}

abbrev home : List String → String
home parts = "/home/repoark/file"

-- The value that comes with an error is 0.
abbrev or_zero : Option Duration → Duration
or_zero none = pos 0
or_zero (some d) = d

abbrev small_platform : Platform
small_platform = record plain_platform { parse_duration = λ s. or_zero (get s small_durations) }

abbrev everything : Switches
everything = record {
  gitlab = true;
  restore_drill = true;
  offsite = true;
  observability = true;
  fleet = true;
  control_plane = true;
  agents = true;
  replication = true;
  restore_approval = true;
  disk_telemetry = true;
  scrub = true;
  tiering = true;
  erasure = true;
  distributed = true;
}

reads : ReadsDefaults small_parsers home
unfolding trim_space get
reads = record {
  durations_positive = (
    (_, refl, omega arith),
    (
      (_, refl, omega arith),
      (
        (_, refl, omega arith),
        (
          (_, refl, omega arith),
          (
            (_, refl, omega arith),
            (
              (_, refl, omega arith),
              (
                (_, refl, omega arith),
                (
                  (_, refl, omega arith),
                  (
                    (_, refl, omega arith),
                    (
                      (_, refl, omega arith),
                      (
                        (_, refl, omega arith),
                        (
                          (_, refl, omega arith),
                          (
                            (_, refl, omega arith),
                            ((_, refl, omega arith), ((_, refl, omega arith), tt)),
                          ),
                        ),
                      ),
                    ),
                  ),
                ),
              ),
            ),
          ),
        ),
      ),
    ),
  );
  lower = refl;
  not_blank = λ parts. refl;
}

abbrev full : Config
full = switched everything (default_config home)

full_accepted : validate small_parsers full ≡ none
full_accepted = defaults_accepted small_parsers home reads everything (λ h. (refl, refl))

parses : Parses small_parsers small_platform
parses s d e = ap or_zero e

abbrev account : String → FleetAccountConfig
account name = record {
  name = name;
  api_url = "";
  graphql_url = "";
  token_env = "TOKEN";
  backup_root = "";
  clone_protocol = "";
}

abbrev fleet_of_two : Config
fleet_of_two = record full {
  fleet = record {
    enabled = true;
    concurrency = pos 2;
    accounts = account "work" ∷ account "home" ∷ [];
  };
}

fleet_accepted : validate small_parsers fleet_of_two ≡ none
unfolding validate default_config validate_backup validate_github validate_ports validate_gitlab
    validate_security validate_offsite validate_features validate_policy validate_accounts
    validate_fleet validate_object_lock validate_restore_drill validate_daemon validate_store
    validate_timing validate_policies validate_domains validate_replication validate_web_auth
    validate_restore_auth validate_generations validate_agents validate_space validate_objects
    validate_telemetry validate_scrub validate_tiering validate_distributed validate_erasure
    validate_storage validate_control_plane fails when durations ◌▷◌ trim_space get add64 wrap64
fleet_accepted = refl

defaults_accepted_example :
    validate small_parsers (switched everything (default_config home)) ≡ none
defaults_accepted_example =
    defaults_accepted small_parsers home reads everything (λ h. (refl, refl))

validated_replication_example :
    let r = full.control_plane.replication in
    ((pos 2 ≤ℤ r.factor) × (r.factor ≤ℤ pos 32))
    × ((pos 1 ≤ℤ r.min_healthy) × (r.min_healthy ≤ℤ r.factor))
    × ((pos 0 ≤ℤ r.min_failure_domains) × (r.min_failure_domains ≤ℤ r.factor))
    × (small_parsers.parse_duration r.agent_timeout
        ≡ some (timeout_of small_platform r.agent_timeout))
    × (pos 0 <ℤ timeout_of small_platform r.agent_timeout)
unfolding default_config
validated_replication_example =
    validated_replication small_parsers small_platform parses full full_accepted refl refl

validated_schedule_example :
    let s = full.control_plane.scheduler in
    let mirror = full.control_plane.mirroring.enabled in
    schedule_for small_platform
      (λ pattern name. false)
      s.default_interval
      mirror
      s.policies
      "me/tool"
    ≡ (elim (find_first
        (λ s. matches_policy small_platform (λ pattern name. false) s "me/tool")
        s.policies) [
          | none ↦ record {
            interval =
                positive_or (small_platform.parse_duration s.default_interval) (pos (24 * hour));
            priority = pos 50;
            mirror = mirror;
          }
          | some s ↦ record {
            interval = small_platform.parse_duration s.interval;
            priority = s.priority;
            mirror = s.mirror_gitlab;
          }
        ])
unfolding default_config
validated_schedule_example =
    validated_schedule small_parsers small_platform parses (λ pattern name. false) full "me/tool"
      full_accepted refl

validated_erasure_example :
    let e = full.control_plane.storage.erasure in
    let out =
      desired_shard_agents small_platform "o1" 0 e.shard_replication two_nodes.agents "zone" in
    ((full.control_plane.replication.enabled ≡ true) × (full.control_plane.agents.enabled ≡ true))
    × ((pos 3 ≤ℤ (e.data_shards +ℤ e.parity_shards))
        × ((e.data_shards +ℤ e.parity_shards) ≤ℤ pos 48)
        × (add64 e.data_shards e.parity_shards ≡ e.data_shards +ℤ e.parity_shards))
    × (1 ≤ length out)
    × (length out ≤ 8)
    × DistinctKeys out
unfolding default_config
validated_erasure_example =
    validated_erasure small_parsers full small_platform "o1" 0 two_nodes.agents "zone" full_accepted
      refl refl refl refl (omega arith) (refl, (refl, tt)) refl

validated_fleet_example :
    DistinctKeys (names_of fleet_of_two.fleet.accounts) × All IsNamed fleet_of_two.fleet.accounts
validated_fleet_example = validated_fleet small_parsers fleet_of_two fleet_accepted refl
