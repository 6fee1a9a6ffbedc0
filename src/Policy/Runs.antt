-- ===== src/Policy/Runs.antt =====
-- A policy that demands a fresh signed backup, an audit ledger and a quick drill, and its evidence.
use repo_ark.Prelude.{◌*◌, String, ◌≡◌, refl, true, none, List, [], ◌∷◌}
use repo_ark.Prelude.Int.{pos}
use repo_ark.Prelude.Table.{Table, get}
use repo_ark.Prelude.Clock.{Duration, Time, hour}
use repo_ark.Config.Checks.{Parsers}
use repo_ark.Config.Sections.{Config, PolicyConfig}
use repo_ark.Config.Defaults.{default_config}
use repo_ark.Policy.{
  Wording, Manifest, LatestManifest, StateFile, StateRecord, Evidence, evaluate, findings, allowed,
  check_backup_age, check_failures, check_warnings, check_signature, check_kms, check_audit,
  check_age, check_duration,
}
use repo_ark.Policy.Compliance.{Complies, healthy-Complies}

abbrev ages : Table Duration
ages = ("24h", pos (24 * hour)) ∷ ("168h", pos (168 * hour)) ∷ ("2h", pos (2 * hour)) ∷ []

abbrev parsers : Parsers
parsers = record {
  parse_duration = λ s. get s ages;
  duration_error = λ s. "invalid";
  to_lower = λ s. s;
  to_upper = λ s. s;
  print_int = λ n. "0";
  quote = λ s. s;
}

abbrev wording : Wording
wording = record { minutes = λ d. "m"; seconds = λ d. "s"; duration = λ d. "d"; int = λ n. "n" }

abbrev strict : PolicyConfig
strict = record {
  enabled = true;
  enforce_in_health = true;
  max_backup_age = "24h";
  max_failed_repositories = pos 1;
  max_warnings = pos 5;
  require_signed_manifest = true;
  require_audit = true;
  max_recovery_drill_age = "168h";
  max_gitlab_drill_age = "168h";
  max_offsite_age = "";
  max_recovery_drill_duration = "2h";
  max_gitlab_drill_duration = "2h";
}

abbrev home : List String → String
home parts = "/home/repoark/file"

unfoldable config : Config
config = record (default_config home) {
  policy = strict;
  audit = record { enabled = true; required = true; path = "/home/repoark/audit" };
}

abbrev now : Time
now = 1000 * hour

-- A drill of one hour, two days ago.
abbrev drill : StateRecord
drill = record { ok = true; started_at = 951 * hour; ended_at = 952 * hour; detail = "" }

abbrev evidence : Evidence
evidence = record {
  manifest =
      LatestManifest.latest
        (record { ended_at = 990 * hour; failed = pos 1; warning_count = pos 0 });
  has_signature = true;
  signature_error = none;
  kms_error = none;
  audit_error = none;
  recovery_drill = StateFile.stored drill;
  gitlab_drill = StateFile.absent;
  offsite = StateFile.absent;
}

-- A drill that never ran is missing twice, and an old backup is reported before it.
neglected :
    (evaluate parsers wording config
      (record evidence { recovery_drill = StateFile.absent })
      (1100 * hour)).violations
    ≡ record {
      code = "rpo_backup_age";
      message = "latest backup is m old; policy allows d";
      severity = "critical";
    }
      ∷ record {
        code = "recovery_drill_missing";
        message = "no successful state record found";
        severity = "critical";
      }
      ∷ record {
        code = "recovery_drill_missing";
        message = "no restore-drill state record found";
        severity = "critical";
      }
      ∷ []
unfolding evaluate findings allowed check_backup_age check_failures check_warnings check_signature
    check_kms check_audit check_age check_duration config default_config get
neglected = refl

healthy-Complies_example : (man : Manifest) × Complies parsers config evidence man now
unfolding evaluate findings allowed check_backup_age check_failures check_warnings check_signature
    check_kms check_audit check_age check_duration config default_config get
healthy-Complies_example = healthy-Complies parsers wording config evidence now refl refl
