-- ===== src/Policy.antt =====
-- Evaluate of internal/policy/policy.go: the report on what the backups left behind. The files that it
-- reads are its evidence, an argument; the texts of durations and numbers are parameters.
pub mod Compliance
mod Runs
use Prim.Native.String.{◌++◌ as ◌<>◌}
use repo_ark.Prelude.{
  ℕ, String, Bool, true, false, not, ◌&&◌, ◌||◌, Option, none, some, List, [], ◌∷◌, ◌++◌,
  if◌then◌else◌,
}
use repo_ark.Prelude.Int.{ℤ, pos, lti, lei}
use repo_ark.Prelude.Text.{eqs}
use repo_ark.Prelude.Clock.{Time, Duration, time_sub, is_zero}
use repo_ark.Config.Checks.{Parsers}
use repo_ark.Config.Sections.{Config, PolicyConfig}

pub record Violation : Type 0 where
  pub code : String
  pub message : String
  pub severity : String

pub record Report : Type 0 where
  pub evaluated_at : Time
  pub healthy : Bool
  pub violations : List Violation

-- The Record of internal/state, as far as it is read.
pub record StateRecord : Type 0 where
  pub ok : Bool
  pub started_at : Time
  pub ended_at : Time
  pub detail : String

-- state.Read of a path
pub data StateFile : Type 0 where
  absent : StateFile
  unreadable : String → StateFile
  stored : StateRecord → StateFile

-- The latest manifest, as far as it is read.
pub record Manifest : Type 0 where
  pub ended_at : Time
  pub failed : ℤ
  pub warning_count : ℤ

pub data LatestManifest : Type 0 where
  no_manifest : String → LatestManifest
  latest : Manifest → LatestManifest

-- What the files and the other packages answer: an error is its text, and `none` a success.
pub record Evidence : Type 0 where
  pub manifest : LatestManifest
  pub has_signature : Bool
  pub signature_error : Option String
  pub kms_error : Option String
  pub audit_error : Option String
  pub recovery_drill : StateFile
  pub gitlab_drill : StateFile
  pub offsite : StateFile

-- The texts of a duration, rounded to a minute, to a second, and not, and of an int.
pub record Wording : Type 0 where
  pub minutes : Duration → String
  pub seconds : Duration → String
  pub duration : Duration → String
  pub int : ℤ → String

-- add, where a check found something
abbrev pub Finding : Type 0
Finding = Option (String × String)

abbrev pub note : Finding → Report → Report
note none r = r
note (some (code, message)) r = record r {
  healthy = false;
  violations =
      r.violations ++ (record { code = code; message = message; severity = "critical" } ∷ []);
}

abbrev pub note_all : List Finding → Report → Report
note_all [] r = r
note_all (f ∷ rest) r = note_all rest (note f r)

abbrev pub only_if : Bool → Finding → Finding
only_if b f = if b then f else none

-- The text of an error, under a code.
abbrev pub on_error : String → Option String → Finding
on_error code none = none
on_error code (some message) = some (code, message)

-- parse: a duration that is set and positive
unfoldable pub allowed : Parsers → String → Option Duration
allowed p s =
    if eqs s ""
    then none
    else elim (p.parse_duration s) [ none ↦ none | some d ↦ if lti (pos 0) d then some d else none ]

module _ (p : Parsers) (w : Wording) where
  unfoldable pub check_backup_age : PolicyConfig → Manifest → Time → Finding
  check_backup_age policy man now = elim (allowed p policy.max_backup_age) [
    | none ↦ none
    | some d ↦
        let age = time_sub now man.ended_at in
        only_if (lti d age) (
          some (
            "rpo_backup_age",
            "latest backup is " <> (w.minutes age <> (" old; policy allows " <> w.duration d)),
          ))
  ]

  unfoldable pub check_failures : PolicyConfig → Manifest → Finding
  check_failures policy man = only_if (lti policy.max_failed_repositories man.failed) (
      some (
        "backup_failures",
        w.int man.failed
            <> (" failed repositories exceeds policy maximum "
                <> w.int policy.max_failed_repositories),
      ))

  unfoldable pub check_warnings : PolicyConfig → Manifest → Finding
  check_warnings policy man =
      only_if (lei (pos 0) policy.max_warnings && lti policy.max_warnings man.warning_count) (
        some (
          "backup_warnings",
          w.int man.warning_count
              <> (" warnings exceeds policy maximum " <> w.int policy.max_warnings),
        ))

  unfoldable pub check_signature : PolicyConfig → Evidence → Finding
  check_signature policy e = only_if policy.require_signed_manifest (
      if not e.has_signature
      then some ("manifest_unsigned", "latest manifest has no detached signature")
      else on_error "manifest_signature_invalid" e.signature_error)

  unfoldable pub check_kms : Config → Evidence → Finding
  check_kms c e =
      only_if (c.security.kms_attestation.enabled && c.security.kms_attestation.require_valid)
        (on_error "kms_attestation_invalid" e.kms_error)

  unfoldable pub check_audit : Config → Evidence → Finding
  check_audit c e = only_if c.policy.require_audit (
      if not c.audit.enabled
      then some ("audit_disabled", "audit ledger is required by policy")
      else on_error "audit_invalid" e.audit_error)

  -- checkAge on a record; state.Age calls a record without an end absent.
  abbrev pub age_of_record : String → Duration → StateRecord → Time → Finding
  age_of_record code d r now =
      let age = time_sub now r.ended_at in
      if is_zero r.ended_at
      then some (code <> "_missing", "no successful state record found")
      else if not r.ok
      then some (code <> "_failed", "latest recorded operation failed: " <> r.detail)
      else only_if (lti d age) (
          some (
            code <> "_age",
            "latest successful operation is "
                <> (w.minutes age <> (" old; policy allows " <> w.duration d)),
          ))

  abbrev pub age_of : String → Duration → StateFile → Time → Finding
  age_of code d absent now = some (code <> "_missing", "no successful state record found")
  age_of code d (unreadable x) now = some (code <> "_invalid", x)
  age_of code d (stored r) now = age_of_record code d r now

  unfoldable pub check_age : String → StateFile → String → Time → Finding
  check_age code file configured now = elim (allowed p configured) [
    | none ↦ none
    | some d ↦ age_of code d file now
  ]

  -- checkDuration; a failed operation is left to checkAge.
  abbrev pub duration_of_record : String → Duration → StateRecord → Finding
  duration_of_record code d r =
      let taken = time_sub r.ended_at r.started_at in
      if not r.ok
      then none
      else if is_zero r.started_at || is_zero r.ended_at
      then some (code <> "_duration_missing", "restore-drill state has no duration")
      else only_if (lti d taken) (
          some (
            code <> "_rto",
            "latest restore drill took "
                <> (w.seconds taken <> ("; RTO policy allows " <> w.duration d)),
          ))

  abbrev pub duration_of : String → Duration → StateFile → Finding
  duration_of code d absent = some (code <> "_missing", "no restore-drill state record found")
  duration_of code d (unreadable x) = some (code <> "_invalid", x)
  duration_of code d (stored r) = duration_of_record code d r

  unfoldable pub check_duration : String → StateFile → String → Finding
  check_duration code file configured = elim (allowed p configured) [
    | none ↦ none
    | some d ↦ duration_of code d file
  ]

  -- The checks after the manifest was read, in their order.
  unfoldable pub findings : Config → Evidence → Manifest → Time → List Finding
  findings c e man now =
      check_backup_age c.policy man now
      ∷ check_failures c.policy man
      ∷ check_warnings c.policy man
      ∷ check_signature c.policy e
      ∷ check_kms c e
      ∷ check_audit c e
      ∷ check_age "recovery_drill" e.recovery_drill c.policy.max_recovery_drill_age now
      ∷ check_duration "recovery_drill" e.recovery_drill c.policy.max_recovery_drill_duration
      ∷ only_if c.gitlab.enabled
          (check_age "gitlab_drill" e.gitlab_drill c.policy.max_gitlab_drill_age now)
      ∷ only_if c.gitlab.enabled
          (check_duration "gitlab_drill" e.gitlab_drill c.policy.max_gitlab_drill_duration)
      ∷ only_if c.offsite.enabled (check_age "offsite" e.offsite c.policy.max_offsite_age now)
      ∷ []

  abbrev pub on_manifest : Config → Evidence → Time → LatestManifest → Report → Report
  on_manifest c e now (no_manifest x) r = note (some ("manifest_unavailable", x)) r
  on_manifest c e now (latest man) r = note_all (findings c e man now) r

  -- The report before a check.
  abbrev pub healthy_report : Time → Report
  healthy_report now = record { evaluated_at = now; healthy = true; violations = [] }

  unfoldable pub evaluate : Config → Evidence → Time → Report
  evaluate c e now =
      if not c.policy.enabled
      then healthy_report now
      else on_manifest c e now e.manifest (healthy_report now)
