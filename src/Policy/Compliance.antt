-- ===== src/Policy/Compliance.antt =====
-- What a healthy report of internal/policy/policy.go means: the policy in terms of the evidence.
use repo_ark.Prelude.{
  String, ◌≡◌, refl, Bool, true, false, ◌&&◌, Option, none, some, List, [], ◌∷◌, arith, All,
  Bool-cases, inl, inr,
}
use repo_ark.Prelude.Int.{pos, lti, ◌≤ℤ◌}
use repo_ark.Prelude.Clock.{Time, Duration, time_sub}
use repo_ark.Config.Checks.{Parsers}
use repo_ark.Config.Sections.{Config}
use repo_ark.Policy.{
  Report, StateRecord, StateFile, Manifest, LatestManifest, Evidence, Wording, Finding, note,
  note_all, only_if, on_error, allowed, check_backup_age, check_failures, check_warnings,
  check_signature, check_kms, check_audit, age_of, check_age, duration_of, check_duration, findings,
  on_manifest, healthy_report, evaluate,
}

-- The file has the record of a success that is not older than the configured age, if one is set.
abbrev pub IsFresh : Parsers → StateFile → String → Time → Type 0
IsFresh p file configured now =
    (d : Duration)
    → allowed p configured ≡ some d
    → (r : StateRecord) × (file ≡ StateFile.stored r)
      × (r.ok ≡ true)
      × (time_sub now r.ended_at ≤ℤ d)

-- A successful run took no longer than the configured duration, if one is set.
abbrev pub IsQuick : Parsers → StateFile → String → Type 0
IsQuick p file configured =
    (d : Duration)
    → allowed p configured ≡ some d
    → (r : StateRecord) × (file ≡ StateFile.stored r)
      × (r.ok ≡ true → time_sub r.ended_at r.started_at ≤ℤ d)

pub record Complies (p : Parsers) (c : Config) (e : Evidence) (man : Manifest) (now : Time)
    : Type 0 where
  pub read : e.manifest ≡ LatestManifest.latest man
  pub recent :
      (d : Duration) → allowed p c.policy.max_backup_age ≡ some d → time_sub now man.ended_at ≤ℤ d
  pub few_failures : man.failed ≤ℤ c.policy.max_failed_repositories
  pub few_warnings : pos 0 ≤ℤ c.policy.max_warnings → man.warning_count ≤ℤ c.policy.max_warnings
  pub signed :
      c.policy.require_signed_manifest ≡ true
      → (e.has_signature ≡ true) × (e.signature_error ≡ none)
  pub attested :
      c.security.kms_attestation.enabled ≡ true
      → c.security.kms_attestation.require_valid ≡ true
      → e.kms_error ≡ none
  pub audited : c.policy.require_audit ≡ true → (c.audit.enabled ≡ true) × (e.audit_error ≡ none)
  pub drilled : IsFresh p e.recovery_drill c.policy.max_recovery_drill_age now
  pub drilled_quickly : IsQuick p e.recovery_drill c.policy.max_recovery_drill_duration
  pub gitlab_drilled :
      c.gitlab.enabled ≡ true
      → IsFresh p e.gitlab_drill c.policy.max_gitlab_drill_age now
        × IsQuick p e.gitlab_drill c.policy.max_gitlab_drill_duration
  pub copied : c.offsite.enabled ≡ true → IsFresh p e.offsite c.policy.max_offsite_age now

-- A report stays healthy only where nothing is found.
note_all-healthy :
    (fs : List Finding) (r : Report)
    → (note_all fs r).healthy ≡ true
    → All (λ f. f ≡ none) fs × (r.healthy ≡ true)
note_all-healthy [] r h = (tt, h)
note_all-healthy (none ∷ rest) r h = let (a, b) = note_all-healthy rest r h in ((refl, a), b)
note_all-healthy (some f ∷ rest) r h =
    absurd (clash ((note_all-healthy rest (note (some f) r) h).1))
  where
    clash : false ≡ true → ⊥
    clash e = cc

only_if-none : (b : Bool) (f : Finding) → only_if b f ≡ none → b ≡ true → f ≡ none
only_if-none b f h e = ground (arith)

on_error-none : (code : String) (x : Option String) → on_error code x ≡ none → x ≡ none
on_error-none code none h = refl
on_error-none code (some x) h = cc

module _ (p : Parsers) (w : Wording) where
  check_age-IsFresh :
      (code : String) (file : StateFile) (configured : String) (now : Time)
      → check_age p w code file configured now ≡ none
      → IsFresh p file configured now
  unfolding check_age
  check_age-IsFresh code file configured now h d e = on_file file (rw (check_age, e) at h)
    where
      on_file :
          (f : StateFile)
          → age_of p w code d f now ≡ none
          → (r : StateRecord) × (f ≡ StateFile.stored r)
            × (r.ok ≡ true)
            × (time_sub now r.ended_at ≤ℤ d)
      on_file StateFile.absent q = cc
      on_file (StateFile.unreadable x) q = cc
      on_file (StateFile.stored r) q = (r, refl, ground arith, ground arith)

  check_duration-IsQuick :
      (code : String) (file : StateFile) (configured : String)
      → check_duration p w code file configured ≡ none
      → IsQuick p file configured
  unfolding check_duration
  check_duration-IsQuick code file configured h d e = on_file file (rw (check_duration, e) at h)
    where
      on_file :
          (f : StateFile)
          → duration_of p w code d f ≡ none
          → (r : StateRecord) × (f ≡ StateFile.stored r)
            × (r.ok ≡ true → time_sub r.ended_at r.started_at ≤ℤ d)
      on_file StateFile.absent q = cc
      on_file (StateFile.unreadable x) q = cc
      on_file (StateFile.stored r) q = (r, refl, λ good. ground arith)

  backup_in_time :
      (c : Config) (man : Manifest) (now : Time)
      → check_backup_age p w c.policy man now ≡ none
      → (d : Duration) → allowed p c.policy.max_backup_age ≡ some d
      → time_sub now man.ended_at ≤ℤ d
  unfolding check_backup_age
  backup_in_time c man now h d e = late _ (rw (check_backup_age, e) at h)
    where
      late :
          (x : String × String)
          → only_if (lti d (time_sub now man.ended_at)) (some x) ≡ none
          → time_sub now man.ended_at ≤ℤ d
      late x q = ground arith

  counts_within :
      (c : Config) (man : Manifest)
      → check_failures p w c.policy man ≡ none
      → check_warnings p w c.policy man ≡ none
      → (man.failed ≤ℤ c.policy.max_failed_repositories)
        × (pos 0 ≤ℤ c.policy.max_warnings → man.warning_count ≤ℤ c.policy.max_warnings)
  unfolding check_failures check_warnings
  counts_within c man f g = (ground arith, λ limited. ground arith)

  proofs_valid :
      (c : Config) (e : Evidence)
      → check_signature p w c.policy e ≡ none
      → check_audit p w c e ≡ none
      → (c.policy.require_signed_manifest ≡ true
          → (e.has_signature ≡ true) × (e.signature_error ≡ none))
        × (c.policy.require_audit ≡ true → (c.audit.enabled ≡ true) × (e.audit_error ≡ none))
  unfolding check_signature check_audit
  proofs_valid c e f g = (
    λ q. elim (Bool-cases e.has_signature) [
      | inl has ↦ (has, on_error-none _ e.signature_error (rw (q, has) at f))
      | inr lacks ↦ absurd (clash (rw (q, lacks) at f))
    ],
    λ q. elim (Bool-cases c.audit.enabled) [
      | inl on ↦ (on, on_error-none _ e.audit_error (rw (q, on) at g))
      | inr off ↦ absurd (clash (rw (q, off) at g))
    ],
  )
    where
      clash : {x : String × String} → some x ≡ none → ⊥
      clash e = cc

  -- A healthy report under an enabled policy means that the latest manifest is read and every part of
  -- the policy holds of it and of the state files: the age of the backup, its failures and warnings,
  -- the signature, the attestation, the audit ledger, and the drills and the copy that are configured.
  pub healthy-Complies :
      (c : Config) (e : Evidence) (now : Time)
      → c.policy.enabled ≡ true
      → (evaluate p w c e now).healthy ≡ true
      → (man : Manifest) × Complies p c e man now
  unfolding evaluate findings check_kms check_audit check_signature check_warnings check_failures
      check_backup_age
  healthy-Complies c e now on h = with_manifest e.manifest refl (rw (evaluate, on) at h)
    where
      with_manifest :
          (m : LatestManifest)
          → e.manifest ≡ m
          → (on_manifest p w c e now m (healthy_report p w now)).healthy ≡ true
          → (man : Manifest) × Complies p c e man now
      with_manifest (LatestManifest.no_manifest x) q h = cc
      with_manifest (LatestManifest.latest man) q h =
          let (
            (
              age,
              (
                failures,
                (
                  warnings,
                  (
                    signature,
                    (kms, (audit, (drill, (drill_time, (gitlab, (gitlab_time, (offsite, _))))))),
                  ),
                ),
              ),
            ),
            _,
          ) =
            note_all-healthy (findings p w c e man now) (healthy_report p w now) h in
          let (few, limited) = counts_within c man failures warnings in
          let (signed, audited) = proofs_valid c e signature audit in
          (
            man,
            record {
              read = q;
              recent = backup_in_time c man now age;
              few_failures = few;
              few_warnings = limited;
              signed = signed;
              attested = λ x y. on_error-none _ e.kms_error (
                  only_if-none
                    (c.security.kms_attestation.enabled && c.security.kms_attestation.require_valid)
                    _ kms (ground arith));
              audited = audited;
              drilled = check_age-IsFresh _ _ _ now drill;
              drilled_quickly = check_duration-IsQuick _ _ _ drill_time;
              gitlab_drilled = λ x. (
                check_age-IsFresh _ _ _ now (only_if-none _ _ gitlab x),
                check_duration-IsQuick _ _ _ (only_if-none _ _ gitlab_time x),
              );
              copied = λ x. check_age-IsFresh _ _ _ now (only_if-none _ _ offsite x);
            },
          )
