-- ===== src/StorageHealth.antt =====
-- The risk score of a disk, scoreDisk of internal/storagehealth/smart.go. The reading of smartctl
-- and nvme is not modelled; a float64 that is only compared is an integer of millionths.
pub mod Risk
pub mod RiskRuns
use repo_ark.Prelude.{
  ℕ, ◌+◌, String, Bool, true, false, not, ◌&&◌, Option, none, some, List, [], ◌∷◌, ◌++◌, ltb,
  if◌then◌else◌,
}
use repo_ark.Prelude.Int.{ℤ, pos, lti, lei, eqi}
use repo_ark.Prelude.Clock.{Time}
use repo_ark.ControlPlane.Config.{DiskTelemetryConfig}
use repo_ark.ControlPlane.Model.{Health}

-- The texts of the reasons, with the numbers they print.
pub data Reason : Type 0 where
  smart_failed : Reason
  critical worn hot logged : ℤ → Reason
  media : ℤ → ℤ → Reason

-- SMARTPassed is a pointer.
pub record DiskReport : Type 0 where
  pub device : String
  pub tool : String
  pub model : String
  pub serial : String
  pub smart_passed : Option Bool
  pub critical_warning : ℤ
  pub temperature_c : ℤ
  pub percentage_used : ℤ
  pub media_errors : ℤ
  pub error_log_entries : ℤ
  pub risk_score : ℕ
  pub health : Health
  pub reasons : List Reason
  pub checked_at : Time
  pub error : String

-- The score so far and the reasons so far.
abbrev pub RiskSum : Type 0
RiskSum = ℕ × List Reason

-- if found { score += weight; reasons = append(reasons, reason) }
abbrev pub weigh : Bool → ℕ → Reason → RiskSum → RiskSum
weigh found weight reason (score, reasons) =
    if found then (score + weight, reasons ++ reason ∷ []) else (score, reasons)

abbrev pub has_failed : Option Bool → Bool
has_failed none = false
has_failed (some passed) = not passed

abbrev pub weights : DiskReport → DiskTelemetryConfig → RiskSum
weights r cfg = weigh (lti (pos 0) r.error_log_entries) 5 (logged r.error_log_entries) (
    weigh (lti (pos 0) cfg.max_temperature_c && lei cfg.max_temperature_c r.temperature_c) 20
      (hot r.temperature_c)
      (weigh (lti (pos 0) cfg.max_percentage_used && lei cfg.max_percentage_used r.percentage_used)
        30 (worn r.percentage_used)
        (weigh (lei (pos 0) cfg.max_media_errors && lti cfg.max_media_errors r.media_errors) 35
          (media r.media_errors cfg.max_media_errors)
          (weigh (not (eqi r.critical_warning (pos 0))) 50 (critical r.critical_warning)
            (weigh (has_failed r.smart_passed) 100 smart_failed (0, r.reasons))))))

abbrev pub threshold_of : DiskTelemetryConfig → ℤ
threshold_of cfg = if lei cfg.risk_threshold (pos 0) then pos 60 else cfg.risk_threshold

abbrev pub health_of : ℕ → ℤ → Health
health_of score threshold =
    if lei threshold (pos score)
    then Health.unhealthy
    else if ltb 0 score
    then Health.degraded
    else Health.healthy

unfoldable pub score_disk : DiskReport → DiskTelemetryConfig → DiskReport
score_disk r cfg =
    let (sum, reasons) = weights r cfg in
    let score = if ltb 100 sum then 100 else sum in
    record r { reasons = reasons; risk_score = score; health = health_of score (threshold_of cfg) }
