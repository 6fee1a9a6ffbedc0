-- ===== src/StorageHealth/RiskRuns.antt =====
-- The score of a disk at a small input.
use repo_ark.Prelude.{◌≤◌, ◌≡◌, ◌↔◌, true, false, some, []}
use repo_ark.Prelude.Int.{pos, ◌≤ℤ◌}
use repo_ark.ControlPlane.Model.{Health}
use repo_ark.ControlPlane.Config.{DiskTelemetryConfig}
use repo_ark.StorageHealth.{DiskReport, has_failed, threshold_of, score_disk}
use repo_ark.StorageHealth.Risk.{score_disk_cases}

abbrev broken : DiskReport
broken = record {
  device = "/dev/nvme0";
  tool = "smartctl";
  model = "";
  serial = "";
  smart_passed = some false;
  critical_warning = pos 1;
  temperature_c = pos 40;
  percentage_used = pos 90;
  media_errors = pos 3;
  error_log_entries = pos 7;
  risk_score = 0;
  health = Health.healthy;
  reasons = [];
  checked_at = 100;
  error = "";
}

abbrev limits : DiskTelemetryConfig
limits = record {
  enabled = true;
  interval = "";
  smartctl_path = "";
  nvme_path = "";
  device = "";
  max_temperature_c = pos 70;
  max_percentage_used = pos 80;
  max_media_errors = pos 0;
  risk_threshold = pos 60;
}

score_disk_cases_example :
    let out = score_disk broken limits in
    (out.risk_score ≤ 100)
    × ((out.health ≡ Health.healthy) ↔ (out.risk_score ≡ 0))
    × (has_failed broken.smart_passed ≡ true → out.risk_score ≡ 100)
    × (has_failed broken.smart_passed ≡ true
        → threshold_of limits ≤ℤ pos 100
        → out.health ≡ Health.unhealthy)
score_disk_cases_example = score_disk_cases broken limits
