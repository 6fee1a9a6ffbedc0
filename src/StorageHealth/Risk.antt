-- ===== src/StorageHealth/Risk.antt =====
-- What the score of a disk means.
use repo_ark.Prelude.{ℕ, ◌≤◌, ◌≡◌, ◌↔◌, true, arith, if◌then◌else◌, ltb}
use repo_ark.Prelude.Int.{ℤ, pos, ◌≤ℤ◌}
use repo_ark.ControlPlane.Model.{Health}
use repo_ark.ControlPlane.Config.{DiskTelemetryConfig}
use repo_ark.StorageHealth.{DiskReport, has_failed, weights, threshold_of, health_of, score_disk}

weights-failed :
    (r : DiskReport) (cfg : DiskTelemetryConfig)
    → has_failed r.smart_passed ≡ true
    → 100 ≤ (weights r cfg).0
weights-failed r cfg h = ground (arith, h)

threshold_pos : (cfg : DiskTelemetryConfig) → pos 1 ≤ℤ threshold_of cfg
threshold_pos cfg = ground arith

capped : (n : ℕ) → (if ltb 100 n then 100 else n) ≤ 100
capped n = ground arith

full : (n : ℕ) → 100 ≤ n → (if ltb 100 n then 100 else n) ≡ 100
full n h = ground arith

healthy_at : (n : ℕ) (t : ℤ) → pos 1 ≤ℤ t → (health_of n t ≡ Health.healthy) ↔ (n ≡ 0)
healthy_at n t h = (λ e. ground arith, λ e. ground arith)

unhealthy_at :
    (n : ℕ) (t : ℤ)
    → 100 ≤ n
    → t ≤ℤ pos 100
    → health_of (if ltb 100 n then 100 else n) t ≡ Health.unhealthy
unhealthy_at n t h low = ground arith

-- scoreDisk gives a score of at most 100; the disk is healthy exactly if the score is 0; and a
-- failed SMART status scores 100, which is unhealthy at every threshold up to 100.
pub score_disk_cases :
    (r : DiskReport) (cfg : DiskTelemetryConfig)
    → let out = score_disk r cfg in
      (out.risk_score ≤ 100)
      × ((out.health ≡ Health.healthy) ↔ (out.risk_score ≡ 0))
      × (has_failed r.smart_passed ≡ true → out.risk_score ≡ 100)
      × (has_failed r.smart_passed ≡ true
          → threshold_of cfg ≤ℤ pos 100
          → out.health ≡ Health.unhealthy)
unfolding score_disk
score_disk_cases r cfg =
    let failed = weights-failed r cfg in
    let positive = threshold_pos cfg in
    (
      capped (weights r cfg).0,
      healthy_at (if ltb 100 (weights r cfg).0 then 100 else (weights r cfg).0) (threshold_of cfg)
          positive,
      λ h. full (weights r cfg).0 (failed h),
      λ h low. unhealthy_at (weights r cfg).0 (threshold_of cfg) (failed h) low,
    )
