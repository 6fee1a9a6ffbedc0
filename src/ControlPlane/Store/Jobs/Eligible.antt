-- ===== src/ControlPlane/Store/Jobs/Eligible.antt =====
-- Which jobs Lease of internal/controlplane/memory.go may hand out, in plain terms.
use repo_ark.Prelude.{◌≤◌, ◌<◌, String, ◌≡◌, refl, ◌⊎◌, true, arith}
use repo_ark.Prelude.Int.{◌<ℤ◌}
use repo_ark.Prelude.Text.{eq_iff}
use repo_ark.Prelude.Clock.{Time}
use repo_ark.ControlPlane.Model.{Job, JobStatus, is_job_queued, is_job_running}
use repo_ark.ControlPlane.Store.Jobs.{leasable}

-- What a job must be for a lease to `owner`.
pub record CanLease (now : Time) (owner : String) (j : Job) : Type 0 where
  pub attempts_left : j.attempts <ℤ j.max_attempts
  pub due : j.not_before ≤ now
  pub for_owner : (j.affinity ≡ "") ⊎ (j.affinity ≡ owner)
  pub free :
      (j.status ≡ JobStatus.queued)
      ⊎ ((j.status ≡ JobStatus.running) × (0 < j.lease_until) × (j.lease_until ≤ now))

pub is_queued : (s : JobStatus) → is_job_queued s ≡ true → s ≡ JobStatus.queued
is_queued JobStatus.queued h = refl
is_queued JobStatus.unset h = cc
is_queued JobStatus.running h = cc
is_queued JobStatus.succeeded h = cc
is_queued JobStatus.failed h = cc
is_queued (JobStatus.other s) h = cc

pub is_running : (s : JobStatus) → is_job_running s ≡ true → s ≡ JobStatus.running
is_running JobStatus.running h = refl
is_running JobStatus.unset h = cc
is_running JobStatus.queued h = cc
is_running JobStatus.succeeded h = cc
is_running JobStatus.failed h = cc
is_running (JobStatus.other s) h = cc

pub leasable-CanLease :
    (now : Time) (owner : String) (j : Job) → leasable now owner j ≡ true → CanLease now owner j
unfolding leasable
leasable-CanLease now owner j h = record {
  attempts_left = ground arith;
  due = ground arith;
  for_owner = ground (arith, eq_iff j.affinity "", eq_iff j.affinity owner);
  free = ground (arith, is_queued j.status, is_running j.status);
}
