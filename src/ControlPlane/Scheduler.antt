-- ===== src/ControlPlane/Scheduler.antt =====
-- internal/controlplane/scheduler.go: the schedule of a repository, the discovery of repositories
-- and the enqueueing of due backups. The listing of the repositories by the GitHub client is an
-- argument.
pub mod Due
use repo_ark.Prelude.{
  ℕ, zero, suc, ◌+◌, ◌-◌, ◌*◌, String, Bool, true, false, not, ◌&&◌, ◌||◌, List, [], ◌∷◌,
  if◌then◌else◌,
}
use repo_ark.Prelude.Int.{ℤ, pos, negsuc, wrap64, lti}
use repo_ark.Prelude.Text.{eqs}
use repo_ark.Prelude.Table.{Keys, add_key}
use repo_ark.Prelude.Clock.{Time, Duration, zero_time, time_add, second, hour, positive_or}
use repo_ark.ControlPlane.Model.{Job, JobStatus, Repository}
use repo_ark.ControlPlane.Platform.{Platform}
use repo_ark.ControlPlane.Store.{MemoryStore}
use repo_ark.ControlPlane.Store.Jobs.{enqueue}
use repo_ark.ControlPlane.Store.Repositories.{
  zero_repository, due_repositories, mark_scheduled, upsert_repository,
  disable_missing_repositories,
}

-- RepoSchedulePolicy of internal/config/config.go
pub record RepoSchedulePolicy : Type 0 where
  pub pattern : String
  pub interval : String
  pub priority : ℤ
  pub mirror_gitlab : Bool

pub record Schedule : Type 0 where
  pub interval : Duration
  pub priority : ℤ
  pub mirror : Bool

-- A repository as the GitHub client lists it.
pub record Listed : Type 0 where
  pub full_name : String
  pub fork : Bool
  pub archived : Bool

-- Duration(n) * time.Second in 64 bits
abbrev pub seconds : ℤ → Duration
seconds (pos n) = wrap64 (pos (n * second))
seconds (negsuc n) = wrap64 (negsuc (suc n * second - 1))

-- `path_match` is path.Match, which matches nothing with an error.
module _ (p : Platform) (path_match : String → String → Bool) where
  abbrev pub matches_policy : RepoSchedulePolicy → String → Bool
  matches_policy s full_name =
      eqs s.pattern "*" || eqs s.pattern "**" || path_match s.pattern full_name

  -- The first policy that matches decides; its interval counts if it is positive.
  abbrev pub policy_schedule : Duration → Bool → String → List RepoSchedulePolicy → Schedule
  policy_schedule fallback mirror full_name [] = record {
    interval = fallback;
    priority = pos 50;
    mirror = mirror;
  }
  policy_schedule fallback mirror full_name (s ∷ policies) =
      let rest = policy_schedule fallback mirror full_name policies in
      let own = p.parse_duration s.interval in
      if matches_policy s full_name
      then record {
        interval = if lti (pos 0) own then own else fallback;
        priority = s.priority;
        mirror = s.mirror_gitlab;
      }
      else rest

  unfoldable pub schedule_for : String → Bool → List RepoSchedulePolicy → String → Schedule
  schedule_for default_interval mirroring policies full_name =
      policy_schedule (positive_or (p.parse_duration default_interval) (pos (24 * hour))) mirroring
        full_name policies

-- The record of a listed repository that SyncRepositories stores. `whole_seconds` is the conversion
-- int64(interval.Seconds()), through a float64.
abbrev pub discovered :
    (String → String → String)
    → (Duration → ℤ)
    → Time
    → String
    → String
    → (String → Schedule)
    → Listed
    → Repository
discovered id_of whole_seconds now login root schedule r =
    let s = schedule r.full_name in
    record zero_repository {
      id = id_of login r.full_name;
      account = login;
      full_name = r.full_name;
      backup_root = root;
      interval_seconds = whole_seconds s.interval;
      priority = s.priority;
      mirror_gitlab = s.mirror;
      enabled = true;
      next_run_at = now;
    }

module _ (id_of : String → String → String) (make : Listed → Repository)
    (include_forks include_archived : Bool) where
  abbrev pub is_skipped : Listed → Bool
  is_skipped r = (r.fork && not include_forks) || (r.archived && not include_archived)

  -- The loop over the listed repositories: the store, and the identifiers seen.
  unfoldable pub sync_listed : Time → List Listed → Keys → MemoryStore → MemoryStore × Keys
  sync_listed now [] seen m = (m, seen)
  sync_listed now (r ∷ rs) seen m =
      let rec = make r in
      let skipped = sync_listed now rs seen m in
      let taken = sync_listed now rs (add_key rec.id seen) (upsert_repository id_of now rec m) in
      if is_skipped r then skipped else taken

  unfoldable pub sync_repositories : Time → String → List Listed → MemoryStore → MemoryStore
  unfolding sync_listed
  sync_repositories now login rs m =
      let (m', seen) = sync_listed now rs [] m in disable_missing_repositories now login seen m'

-- The backup job of a repository; `payload` formats the JSON of its payload.
abbrev pub backup_of : (String → String → String) → Time → ℤ → Repository → Job
backup_of payload now max_attempts r = record {
  id = "";
  kind = "backup-repo";
  target = r.full_name;
  payload = payload r.id r.full_name;
  status = JobStatus.unset;
  priority = r.priority;
  attempts = pos 0;
  max_attempts = max_attempts;
  not_before = now;
  affinity = "";
  lease_owner = "";
  lease_until = zero_time;
  created_at = zero_time;
  updated_at = zero_time;
  last_error = "";
}

-- The loop of EnqueueDue. `clock` and `fresh` are the readings of the clock and the new identifiers
-- in the turn of a repository.
module _ (payload : String → String → String) (clock : Repository → Time)
    (fresh : Repository → String) (max_attempts : ℤ) where
  abbrev pub enqueue_one : Time → Repository → MemoryStore → Bool × MemoryStore
  enqueue_one now r m =
      let ((j, created), m') =
        enqueue (clock r) (fresh r) (backup_of payload now max_attempts r) m in
      (created, mark_scheduled (clock r) r.id (time_add now (seconds r.interval_seconds)) m')

  unfoldable pub enqueue_all : Time → List Repository → MemoryStore → ℕ × MemoryStore
  enqueue_all now [] m = (0, m)
  enqueue_all now (r ∷ rs) m =
      let (created, m') = enqueue_one now r m in
      let (n, end) = enqueue_all now rs m' in (if created then suc n else n, end)

  unfoldable pub enqueue_due : Time → MemoryStore → ℕ × MemoryStore
  unfolding enqueue_all
  enqueue_due now m = enqueue_all now (due_repositories now (pos 500) m) m
