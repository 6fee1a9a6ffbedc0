-- ===== src/ControlPlane/ScheduleRuns.antt =====
-- The scheduler at small inputs.
use repo_ark.Prelude.{◌≤◌, String, ◌≡◌, false, [], ◌∷◌, arith, length, In, All}
use repo_ark.Prelude.Int.{pos}
use repo_ark.Prelude.Sort.{sort_by}
use repo_ark.Prelude.Clock.{Time}
use repo_ark.ControlPlane.Model.{Repository}
use repo_ark.ControlPlane.Store.{MemoryStore, new_memory_store}
use repo_ark.ControlPlane.Store.Repositories.{is_due, repo_at, due_repositories}
use repo_ark.ControlPlane.Scheduler.{RepoSchedulePolicy, enqueue_due}
use repo_ark.ControlPlane.Scheduler.Due.{HasInterval, enqueue_due_once}
use repo_ark.ControlPlane.Samples.{tool}

abbrev payload : String → String → String
payload id name = id

abbrev clock : Repository → Time
clock r = 6001

abbrev fresh : Repository → String
fresh r = "j7"

abbrev hourly : Repository
hourly = record tool { interval_seconds = pos 3600 }

abbrev catalogue : MemoryStore
catalogue = record new_memory_store { repos = ("r1", hourly) ∷ [] }

due_intervals : All HasInterval (due_repositories 6000 (pos 500) catalogue)
unfolding due_repositories sort_by
due_intervals = ((omega arith, omega arith), tt)

enqueue_due_once_example :
    let due = due_repositories 6000 (pos 500) catalogue in
    let out = enqueue_due payload clock fresh (pos 3) 6000 catalogue in
    (out.0 ≤ length due) × ((r : Repository) → In r due → is_due 6000 (repo_at r.id out.1) ≡ false)
enqueue_due_once_example = enqueue_due_once payload clock fresh (pos 3) 6000 catalogue due_intervals

abbrev nightly : RepoSchedulePolicy
nightly = record { pattern = "*"; interval = "24h"; priority = pos 10; mirror_gitlab = false }
