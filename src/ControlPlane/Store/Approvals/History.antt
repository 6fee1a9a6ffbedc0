-- ===== src/ControlPlane/Store/Approvals/History.antt =====
-- The calls of the approval workflow, and a history of them.
use repo_ark.Prelude.{String, ◌≡◌, Bool, true, false, Option, List, [], ◌∷◌}
use repo_ark.Prelude.Text.{eqs}
use repo_ark.Prelude.Clock.{Time}
use repo_ark.ControlPlane.Model.{RestoreApproval, ApprovalStatus}
use repo_ark.ControlPlane.Store.{MemoryStore}
use repo_ark.ControlPlane.Store.Jobs.{complete}
use repo_ark.ControlPlane.Store.Approvals.{
  fill_approval, create_restore_approval, approve_restore, schedule_restore,
  release_restore_schedule, mark_restore_executed,
}

-- The calls that change approvals; `completes` is Complete of a job.
pub data Call : Type 0 where
  creates : Time → String → RestoreApproval → Call
  approves : Time → String → String → Call
  schedules releases executes : Time → String → Call
  completes : Time → String → String → Call

-- An approval that somebody has granted.
abbrev pub is_granted : ApprovalStatus → Bool
is_granted ApprovalStatus.approved = true
is_granted ApprovalStatus.scheduled = true
is_granted ApprovalStatus.executed = true
is_granted _ = false

-- Created approvals are not granted yet.
abbrev pub IsPlain : Call → Type 0
IsPlain (creates now fresh a) = is_granted a.status ≡ false
IsPlain _ = Unit

-- A call that does not write the approval `k` anew.
abbrev pub Keeps : String → Call → Type 0
Keeps k (creates now fresh a) = eqs (fill_approval now fresh a).id k ≡ false
Keeps k _ = Unit

module _ (approval_id : String → Option String) (distinct : Bool) where
  -- One call, with `distinct` for the configuration's demand of a second person.
  unfoldable pub step : Call → MemoryStore → MemoryStore
  step (creates now fresh a) m = create_restore_approval now fresh a m
  step (approves now id actor) m = (approve_restore now id actor distinct m).1
  step (schedules now id) m = (schedule_restore now id m).1
  step (releases now id) m = (release_restore_schedule now id m).1
  step (executes now id) m = (mark_restore_executed now id m).1
  step (completes now id owner) m = (complete approval_id now id owner m).1

  unfoldable pub run : List Call → MemoryStore → MemoryStore
  unfolding step
  run [] m = m
  run (c ∷ cs) m = run cs (step c m)
