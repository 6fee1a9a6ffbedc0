-- ===== src/ControlPlane/Scheduler/Due.antt =====
-- What the scheduler leaves: no due repository twice, none that disappeared, and positive intervals.
use mathlib.Core.Bool.{false≢true}
use repo_ark.Prelude.{
  ◌*◌, ◌^◌, ◌≤◌, ◌<◌, String, ◌≡◌, refl, sym, ap, ◌∙◌, ◌⊎◌, inl, inr, Bool, true, false, List, [],
  ◌∷◌, arith, length, In, All, find_first, Option-cases, Bool-cases,
}
use repo_ark.Prelude.Int.{ℤ, pos, pos_part, negsuc, ◌<ℤ◌, wrap64-IsInt64}
use repo_ark.Prelude.Text.{eqs, eq_iff}
use repo_ark.Prelude.Table.{get-put, values}
use repo_ark.Prelude.Clock.{Time, time_add, second, hour, positive_or}
use repo_ark.ControlPlane.Model.{Repository}
use repo_ark.ControlPlane.Platform.{Platform}
use repo_ark.ControlPlane.Store.{MemoryStore}
use repo_ark.ControlPlane.Store.Jobs.{enqueue, same_work}
use repo_ark.ControlPlane.Store.Repositories.{is_due, repo_at, due_repositories, mark_scheduled}
use repo_ark.ControlPlane.Scheduler.{
  RepoSchedulePolicy, seconds, policy_schedule, schedule_for, backup_of, enqueue_one, enqueue_all,
  enqueue_due,
}

-- The interval is at least a second, and its nanoseconds fit in 64 bits.
abbrev pub HasInterval : Repository → Type 0
HasInterval r =
    (1 ≤ pos_part r.interval_seconds) × (pos_part r.interval_seconds * 1000000000 < 2 ^ 63)

later :
    (now : Time) (i : ℤ)
    → 1 ≤ pos_part i
    → pos_part i * 1000000000 < 2 ^ 63
    → now < time_add now (seconds i)
later now (pos n) h k =
    rw (wrap64-IsInt64 (pos (n * second)) (omega (arith, k), omega arith)) omega (arith, h)
later now (negsuc n) h k = absurd (omega (arith, h))

module _ (payload : String → String → String) (clock : Repository → Time)
    (fresh : Repository → String) (max_attempts : ℤ) where
  repos-enqueue :
      (now : Time) (r : Repository) (m : MemoryStore)
      → (enqueue (clock r) (fresh r) (backup_of payload now max_attempts r) m).1.repos ≡ m.repos
  unfolding enqueue
  repos-enqueue now r m =
      elim (Option-cases
        (find_first (same_work (backup_of payload now max_attempts r)) (values m.jobs))) [
          | inl e ↦ rw (e, enqueue) refl
          | inr (x, e) ↦ rw (e, enqueue) refl
        ]

  -- One turn gives its repository a next run after now, and changes no other.
  repo_at-enqueue_one :
      (now : Time) (r : Repository) (k : String) (m : MemoryStore)
      → HasInterval r
      → let m' = (enqueue_one payload clock fresh max_attempts now r m).1 in
        ((eqs r.id k ≡ true) × (is_due now (repo_at k m') ≡ false))
        ⊎ ((eqs r.id k ≡ false) × (repo_at k m' ≡ repo_at k m))
  unfolding mark_scheduled
  repo_at-enqueue_one now r k m h =
      let e = (enqueue (clock r) (fresh r) (backup_of payload now max_attempts r) m).1 in
      let next = time_add now (seconds r.interval_seconds) in
      let stored = record (repo_at r.id e) { next_run_at = next; updated_at = clock r } in
      let ahead = later now r.interval_seconds h.0 h.1 in
      elim (Bool-cases (eqs r.id k)) [
        | inl hit ↦
            inl (hit, rw (repo_at, get-put r.id k stored e.repos, hit) ground (arith, ahead))
        | inr other ↦
            inr (
              other,
              rw (repo_at, get-put r.id k stored e.repos, other, repos-enqueue now r m) refl,
            )
      ]

  stays_scheduled :
      (now : Time) (rs : List Repository) (k : String) (m : MemoryStore)
      → All HasInterval rs
      → is_due now (repo_at k m) ≡ false
      → is_due now (repo_at k (enqueue_all payload clock fresh max_attempts now rs m).1) ≡ false
  unfolding enqueue_all
  stays_scheduled now [] k m h idle = idle
  stays_scheduled now (r ∷ rs) k m h idle =
      let m' = (enqueue_one payload clock fresh max_attempts now r m).1 in
      stays_scheduled now rs k m' h.1 (elim (repo_at-enqueue_one now r k m h.0) [
        | inl (hit, done) ↦ done
        | inr (other, same) ↦ ap (is_due now) same ∙ idle
      ])

  In-scheduled :
      (now : Time) (rs : List Repository) (r : Repository) (m : MemoryStore)
      → All HasInterval rs
      → In r rs
      → is_due now (repo_at r.id (enqueue_all payload clock fresh max_attempts now rs m).1) ≡ false
  unfolding enqueue_all
  In-scheduled now [] r m h here = absurd here
  In-scheduled now (x ∷ rs) r m h (inr here) =
      In-scheduled now rs r (enqueue_one payload clock fresh max_attempts now x m).1 h.1 here
  In-scheduled now (x ∷ rs) r m h (inl here) =
      stays_scheduled now rs r.id (enqueue_one payload clock fresh max_attempts now x m).1 h.1
        (elim (repo_at-enqueue_one now x r.id m h.0) [
          | inl (hit, done) ↦ done
          | inr (other, same) ↦ absurd (
              false≢true
                (sym other ∙ (eq_iff x.id r.id).1 (ap (λ (y : Repository). y.id) (sym here))))
        ])

  enqueued_le :
      (now : Time) (rs : List Repository) (m : MemoryStore)
      → (enqueue_all payload clock fresh max_attempts now rs m).0 ≤ length rs
  unfolding enqueue_all
  enqueued_le now [] m = omega arith
  enqueued_le now (r ∷ rs) m =
      let one = enqueue_one payload clock fresh max_attempts now r m in
      ground (arith, enqueued_le now rs one.1, Bool-cases one.0)

  -- EnqueueDue counts no more jobs than it read due repositories, and leaves none of these due at
  -- the same time again, where the interval of each is at least a second and fits in 64 bits of
  -- nanoseconds.
  pub enqueue_due_once :
      (now : Time) (m : MemoryStore)
      → All HasInterval (due_repositories now (pos 500) m)
      → let due = due_repositories now (pos 500) m in
        let out = enqueue_due payload clock fresh max_attempts now m in
        (out.0 ≤ length due)
        × ((r : Repository) → In r due → is_due now (repo_at r.id out.1) ≡ false)
  unfolding enqueue_due
  enqueue_due_once now m h =
      let due = due_repositories now (pos 500) m in
      (enqueued_le now due m, λ r here. In-scheduled now due r m h here)

-- Whatever the configuration says, the interval that scheduleFor gives is positive: a policy whose
-- interval does not parse or is not positive keeps the fallback.
pub schedule_for_positive :
    (p : Platform) (path_match : String → String → Bool) (default : String) (mirroring : Bool)
    (policies : List RepoSchedulePolicy) (full_name : String)
    → pos 0 <ℤ (schedule_for p path_match default mirroring policies full_name).interval
unfolding schedule_for
schedule_for_positive p path_match default mirroring policies full_name =
    positive (positive_or (p.parse_duration default) (pos (24 * hour))) policies (ground arith)
  where
    positive :
        (fallback : ℤ) (rest : List RepoSchedulePolicy)
        → pos 0 <ℤ fallback
        → pos 0 <ℤ (policy_schedule p path_match fallback mirroring full_name rest).interval
    positive fallback [] h = h
    positive fallback (s ∷ rest) h = ground (arith, h, positive fallback rest h)
