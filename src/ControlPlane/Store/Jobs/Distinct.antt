-- ===== src/ControlPlane/Store/Jobs/Distinct.antt =====
-- Deduplication of the queue: no two active jobs of the same kind, target and affinity.
use repo_ark.Prelude.{
  ◌<◌, String, ◌≡◌, refl, true, false, some, arith, find_first, find_first-none, find_first-In, In,
  ◌⊎◌, inl, inr, Option-cases, if◌then◌else◌,
}
use repo_ark.Prelude.Int.{pos, eqi}
use repo_ark.Prelude.Text.{eqs, eq_iff}
use repo_ark.Prelude.Table.{Table, get, put, values, get-put, In-get}
use repo_ark.Prelude.Clock.{Time}
use repo_ark.ControlPlane.Model.{Job, JobStatus, is_job_failed}
use repo_ark.ControlPlane.Store.{MemoryStore, ok}
use repo_ark.ControlPlane.Store.Jobs.Eligible.{is_queued, is_running}
use repo_ark.ControlPlane.Store.Jobs.{is_active, same_work, fill_job, enqueue, retried, retry_job}

-- Active jobs that do the same work stand under one key.
pub record IsDistinct (t : Table Job) : Type 0 where
  pub at_keys :
      (k l : String) (x y : Job)
      → get k t ≡ some x
      → get l t ≡ some y
      → is_active x ≡ true
      → same_work x y ≡ true
      → k ≡ l

-- x' does the work of x, and is active only if x was.
pub record Carries (x x' : Job) : Type 0 where
  pub same_kind : x'.kind ≡ x.kind
  pub same_target : x'.target ≡ x.target
  pub same_affinity : x'.affinity ≡ x.affinity
  pub active_before : is_active x' ≡ true → is_active x ≡ true

-- `t'` has only jobs that carry on the work of jobs of `t`.
pub record Follows (t t' : Table Job) : Type 0 where
  pub origin :
      (k : String) (x' : Job) → get k t' ≡ some x' → (x : Job) × (get k t ≡ some x) × Carries x x'

same_work-Carries :
    (x y x' y' : Job) → Carries x x' → Carries y y' → same_work x' y' ≡ true → same_work x y ≡ true
same_work-Carries x y x' y' cx cy h = ground (
  arith,
  eq_iff y'.kind x'.kind,
  eq_iff y'.target x'.target,
  eq_iff y'.affinity x'.affinity,
  eq_iff y.kind x.kind,
  eq_iff y.target x.target,
  eq_iff y.affinity x.affinity,
)

-- A change of the queue that follows it keeps it distinct.
pub Follows-IsDistinct : (t t' : Table Job) → Follows t t' → IsDistinct t → IsDistinct t'
Follows-IsDistinct t t' f d = record {
  at_keys = λ k l x' y' ex ey ax s.
      let (x, px, cx) = f.origin k x' ex in
      let (y, py, cy) = f.origin l y' ey in
      d.at_keys k l x y px py (cx.active_before ax) (same_work-Carries x y x' y' cx cy s);
}

same_work_sym : (x y : Job) → is_active x ≡ true → same_work x y ≡ true → same_work y x ≡ true
same_work_sym x y a h = ground (
  arith,
  eq_iff y.kind x.kind,
  eq_iff y.target x.target,
  eq_iff y.affinity x.affinity,
  eq_iff x.kind y.kind,
  eq_iff x.target y.target,
  eq_iff x.affinity y.affinity,
)

module _ (t : Table Job) (j : Job) (id : String) (d : IsDistinct t) where
  -- A job that does the work of no active job can be put anywhere.
  put-IsDistinct : ((y : Job) → In y (values t) → same_work j y ≡ false) → IsDistinct (put id j t)
  put-IsDistinct apart = record {
    at_keys = λ k l x y ex ey ax s. ground (
      arith,
      get-put id k j t,
      get-put id l j t,
      eq_iff id k,
      eq_iff id l,
      d.at_keys k l x y,
      In-get k t x,
      In-get l t y,
      apart x,
      apart y,
      same_work_sym x y,
    );
  }

-- Enqueue keeps the queue free of duplicates: of any two active jobs of the same kind, target and
-- affinity in the new queue, both stand under one key.
pub enqueue-IsDistinct :
    (now : Time) (fresh : String) (j : Job) (m : MemoryStore)
    → IsDistinct m.jobs
    → IsDistinct (enqueue now fresh j m).1.jobs
unfolding enqueue
enqueue-IsDistinct now fresh j m d =
    elim (Option-cases (find_first (same_work j) (values m.jobs))) [
      | inl e ↦
          rw (e, enqueue)
            (put-IsDistinct m.jobs (fill_job now fresh j) (fill_job now fresh j).id d
              (λ y here. find_first-none (same_work j) (values m.jobs) y e here))
      | inr (x, e) ↦ rw (e, enqueue) d
    ]

-- x is a queued or running job of the same kind, target and affinity as j.
pub record DoesWork (j x : Job) : Type 0 where
  pub same_kind : x.kind ≡ j.kind
  pub same_target : x.target ≡ j.target
  pub same_affinity : x.affinity ≡ j.affinity
  pub active : (x.status ≡ JobStatus.queued) ⊎ (x.status ≡ JobStatus.running)

same_work-DoesWork : (j x : Job) → same_work j x ≡ true → DoesWork j x
same_work-DoesWork j x h = record {
  same_kind = ground (arith, eq_iff x.kind j.kind);
  same_target = ground (arith, eq_iff x.target j.target);
  same_affinity = ground (arith, eq_iff x.affinity j.affinity);
  active = ground (arith, is_queued x.status, is_running x.status);
}

not_same_work : (j x : Job) → same_work j x ≡ false → ¬ DoesWork j x
not_same_work j x h w =
    let k = (eq_iff x.kind j.kind).1 w.same_kind in
    let t = (eq_iff x.target j.target).1 w.same_target in
    let a = (eq_iff x.affinity j.affinity).1 w.same_affinity in
    let active : is_active x ≡ true = elim w.active [ inl q ↦ rw q refl | inr r ↦ rw r refl ] in
    ground arith

-- j as Enqueue enters it into the queue.
pub record Entered (now : Time) (fresh : String) (j x : Job) : Type 0 where
  pub id_given : eqs j.id "" ≡ false → x.id ≡ j.id
  pub id_fresh : eqs j.id "" ≡ true → x.id ≡ fresh
  pub status_given : ¬ (j.status ≡ JobStatus.unset) → x.status ≡ j.status
  pub status_queued : j.status ≡ JobStatus.unset → x.status ≡ JobStatus.queued
  pub limit_given : eqi j.max_attempts (pos 0) ≡ false → x.max_attempts ≡ j.max_attempts
  pub limit_five : eqi j.max_attempts (pos 0) ≡ true → x.max_attempts ≡ pos 5
  pub due_given : 0 < j.not_before → x.not_before ≡ j.not_before
  pub due_now : j.not_before ≡ 0 → x.not_before ≡ now
  pub rest : x ≡ record j {
    id = x.id;
    status = x.status;
    max_attempts = x.max_attempts;
    not_before = x.not_before;
    created_at = now;
    updated_at = now;
  }

status_kept :
    (now : Time) (fresh : String) (j : Job) (s : JobStatus)
    → ¬ (s ≡ JobStatus.unset)
    → (fill_job now fresh (record j { status = s })).status ≡ s
status_kept now fresh j JobStatus.unset h = absurd (h refl)
status_kept now fresh j JobStatus.queued h = refl
status_kept now fresh j JobStatus.running h = refl
status_kept now fresh j JobStatus.succeeded h = refl
status_kept now fresh j JobStatus.failed h = refl
status_kept now fresh j (JobStatus.other s) h = refl

fill_job-Entered :
    (now : Time) (fresh : String) (j : Job) → Entered now fresh j (fill_job now fresh j)
fill_job-Entered now fresh j = record {
  id_given = λ h. ground arith;
  id_fresh = λ h. ground arith;
  status_given = status_kept now fresh j j.status;
  status_queued = λ h. rw h refl;
  limit_given = λ h. ground arith;
  limit_five = λ h. ground arith;
  due_given = λ h. ground arith;
  due_now = λ h. ground arith;
  rest = refl;
}

-- What Enqueue does, on both branches. Where an active job of the same kind, target and affinity
-- is there, one such comes back and nothing changes. Else the job is stored under its ID or a
-- fresh one beside all that was there: queued if it came without a status, with five attempts and
-- due now where these are not set, created and updated now, and otherwise as it came.
pub enqueue_result :
    (now : Time) (fresh : String) (j : Job) (m : MemoryStore)
    → let r = enqueue now fresh j m in
      ((r.0.1 ≡ false) × (r.1 ≡ m) × DoesWork j r.0.0 × In r.0.0 (values m.jobs))
      ⊎ ((r.0.1 ≡ true)
          × Entered now fresh j r.0.0
          × ((y : Job) → In y (values m.jobs) → ¬ DoesWork j y)
          × ((k : String) → get k r.1.jobs ≡ (if eqs r.0.0.id k then some r.0.0 else get k m.jobs))
          × (r.1 ≡ record m { jobs = r.1.jobs }))
unfolding enqueue
enqueue_result now fresh j m = elim (Option-cases (find_first (same_work j) (values m.jobs))) [
  | inl e ↦
      rw (e, enqueue)
        (inr (
          refl,
          fill_job-Entered now fresh j,
          λ y here. not_same_work j y (find_first-none (same_work j) (values m.jobs) y e here),
          λ k. get-put (fill_job now fresh j).id k (fill_job now fresh j) m.jobs,
          refl,
        ))
  | inr (x, e) ↦
      let found = find_first-In (same_work j) (values m.jobs) x e in
      rw (e, enqueue) (inl (refl, refl, same_work-DoesWork j x found.1, found.0))
]

-- RetryJob does not look for a job that already does the work: where a failed job is retried while
-- another one of the same kind, target and affinity is active, the queue has a duplicate.
pub retry_job_duplicates :
    (now : Time) (k l : String) (m : MemoryStore) (x y : Job)
    → get k m.jobs ≡ some x
    → is_job_failed x.status ≡ true
    → get l m.jobs ≡ some y
    → same_work x y ≡ true
    → ((retry_job now k m).0 ≡ ok tt) × (¬ IsDistinct (retry_job now k m).1.jobs)
unfolding retry_job retried
retry_job_duplicates now k l m x y ex failed ey s =
    rw (ex, retry_job)
      (rw failed (
        refl,
        λ d. ground (
          arith,
          d.at_keys k l (retried now x) y,
          get-put k k (retried now x) m.jobs,
          get-put k l (retried now x) m.jobs,
          eq_iff k k,
          eq_iff k l,
        ),
      ))
