-- ===== src/ControlPlane/Store/Jobs/Picking.antt =====
-- Lease: which of the leasable jobs are picked, and how many.
use repo_ark.Prelude.{
  ◌≤◌, ◌<◌, String, ◌≡◌, true, false, List, [], ◌∷◌, arith, length, select, In, In-select_of,
  length-take,
}
use repo_ark.Prelude.Int.{ℤ, pos, pos_part, ◌<ℤ◌}
use repo_ark.Prelude.Table.{Table, values}
use repo_ark.Prelude.Sort.{sort_by, In-sort_by_of, take-sort_by_best}
use repo_ark.Prelude.Clock.{Time, Duration}
use repo_ark.ControlPlane.Model.{Job}
use repo_ark.ControlPlane.Store.{MemoryStore}
use repo_ark.ControlPlane.Store.Jobs.{leasable, job_less, limit_of, grant, picked, lease}
use repo_ark.ControlPlane.Store.Jobs.Leasing.{length-granted}

job_less_asym : (x y : Job) → job_less x y ≡ true → job_less y x ≡ false
unfolding job_less
job_less_asym x y h = ground arith

job_less_trans : (x y z : Job) → job_less y x ≡ false → job_less z y ≡ false → job_less z x ≡ false
unfolding job_less
job_less_trans x y z h k = ground arith

module _ (now : Time) (owner : String) (limit : ℤ) (jobs : Table Job) where
  -- Of the jobs of a table, no leasable job that Lease leaves out comes before one that is picked:
  -- it has no higher priority, and at the same priority it is no older.
  pub picked_best :
      (a b : Job)
      → In a (picked now owner limit jobs)
      → In b (values jobs)
      → leasable now owner b ≡ true
      → ¬ In b (picked now owner limit jobs)
      → job_less b a ≡ false
  unfolding picked
  picked_best a b ma mb fit out =
      let candidates = select (leasable now owner) (values jobs) in
      take-sort_by_best job_less job_less_asym job_less_trans
        (limit_of limit (sort_by job_less candidates)) candidates a b ma
        (In-select_of (leasable now owner) (values jobs) b mb fit) out

  limit_of-pos : (xs : List Job) (a : Job) → In a xs → 0 < limit_of limit xs
  limit_of-pos [] a m = absurd m
  limit_of-pos (x ∷ xs) a m = ground arith

  length-pos : (xs : List Job) (a : Job) → In a xs → 0 < length xs
  length-pos [] a m = absurd m
  length-pos (x ∷ xs) a m = omega arith

  -- If some job is leasable, some job is picked.
  picked_nonempty :
      (a : Job)
      → In a (values jobs)
      → leasable now owner a ≡ true
      → 0 < length (picked now owner limit jobs)
  unfolding picked
  picked_nonempty a m fit =
      let candidates = select (leasable now owner) (values jobs) in
      let xs = sort_by job_less candidates in
      let here =
        In-sort_by_of job_less candidates a
          (In-select_of (leasable now owner) (values jobs) a m fit) in
      omega
        (arith, length-take (limit_of limit xs) xs, limit_of-pos xs a here, length-pos xs a here)

-- Lease hands out at least one job where some job is leasable, and at most `limit` jobs if that is
-- positive.
pub lease_progress :
    (now : Time) (owner : String) (limit : ℤ) (d : Duration) (m : MemoryStore) (j : Job)
    → In j (values m.jobs)
    → leasable now owner j ≡ true
    → (0 < length (lease now owner limit d m).0)
      × (pos 0 <ℤ limit → length (lease now owner limit d m).0 ≤ pos_part limit)
unfolding lease picked
lease_progress now owner limit d m j here fit =
    let xs = sort_by job_less (select (leasable now owner) (values m.jobs)) in
    (
      omega (
        arith,
        length-granted (grant now owner d) (picked now owner limit m.jobs),
        picked_nonempty now owner limit m.jobs j here fit,
      ),
      λ positive. ground (
        arith,
        length-granted (grant now owner d) (picked now owner limit m.jobs),
        length-take (limit_of limit xs) xs,
      ),
    )
