-- ===== src/ControlPlane/Store/Repositories/Schedule.antt =====
-- The schedule of a repository: what discovery, scheduling and backup results change of it.
use repo_ark.Prelude.{
  String, ◌≡◌, refl, sym, subst, true, false, none, some, [], ◌∷◌, ◌⊎◌, ◌≢◌, inl, inr, arith,
  if◌then◌else◌, Option-cases,
}
use repo_ark.Prelude.Text.{eqs, eq_iff}
use repo_ark.Prelude.Table.{Table, Keys, get, put, get-put_self, has_key}
use repo_ark.Prelude.Clock.{Time, is_zero}
use repo_ark.ControlPlane.Model.{Repository}
use repo_ark.ControlPlane.Store.{MemoryStore}
use repo_ark.ControlPlane.Store.Repositories.{
  refreshed, upsert_repository, is_due, repo_at, disabled_if_missing, disable_missing,
  disable_missing_repositories,
}

module _ (id_of : String → String → String) (now : Time) where
  stored_at :
      (id : String) (v : Repository) (m : MemoryStore)
      → repo_at id (record m { repos = put id v m.repos }) ≡ v
  stored_at id v m = rw (get-put_self id v m.repos, repo_at) refl

  upsert_at :
      (r : Repository) (m : MemoryStore)
      → eqs r.id "" ≡ false
      → repo_at r.id (upsert_repository id_of now r m) ≡ refreshed now (get r.id m.repos) r
  unfolding upsert_repository
  upsert_at r m named =
      subst
        (λ b.
          let id = if b then id_of r.account r.full_name else r.id in
          repo_at r.id (record m {
            repos = put id (refreshed now (get id m.repos) (record r { id = id })) m.repos;
          })
          ≡ refreshed now (get r.id m.repos) r)
        (sym named) (stored_at r.id (refreshed now (get r.id m.repos) r) m)

  -- UpsertRepository of a record with an ID, of a repository stored with a next run, keeps what its
  -- backups recorded, keeps its next run where the new record has none, and replaces the next run
  -- where the new record has one.
  pub upsert_keeps_history :
      (r old : Repository) (m : MemoryStore)
      → eqs r.id "" ≡ false
      → get r.id m.repos ≡ some old
      → is_zero old.next_run_at ≡ false
      → let new = repo_at r.id (upsert_repository id_of now r m) in
        (new.last_backup_at ≡ old.last_backup_at)
        × (new.last_generation_id ≡ old.last_generation_id)
        × (new.last_backup_successful ≡ old.last_backup_successful)
        × (new.next_run_at ≡ (if is_zero r.next_run_at then old.next_run_at else r.next_run_at))
  upsert_keeps_history r old m named known timed =
      rw (upsert_at r m named, known) (refl, refl, refl, ground arith)

  -- UpsertRepository of an enabled record with an ID whose next run is the present time, as each one
  -- of SyncRepositories is, makes the repository due now, whatever its stored schedule was.
  pub rediscovery_reschedules :
      (r : Repository) (m : MemoryStore)
      → eqs r.id "" ≡ false
      → r.enabled ≡ true
      → r.next_run_at ≡ now
      → is_zero now ≡ false
      → is_due now (repo_at r.id (upsert_repository id_of now r m)) ≡ true
  rediscovery_reschedules r m named on at real =
      rw (upsert_at r m named) (elim (Option-cases (get r.id m.repos)) [
        | inl e ↦ rw e ground arith
        | inr (old, e) ↦ rw e ground arith
      ])

get-disable_missing :
    (now : Time) (account : String) (seen : Keys) (k : String) (t : Table Repository)
    → get k (disable_missing now account seen t)
      ≡ (elim (get k t) [ none ↦ none | some r ↦ some (disabled_if_missing now account seen k r) ])
unfolding get
get-disable_missing now account seen k [] = refl
get-disable_missing now account seen k ((j, r) ∷ t) =
    ground (arith, get-disable_missing now account seen k t, eq_iff j k)

-- DisableMissingRepositories disables the repositories of the account that were not seen, so that
-- none of them is due at any time, and changes no other.
pub disable_missing_cases :
    (now later : Time) (account : String) (seen : Keys) (id : String) (r : Repository)
    (m : MemoryStore)
    → get id m.repos ≡ some r
    → let new = repo_at id (disable_missing_repositories now account seen m) in
      (r.account ≡ account → has_key id seen ≡ false → is_due later new ≡ false)
      × ((r.account ≢ account) ⊎ (has_key id seen ≡ true) → new ≡ r)
unfolding disable_missing_repositories
disable_missing_cases now later account seen id r m here =
    rw
      (get-disable_missing now account seen id m.repos, here, disable_missing_repositories, repo_at)
      (
        λ same gone. ground (arith, eq_iff r.account account),
        λ other. ground (arith, eq_iff r.account account),
      )
