-- ===== src/ControlPlane/Store/Repositories.antt =====
-- The repository catalogue, the agents and the metadata of internal/controlplane/memory.go. `id_of`
-- is RepositoryID of sqlstore.go, a SHA-256 of the account and the name, which is a parameter.
pub mod Schedule
use repo_ark.Prelude.{
  ℕ, ◌+◌, String, Bool, true, false, not, ◌&&◌, Option, none, some, List, [], ◌∷◌, select,
  if◌then◌else◌,
}
use repo_ark.Prelude.Int.{ℤ, pos}
use repo_ark.Prelude.Text.{eqs, lts}
use repo_ark.Prelude.Table.{Table, Keys, get, put, values, has_key}
use repo_ark.Prelude.Sort.{sort_by}
use repo_ark.Prelude.Clock.{Time, zero_time, is_zero, is_after, is_before}
use repo_ark.ControlPlane.Model.{Repository, Agent}
use repo_ark.ControlPlane.Store.{MemoryStore, Result, ok, err, agent_not_found}
use repo_ark.ControlPlane.Store.Objects.{cut}

-- The zero value of Repository, which a missing key reads as.
abbrev pub zero_repository : Repository
zero_repository = record {
  id = "";
  account = "";
  full_name = "";
  backup_root = "";
  interval_seconds = pos 0;
  priority = pos 0;
  mirror_gitlab = false;
  enabled = false;
  next_run_at = zero_time;
  last_backup_at = zero_time;
  last_generation_id = "";
  last_backup_successful = false;
  updated_at = zero_time;
}

-- What a known repository keeps of its last record.
abbrev pub carried_over : Repository → Repository → Repository
carried_over old r = record r {
  last_backup_at = old.last_backup_at;
  last_generation_id = old.last_generation_id;
  last_backup_successful = old.last_backup_successful;
  next_run_at = if is_zero r.next_run_at then old.next_run_at else r.next_run_at;
}

-- The record to store, given what is stored under its key and the present time.
abbrev pub refreshed : Time → Option Repository → Repository → Repository
refreshed now known r =
    let kept : Repository = elim known [ none ↦ r | some old ↦ carried_over old r ] in
    record kept {
      next_run_at = if is_zero kept.next_run_at then now else kept.next_run_at;
      updated_at = now;
    }

unfoldable pub upsert_repository :
    (String → String → String) → Time → Repository → MemoryStore → MemoryStore
upsert_repository id_of now r m =
    let id = if eqs r.id "" then id_of r.account r.full_name else r.id in
    record m { repos = put id (refreshed now (get id m.repos) (record r { id = id })) m.repos }

unfoldable pub list_repositories : MemoryStore → List Repository
list_repositories m = sort_by (λ x y. lts x.full_name y.full_name) (values m.repos)

-- r.Enabled && !r.NextRunAt.After(now)
abbrev pub is_due : Time → Repository → Bool
is_due now r = r.enabled && not (is_after r.next_run_at now)

unfoldable pub due_repositories : Time → ℤ → MemoryStore → List Repository
due_repositories now limit m =
    cut limit (
      sort_by (λ x y. is_before x.next_run_at y.next_run_at) (select (is_due now) (values m.repos)))

-- m.Repos[id]
abbrev pub repo_at : String → MemoryStore → Repository
repo_at id m = elim (get id m.repos) [ none ↦ zero_repository | some r ↦ r ]

unfoldable pub mark_scheduled : Time → String → Time → MemoryStore → MemoryStore
mark_scheduled now id next m =
    let r = repo_at id m in
    record m { repos = put id (record r { next_run_at = next; updated_at = now }) m.repos }

unfoldable pub mark_backup_result : Time → String → Bool → String → Time → MemoryStore → MemoryStore
mark_backup_result now id success gid at m =
    let r = repo_at id m in
    let done = record r {
      last_backup_at = at;
      last_backup_successful = success;
      last_generation_id = gid;
      updated_at = now;
    } in
    record m { repos = put id done m.repos }

abbrev pub disabled_if_missing : Time → String → Keys → String → Repository → Repository
disabled_if_missing now account seen id r =
    if eqs r.account account && not (has_key id seen)
    then record r { enabled = false; updated_at = now }
    else r

abbrev pub disable_missing : Time → String → Keys → Table Repository → Table Repository
disable_missing now account seen [] = []
disable_missing now account seen ((id, r) ∷ t) =
    (id, disabled_if_missing now account seen id r) ∷ disable_missing now account seen t

unfoldable pub disable_missing_repositories : Time → String → Keys → MemoryStore → MemoryStore
disable_missing_repositories now account seen m = record m {
  repos = disable_missing now account seen m.repos;
}

unfoldable pub heartbeat_agent : Time → Agent → MemoryStore → MemoryStore
heartbeat_agent now a m =
    let id = if eqs a.id "" then a.name else a.id in
    record m {
      agents =
          put id (record a { id = id; last_seen_at = now; updated_at = now; status = "online" })
            m.agents;
    }

unfoldable pub list_agents : MemoryStore → List Agent
list_agents m = values m.agents

unfoldable pub get_agent : String → MemoryStore → Result Agent
get_agent id m = elim (get id m.agents) [ none ↦ err agent_not_found | some a ↦ ok a ]

unfoldable pub set_meta : String → String → MemoryStore → MemoryStore
set_meta k v m = record m { meta = put k v m.meta }

unfoldable pub get_meta : String → MemoryStore → String × Bool
get_meta k m = elim (get k m.meta) [ none ↦ ("", false) | some v ↦ (v, true) ]
