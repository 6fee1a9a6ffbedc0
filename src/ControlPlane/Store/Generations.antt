-- ===== src/ControlPlane/Store/Generations.antt =====
-- Generations, their replicas and the transfers between agents, of internal/controlplane/memory.go.
pub mod Replicas
pub mod Pruning
use repo_ark.Prelude.{
  ℕ, String, Bool, true, false, not, ◌&&◌, Option, none, some, List, [], ◌∷◌, ◌++◌, length, take,
  drop, select, ltb, if◌then◌else◌,
}
use repo_ark.Prelude.Int.{ℤ, pos, pos_part, lti}
use repo_ark.Prelude.Text.{eqs}
use repo_ark.Prelude.Table.{Table, get, put, delete, values, list_at}
use repo_ark.Prelude.Sort.{sort_by}
use repo_ark.Prelude.Clock.{Time, is_zero, is_after, is_before}
use repo_ark.ControlPlane.Model.{
  Generation, GenerationReplica, ReplicationTransfer, TransferState, is_transfer_unset,
}
use repo_ark.ControlPlane.Store.{
  MemoryStore, Result, ok, err, Outcome, transfer_id_required, transfer_not_found,
}
use repo_ark.ControlPlane.Store.Objects.{cut}

-- The lists of a map one after another.
abbrev pub joined : {A : Type 0} → List (List A) → List A
joined [] = []
joined (xs ∷ rest) = xs ++ joined rest

unfoldable pub record_generation : Generation → MemoryStore → MemoryStore
record_generation g m = record m {
  generations = put g.repository_id (list_at g.repository_id m.generations ++ g ∷ []) m.generations;
}

-- The newest generation first.
abbrev pub newer : Generation → Generation → Bool
newer x y = is_after x.created_at y.created_at

unfoldable pub list_all_generations : ℤ → MemoryStore → List Generation
list_all_generations limit m = cut limit (sort_by newer (joined (values m.generations)))

-- The replica of the agent is replaced where it stands, and a new one comes last.
unfoldable pub put_replica : GenerationReplica → List GenerationReplica → List GenerationReplica
put_replica r [] = r ∷ []
put_replica r (x ∷ xs) =
    let rest = put_replica r xs in if eqs x.agent_id r.agent_id then r ∷ xs else x ∷ rest

unfoldable pub record_replica : Time → GenerationReplica → MemoryStore → MemoryStore
unfolding put_replica
record_replica now r m =
    let stamped = record r { updated_at = now } in
    let xs = put_replica stamped (list_at r.generation_id m.replicas) in
    record m { replicas = put r.generation_id xs m.replicas }

unfoldable pub list_replicas : String → MemoryStore → List GenerationReplica
list_replicas generation_id m = list_at generation_id m.replicas

unfoldable pub record_replication_transfer :
    Time → ReplicationTransfer → MemoryStore → Outcome (Unit {0})
record_replication_transfer now t m =
    let state = if is_transfer_unset t.state then TransferState.ready else t.state in
    if eqs t.id "" then (err transfer_id_required, m) else (
      ok tt,
      record m { transfers = put t.id (record t { state = state; updated_at = now }) m.transfers },
    )

unfoldable pub get_replication_transfer : String → MemoryStore → Result ReplicationTransfer
get_replication_transfer id m = elim (get id m.transfers) [
  | none ↦ err transfer_not_found
  | some t ↦ ok t
]

-- !t.ExpiresAt.IsZero() && !t.ExpiresAt.After(now)
abbrev pub is_transfer_expired : Time → ReplicationTransfer → Bool
is_transfer_expired now t = not (is_zero t.expires_at) && not (is_after t.expires_at now)

unfoldable pub list_expired_replication_transfers :
    Time → ℤ → MemoryStore → List ReplicationTransfer
list_expired_replication_transfers now limit m = cut limit (
    sort_by (λ x y. is_before x.expires_at y.expires_at)
      (select (is_transfer_expired now) (values m.transfers)))

unfoldable pub delete_replication_transfer : String → MemoryStore → MemoryStore
delete_replication_transfer id m = record m { transfers = delete id m.transfers }

unfoldable pub list_all_replicas : ℤ → MemoryStore → List GenerationReplica
list_all_replicas limit m =
    cut limit (sort_by (λ x y. is_after x.updated_at y.updated_at) (joined (values m.replicas)))

unfoldable pub list_generations : String → ℤ → MemoryStore → List Generation
list_generations rid limit m = cut limit (sort_by newer (list_at rid m.generations))

-- The replicas without those of the removed generations.
abbrev pub without_replicas :
    List Generation → Table (List GenerationReplica) → Table (List GenerationReplica)
without_replicas [] t = t
without_replicas (g ∷ gs) t = without_replicas gs (delete g.id t)

-- xs[keep:], where there is something to remove.
abbrev pub surplus : ℤ → List Generation → List Generation
surplus keep xs =
    if lti (pos 0) keep && ltb (pos_part keep) (length xs) then drop (pos_part keep) xs else []

-- The sort moves the stored list itself, which is put back whether it is cut or not.
unfoldable pub prune_generation_records : String → ℤ → MemoryStore → MemoryStore
prune_generation_records repo_id keep m =
    let xs = sort_by newer (list_at repo_id m.generations) in
    record m {
      generations = put repo_id (cut keep xs) m.generations;
      replicas = without_replicas (surplus keep xs) m.replicas;
    }
