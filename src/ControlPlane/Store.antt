-- ===== src/ControlPlane/Store.antt =====
-- internal/controlplane/memory.go: the state of MemoryStore and the result of its methods. Each
pub mod Tests
-- method holds the mutex from its first line to its return, so a method is one step of the store.
pub mod Jobs
pub mod Approvals
pub mod Objects
pub mod Repositories
pub mod Generations
pub mod ErasureSets
pub mod Summary
use repo_ark.Prelude.{String, List, []}
use repo_ark.Prelude.Table.{Table, Keys}
use repo_ark.ControlPlane.Model.{
  Job, Repository, Generation, GenerationReplica, Agent, RestoreApproval, ReplicationTransfer,
  ObjectRef, ObjectLease, ErasureSet, ErasureShard,
}

pub record MemoryStore : Type 0 where
  pub jobs : Table Job
  pub repos : Table Repository
  pub generations : Table (List Generation)
  pub replicas : Table (List GenerationReplica)
  pub agents : Table Agent
  pub approvals : Table RestoreApproval
  pub transfers : Table ReplicationTransfer
  pub object_refs : Table ObjectRef
  pub object_ref_owners : Table Keys
  pub object_leases : Table ObjectLease
  pub erasure_sets : Table ErasureSet
  pub erasure_shards : Table (List ErasureShard)
  pub meta : Table String

-- NewMemoryStore
unfoldable pub new_memory_store : MemoryStore
new_memory_store = record {
  jobs = [];
  repos = [];
  generations = [];
  replicas = [];
  agents = [];
  approvals = [];
  transfers = [];
  object_refs = [];
  object_ref_owners = [];
  object_leases = [];
  erasure_sets = [];
  erasure_shards = [];
  meta = [];
}

-- The messages of `fmt.Errorf`.
pub data Error : Type 0 where
  job_not_leased job_not_found failed_job_not_found : Error
  approval_not_found approval_not_scheduled approval_wrong_status : Error
  approval_expired requester_cannot_approve : Error
  transfer_id_required transfer_not_found agent_not_found : Error
  digest_required negative_refcount digest_and_owner_required : Error
  invalid_lease erasure_digest_required invalid_shard : Error

pub data Result {ℓ} (A : Type ℓ) : Type ℓ where
  ok : A → Result A
  err : Error → Result A

-- A method that changes the store returns it beside its result, with an error too.
abbrev pub Outcome : Type 0 → Type 0
Outcome A = Result A × MemoryStore
