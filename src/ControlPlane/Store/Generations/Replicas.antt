-- ===== src/ControlPlane/Store/Generations/Replicas.antt =====
-- RecordReplica: one replica of a generation for each agent.
use repo_ark.Prelude.{
  String, ◌≡◌, refl, ap, Bool, false, List, [], ◌∷◌, inl, inr, arith, Bool-cases, subst, sym, any,
  In,
}
use repo_ark.Prelude.Text.{eqs, eq_iff}
use repo_ark.Prelude.Table.{list_at, list_at-put, list_at-put_self}
use repo_ark.Prelude.Clock.{Time}
use repo_ark.ControlPlane.Model.{GenerationReplica}
use repo_ark.ControlPlane.Store.{MemoryStore}
use repo_ark.ControlPlane.Store.Generations.{put_replica, record_replica, list_replicas}

-- Some replica is held by the agent.
abbrev pub holds : String → List GenerationReplica → Bool
holds agent xs = any (λ x. eqs x.agent_id agent) xs

-- No agent holds two of the replicas.
abbrev pub IsOnePerAgent : List GenerationReplica → Type 0
IsOnePerAgent [] = Unit
IsOnePerAgent (x ∷ xs) = (holds x.agent_id xs ≡ false) × IsOnePerAgent xs

holds-put_replica :
    (r : GenerationReplica) (agent : String) (xs : List GenerationReplica)
    → eqs r.agent_id agent ≡ false
    → holds agent xs ≡ false
    → holds agent (put_replica r xs) ≡ false
unfolding put_replica
holds-put_replica r agent [] e h = ground arith
holds-put_replica r agent (x ∷ xs) e h = ground (arith, holds-put_replica r agent xs e)

put_replica-IsOnePerAgent :
    (r : GenerationReplica) (xs : List GenerationReplica)
    → IsOnePerAgent xs
    → IsOnePerAgent (put_replica r xs)
unfolding put_replica
put_replica-IsOnePerAgent r [] h = (refl, tt)
put_replica-IsOnePerAgent r (x ∷ xs) h = ground (
  arith,
  put_replica-IsOnePerAgent r xs,
  holds-put_replica r x.agent_id xs,
  eq_iff x.agent_id r.agent_id,
  eq_iff r.agent_id x.agent_id,
  ap (λ s. holds s xs),
)

In-put_replica :
    (r : GenerationReplica) (xs : List GenerationReplica) (x : GenerationReplica)
    → In x xs
    → eqs x.agent_id r.agent_id ≡ false
    → In x (put_replica r xs)
unfolding put_replica
In-put_replica r [] x m h = absurd m
In-put_replica r (y ∷ ys) x m h =
    ground (arith, In-put_replica r ys x, ap (λ (a : GenerationReplica). eqs a.agent_id r.agent_id))

In-put_replica_self :
    (r : GenerationReplica) (xs : List GenerationReplica) → In r (put_replica r xs)
unfolding put_replica
In-put_replica_self r [] = inl refl
In-put_replica_self r (y ∷ ys) = ground (arith, In-put_replica_self r ys)

-- Where each generation has at most one replica per agent, it is so after RecordReplica too; then
-- the given replica, with its new time, is listed, the replicas of the other agents are still
-- there, and the other generations are untouched.
pub record_replica_cases :
    (now : Time) (r : GenerationReplica) (m : MemoryStore)
    → ((gid : String) → IsOnePerAgent (list_replicas gid m))
    → let m' = record_replica now r m in
      ((gid : String) → IsOnePerAgent (list_replicas gid m'))
      × In (record r { updated_at = now }) (list_replicas r.generation_id m')
      × ((x : GenerationReplica)
          → In x (list_replicas r.generation_id m)
          → eqs x.agent_id r.agent_id ≡ false
          → In x (list_replicas r.generation_id m'))
      × ((gid : String)
          → eqs r.generation_id gid ≡ false
          → list_replicas gid m' ≡ list_replicas gid m)
unfolding record_replica list_replicas
record_replica_cases now r m h =
    let stamped = record r { updated_at = now } in
    let xs = list_at r.generation_id m.replicas in
    let fresh = put_replica stamped xs in
    let self = sym (list_at-put_self r.generation_id fresh m.replicas) in
    (
      λ gid.
          subst IsOnePerAgent (sym (list_at-put r.generation_id gid fresh m.replicas))
            (elim (Bool-cases (eqs r.generation_id gid)) [
              | inl e ↦ rw e (put_replica-IsOnePerAgent stamped xs (h r.generation_id))
              | inr e ↦ rw e (h gid)
            ]),
      subst (In stamped) self (In-put_replica_self stamped xs),
      λ x here other. subst (In x) self (In-put_replica stamped xs x here other),
      λ gid other. rw (list_at-put r.generation_id gid fresh m.replicas, other) refl,
    )
