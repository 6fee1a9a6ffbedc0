-- ===== src/ControlPlane/Restores/Affinity.antt =====
-- The agent that a restore is routed to.
use mathlib.Core.Bool.{false≢true}
use repo_ark.Prelude.{
  String, ◌≡◌, refl, sym, ap, subst, ◌∙◌, Bool, true, false, ◌&&◌, ◌||◌, ◌⊎◌, inl, inr, none, some,
  List, [], ◌∷◌, arith, any, In, Bool-cases,
}
use repo_ark.Prelude.Text.{eqs, lts, eq_iff}
use repo_ark.Prelude.Table.{Keys, has_key, has_key-add_key, has_key-In, In-has_key}
use repo_ark.Prelude.Sort.{sort_by, In-sort_by, In-sort_by_of}
use repo_ark.Prelude.Clock.{Time, Duration}
use repo_ark.ControlPlane.Model.{Agent, GenerationReplica, local_worker_affinity, is_replica_ready}
use repo_ark.ControlPlane.Config.{ReplicationConfig, StorageDataConfig}
use repo_ark.ControlPlane.Platform.{Platform}
use repo_ark.ControlPlane.Store.{MemoryStore}
use repo_ark.ControlPlane.Store.Repositories.{list_agents}
use repo_ark.ControlPlane.Store.Generations.{list_replicas}
use repo_ark.ControlPlane.Agents.{agent_readable, timeout_of, is_live}
use repo_ark.ControlPlane.Restores.{
  affinity_from_meta_path, online_agents, available_agents, first_of,
  select_restore_affinity_with_storage,
}

-- An agent is online if it is the local worker, or some record of it is live and readable.
abbrev pub is_online : Time → Duration → StorageDataConfig → List Agent → String → Bool
is_online now timeout storage agents id =
    eqs local_worker_affinity id
    || any (λ a. eqs a.id id && (is_live now timeout a && agent_readable a storage)) agents

has_key-online_agents :
    (now : Time) (timeout : Duration) (storage : StorageDataConfig) (id : String)
    (agents : List Agent)
    → has_key id (online_agents now timeout storage agents)
      ≡ is_online now timeout storage agents id
has_key-online_agents now timeout storage id [] = refl
has_key-online_agents now timeout storage id (a ∷ rest) = ground (
  arith,
  has_key-online_agents now timeout storage id rest,
  has_key-add_key a.id id (online_agents now timeout storage rest),
)

-- Some replica on the agent is ready.
abbrev pub is_ready_on : String → List GenerationReplica → Bool
is_ready_on id reps = any (λ r. eqs r.agent_id id && is_replica_ready r.state) reps

has_key-available_agents :
    (online : Keys) (id : String) (reps : List GenerationReplica)
    → has_key id (available_agents online reps) ≡ (has_key id online && is_ready_on id reps)
has_key-available_agents online id [] = ground arith
has_key-available_agents online id (r ∷ rest) = ground (
  arith,
  has_key-available_agents online id rest,
  has_key-add_key r.agent_id id (available_agents online rest),
  eq_iff r.agent_id id,
  ap (λ s. has_key s online),
)

first_of-cases :
    (ids : Keys)
    → ((first_of ids ≡ none) × ((id : String) → has_key id ids ≡ false))
      ⊎ ((id : String) × (first_of ids ≡ some id) × (has_key id ids ≡ true))
first_of-cases ids = by_sorted (sort_by lts ids) refl
  where
    by_sorted :
        (xs : List String)
        → sort_by lts ids ≡ xs
        → ((first_of ids ≡ none) × ((id : String) → has_key id ids ≡ false))
          ⊎ ((id : String) × (first_of ids ≡ some id) × (has_key id ids ≡ true))
    by_sorted [] e = inl (
      rw (first_of, e) refl,
      λ id. elim (Bool-cases (has_key id ids)) [
        | inl h ↦ absurd (subst (In id) e (In-sort_by_of lts ids id (has_key-In id ids h)))
        | inr h ↦ h
      ],
    )
    by_sorted (x ∷ xs) e = inr (
      x,
      rw (first_of, e) refl,
      In-has_key x ids (In-sort_by lts ids x (subst (In x) (sym e) (inl refl))),
    )

module _ (p : Platform) (now : Time) (gid path : String) (cfg : ReplicationConfig)
    (storage : StorageDataConfig) (m : MemoryStore) where
  -- An agent can serve the restore: it is online, and a replica of the generation on it is ready.
  abbrev pub can_serve : String → Bool
  can_serve id =
      is_online now (timeout_of p cfg.agent_timeout) storage (list_agents m) id
      && is_ready_on id (list_replicas gid m)

  -- A restore goes to the agent that the path of the generation prefers if it can serve, else to one
  -- that can; there is an error exactly if no agent can serve.
  pub restore_affinity :
      let chosen = select_restore_affinity_with_storage p now gid path cfg storage m in
      (can_serve (affinity_from_meta_path path) ≡ true
        → chosen ≡ some (affinity_from_meta_path path))
      × (((chosen ≡ none) × ((id : String) → can_serve id ≡ false))
          ⊎ ((id : String) × (chosen ≡ some id) × (can_serve id ≡ true)))
  unfolding select_restore_affinity_with_storage
  restore_affinity =
      let preferred = affinity_from_meta_path path in
      let online = online_agents now (timeout_of p cfg.agent_timeout) storage (list_agents m) in
      let ids = available_agents online (list_replicas gid m) in
      let agree : (id : String) → has_key id ids ≡ can_serve id = λ id.
        has_key-available_agents online id (list_replicas gid m)
        ∙ ap (λ b. b && is_ready_on id (list_replicas gid m))
            (has_key-online_agents now (timeout_of p cfg.agent_timeout) storage id
              (list_agents m)) in
      elim (Bool-cases (has_key preferred ids)) [
        | inl h ↦ rw h (λ _. refl, inr (preferred, refl, sym (agree preferred) ∙ h))
        | inr h ↦ rw h (
          λ can. absurd (false≢true (sym h ∙ agree preferred ∙ can)),
          elim (first_of-cases ids) [
            | inl (e, none_of) ↦ inl (e, λ id. sym (agree id) ∙ none_of id)
            | inr (id, e, one) ↦ inr (id, e, sym (agree id) ∙ one)
          ],
        )
      ]
