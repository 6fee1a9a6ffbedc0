-- ===== src/ControlPlane/Planner/Survey.antt =====
-- The agents as ReplicationReconciler.Reconcile of internal/controlplane/replication.go reads them:
-- who is considered at all, who can be read from, and who can take a copy.
use repo_ark.Prelude.{
  String, ◌≡◌, refl, Bool, true, false, not, ◌&&◌, Option, none, some, List, [], ◌∷◌, if◌then◌else◌,
  sym, ◌∙◌, ap, subst, Bool-cases, inl, inr, All,
}
use repo_ark.Prelude.Text.{eqs, eq_iff, trim_space}
use repo_ark.Prelude.Table.{Table, get, put, get-put, get-put_cases, Keyed, Keyed-put}
use repo_ark.Prelude.Clock.{Time, Duration}
use repo_ark.ControlPlane.Model.{Agent, local_worker_affinity}
use repo_ark.ControlPlane.Config.{ReplicationConfig, StorageDataConfig}
use repo_ark.ControlPlane.Platform.{Platform}
use repo_ark.ControlPlane.Agents.{agent_allowed, agent_accepts_placement, is_live}
use repo_ark.ControlPlane.ReplicationHealth.{zero_agent}

-- placement, onlineSources and targetEligible
pub record Roster : Type 0 where
  pub placement : Table Agent
  pub online_sources : Table Agent
  pub target_eligible : Table Agent

abbrev pub empty_roster : Roster
empty_roster = record { placement = []; online_sources = []; target_eligible = [] }

-- _, ok := t[k]
abbrev pub is_in : String → Table Agent → Bool
is_in k t = elim (get k t) [ none ↦ false | some a ↦ true ]

-- t[k], the zero value where it is missing
abbrev pub agent_at : String → Table Agent → Agent
agent_at k t = elim (get k t) [ none ↦ zero_agent | some a ↦ a ]

abbrev pub can_send : Platform → Time → Duration → Agent → Bool
can_send p now timeout a =
    is_live now timeout a
    && not (eqs (trim_space a.replication_public_key) "")
    && p.is_base64 a.replication_public_key

abbrev pub add_online : StorageDataConfig → Agent → Roster → Roster
add_online storage a r =
    let online = record r { online_sources = put a.id a r.online_sources } in
    if agent_accepts_placement a storage
    then record online { target_eligible = put a.id a r.target_eligible }
    else online

module _ (p : Platform) (cfg : ReplicationConfig) (storage : StorageDataConfig) (now : Time)
    (timeout : Duration) where
  abbrev pub survey_one : Agent → Roster → Roster
  survey_one a r =
      let placed = record r { placement = put a.id a r.placement } in
      if not (agent_allowed a.id cfg.allowed_agents cfg.excluded_agents)
      then r
      else if can_send p now timeout a
      then add_online storage a placed
      else placed

  unfoldable pub survey : List Agent → Roster → Roster
  survey [] r = r
  survey (a ∷ rest) r = survey rest (survey_one a r)

-- The agent of the local worker, with a key and a probed disk.
abbrev pub as_local : Time → Agent → Agent
as_local now a = record a {
  id = local_worker_affinity;
  name = local_worker_affinity;
  labels_json = "{\"__repoark_local_domain\":\"local\"}";
  last_seen_at = now;
  status = "online";
}

abbrev pub add_local : StorageDataConfig → Agent → Roster → Roster
add_local storage local r =
    add_online storage local (record r { placement = put local.id local r.placement })

-- Whoever can take a copy is online and considered, under the same entry, and accepts placements;
-- whoever is online is considered.
pub record IsRoster (storage : StorageDataConfig) (r : Roster) : Type 0 where
  pub eligible :
      (id : String) (a : Agent)
      → get id r.target_eligible ≡ some a
      → (get id r.online_sources ≡ some a)
        × (get id r.placement ≡ some a)
        × (agent_accepts_placement a storage ≡ true)
  pub online :
      (id : String) (a : Agent) → get id r.online_sources ≡ some a → get id r.placement ≡ some a
  pub keyed : Keyed (λ a. a.id) r.target_eligible

-- An agent under a new identifier keeps the roster in order.
module _ (storage : StorageDataConfig) (a : Agent) (r : Roster) (h : IsRoster storage r)
    (new : get a.id r.placement ≡ none) where
  abbrev placed : Roster
  placed = record r { placement = put a.id a r.placement }

  unseen : (id : String) (b : Agent) → get id r.placement ≡ some b → eqs a.id id ≡ false
  unseen id b e = elim (Bool-cases (eqs a.id id)) [
    | inl q ↦
        absurd
          (clash (subst (λ (k : String). get k r.placement ≡ none) ((eq_iff a.id id).0 q) new) e)
    | inr q ↦ q
  ]
    where
      clash : {o : Option Agent} → o ≡ none → o ≡ some b → ⊥
      clash p q = cc

  placed-IsRoster : IsRoster storage placed
  placed-IsRoster = record {
    eligible = λ id b e.
        let (o, q, c) = h.eligible id b e in
        (o, get-put a.id id a r.placement ∙ rw (unseen id b q) q, c);
    online =
        λ id b e. let q = h.online id b e in get-put a.id id a r.placement ∙ rw (unseen id b q) q;
    keyed = h.keyed;
  }

  hit :
      (id : String) (b : Agent) (t : Table Agent)
      → eqs a.id id ≡ true
      → b ≡ a
      → get id (put a.id a t) ≡ some b
  hit id b t q same = get-put a.id id a t ∙ rw q (ap (λ (x : Agent). some x) (sym same))

  miss :
      (id : String) (b : Agent) (t : Table Agent)
      → eqs a.id id ≡ false
      → get id t ≡ some b
      → get id (put a.id a t) ≡ some b
  miss id b t q e = get-put a.id id a t ∙ rw q e

  online_placed :
      (id : String) (b : Agent)
      → get id (put a.id a r.online_sources) ≡ some b
      → get id (put a.id a r.placement) ≡ some b
  online_placed id b e = elim (get-put_cases a.id id a r.online_sources b e) [
    | inl (q, same) ↦ hit id b r.placement q same
    | inr (q, old) ↦ miss id b r.placement q (h.online id b old)
  ]

  add_online-IsRoster : IsRoster storage (add_online storage a placed)
  add_online-IsRoster = elim (Bool-cases (agent_accepts_placement a storage)) [
    | inl accepts ↦ rw accepts (record {
      eligible = λ id b e. elim (get-put_cases a.id id a r.target_eligible b e) [
        | inl (q, same) ↦ (
          hit id b r.online_sources q same,
          hit id b r.placement q same,
          ap (λ (x : Agent). agent_accepts_placement x storage) same ∙ accepts,
        )
        | inr (q, old) ↦
            let (o, k, c) = h.eligible id b old in
            (miss id b r.online_sources q o, miss id b r.placement q k, c)
      ];
      online = online_placed;
      keyed = Keyed-put (λ v. v.id) a.id a r.target_eligible refl h.keyed;
    })
    | inr full ↦ rw full (record {
      eligible = λ id b e.
          let (o, k, c) = h.eligible id b e in
          let q = unseen id b k in (miss id b r.online_sources q o, miss id b r.placement q k, c);
      online = online_placed;
      keyed = h.keyed;
    })
  ]

abbrev pub DistinctAgents : List Agent → Type 0
DistinctAgents [] = Unit
DistinctAgents (a ∷ rest) = All (λ b. eqs a.id b.id ≡ false) rest × DistinctAgents rest

-- Agents under identifiers that differ, and that the roster does not have, keep it in order.
module _ (p : Platform) (cfg : ReplicationConfig) (storage : StorageDataConfig) (now : Time)
    (timeout : Duration) where
  survey_one-IsRoster :
      (a : Agent) (r : Roster)
      → IsRoster storage r
      → get a.id r.placement ≡ none
      → IsRoster storage (survey_one p cfg storage now timeout a r)
  survey_one-IsRoster a r h new =
      elim (Bool-cases (agent_allowed a.id cfg.allowed_agents cfg.excluded_agents)) [
        | inr q ↦ rw q h
        | inl q ↦ elim (Bool-cases (can_send p now timeout a)) [
          | inl c ↦ rw (q, c) (add_online-IsRoster storage a r h new)
          | inr c ↦ rw (q, c) (placed-IsRoster storage a r h new)
        ]
      ]

  still_new :
      (a b : Agent) (r : Roster)
      → eqs a.id b.id ≡ false
      → get b.id r.placement ≡ none
      → get b.id (survey_one p cfg storage now timeout a r).placement ≡ none
  still_new a b r q e =
      let k = get-put a.id b.id a r.placement in
      let m : get b.id (put a.id a r.placement) ≡ none = k ∙ rw q e in
      elim (Bool-cases (agent_allowed a.id cfg.allowed_agents cfg.excluded_agents)) [
        | inr out ↦ rw out e
        | inl allowed ↦ elim (Bool-cases (can_send p now timeout a)) [
          | inr c ↦ rw (allowed, c) m
          | inl c ↦ elim (Bool-cases (agent_accepts_placement a storage)) [
            | inl full ↦ rw (allowed, c, full) m
            | inr full ↦ rw (allowed, c, full) m
          ]
        ]
      ]

  pub survey-IsRoster :
      (agents : List Agent) (r : Roster)
      → IsRoster storage r
      → DistinctAgents agents
      → All (λ a. get a.id r.placement ≡ none) agents
      → IsRoster storage (survey p cfg storage now timeout agents r)
  unfolding survey
  survey-IsRoster [] r h d new = h
  survey-IsRoster (a ∷ rest) r h d new =
      survey-IsRoster rest (survey_one p cfg storage now timeout a r)
        (survey_one-IsRoster a r h new.0) d.1 (all_new rest d.0 new.1)
    where
      all_new :
          (bs : List Agent)
          → All (λ b. eqs a.id b.id ≡ false) bs
          → All (λ b. get b.id r.placement ≡ none) bs
          → All (λ b. get b.id (survey_one p cfg storage now timeout a r).placement ≡ none) bs
      all_new [] q e = tt
      all_new (b ∷ bs) q e = (still_new a b r q.0 e.0, all_new bs q.1 e.1)

pub empty-IsRoster : (storage : StorageDataConfig) → IsRoster storage empty_roster
unfolding get
empty-IsRoster storage = record {
  eligible = λ id a e. absurd (nobody e);
  online = λ id a e. absurd (nobody e);
  keyed = tt;
}
  where
    nobody : {a : Agent} → none ≡ some a → ⊥
    nobody e = cc
