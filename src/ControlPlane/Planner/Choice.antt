-- ===== src/ControlPlane/Planner/Choice.antt =====
-- Which copies ReplicationReconciler.Reconcile of internal/controlplane/replication.go plans for a
-- generation.
use repo_ark.Prelude.{
  ℕ, zero, suc, ◌+◌, ◌%◌, ◌<◌, ◌≤◌, min, String, ◌≡◌, refl, sym, ◌∙◌, ap, subst, Bool, true, false,
  not, ◌&&◌, ◌||◌, Option, none, some, List, [], ◌∷◌, length, ◌==◌, arith, Bool-cases, &&-both,
  not-false, inl, inr, ◌⊎◌, In,
}
use repo_ark.Prelude.Int.{ℤ, pos}
use repo_ark.Prelude.Text.{eq_iff}
use repo_ark.Prelude.Table.{Table, Keys, get, values, Keyed, get_of_In, has_key, has_key-add_key}
use repo_ark.Prelude.Sort.{sort_by, In-sort_by, length-sort_by}
use repo_ark.ControlPlane.Model.{Agent, GenerationReplica, is_replica_ready}
use repo_ark.ControlPlane.Config.{ReplicationConfig, StorageDataConfig}
use repo_ark.ControlPlane.Platform.{Platform}
use repo_ark.ControlPlane.Agents.{
  agent_accepts_placement, agent_counts_durable, agent_has_capacity_for,
}
use repo_ark.ControlPlane.Agents.Capacity.{placement_order}
use repo_ark.ControlPlane.Erasure.{nth}
use repo_ark.ControlPlane.Planner.Survey.{Roster, is_in, IsRoster}
use repo_ark.ControlPlane.Planner.{
  Holdings, count_ready, hold_at, hold, holdings, is_met, ready_sources, source_less,
  generation_bytes, candidates, target_less, assign, plan,
}

-- The agent holds a ready replica.
abbrev pub HasReady : String → List GenerationReplica → Type 0
HasReady id [] = ⊥
HasReady id (r ∷ rest) = ((is_replica_ready r.state ≡ true) × (r.agent_id ≡ id)) ⊎ HasReady id rest

In-ready_sources :
    (roster : Roster) (rs : List GenerationReplica) (s : String)
    → In s (ready_sources roster rs)
    → HasReady s rs × (is_in s roster.online_sources ≡ true)
unfolding ready_sources
In-ready_sources roster [] s m = absurd m
In-ready_sources roster (r ∷ rest) s m =
    elim (Bool-cases (is_replica_ready r.state && is_in r.agent_id roster.online_sources)) [
      | inl q ↦ elim (taken r.agent_id (ready_sources roster rest) (rw q at m)) [
        | inl e ↦
            let (ready, online) = &&-both (is_replica_ready r.state) _ q in
            (
              inl (ready, sym e),
              subst (λ (k : String). is_in k roster.online_sources ≡ true) (sym e) online,
            )
        | inr later ↦ let (a, b) = In-ready_sources roster rest s later in (inr a, b)
      ]
      | inr q ↦ let (a, b) = In-ready_sources roster rest s (rw q at m) in (inr a, b)
    ]
  where
    taken : (t : String) (xs : List String) → In s (t ∷ xs) → (s ≡ t) ⊎ In s xs
    taken t xs m = m

-- A candidate is an entry of the table without a ready replica and with room.
In-candidates :
    (storage : StorageDataConfig) (ready : Keys) (bytes : ℤ) (t : Table Agent) (id : String)
    → Keyed (λ a. a.id) t
    → In id (candidates storage ready bytes t)
    → (a : Agent) × In a (values t)
      × (id ≡ a.id)
      × (has_key id ready ≡ false)
      × (agent_has_capacity_for a storage bytes ≡ true)
unfolding candidates
In-candidates storage ready bytes [] id d m = absurd m
In-candidates storage ready bytes ((k, a) ∷ rest) id d m =
    elim (Bool-cases (not (has_key k ready) && agent_has_capacity_for a storage bytes)) [
      | inl q ↦ elim (taken k (candidates storage ready bytes rest) (rw q at m)) [
        | inl e ↦
            let (out, room) = &&-both (not (has_key k ready)) _ q in
            (
              a,
              inl refl,
              e ∙ d.0,
              subst (λ (x : String). has_key x ready ≡ false) (sym e) (not-false _ out),
              room,
            )
        | inr later ↦
            let (b, here, same, out, room) = In-candidates storage ready bytes rest id d.2 later in
            (b, inr here, same, out, room)
      ]
      | inr q ↦
          let (b, here, same, out, room) =
            In-candidates storage ready bytes rest id d.2 (rw q at m) in
          (b, inr here, same, out, room)
    ]
  where
    taken : (t : String) (xs : List String) → In id (t ∷ xs) → (id ≡ t) ⊎ In id xs
    taken t xs m = m

In-assign :
    (sources : List String) (i n : ℕ) (targets : List String) (s t : String)
    → In (s, t) (assign sources i n targets)
    → In t targets × (k : ℕ) × (s ≡ nth (k % length sources) sources)
unfolding assign
In-assign sources i zero targets s t m = absurd m
In-assign sources i (suc n) [] s t m = absurd m
In-assign sources i (suc n) (x ∷ targets) s t (inl e) =
    (inl (ap (λ (c : String × String). c.1) e), i, ap (λ (c : String × String). c.0) e)
In-assign sources i (suc n) (x ∷ targets) s t (inr m) =
    let (here, k, e) = In-assign sources (i + 1) n targets s t m in (inr here, k, e)

In-nth : (n : ℕ) (xs : List String) → n < length xs → In (nth n xs) xs
In-nth n [] h = absurd (omega arith)
In-nth zero (x ∷ xs) h = inl refl
In-nth (suc n) (x ∷ xs) h = inr (In-nth n xs (omega arith))

pub length-assign :
    (sources : List String) (i n : ℕ) (targets : List String)
    → length (assign sources i n targets) ≡ min n (length targets)
unfolding assign
length-assign sources i zero targets = omega arith
length-assign sources i (suc n) [] = omega arith
length-assign sources i (suc n) (t ∷ targets) =
    omega (arith, length-assign sources (i + 1) n targets)

module _ (p : Platform) (cfg : ReplicationConfig) (storage : StorageDataConfig)
    (roster : Roster) where
  -- What Reconcile knows of a generation before it plans.
  abbrev pub known : List GenerationReplica → Holdings
  known rs =
      holdings p cfg storage roster rs
        (record { ready = []; healthy_ready = []; healthy_domains = [] })

  count_ready_keeps :
      (a : Agent) (id t : String) (ready : Keys)
      → has_key t ready ≡ true
      → has_key t (count_ready p cfg storage a id ready) ≡ true
  count_ready_keeps a id t ready k = let added = has_key-add_key id t ready in ground arith

  hold_at_keeps :
      (a b : Option Agent) (id : String) (h : Holdings) (t : String)
      → has_key t h.ready ≡ true
      → has_key t (hold_at p cfg storage a b id h).ready ≡ true
  hold_at_keeps none b id h t k = k
  hold_at_keeps (some a) none id h t k = count_ready_keeps a id t h.ready k
  hold_at_keeps (some a) (some b) id h t k = count_ready_keeps a id t h.ready k

  hold_keeps :
      (r : GenerationReplica) (h : Holdings) (t : String)
      → has_key t h.ready ≡ true
      → has_key t (hold p cfg storage roster r h).ready ≡ true
  hold_keeps r h t k = elim (Bool-cases (is_replica_ready r.state)) [
    | inl q ↦ rw q (
        hold_at_keeps (get r.agent_id roster.placement) (get r.agent_id roster.target_eligible)
          r.agent_id h t k)
    | inr q ↦ rw q k
  ]

  holdings_keeps :
      (rs : List GenerationReplica) (h : Holdings) (t : String)
      → has_key t h.ready ≡ true
      → has_key t (holdings p cfg storage roster rs h).ready ≡ true
  unfolding holdings
  holdings_keeps [] h t k = k
  holdings_keeps (r ∷ rest) h t k =
      holdings_keeps rest (hold p cfg storage roster r h) t (hold_keeps r h t k)

  module _ (ok : IsRoster storage roster) where
    hold_adds :
        (r : GenerationReplica) (h : Holdings) (a : Agent)
        → is_replica_ready r.state ≡ true
        → get r.agent_id roster.target_eligible ≡ some a
        → has_key r.agent_id (hold p cfg storage roster r h).ready ≡ true
    hold_adds r h a ready e =
        let (_, q, accepts) = ok.eligible r.agent_id a e in
        let durable = (placement_order a storage).0 accepts in
        let c : (not storage.evacuate_degraded || agent_counts_durable a storage) ≡ true =
          ground arith in
        let added = has_key-add_key r.agent_id r.agent_id h.ready in
        let itself = (eq_iff r.agent_id r.agent_id).1 refl in
        let both : has_key r.agent_id (hold_at p cfg storage (some a) (some a) r.agent_id h).ready
            ≡ true =
          ground arith in
        rw (ready, q, e) both

    -- A ready replica on an agent that can take a copy counts.
    holdings_counts :
        (rs : List GenerationReplica) (h : Holdings) (t : String) (a : Agent)
        → get t roster.target_eligible ≡ some a
        → HasReady t rs
        → has_key t (holdings p cfg storage roster rs h).ready ≡ true
    unfolding holdings
    holdings_counts [] h t a e m = absurd m
    holdings_counts (r ∷ rest) h t a e (inl (q, same)) =
        holdings_keeps rest (hold p cfg storage roster r h) t (
          subst (λ (k : String). has_key k (hold p cfg storage roster r h).ready ≡ true) same
            (hold_adds r h a q (ap (λ (k : String). get k roster.target_eligible) same ∙ e)))
    holdings_counts (r ∷ rest) h t a e (inr m) =
        holdings_counts rest (hold p cfg storage roster r h) t a e m

    -- Every copy that is planned is read from an agent online that holds a ready replica, and goes to
    -- an agent that is online, accepts placements, has room for the largest replica, and holds no
    -- ready replica, durable or not. This for a roster in which whoever can take a copy is online and
    -- considered under the same entry, as the roster of a listing of agents is.
    pub planned_copies :
        (rs : List GenerationReplica) (source target : String)
        → In (source, target) (plan p cfg storage roster rs)
        → HasReady source rs
          × (is_in source roster.online_sources ≡ true)
          × ((a : Agent) × (get target roster.target_eligible ≡ some a)
              × (get target roster.online_sources ≡ some a)
              × (agent_accepts_placement a storage ≡ true)
              × (agent_has_capacity_for a storage (generation_bytes (pos 0) rs) ≡ true))
          × (¬ HasReady target rs)
    unfolding plan
    planned_copies rs source target m =
        let h = known rs in
        elim (Bool-cases (is_met p cfg storage h || length (ready_sources roster rs) == 0)) [
          | inl q ↦ absurd (rw q at m)
          | inr q ↦
              let sources = ready_sources roster rs in
              let (here, k, e) = In-assign _ 0 _ _ source target (rw q at m) in
              let filled : 1 ≤ length sources = ground arith in
              let sorted = sort_by (source_less p cfg storage roster.online_sources) sources in
              let count : length sorted ≡ length sources =
                length-sort_by (source_less p cfg storage roster.online_sources) sources in
              let from : In source sources =
                In-sort_by (source_less p cfg storage roster.online_sources) sources source (
                  subst (λ (x : String). In x sorted) (sym e)
                    (In-nth (k % length sorted) sorted (grind (arith, count, filled)))) in
              let (ready, online) = In-ready_sources roster rs source from in
              let (a, entry, same, out, room) =
                In-candidates storage h.ready (generation_bytes (pos 0) rs) roster.target_eligible
                  target ok.keyed
                  (In-sort_by (target_less p cfg storage roster.target_eligible h.healthy_domains) _
                    target here) in
              let found : get target roster.target_eligible ≡ some a =
                subst (λ (x : String). get x roster.target_eligible ≡ some a) (sym same)
                  (get_of_In (λ v. v.id) roster.target_eligible a ok.keyed entry) in
              let (o, _, accepts) = ok.eligible target a found in
              (
                ready,
                online,
                (a, found, o, accepts, room),
                λ held. clash out (holdings_counts rs _ target a found held),
              )
        ]
      where
        clash : {b : Bool} → b ≡ false → b ≡ true → ⊥
        clash p q = cc
