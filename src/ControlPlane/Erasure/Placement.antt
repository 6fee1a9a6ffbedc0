-- ===== src/ControlPlane/Erasure/Placement.antt =====
-- desiredShardAgents: how many agents a shard is placed on, and which.
use repo_ark.Prelude.{
  ℕ, zero, suc, ◌+◌, ◌%◌, ◌≤◌, min, String, ◌≡◌, refl, ap, ◌⊎◌, inl, inr, true, false, ◌||◌, List,
  [], ◌∷◌, arith, length, ◌==◌, if◌then◌else◌, Bool-cases,
}
use repo_ark.Prelude.Int.{ℤ, pos, pos_part, lti}
use repo_ark.Prelude.Text.{eqs, lts, eq_iff}
use repo_ark.Prelude.Table.{
  Table, Keys, get, has_key, add_key, remove_key, has_key-add_key, has_key-remove_key, DistinctKeys,
  DistinctKeys-add_key, DistinctKeys-remove_key, length-remove_key, length-add_key, list_at,
  list_at-put, has_key-In, In-has_key,
}
use repo_ark.Prelude.Sort.{sort_by, In-sort_by}
use repo_ark.ControlPlane.Model.{Agent}
use repo_ark.ControlPlane.Platform.{Platform}
use repo_ark.ControlPlane.Erasure.{
  better, best_from, best_of, keys_of, nth, domain_or_own, by_domain, choice, place, turn,
  desired_shard_agents,
}

-- An identifier that may be placed on, or none.
abbrev IsChoice : Keys → List String → String → Type 0
IsChoice used ids out = (out ≡ "") ⊎ ((has_key out ids ≡ true) × (has_key out used ≡ false))

-- A choice from the list is none, or an unused identifier of the list.
best_from-IsChoice :
    (score : String → ℕ) (used : Keys) (all : List String) (best : String) (ids : List String)
    → IsChoice used all best
    → ((id : String) → has_key id ids ≡ true → has_key id all ≡ true)
    → IsChoice used all (best_from score used best ids)
best_from-IsChoice score used all best [] h sub = h
best_from-IsChoice score used all best (x ∷ ids) h sub =
    best_from-IsChoice score used all (if has_key x used then best else better score best x) ids
      (ground (arith, h, sub x, eq_iff x x)) (λ id m. sub id (ground (arith, m)))

-- There is no choice only where every identifier is used, if none is empty.
best_from-none :
    (score : String → ℕ) (used : Keys) (best : String) (ids : List String)
    → has_key "" ids ≡ false
    → best_from score used best ids ≡ ""
    → (best ≡ "") × ((id : String) → has_key id ids ≡ true → has_key id used ≡ true)
best_from-none score used best [] named h = (h, λ id m. cc)
best_from-none score used best (x ∷ ids) named h =
    let rest =
      best_from-none score used (if has_key x used then best else better score best x) ids
        (ground (arith, named)) h in
    (
      ground (arith, rest.0, named, eq_iff x "", eq_iff best ""),
      λ id m. ground (
        arith,
        rest.0,
        rest.1 id,
        named,
        eq_iff x id,
        eq_iff x "",
        eq_iff best "",
        ap (λ s. has_key s used),
      ),
    )

-- A set that covers a set without repetitions has at least as many elements.
covered_le :
    (ids used : Keys)
    → DistinctKeys ids
    → DistinctKeys used
    → ((id : String) → has_key id ids ≡ true → has_key id used ≡ true)
    → length ids ≤ length used
covered_le [] used d e sub = omega arith
covered_le (x ∷ ids) used d e sub =
    let fewer = covered_le ids (remove_key x used) d.1 (DistinctKeys-remove_key x used e) (λ id m.
      ground
        (arith, sub id, has_key-remove_key x id used, d.0, eq_iff x id, ap (λ s. has_key s ids))) in
    omega (arith, fewer, length-remove_key x used e (sub x (ground (arith, eq_iff x x))))

module _ (score : ℕ → String → ℕ) (group : ℕ → List String) (everyone : List String)
    (grouped : (copy : ℕ) (id : String)
      → has_key id (group copy) ≡ true
      → has_key id everyone ≡ true) where
  choice-IsChoice :
      (copy : ℕ) (used : Keys) → IsChoice used everyone (choice score group everyone copy used)
  choice-IsChoice copy used = ground (
    arith,
    best_from-IsChoice (score copy) used everyone "" (group copy) (inl refl) (grouped copy),
    best_from-IsChoice (score copy) used everyone "" everyone (inl refl) (λ id m. m),
  )

  -- What is placed are agents that were not used, each of them once.
  abbrev IsPlacement : Keys → List String → Type 0
  IsPlacement used out =
      DistinctKeys out
      × ((id : String)
          → has_key id out ≡ true
          → (has_key id everyone ≡ true) × (has_key id used ≡ false))

  IsPlacement-extend :
      (used : Keys) (best : String) (rest : List String)
      → IsChoice used everyone best
      → IsPlacement (add_key best used) rest
      → IsPlacement used (if eqs best "" then [] else best ∷ rest)
  IsPlacement-extend used best rest fresh (d, sub) = elim (Bool-cases (eqs best "")) [
    | inl e ↦ rw e (tt, λ id m. cc)
    | inr e ↦ rw e (
      (ground (arith, sub best, has_key-add_key best best used, eq_iff best best), d),
      λ id m. ground (
        arith,
        sub id,
        fresh,
        e,
        has_key-add_key best id used,
        eq_iff best id,
        eq_iff best "",
        ap (λ s. has_key s everyone),
        ap (λ s. has_key s used),
      ),
    )
  ]

  place-IsPlacement :
      (missing copy : ℕ) (used : Keys)
      → IsPlacement used (place score group everyone missing copy used)
  unfolding place
  place-IsPlacement zero copy used = (tt, λ id m. cc)
  place-IsPlacement (suc missing) copy used =
      let best = choice score group everyone copy used in
      IsPlacement-extend used best
        (place score group everyone missing (suc copy) (add_key best used))
        (choice-IsChoice copy used) (place-IsPlacement missing (suc copy) (add_key best used))

  choice-none :
      (copy : ℕ) (used : Keys)
      → has_key "" everyone ≡ false
      → choice score group everyone copy used ≡ ""
      → (id : String) → has_key id everyone ≡ true
      → has_key id used ≡ true
  choice-none copy used named h id m =
      (best_from-none (score copy) used "" everyone named
          (ground (arith, h, eq_iff (best_of (score copy) used (group copy)) ""))).1
        id m

  place-length :
      (missing copy : ℕ) (used : Keys)
      → DistinctKeys everyone
      → has_key "" everyone ≡ false
      → DistinctKeys used
      → length used + missing ≤ length everyone
      → length (place score group everyone missing copy used) ≡ missing
  unfolding place
  place-length zero copy used d named u room = refl
  place-length (suc missing) copy used d named u room =
      let best = choice score group everyone copy used in
      let fresh = choice-IsChoice copy used in
      elim (Bool-cases (eqs best "")) [
        | inl e ↦ absurd (
            omega (
              arith,
              room,
              covered_le everyone used d u (choice-none copy used named ((eq_iff best "").0 e)),
            ))
        | inr e ↦
            let unused : has_key best used ≡ false = ground (arith, fresh, eq_iff best "", e) in
            let more =
              place-length missing (suc copy) (add_key best used) d named
                (DistinctKeys-add_key best used u)
                (omega (arith, room, length-add_key best used unused)) in
            rw e (omega (arith, more))
      ]

-- The agents of each domain are agents.
by_domain-keys :
    (p : Platform) (key d id : String) (t : Table Agent)
    → has_key id (list_at d (by_domain p key t)) ≡ true
    → has_key id (keys_of t) ≡ true
unfolding get
by_domain-keys p key d id [] h = h
by_domain-keys p key d id ((k, a) ∷ t) h =
    let own = domain_or_own p key k a in
    let rest = by_domain p key t in
    ground (
      arith,
      h,
      list_at-put own d (k ∷ list_at own rest) rest,
      by_domain-keys p key own id t,
      by_domain-keys p key d id t,
      ap (λ (xs : List String). has_key id xs) (list_at-put own d (k ∷ list_at own rest) rest),
    )

turn-keys :
    (p : Platform) (key : String) (index : ℕ) (agents : Table Agent) (copy : ℕ) (id : String)
    → has_key id (turn p key index agents copy) ≡ true
    → has_key id (keys_of agents) ≡ true
turn-keys p key index agents copy id m =
    let groups = by_domain p key agents in
    let domains = sort_by lts (keys_of groups) in
    let d = nth ((index + copy) % length domains) domains in
    by_domain-keys p key d id agents (
      In-has_key id (list_at d groups)
        (In-sort_by lts (list_at d groups) id (has_key-In id (turn p key index agents copy) m)))

length-keys_of : {V : Type 0} (t : Table V) → length (keys_of t) ≡ length t
length-keys_of [] = refl
length-keys_of ((k, v) ∷ t) = ap suc (length-keys_of t)

-- A shard is placed on as many different agents as copies are asked for, or on all agents if there
-- are fewer, and only on agents given; this where the agents are under different, non-empty names.
pub desired_agents :
    (p : Platform) (object : String) (index : ℕ) (copies : ℤ) (agents : Table Agent) (key : String)
    → DistinctKeys (keys_of agents)
    → has_key "" (keys_of agents) ≡ false
    → let out = desired_shard_agents p object index copies agents key in
      (length out ≡ min (pos_part copies) (length agents))
      × DistinctKeys out
      × ((id : String) → has_key id out ≡ true → has_key id (keys_of agents) ≡ true)
unfolding desired_shard_agents
desired_agents p object index copies agents key d named =
    let score = p.rendezvous_score object index in
    let everyone = keys_of agents in
    let group = turn p key index agents in
    let n = min (pos_part copies) (length agents) in
    let grouped = turn-keys p key index agents in
    let count =
      place-length score group everyone grouped n 0 [] d named tt
        (omega (arith, length-keys_of agents)) in
    let placed = place-IsPlacement score group everyone grouped n 0 [] in
    elim (Bool-cases (lti copies (pos 1) || length agents == 0)) [
      | inl e ↦ rw (e, desired_shard_agents) (ground (arith, e), tt, λ id m. cc)
      | inr e ↦ rw (e, desired_shard_agents) (count, placed.0, λ id m. (placed.1 id m).0)
    ]
