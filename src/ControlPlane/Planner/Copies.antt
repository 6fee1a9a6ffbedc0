-- ===== src/ControlPlane/Planner/Copies.antt =====
-- How many copies ReplicationReconciler.Reconcile of internal/controlplane/replication.go plans for a
-- generation.
use repo_ark.Prelude.{
  sym, subst, Bool, ℕ, ◌-◌, ◌^◌, ◌<◌, ◌≤◌, min, max, Bool-cases, inl, inr, not, ◌&&◌, [], ◌∷◌,
  count_if, ◌≡◌, refl, ◌∙◌, ap, true, false, ◌||◌, List, length, if◌then◌else◌, ◌==◌, arith,
}
use repo_ark.Prelude.Int.{ℤ, pos, negsuc, pos_part, ◌≤ℤ◌, sub64, ◌-ℤ◌, IsInt64, wrap64-IsInt64}
use repo_ark.Prelude.Text.{eqs, trim_space}
use repo_ark.Prelude.Table.{Table, Keys, has_key}
use repo_ark.Prelude.Sort.{sort_by, length-sort_by}
use repo_ark.ControlPlane.Model.{Agent, GenerationReplica, is_replica_ready}
use repo_ark.ControlPlane.Config.{ReplicationConfig, StorageDataConfig}
use repo_ark.ControlPlane.Platform.{Platform}
use repo_ark.ControlPlane.Agents.{agent_has_capacity_for}
use repo_ark.ControlPlane.ReplicationHealth.{wants_domains}
use repo_ark.ControlPlane.Planner.Survey.{Roster, is_in}
use repo_ark.ControlPlane.Planner.{
  Holdings, is_met, ready_sources, generation_bytes, candidates, target_less, missing, larger,
  need_of, plan,
}
use repo_ark.ControlPlane.Planner.Held.{
  holders, is_counted_copy, is_healthy_copy, held_domains, holdings-Holds,
}
use repo_ark.ControlPlane.Planner.Choice.{known, length-assign}

-- A natural number within int64.
abbrev pub IsCount : ℤ → Type 0
IsCount n = (pos 0 ≤ℤ n) × IsInt64 n

missing_is :
    (n : ℤ) (have : ℕ)
    → IsCount n
    → have < 2 ^ 63
    → (pos_part (missing n have) ≡ pos_part n - have) × (pos 0 ≤ℤ missing n have)
unfolding sub64
missing_is (pos n) have h k =
    let e = wrap64-IsInt64 (pos n -ℤ pos have) (ground arith) in rw e (ground arith)
missing_is (negsuc n) have h k = absurd (omega (arith, h.0))

larger_is : (x y : ℤ) → pos_part (larger x y) ≡ max (pos_part x) (pos_part y)
larger_is (pos m) (pos n) = ground arith
larger_is (pos m) (negsuc n) = ground arith
larger_is (negsuc m) (pos n) = ground arith
larger_is (negsuc m) (negsuc n) = ground arith

length-candidates :
    (storage : StorageDataConfig) (ready : Keys) (bytes : ℤ) (t : Table Agent)
    → length (candidates storage ready bytes t)
      ≡ count_if (λ e. not (has_key e.0 ready) && agent_has_capacity_for e.1 storage bytes) t
unfolding candidates
length-candidates storage ready bytes [] = refl
length-candidates storage ready bytes ((id, a) ∷ rest) =
    ground (arith, length-candidates storage ready bytes rest)

module _ (p : Platform) (cfg : ReplicationConfig) (storage : StorageDataConfig)
    (roster : Roster) where
  -- What the generation lacks most of: copies, healthy copies, or failure domains where a label for
  -- them is set.
  abbrev pub shortfall : ℕ → ℕ → ℕ → ℕ
  shortfall held healthy domains =
      max (max (pos_part cfg.factor - held) (pos_part cfg.min_healthy - healthy)) (
        if eqs (trim_space cfg.failure_domain_label) ""
        then 0
        else pos_part cfg.min_failure_domains - domains)

  -- How many agents that can take a copy are not among the holders and have the room.
  abbrev pub free_targets : Keys → List GenerationReplica → ℕ
  free_targets ready rs =
      count_if
        (λ e.
          not (has_key e.0 ready)
          && agent_has_capacity_for e.1 storage (generation_bytes (pos 0) rs))
        roster.target_eligible

  -- The ready replicas on agents online, which a copy can be read from.
  abbrev pub is_source : GenerationReplica → Bool
  is_source r = is_replica_ready r.state && is_in r.agent_id roster.online_sources

  length-ready_sources :
      (rs : List GenerationReplica) → length (ready_sources roster rs) ≡ count_if is_source rs
  unfolding ready_sources
  length-ready_sources [] = refl
  length-ready_sources (r ∷ rest) = ground (arith, length-ready_sources rest)

  abbrev short : Holdings → ℕ
  short h = shortfall (length h.ready) (length h.healthy_ready) (length h.healthy_domains)

  record IsSmall (h : Holdings) : Type 0 where
    factor : IsCount cfg.factor
    min_healthy : IsCount cfg.min_healthy
    min_domains : IsInt64 cfg.min_failure_domains
    ready : length h.ready < 2 ^ 63
    healthy : length h.healthy_ready < 2 ^ 63
    domains : length h.healthy_domains < 2 ^ 63

  domains_need :
      (h : Holdings)
      → IsSmall h
      → pos_part (
          if wants_domains p cfg
          then missing cfg.min_failure_domains (length h.healthy_domains)
          else pos 0)
        ≡ (if eqs (trim_space cfg.failure_domain_label) ""
            then 0
            else pos_part cfg.min_failure_domains - length h.healthy_domains)
  domains_need h w = elim (Bool-cases (wants_domains p cfg)) [
    | inl q ↦
        let e =
          missing_is cfg.min_failure_domains (length h.healthy_domains)
            (ground (arith, w.min_domains), w.min_domains) w.domains in
        ground (arith, e.0)
    | inr q ↦ ground arith
  ]

  need_is : (h : Holdings) → IsSmall h → pos_part (need_of p cfg storage h) ≡ short h
  unfolding need_of
  need_is h w =
      let x = missing cfg.factor (length h.ready) in
      let y = missing cfg.min_healthy (length h.healthy_ready) in
      let z =
        if wants_domains p cfg
        then missing cfg.min_failure_domains (length h.healthy_domains)
        else pos 0 in
      let a = larger_is x y in
      let b = larger_is (larger x y) z in
      let e = missing_is cfg.factor (length h.ready) w.factor w.ready in
      let f = missing_is cfg.min_healthy (length h.healthy_ready) w.min_healthy w.healthy in
      let g = domains_need h w in omega (arith, a, b, e.0, f.0, g)

  -- A generation that has enough lacks nothing.
  met_short : (h : Holdings) → is_met p cfg storage h ≡ true → IsSmall h → short h ≡ 0
  unfolding is_met
  met_short h met w = ground (arith, w.factor, w.min_healthy)

  length-plan :
      (rs : List GenerationReplica)
      → is_met p cfg storage (known p cfg storage roster rs) ≡ false
      → 1 ≤ length (ready_sources roster rs)
      → length (plan p cfg storage roster rs)
        ≡ min
            (pos_part (need_of p cfg storage (known p cfg storage roster rs)))
            (free_targets (known p cfg storage roster rs).ready rs)
  unfolding plan
  length-plan rs unmet some_source =
      let h = known p cfg storage roster rs in
      let q : (is_met p cfg storage h || length (ready_sources roster rs) == 0) ≡ false =
        ground arith in
      let less = target_less p cfg storage roster.target_eligible h.healthy_domains in
      let targets =
        candidates storage h.ready (generation_bytes (pos 0) rs) roster.target_eligible in
      rw q (
        length-assign _ 0 (pos_part (need_of p cfg storage h)) (sort_by less targets)
        ∙ ap (min (pos_part (need_of p cfg storage h))) (
            length-sort_by less targets
            ∙ length-candidates storage h.ready (generation_bytes (pos 0) rs)
                roster.target_eligible))

  plan_nothing :
      (rs : List GenerationReplica)
      → (is_met p cfg storage (known p cfg storage roster rs)
          || length (ready_sources roster rs) == 0)
        ≡ true
      → length (plan p cfg storage roster rs) ≡ 0
  unfolding plan
  plan_nothing rs q = rw q refl

  abbrev Fills : List GenerationReplica → Keys → Keys → Keys → Type 0
  Fills rs held healthy domains =
      length (plan p cfg storage roster rs)
      ≡ min (shortfall (length held) (length healthy) (length domains)) (free_targets held rs)

  Fills-known :
      (rs : List GenerationReplica)
      → IsSmall (known p cfg storage roster rs)
      → 1 ≤ count_if is_source rs
      → let h = known p cfg storage roster rs in Fills rs h.ready h.healthy_ready h.healthy_domains
  Fills-known rs w some_source =
      let h = known p cfg storage roster rs in
      let k = length-ready_sources rs in
      elim (Bool-cases (is_met p cfg storage h)) [
        | inl met ↦
            let z = met_short h met w in
            let n = plan_nothing rs (ground arith) in omega (arith, z, n)
        | inr unmet ↦
            length-plan rs unmet (omega (arith, k, some_source))
            ∙ ap (λ n. min n (free_targets h.ready rs)) (need_is h w)
      ]

  -- Where an agent online holds a ready replica, exactly as many copies of a generation are
  -- planned as it lacks: the largest of what is missing of the factor, of the healthy replicas,
  -- and of the failure domains where a label for them is set, but no more than there are agents
  -- that can take a copy, have the room for it, and hold none that counts. Where no such agent is
  -- online, none is planned. This for settings within int64, the first two natural numbers, and
  -- for fewer than 2 ^ 63 holders and domains.
  pub plan_fills :
      (rs : List GenerationReplica)
      → IsCount cfg.factor
      → IsCount cfg.min_healthy
      → IsInt64 cfg.min_failure_domains
      → let held = holders (is_counted_copy p cfg storage roster) rs [] in
        let healthy = holders (is_healthy_copy p cfg storage roster) rs [] in
        let domains = held_domains p cfg storage roster rs [] in
        length held < 2 ^ 63
        → length healthy < 2 ^ 63
        → length domains < 2 ^ 63
        → let copies = length (plan p cfg storage roster rs) in
          (1 ≤ count_if is_source rs
            → copies
              ≡ min
                  (shortfall (length held) (length healthy) (length domains))
                  (free_targets held rs))
          × (count_if is_source rs ≡ 0 → copies ≡ 0)
  plan_fills rs f m d small few apart =
      let h = known p cfg storage roster rs in
      let healthy = holders (is_healthy_copy p cfg storage roster) rs [] in
      let domains = held_domains p cfg storage roster rs [] in
      let k =
        holdings-Holds p cfg storage roster rs
          (record { ready = []; healthy_ready = []; healthy_domains = [] }) in
      let w : IsSmall h = record {
        factor = f;
        min_healthy = m;
        min_domains = d;
        ready = subst (λ (ks : Keys). length ks < 2 ^ 63) (sym k.ready) small;
        healthy = subst (λ (ks : Keys). length ks < 2 ^ 63) (sym k.healthy) few;
        domains = subst (λ (ks : Keys). length ks < 2 ^ 63) (sym k.domains) apart;
      } in
      (
        λ some_source.
            subst (λ (ks : Keys). Fills rs ks healthy domains) k.ready
              (subst (λ (ks : Keys). Fills rs h.ready ks domains) k.healthy
                (subst (λ (ks : Keys). Fills rs h.ready h.healthy_ready ks) k.domains
                  (Fills-known rs w some_source))),
        λ no_source. let e = length-ready_sources rs in plan_nothing rs (ground arith),
      )
