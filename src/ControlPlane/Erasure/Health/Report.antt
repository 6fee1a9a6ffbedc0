-- ===== src/ControlPlane/Erasure/Health/Report.antt =====
-- The counters of DistributedErasureHealth.
use repo_ark.Prelude.{
  ℕ, ◌+◌, ◌≡◌, refl, sym, ap, subst, ◌∙◌, Bool, true, false, not, ◌&&◌, Option, none, some,
  Option-cases, inl, inr, List, [], ◌∷◌, arith, length, count_if, any, sum_of, if◌then◌else◌,
  String,
}
use repo_ark.Prelude.Int.{pos, lei, lti}
use repo_ark.Prelude.Text.{eqs}
use repo_ark.Prelude.Table.{Table, get}
use repo_ark.Prelude.Clock.{Time, time_sub}
use repo_ark.ControlPlane.Model.{Agent, ErasureSet, ErasureShard, is_shard_ready}
use repo_ark.ControlPlane.Config.{ReplicationConfig, StorageDataConfig}
use repo_ark.ControlPlane.Platform.{Platform}
use repo_ark.ControlPlane.Store.{MemoryStore}
use repo_ark.ControlPlane.Store.Repositories.{list_agents}
use repo_ark.ControlPlane.Store.ErasureSets.{list_erasure_sets, list_erasure_shards}
use repo_ark.ControlPlane.Agents.{agent_counts_durable, agent_in_shard_pool, timeout_of}
use repo_ark.ControlPlane.Agents.Latest.{latest, filled, get-filled}
use repo_ark.ControlPlane.Erasure.{domain_or_own}
use repo_ark.ControlPlane.Erasure.Health.{
  DistributedErasureHealth, IndexDomains, add_domain_at, all_domains, copies_of, durable_agents,
  verdict, count_set, count_sets, copies_in, no_health, evaluate_distributed_erasure_health,
}

module _ (p : Platform) (now : Time) (rcfg : ReplicationConfig) (storage : StorageDataConfig)
    (m : MemoryStore) where
  -- The agent was seen within the timeout, holds durable copies, and is in the pool.
  abbrev pub holds_shards : Agent → Bool
  holds_shards a =
      lei (time_sub now a.last_seen_at) (timeout_of p rcfg.agent_timeout)
      && (agent_counts_durable a storage
          && agent_in_shard_pool p a storage.erasure.shard_pool_label)

  abbrev pub shard_agent : String → Option Agent
  shard_agent id = latest holds_shards id (list_agents m) none

  -- A ready copy on such an agent.
  abbrev pub is_live_shard : ErasureShard → Bool
  is_live_shard s =
      is_shard_ready s.state && (elim (shard_agent s.agent_id) [ none ↦ false | some _ ↦ true ])

  -- The failure domains of these copies, for each shard that has one.
  abbrev place : ErasureShard → Option Agent → IndexDomains → IndexDomains
  place s none xs = xs
  place s (some a) xs =
      add_domain_at s.shard_index
        (domain_or_own p storage.erasure.failure_domain_label s.agent_id a) xs

  abbrev pub places : List ErasureShard → IndexDomains
  places [] = []
  places (s ∷ rest) =
      let later = places rest in
      if is_shard_ready s.state then place s (shard_agent s.agent_id) later else later

  abbrev pub places_of : ErasureSet → IndexDomains
  places_of set = places (list_erasure_shards set.object_sha256 m)

  -- Too few shards are left to read the object.
  abbrev pub is_lost : ErasureSet → Bool
  is_lost set = lti (pos (length (places_of set))) set.data_shards

  -- Enough failure domains, and enough shards whichever of them is lost.
  abbrev pub is_safe : ErasureSet → Bool
  is_safe set =
      lei storage.erasure.min_failure_domains (pos (length (all_domains (places_of set))))
      && not (
          any
            (λ lost.
              lti (pos (count_if (λ e. any (λ d. not (eqs d lost)) e.1) (places_of set)))
                set.data_shards)
            (all_domains (places_of set)))

  abbrev pub live_copies : ErasureSet → ℕ
  live_copies set = count_if is_live_shard (list_erasure_shards set.object_sha256 m)

  durable-filled :
      (agents : List Agent) (t : Table Agent)
      → durable_agents p now rcfg storage agents t ≡ filled holds_shards agents t
  durable-filled [] t = refl
  durable-filled (a ∷ rest) t = durable-filled rest _

  get-durable_agents :
      (id : String) → get id (durable_agents p now rcfg storage (list_agents m) []) ≡ shard_agent id
  unfolding get
  get-durable_agents id =
      ap (get id) (durable-filled (list_agents m) [])
      ∙ get-filled holds_shards id (list_agents m) []

  -- The copies of a set in these terms.
  copies_are :
      (shards : List ErasureShard)
      → let c =
          copies_of p storage.erasure.failure_domain_label
            (durable_agents p now rcfg storage (list_agents m) [])
            shards in
        (c.count ≡ count_if is_live_shard shards) × (c.index_domains ≡ places shards)
  unfolding copies_of
  copies_are [] = (refl, refl)
  copies_are (s ∷ rest) =
      let k = get-durable_agents s.agent_id in
      elim (Option-cases (shard_agent s.agent_id)) [
        | inl e ↦ rw (copies_of, k ∙ e, e) ground (arith, copies_are rest)
        | inr (a, e) ↦ rw (copies_of, k ∙ e, e) ground (arith, copies_are rest)
      ]

  -- What the sets add to a report.
  record Adds (sets : List ErasureSet) (out end : DistributedErasureHealth) : Type 0 where
    total : end.sets ≡ out.sets
    lost : end.unrecoverable ≡ out.unrecoverable + count_if is_lost sets
    healthy : end.healthy ≡ out.healthy + count_if (λ s. not (is_lost s) && is_safe s) sets
    degraded : end.degraded ≡ out.degraded + count_if (λ s. not (is_lost s) && not (is_safe s)) sets
    deficits :
        end.failure_domain_deficits
        ≡ out.failure_domain_deficits + count_if (λ s. not (is_lost s) && not (is_safe s)) sets
    copies : end.shard_copies ≡ out.shard_copies + sum_of live_copies sets

  -- What one set adds.
  one-Adds :
      (set : ErasureSet) (out : DistributedErasureHealth)
      → let c = copies_in p now rcfg storage m set in
        Adds (set ∷ []) out (count_set (verdict storage.erasure set c.index_domains) c.count out)
  unfolding verdict
  one-Adds set out =
      let (n, e) = copies_are (list_erasure_shards set.object_sha256 m) in
      rw (n, e)
        record {
          total = ground arith;
          lost = ground arith;
          healthy = ground arith;
          degraded = ground arith;
          deficits = ground arith;
          copies = ground arith;
        }

  count_sets-Adds :
      (sets : List ErasureSet) (out : DistributedErasureHealth)
      → Adds sets out (count_sets p now rcfg storage m sets out)
  count_sets-Adds [] out = record {
    total = refl;
    lost = omega arith;
    healthy = omega arith;
    degraded = omega arith;
    deficits = omega arith;
    copies = omega arith;
  }
  count_sets-Adds (set ∷ sets) out =
      let c = copies_in p now rcfg storage m set in
      let one = one-Adds set out in
      let h =
        count_sets-Adds sets
          (count_set (verdict storage.erasure set c.index_domains) c.count out) in
      record {
        total = h.total ∙ one.total;
        lost = ground (arith, h.lost, one.lost);
        healthy = ground (arith, h.healthy, one.healthy);
        degraded = ground (arith, h.degraded, one.degraded);
        deficits = ground (arith, h.deficits, one.deficits);
        copies = omega (arith, h.copies, one.copies);
      }

  evaluated :
      storage.erasure.enabled ≡ true
      → storage.erasure.distributed ≡ true
      → let sets = list_erasure_sets (pos 20000) m in
        evaluate_distributed_erasure_health p now rcfg storage m
        ≡ count_sets p now rcfg storage m sets (no_health (length sets))
  unfolding evaluate_distributed_erasure_health
  evaluated on spread = ground (arith, on, spread)

  abbrev pub ReportsWell : List ErasureSet → DistributedErasureHealth → Type 0
  ReportsWell sets out =
      (out.sets ≡ length sets)
      × (out.unrecoverable ≡ count_if is_lost sets)
      × (out.healthy ≡ count_if (λ s. not (is_lost s) && is_safe s) sets)
      × (out.degraded ≡ count_if (λ s. not (is_lost s) && not (is_safe s)) sets)
      × (out.failure_domain_deficits ≡ out.degraded)
      × (out.shard_copies ≡ sum_of live_copies sets)

  -- The report of a distributed configuration, over ready copies on agents that were seen within the
  -- timeout, hold durable copies and are in the pool: a set with fewer shards than data shards is
  -- unrecoverable; of the others one is healthy if its copies are in enough failure domains and
  -- enough shards are left whichever domain is lost, and else degraded, which is also a deficit of
  -- failure domains. The copies of all sets are counted.
  pub erasure_report :
      storage.erasure.enabled ≡ true
      → storage.erasure.distributed ≡ true
      → ReportsWell
          (list_erasure_sets (pos 20000) m)
          (evaluate_distributed_erasure_health p now rcfg storage m)
  erasure_report on spread =
      let sets = list_erasure_sets (pos 20000) m in
      let h = count_sets-Adds sets (no_health (length sets)) in
      subst (ReportsWell sets) (sym (evaluated on spread)) (
        h.total,
        omega (arith, h.lost),
        omega (arith, h.healthy),
        omega (arith, h.degraded),
        omega (arith, h.deficits, h.degraded),
        omega (arith, h.copies),
      )
