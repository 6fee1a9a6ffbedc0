-- ===== src/ControlPlane/ReplicationHealth/Verdict.antt =====
-- What the health report says of each generation, and what the clean-up leaves.
use repo_ark.Prelude.{
  ℕ, not, sum_of, ◌+◌, ◌≤◌, ◌≡◌, refl, Bool, true, false, ◌&&◌, none, some, List, [], ◌∷◌, arith,
  length, count_if, Option-cases, inl, inr,
}
use repo_ark.Prelude.Int.{pos, ◌≤ℤ◌}
use repo_ark.Prelude.Table.{Table, get}
use repo_ark.Prelude.Clock.{Time}
use repo_ark.ControlPlane.Model.{Agent, Generation, GenerationReplica, is_replica_ready}
use repo_ark.ControlPlane.Config.{ReplicationConfig, StorageDataConfig}
use repo_ark.ControlPlane.Platform.{Platform}
use repo_ark.ControlPlane.Store.{MemoryStore}
use repo_ark.ControlPlane.Store.Generations.{list_all_generations, list_replicas}
use repo_ark.ControlPlane.ReplicationHealth.Counted.{is_live_copy, is_spread, is_well, tally_is}
use repo_ark.ControlPlane.ReplicationHealth.{
  ReplicationHealthReport, Tally, tally, is_healthy, domains_ok, wants_domains, count_generation,
  count_generations, initial_report, online_of, min_healthy_of, replication_health_with_storage,
}

-- A replica that is ready, on an agent that counts.
abbrev pub is_live_replica : Table Agent → GenerationReplica → Bool
is_live_replica online r =
    is_replica_ready r.state && (elim (get r.agent_id online) [ none ↦ false | some _ ↦ true ])

module _ (p : Platform) (cfg : ReplicationConfig) where
  -- The tally of a generation counts its ready replicas and those of them that are on agents that
  -- count, and has no more failure domains than these.
  tally_counts :
      (online : Table Agent) (rs : List GenerationReplica)
      → let t = tally p cfg online rs in
        (t.ready ≡ count_if (λ r. is_replica_ready r.state) rs)
        × (t.healthy ≡ count_if (is_live_replica online) rs)
        × (length t.domains ≤ t.healthy)
  unfolding tally
  tally_counts online [] = (refl, refl, omega arith)
  tally_counts online (r ∷ rs) = elim (Option-cases (get r.agent_id online)) [
    | inl e ↦ rw (e, tally) ground (arith, tally_counts online rs, e)
    | inr (a, e) ↦ rw (e, tally) ground (arith, tally_counts online rs, e)
  ]

module _ (p : Platform) (cfg : ReplicationConfig) (now : Time) (storage : StorageDataConfig)
    (m : MemoryStore) where
  -- The tally of the replicas that the store has of a generation.
  abbrev tally_of : Generation → Tally
  tally_of g = tally p cfg (online_of p cfg now storage m) (list_replicas g.id m)

  spread_is :
      (g : Generation) → domains_ok p cfg (tally_of g).domains ≡ is_spread p cfg now storage m g
  spread_is g =
      let (_, _, e) = tally_is p cfg now storage m (list_replicas g.id m) in rw e ground arith

  well_is :
      (g : Generation)
      → is_healthy p cfg (min_healthy_of p cfg) (tally_of g) ≡ is_well p cfg now storage m g
  well_is g =
      let (_, n, _) = tally_is p cfg now storage m (list_replicas g.id m) in
      ground (arith, n, spread_is g)

  abbrev pub ready_of : Generation → ℕ
  ready_of g = count_if (λ r. is_replica_ready r.state) (list_replicas g.id m)

  abbrev pub live_of : Generation → ℕ
  live_of g = count_if (is_live_copy p cfg now storage m) (list_replicas g.id m)

  -- What the loop over the generations adds to a report.
  record Adds (gs : List Generation) (r out : ReplicationHealthReport) : Type 0 where
    total : out.generations ≡ r.generations
    healthy :
        out.healthy_generations ≡ r.healthy_generations + count_if (is_well p cfg now storage m) gs
    deficits : out.deficits ≡ r.deficits + count_if (λ g. not (is_well p cfg now storage m g)) gs
    spread :
        out.failure_domain_deficits
        ≡ r.failure_domain_deficits + count_if (λ g. not (is_spread p cfg now storage m g)) gs
    ready : out.ready_replicas ≡ r.ready_replicas + sum_of ready_of gs
    live : out.online_ready_replicas ≡ r.online_ready_replicas + sum_of live_of gs

  counts_all :
      (gs : List Generation) (r : ReplicationHealthReport)
      → Adds gs r
          (count_generations p cfg (min_healthy_of p cfg) (online_of p cfg now storage m) m gs r)
  counts_all [] r = record {
    total = refl;
    healthy = omega arith;
    deficits = omega arith;
    spread = omega arith;
    ready = omega arith;
    live = omega arith;
  }
  counts_all (g ∷ gs) r =
      let t = tally_of g in
      let k = min_healthy_of p cfg in
      let h = counts_all gs (count_generation p cfg k t r) in
      let (a, b, _) = tally_is p cfg now storage m (list_replicas g.id m) in
      let s = spread_is g in
      let w = well_is g in
      record {
        total = h.total;
        healthy = ground (arith, h.healthy, w);
        deficits = ground (arith, h.deficits, w);
        spread = ground (arith, h.spread, s);
        ready = omega (arith, h.ready, a);
        live = omega (arith, h.live, b);
      }

-- ReplicationHealthWithStorage on the listed generations counts as healthy exactly those with enough
-- ready replicas, one at least, on agents that are allowed, were seen within the timeout and hold
-- durable copies, or on the local worker where it is included, and with enough failure domains of
-- these agents where a label for them is set. Every other one is a deficit, each without enough
-- failure domains a deficit of these, and the counts of ready and of online replicas are the sums
-- over the generations.
pub health_report :
    (p : Platform) (cfg : ReplicationConfig) (now : Time) (storage : StorageDataConfig)
    (m : MemoryStore)
    → let r = replication_health_with_storage p cfg now storage m in
      let gens = list_all_generations (pos 20000) m in
      (r.generations ≡ length gens)
      × (r.healthy_generations ≡ count_if (is_well p cfg now storage m) gens)
      × (r.deficits ≡ count_if (λ g. not (is_well p cfg now storage m g)) gens)
      × (r.failure_domain_deficits ≡ count_if (λ g. not (is_spread p cfg now storage m g)) gens)
      × (r.ready_replicas ≡ sum_of (ready_of p cfg now storage m) gens)
      × (r.online_ready_replicas ≡ sum_of (live_of p cfg now storage m) gens)
unfolding replication_health_with_storage
health_report p cfg now storage m =
    let gens = list_all_generations (pos 20000) m in
    let h = counts_all p cfg now storage m gens (initial_report p cfg (length gens)) in
    (
      h.total,
      omega (arith, h.healthy),
      omega (arith, h.deficits),
      omega (arith, h.spread),
      omega (arith, h.ready),
      omega (arith, h.live),
    )

-- A generation that counts as healthy has a ready replica on an agent that counts, at least
-- `min_healthy` of them, and where failure domains are asked for at least as many of these replicas
-- as domains.
pub healthy_generation :
    (p : Platform) (cfg : ReplicationConfig) (online : Table Agent) (rs : List GenerationReplica)
    → is_healthy p cfg (min_healthy_of p cfg) (tally p cfg online rs) ≡ true
    → let live = count_if (is_live_replica online) rs in
      (1 ≤ live)
      × (cfg.min_healthy ≤ℤ pos live)
      × (wants_domains p cfg ≡ true → cfg.min_failure_domains ≤ℤ pos live)
healthy_generation p cfg online rs h = ground (arith, tally_counts p cfg online rs)
