-- ===== src/Config/Consequences.antt =====
-- The parts of the control plane under a configuration that Validate of internal/config/config.go
-- accepts: replication, distributed erasure, the schedules of scheduler.go, and the fleet.
use repo_ark.Prelude.{
  ℕ, ◌+◌, ◌*◌, ◌≤◌, subst, String, ◌≡◌, refl, sym, Bool, true, false, ◌||◌, none, some, List, [],
  ◌∷◌, arith, Bool-cases, inl, inr, find_first, length, All,
}
use repo_ark.Prelude.Int.{ℤ, pos, negsuc, pos_part, lti, ◌<ℤ◌, ◌≤ℤ◌, ◌+ℤ◌, add64, wrap64-IsInt64}
use repo_ark.Prelude.Text.{eqs, eq_iff}
use repo_ark.Prelude.Table.{Table, Keys, has_key, add_key, DistinctKeys, has_key-add_key}
use repo_ark.Prelude.Clock.{Duration, positive_or, hour, minute}
use repo_ark.Config.Checks.{Parsers, is_blank_text, fails-none, ▷-none, when-none, IsPositive}
use repo_ark.Config.Sections.{Config, FleetAccountConfig}
use repo_ark.Config.General.{validate_accounts, validate_fleet}
use repo_ark.Config.Deployment.{validate_policies}
use repo_ark.Config.Storage.{validate, validate_storage, validate_erasure, validate_distributed}
use repo_ark.Config.Validity.{
  skip, duration-IsPositive, validate-control_plane, validate-fleet, control_plane-policies,
  control_plane-replication, control_plane-storage, replication-IsReplicable,
}
use repo_ark.ControlPlane.Config.{ErasureConfig, StorageDataConfig}
use repo_ark.ControlPlane.Model.{Agent}
use repo_ark.ControlPlane.Platform.{Platform}
use repo_ark.ControlPlane.Agents.{timeout_of}
use repo_ark.ControlPlane.Erasure.{keys_of, desired_shard_agents}
use repo_ark.ControlPlane.Erasure.Placement.{desired_agents}
use repo_ark.ControlPlane.Scheduler.{
  RepoSchedulePolicy, matches_policy, policy_schedule, schedule_for,
}

-- The control plane parses a duration as the validation does, and reads an error as 0, which is
-- what time.ParseDuration returns with one.
abbrev pub Parses : Parsers → Platform → Type 0
Parses p q = (s : String) (d : Duration) → p.parse_duration s ≡ some d → q.parse_duration s ≡ d

module _ (p : Parsers) (q : Platform) (same : Parses p q) where
  -- A positive duration is used as it is configured.
  used :
      (s : String) (fallback : Duration)
      → IsPositive p s
      → (p.parse_duration s ≡ some (positive_or (q.parse_duration s) fallback))
        × (pos 0 <ℤ positive_or (q.parse_duration s) fallback)
  used s fallback (d, e, h) =
      let k : positive_or d fallback ≡ d = ground arith in rw (same s d e, k) (e, h)

  -- With an accepted configuration in which the control plane and replication are enabled, a
  -- generation wants 2 to 32 replicas, of them at least one and no more than the factor healthy and
  -- no more failure domains than the factor; and agents time out after the configured duration,
  -- which is positive, never after the default one.
  pub validated_replication :
      (c : Config)
      → validate p c ≡ none
      → c.control_plane.enabled ≡ true
      → c.control_plane.replication.enabled ≡ true
      → let r = c.control_plane.replication in
        ((pos 2 ≤ℤ r.factor) × (r.factor ≤ℤ pos 32))
        × ((pos 1 ≤ℤ r.min_healthy) × (r.min_healthy ≤ℤ r.factor))
        × ((pos 0 ≤ℤ r.min_failure_domains) × (r.min_failure_domains ≤ℤ r.factor))
        × (p.parse_duration r.agent_timeout ≡ some (timeout_of q r.agent_timeout))
        × (pos 0 <ℤ timeout_of q r.agent_timeout)
  validated_replication c h on r_on =
      let cp = c.control_plane in
      let v =
        replication-IsReplicable p cp.replication
          (control_plane-replication p cp (validate-control_plane p c h) on) r_on in
      let (t, z) = used cp.replication.agent_timeout (pos (2 * minute)) v.timeout_positive in
      (v.factor_range, v.healthy_range, v.domains_range, t, z)

  module _ (path_match : String → String → Bool) where
    policies_used :
        (i : ℕ) (fallback : Duration) (mirror : Bool) (name : String)
        (policies : List RepoSchedulePolicy)
        → validate_policies p i policies ≡ none
        → policy_schedule q path_match fallback mirror name policies
          ≡ (elim (find_first (λ s. matches_policy q path_match s name) policies) [
            | none ↦ record { interval = fallback; priority = pos 50; mirror = mirror }
            | some s ↦ record {
              interval = q.parse_duration s.interval;
              priority = s.priority;
              mirror = s.mirror_gitlab;
            }
          ])
    unfolding validate_policies
    policies_used i fallback mirror name [] h = refl
    policies_used i fallback mirror name (s ∷ rest) h =
        let (_, h1) = ▷-none _ _ h in
        let (a, h2) = ▷-none _ _ h1 in
        let (d, e, z) = duration-IsPositive p s.interval (fails-none _ _ a) in
        let k : lti (pos 0) (q.parse_duration s.interval) ≡ true =
          rw (same s.interval d e) (ground arith) in
        elim (Bool-cases (matches_policy q path_match s name)) [
          | inl m ↦ rw (m, k) refl
          | inr m ↦ rw m (policies_used (i + 1) fallback mirror name rest h2)
        ]

    -- With an accepted configuration in which the control plane is enabled, the schedule of a
    -- repository is that of the first policy that matches its name, with the policy's own interval,
    -- and the default schedule where none matches.
    pub validated_schedule :
        (c : Config) (name : String)
        → validate p c ≡ none
        → c.control_plane.enabled ≡ true
        → let s = c.control_plane.scheduler in
          let mirror = c.control_plane.mirroring.enabled in
          schedule_for q path_match s.default_interval mirror s.policies name
          ≡ (elim (find_first (λ s. matches_policy q path_match s name) s.policies) [
            | none ↦ record {
              interval = positive_or (q.parse_duration s.default_interval) (pos (24 * hour));
              priority = pos 50;
              mirror = mirror;
            }
            | some s ↦ record {
              interval = q.parse_duration s.interval;
              priority = s.priority;
              mirror = s.mirror_gitlab;
            }
          ])
    unfolding schedule_for
    validated_schedule c name h on =
        let cp = c.control_plane in
        policies_used 0 _ cp.mirroring.enabled name cp.scheduler.policies
          (control_plane-policies p cp (validate-control_plane p c h) on)

-- Within the accepted ranges the number of shards does not wrap.
shards_sum :
    (x y : ℤ)
    → (pos 2 ≤ℤ x) × (x ≤ℤ pos 32)
    → (pos 1 ≤ℤ y) × (y ≤ℤ pos 16)
    → (pos 3 ≤ℤ (x +ℤ y)) × ((x +ℤ y) ≤ℤ pos 48) × (add64 x y ≡ x +ℤ y)
unfolding add64
shards_sum (pos m) (pos n) h k =
    (ground arith, ground arith, wrap64-IsInt64 (pos m +ℤ pos n) (ground arith))
shards_sum (pos m) (negsuc n) h k = absurd (omega arith)
shards_sum (negsuc m) y h k = absurd (omega arith)

-- The names of the accounts.
abbrev pub names_of : List FleetAccountConfig → Keys
names_of [] = []
names_of (a ∷ rest) = a.name ∷ names_of rest

abbrev pub IsNamed : FleetAccountConfig → Type 0
IsNamed a = (is_blank_text a.name ≡ false) × (is_blank_text a.token_env ≡ false)

module _ (p : Parsers) where
  -- What distributed erasure reads.
  pub record IsSpreadable (replicates has_agents : Bool) (e : ErasureConfig) : Type 0 where
    pub data_range : (pos 2 ≤ℤ e.data_shards) × (e.data_shards ≤ℤ pos 32)
    pub parity_range : (pos 1 ≤ℤ e.parity_shards) × (e.parity_shards ≤ℤ pos 16)
    pub copies_range : (pos 1 ≤ℤ e.shard_replication) × (e.shard_replication ≤ℤ pos 8)
    pub labelled : is_blank_text e.failure_domain_label ≡ false
    pub connected : (replicates ≡ true) × (has_agents ≡ true)

  erasure-IsSpreadable :
      (replicates has_agents : Bool) (e : ErasureConfig)
      → validate_erasure p replicates has_agents e ≡ none
      → e.enabled ≡ true
      → e.distributed ≡ true
      → IsSpreadable replicates has_agents e
  unfolding validate_erasure validate_distributed
  erasure-IsSpreadable replicates has_agents e h on d =
      let (a, h1) = ▷-none _ _ (when-none e.enabled _ h on) in
      let (b, h2) = ▷-none _ _ (when-none e.distributed _ (skip _ _ h1) d) in
      let (c, h3) = ▷-none _ _ h2 in
      let (l, _) = ▷-none _ _ h3 in
      let x = fails-none _ _ a in
      let y = fails-none _ _ b in
      let z = fails-none _ _ c in
      record {
        data_range = ground arith;
        parity_range = ground arith;
        copies_range = ground arith;
        labelled = fails-none _ _ l;
        connected = ground arith;
      }

  storage-erasure :
      (replicates has_agents : Bool) (s : StorageDataConfig)
      → validate_storage p replicates has_agents s ≡ none
      → s.enabled ≡ true
      → validate_erasure p replicates has_agents s.erasure ≡ none
  unfolding validate_storage
  storage-erasure replicates has_agents s h on =
      skip _ _ (skip _ _ (skip _ _ (skip _ _ (skip _ _ (when-none s.enabled _ h on)))))

  -- With an accepted configuration in which the control plane, storage and distributed erasure are
  -- enabled, replication and agents are enabled too; an object has 3 to 48 shards, a number that
  -- does not wrap; and a shard is placed on at least one and at most eight agents, all different, of
  -- a non-empty table of agents under different, non-empty names.
  pub validated_erasure :
      (c : Config) (q : Platform) (object : String) (index : ℕ) (agents : Table Agent)
      (key : String)
      → validate p c ≡ none
      → c.control_plane.enabled ≡ true
      → c.control_plane.storage.enabled ≡ true
      → c.control_plane.storage.erasure.enabled ≡ true
      → c.control_plane.storage.erasure.distributed ≡ true
      → 1 ≤ length agents
      → DistinctKeys (keys_of agents)
      → has_key "" (keys_of agents) ≡ false
      → let e = c.control_plane.storage.erasure in
        let out = desired_shard_agents q object index e.shard_replication agents key in
        ((c.control_plane.replication.enabled ≡ true) × (c.control_plane.agents.enabled ≡ true))
        × ((pos 3 ≤ℤ (e.data_shards +ℤ e.parity_shards))
            × ((e.data_shards +ℤ e.parity_shards) ≤ℤ pos 48)
            × (add64 e.data_shards e.parity_shards ≡ e.data_shards +ℤ e.parity_shards))
        × (1 ≤ length out)
        × (length out ≤ 8)
        × DistinctKeys out
  validated_erasure c q object index agents key h on s_on e_on d some_agent distinct named =
      let cp = c.control_plane in
      let e = cp.storage.erasure in
      let v =
        erasure-IsSpreadable cp.replication.enabled cp.agents.enabled e
          (storage-erasure cp.replication.enabled cp.agents.enabled cp.storage
            (control_plane-storage p cp (validate-control_plane p c h) on) s_on)
          e_on d in
      let (n, out, _) =
        desired_agents q object index e.shard_replication agents key distinct named in
      let lo = v.copies_range.0 in
      let hi = v.copies_range.1 in
      let copies = between e.shard_replication lo hi in
      (
        v.connected,
        shards_sum e.data_shards e.parity_shards v.data_range v.parity_range,
        omega (arith, n, copies),
        omega (arith, n, copies),
        out,
      )
    where
      between : (x : ℤ) → pos 1 ≤ℤ x → x ≤ℤ pos 8 → (1 ≤ pos_part x) × (pos_part x ≤ 8)
      between (pos n) h k = (omega arith, omega arith)
      between (negsuc n) h k = absurd (omega arith)

  accounts_distinct :
      (i : ℕ) (seen : Keys) (accounts : List FleetAccountConfig)
      → validate_accounts p i seen accounts ≡ none
      → DistinctKeys (names_of accounts)
        × ((name : String) → has_key name seen ≡ true → has_key name (names_of accounts) ≡ false)
        × All IsNamed accounts
  unfolding validate_accounts
  accounts_distinct i seen [] h = (tt, (λ name m. refl), tt)
  accounts_distinct i seen (a ∷ rest) h =
      let (blank, h1) = ▷-none _ _ h in
      let (twice, h2) = ▷-none _ _ h1 in
      let b = fails-none _ _ blank in
      let new = fails-none _ _ twice in
      let (distinct, apart, named) = accounts_distinct (i + 1) (add_key a.name seen) rest h2 in
      let own = has_key-add_key a.name a.name seen in
      let itself = (eq_iff a.name a.name).1 refl in
      let out : has_key a.name (names_of rest) ≡ false = apart a.name (ground arith) in
      (
        (out, distinct),
        (λ name m. others name m new (apart name (added name m))),
        (ground arith, named),
      )
    where
      others :
          (name : String)
          → has_key name seen ≡ true
          → has_key a.name seen ≡ false
          → has_key name (names_of rest) ≡ false
          → (eqs a.name name || has_key name (names_of rest)) ≡ false
      others name m new out = elim (Bool-cases (eqs a.name name)) [
        | inl q ↦
            let k =
              subst (λ (x : String). has_key x seen ≡ true) (sym ((eq_iff a.name name).0 q)) m in
            absurd (ground arith)
        | inr q ↦ rw (q, out) refl
      ]

      added : (name : String) → has_key name seen ≡ true → has_key name (add_key a.name seen) ≡ true
      added name m = let k = has_key-add_key a.name name seen in ground arith

  -- With an accepted configuration in which the fleet is enabled, the names of its accounts are all
  -- different, and no account lacks a name or the variable of its token.
  pub validated_fleet :
      (c : Config)
      → validate p c ≡ none
      → c.fleet.enabled ≡ true
      → DistinctKeys (names_of c.fleet.accounts) × All IsNamed c.fleet.accounts
  unfolding validate_fleet
  validated_fleet c h on =
      let checks = skip _ _ (when-none c.fleet.enabled _ (validate-fleet p c h) on) in
      let (distinct, _, named) = accounts_distinct 0 [] c.fleet.accounts checks in (distinct, named)
