-- ===== src/ControlPlane/Erasure/Health/Traces.antt =====
-- Where the failure domains that EvaluateDistributedErasureHealth lists for a shard come from.
use repo_ark.Prelude.{
  ◌≤◌, String, ◌≡◌, refl, sym, ap, ◌∙◌, ◌⊎◌, inl, inr, true, false, some, List, [], ◌∷◌, arith, map,
  length, any, In, Bool-cases, Option-cases,
}
use repo_ark.Prelude.Int.{ℤ, eqi, eqi_eq}
use repo_ark.Prelude.Text.{eq_iff}
use repo_ark.Prelude.Table.{Table, Keys, get, has_key, add_key, has_key-add_key}
use repo_ark.ControlPlane.Model.{Agent, ErasureShard, is_shard_ready}
use repo_ark.ControlPlane.Platform.{Platform}
use repo_ark.ControlPlane.Erasure.{domain_or_own}
use repo_ark.ControlPlane.Erasure.Health.{IndexDomains, add_domain_at, copies_of}

-- Each shard listed has a copy.
abbrev pub IsFilled : IndexDomains → Type 0
IsFilled [] = Unit
IsFilled ((i, ds) ∷ xs) = (1 ≤ length ds) × IsFilled xs

-- No shard is listed twice.
abbrev pub IsDistinctIndices : List ℤ → Type 0
IsDistinctIndices [] = Unit
IsDistinctIndices (i ∷ is) = (any (λ j. eqi j i) is ≡ false) × IsDistinctIndices is

abbrev pub indices : IndexDomains → List ℤ
indices xs = map (λ (e : ℤ × Keys). e.0) xs

add_domain_at-IsFilled :
    (i : ℤ) (d : String) (xs : IndexDomains) → IsFilled xs → IsFilled (add_domain_at i d xs)
add_domain_at-IsFilled i d [] f = (omega arith, tt)
add_domain_at-IsFilled i d ((j, ds) ∷ xs) f = ground (arith, add_domain_at-IsFilled i d xs)

absent-add_domain_at :
    (i k : ℤ) (d : String) (xs : IndexDomains)
    → eqi i k ≡ false
    → any (λ j. eqi j k) (indices xs) ≡ false
    → any (λ j. eqi j k) (indices (add_domain_at i d xs)) ≡ false
absent-add_domain_at i k d [] e h = ground arith
absent-add_domain_at i k d ((j, ds) ∷ xs) e h = ground (arith, absent-add_domain_at i k d xs e)

distinct-add_domain_at :
    (i : ℤ) (d : String) (xs : IndexDomains)
    → IsDistinctIndices (indices xs)
    → IsDistinctIndices (indices (add_domain_at i d xs))
distinct-add_domain_at i d [] h = (refl, tt)
distinct-add_domain_at i d ((j, ds) ∷ xs) h =
    ground (arith, distinct-add_domain_at i d xs, absent-add_domain_at i j d xs)

-- Where a listed domain of a shard comes from after a domain is added: it was listed before, or is
-- the one that was added.
abbrev Arises : ℤ → String → IndexDomains → ℤ × Keys → String → Type 0
Arises i d xs e c =
    ((x : ℤ × Keys) × In x xs × (x.0 ≡ e.0) × (has_key c x.1 ≡ true)) ⊎ ((i ≡ e.0) × (d ≡ c))

Arises-further :
    (i : ℤ) (d : String) (y : ℤ × Keys) (xs : IndexDomains) (e : ℤ × Keys) (c : String)
    → Arises i d xs e c
    → Arises i d (y ∷ xs) e c
Arises-further i d y xs e c (inl (x, m, q, h)) = inl (x, inr m, q, h)
Arises-further i d y xs e c (inr h) = inr h

Arises-here :
    (i j : ℤ) (d : String) (ds : Keys) (xs : IndexDomains) (e : ℤ × Keys) (c : String)
    → i ≡ j
    → e ≡ (j, add_key d ds)
    → has_key c e.1 ≡ true
    → Arises i d ((j, ds) ∷ xs) e c
Arises-here i j d ds xs e c same q h =
    let first = sym (ap (λ (x : ℤ × Keys). x.0) q) in
    let held : has_key c (add_key d ds) ≡ true = sym (ap (λ (x : ℤ × Keys). has_key c x.1) q) ∙ h in
    elim (Bool-cases (has_key c ds)) [
      | inl old ↦ inl ((j, ds), inl refl, first, old)
      | inr new ↦
          inr (same ∙ first, (eq_iff d c).0 (ground (arith, has_key-add_key d c ds, held, new)))
    ]

In-add_domain_at :
    (i : ℤ) (d : String) (xs : IndexDomains) (e : ℤ × Keys) (c : String)
    → In e (add_domain_at i d xs)
    → has_key c e.1 ≡ true
    → Arises i d xs e c
In-add_domain_at i d [] e c (inl q) h = inr (
  sym (ap (λ (x : ℤ × Keys). x.0) q),
  (eq_iff d c).0 (ground (arith, ap (λ (x : ℤ × Keys). has_key c x.1) q)),
)
In-add_domain_at i d [] e c (inr m) h = absurd m
In-add_domain_at i d ((j, ds) ∷ xs) e c m h = elim (Bool-cases (eqi j i)) [
  | inl same ↦ at_head same (rw same at m)
  | inr other ↦ at_tail (λ k. In-add_domain_at i d xs e c k h) (rw other at m)
]
  where
    at_head : eqi j i ≡ true → In e ((j, add_key d ds) ∷ xs) → Arises i d ((j, ds) ∷ xs) e c
    at_head same (inl q) = Arises-here i j d ds xs e c (sym (eqi_eq j i same)) q h
    at_head same (inr q) = inl (e, inr q, refl, h)

    at_tail :
        (In e (add_domain_at i d xs) → Arises i d xs e c)
        → In e ((j, ds) ∷ add_domain_at i d xs)
        → Arises i d ((j, ds) ∷ xs) e c
    at_tail more (inl q) = inl (e, inl q, refl, h)
    at_tail more (inr q) = Arises-further i d (j, ds) xs e c (more q)

module _ (p : Platform) (key : String) (online : Table Agent) where
  -- A ready copy of shard `i` on an agent that counts, in failure domain `d`.
  pub record Copy (shards : List ErasureShard) (i : ℤ) (d : String) : Type 0 where
    pub shard : ErasureShard
    pub agent : Agent
    pub listed : In shard shards
    pub ready : is_shard_ready shard.state ≡ true
    pub index : shard.shard_index ≡ i
    pub held : get shard.agent_id online ≡ some agent
    pub domain : domain_or_own p key shard.agent_id agent ≡ d

  -- The domains of the copies of each shard, as they should be.
  pub record IsTraced (shards : List ErasureShard) (xs : IndexDomains) : Type 0 where
    pub filled : IsFilled xs
    pub distinct : IsDistinctIndices (indices xs)
    pub traced : (e : ℤ × Keys) → In e xs → (d : String) → has_key d e.1 ≡ true → Copy shards e.0 d

  moved_Copy :
      (shards more : List ErasureShard) (i k : ℤ) (d c : String)
      → i ≡ k
      → d ≡ c
      → ((s : ErasureShard) → In s shards → In s more)
      → Copy shards i d
      → Copy more k c
  moved_Copy shards more i k d c q r sub x = record {
    shard = x.shard;
    agent = x.agent;
    listed = sub x.shard x.listed;
    ready = x.ready;
    index = x.index ∙ q;
    held = x.held;
    domain = x.domain ∙ r;
  }

  IsTraced-further :
      (s : ErasureShard) (shards : List ErasureShard) (xs : IndexDomains)
      → IsTraced shards xs
      → IsTraced (s ∷ shards) xs
  IsTraced-further s shards xs t = record {
    filled = t.filled;
    distinct = t.distinct;
    traced = λ e m d h.
        moved_Copy shards (s ∷ shards) e.0 e.0 d d refl refl (λ _ k. inr k) (t.traced e m d h);
  }

  IsTraced-add :
      (shards : List ErasureShard) (xs : IndexDomains) (i : ℤ) (d : String)
      → Copy shards i d
      → IsTraced shards xs
      → IsTraced shards (add_domain_at i d xs)
  IsTraced-add shards xs i d new t = record {
    filled = add_domain_at-IsFilled i d xs t.filled;
    distinct = distinct-add_domain_at i d xs t.distinct;
    traced = λ e m c h. elim (In-add_domain_at i d xs e c m h) [
      | inl (x, k, q, old) ↦
          moved_Copy shards shards x.0 e.0 c c q refl (λ _ n. n) (t.traced x k c old)
      | inr (q, r) ↦ moved_Copy shards shards i e.0 d c q r (λ _ n. n) new
    ];
  }

  -- The domains that copies_of lists come from ready copies on agents that count.
  pub copies_of-IsTraced :
      (shards : List ErasureShard) → IsTraced shards (copies_of p key online shards).index_domains
  unfolding copies_of
  copies_of-IsTraced [] = record { filled = tt; distinct = tt; traced = λ e m. absurd m }
  copies_of-IsTraced (s ∷ rest) =
      let before =
        IsTraced-further s rest (copies_of p key online rest).index_domains
          (copies_of-IsTraced rest) in
      elim (Bool-cases (is_shard_ready s.state)) [
        | inl ready ↦ elim (Option-cases (get s.agent_id online)) [
          | inl e ↦ rw (ready, e, copies_of) before
          | inr (a, e) ↦
              rw (ready, e, copies_of)
                (IsTraced-add (s ∷ rest) (copies_of p key online rest).index_domains s.shard_index
                  (domain_or_own p key s.agent_id a)
                  (record {
                    shard = s;
                    agent = a;
                    listed = inl refl;
                    ready = ready;
                    index = refl;
                    held = e;
                    domain = refl;
                  })
                  before)
        ]
        | inr e ↦ rw (e, copies_of) before
      ]
