-- ===== src/ControlPlane/Erasure.antt =====
-- The placement of erasure shards, of internal/controlplane/erasure_distributed.go: which agents
-- should hold a shard, and from which one it is copied.
pub mod Placement
pub mod Health
use Prim.Native.String.{◌++◌ as append}
use repo_ark.Prelude.{
  ℕ, zero, suc, ◌+◌, ◌%◌, min, String, Bool, true, false, not, ◌&&◌, ◌||◌, Option, none, some, List,
  [], ◌∷◌, length, ltb, ◌==◌, any, if◌then◌else◌,
}
use repo_ark.Prelude.Int.{ℤ, pos, pos_part, lti, lei}
use repo_ark.Prelude.Text.{eqs, lts, equal_fold}
use repo_ark.Prelude.Table.{Table, Keys, get, put, has_key, add_key, list_at}
use repo_ark.Prelude.Sort.{sort_by}
use repo_ark.Prelude.Clock.{Time, Duration, time_sub}
use repo_ark.ControlPlane.Model.{
  Agent, Job, ErasureShard, is_job_queued, is_job_running, is_job_succeeded, is_shard_ready,
}
use repo_ark.ControlPlane.Platform.{Platform}
use repo_ark.ControlPlane.Agents.{agent_failure_domain}

unfoldable pub recently_ran_job : List Job → String → String → Duration → Time → Bool
recently_ran_job [] kind affinity interval now = false
recently_ran_job (j ∷ jobs) kind affinity interval now =
    let rest = recently_ran_job jobs kind affinity interval now in
    if not (eqs j.kind kind) || not (eqs j.affinity affinity)
    then rest
    else if (is_job_queued j.status || is_job_running j.status)
        || (is_job_succeeded j.status && lti (time_sub now j.updated_at) interval)
    then true
    else rest

unfoldable pub active_job_exists : List Job → String → String → Bool
active_job_exists jobs kind target =
    any
      (λ j.
        eqs j.kind kind
        && eqs j.target target
        && (is_job_queued j.status || is_job_running j.status))
      jobs

unfoldable pub has_ready_shard_on : List ErasureShard → String → Bool
has_ready_shard_on xs agent = any (λ s. eqs s.agent_id agent && is_shard_ready s.state) xs

-- The agents that can be read from and hold a ready copy of the digest.
abbrev pub shard_sources : List ErasureShard → Table Agent → String → List String
shard_sources [] agents digest = []
shard_sources (s ∷ xs) agents digest =
    let rest = shard_sources xs agents digest in
    if not (is_shard_ready s.state) || not (equal_fold s.shard_sha256 digest)
    then rest
    else elim (get s.agent_id agents) [ none ↦ rest | some _ ↦ s.agent_id ∷ rest ]

-- `none` is the empty text, where there is no source.
unfoldable pub select_shard_source : List ErasureShard → Table Agent → String → Option String
select_shard_source xs agents digest = elim (sort_by lts (shard_sources xs agents digest)) [
  | [] ↦ none
  | id ∷ _ ↦ some id
]

-- The greatest score of the unused identifiers, the first of these where scores are equal. An empty
-- identifier never wins over a later one, as `best == ""` holds of it.
abbrev pub better : (String → ℕ) → String → String → String
better score best id = if eqs best "" || ltb (score best) (score id) then id else best

abbrev pub best_from : (String → ℕ) → Keys → String → List String → String
best_from score used best [] = best
best_from score used best (id ∷ ids) =
    let step = if has_key id used then best else better score best id in
    best_from score used step ids

abbrev pub best_of : (String → ℕ) → Keys → List String → String
best_of score used ids = best_from score used "" ids

-- The keys of a map.
abbrev pub keys_of : {V : Type 0} → Table V → List String
keys_of [] = []
keys_of ((k, v) ∷ t) = k ∷ keys_of t

-- xs[n], of a list that is long enough.
abbrev pub nth : ℕ → List String → String
nth n [] = ""
nth zero (x ∷ xs) = x
nth (suc n) (x ∷ xs) = nth n xs

-- "__agent__:" + id
abbrev pub own_domain : String → String
own_domain id = append "__agent__:" id

module _ (p : Platform) (domain_key : String) where
  -- The domain of an agent; one without a domain has its own.
  abbrev pub domain_or_own : String → Agent → String
  domain_or_own id a =
      let d = agent_failure_domain p a domain_key in if eqs d "" then own_domain id else d

  abbrev pub by_domain : Table Agent → Table (List String)
  by_domain [] = []
  by_domain ((id, a) ∷ t) =
      let rest = by_domain t in let d = domain_or_own id a in put d (id ∷ list_at d rest) rest

-- A placement, copy after copy: `score` rates an agent for a copy, `group` is the list of agents of
-- the domain whose turn it is, and a domain without an unused agent gives its turn to all.
module _ (score : ℕ → String → ℕ) (group : ℕ → List String) (everyone : List String) where
  abbrev pub choice : ℕ → Keys → String
  choice copy used =
      let best = best_of (score copy) used (group copy) in
      if eqs best "" then best_of (score copy) used everyone else best

  -- The loop stops when enough copies are placed, or no agent is left.
  unfoldable pub place : ℕ → ℕ → Keys → List String
  place zero copy used = []
  place (suc missing) copy used =
      let best = choice copy used in
      let rest = place missing (suc copy) (add_key best used) in
      if eqs best "" then [] else best ∷ rest

-- The agents of the domain whose turn it is, the domains taken in order from `index` on. `index` is
-- an index of a loop from 0, so a natural number.
abbrev pub turn : Platform → String → ℕ → Table Agent → ℕ → List String
turn p domain_key index agents copy =
    let groups = by_domain p domain_key agents in
    let domains = sort_by lts (keys_of groups) in
    sort_by lts (list_at (nth ((index + copy) % length domains) domains) groups)

unfoldable pub desired_shard_agents : Platform → String → ℕ → ℤ → Table Agent → String → List String
unfolding place
desired_shard_agents p object index copies agents domain_key =
    if lti copies (pos 1) || length agents == 0
    then []
    else place (p.rendezvous_score object index) (turn p domain_key index agents) (keys_of agents)
        (min (pos_part copies) (length agents)) 0 []
