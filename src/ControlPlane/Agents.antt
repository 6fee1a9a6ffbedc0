-- ===== src/ControlPlane/Agents.antt =====
-- The tests on agents of internal/controlplane/replication.go, and the shard pool of
-- erasure_distributed.go: who may be read from, written to, and counted on.
pub mod Capacity
pub mod Latest
use repo_ark.Prelude.{
  ℕ, ◌*◌, String, Bool, true, false, not, ◌&&◌, ◌||◌, Option, none, some, List, [], ◌∷◌, any,
  if◌then◌else◌,
}
use repo_ark.Prelude.Int.{ℤ, pos, sub64, lti, lei}
use repo_ark.Prelude.Text.{eqs, trim_space, equal_fold}
use repo_ark.Prelude.Table.{Table, get}
use repo_ark.Prelude.Clock.{Time, Duration, time_sub, minute, positive_or}
use repo_ark.ControlPlane.Model.{Agent, Health, local_worker_affinity}
use repo_ark.ControlPlane.Config.{StorageDataConfig}
use repo_ark.ControlPlane.Platform.{Platform, Label, number, text, another}

abbrev pub is_unhealthy : Health → Bool
is_unhealthy Health.unhealthy = true
is_unhealthy _ = false

abbrev pub is_degraded : Health → Bool
is_degraded Health.degraded = true
is_degraded _ = false

-- strings.TrimSpace(a.StorageHealth) == ""
abbrev pub is_blank : Health → Bool
is_blank Health.unset = true
is_blank (Health.other s) = eqs (trim_space s) ""
is_blank _ = false

unfoldable pub agent_readable : Agent → StorageDataConfig → Bool
agent_readable a cfg = if not cfg.enabled then true else not (is_unhealthy a.storage_health)

unfoldable pub agent_accepts_placement : Agent → StorageDataConfig → Bool
agent_accepts_placement a cfg =
    if not cfg.enabled
    then true
    else if is_unhealthy a.storage_health
        || is_degraded a.storage_health
        || is_blank a.storage_health
    then false
    else if lti (pos 0) cfg.min_free_bytes
        && lti (pos 0) a.storage_free_bytes
        && lti a.storage_free_bytes cfg.min_free_bytes
    then false
    else if lti (pos 0) cfg.min_free_percent
        && lti (pos 0) a.storage_total_bytes
        && lti a.storage_free_percent cfg.min_free_percent
    then false
    else true

unfoldable pub agent_counts_durable : Agent → StorageDataConfig → Bool
agent_counts_durable a cfg =
    if not cfg.enabled
    then true
    else if is_unhealthy a.storage_health || is_blank a.storage_health
    then false
    else if cfg.evacuate_degraded && is_degraded a.storage_health
    then false
    else true

unfoldable pub agent_has_capacity_for : Agent → StorageDataConfig → ℤ → Bool
agent_has_capacity_for a cfg object_bytes =
    let reserve = if lti cfg.min_free_bytes (pos 0) then pos 0 else cfg.min_free_bytes in
    if not (agent_accepts_placement a cfg)
    then false
    else if lei object_bytes (pos 0) || lei a.storage_free_bytes (pos 0)
    then true
    else lei reserve (sub64 a.storage_free_bytes object_bytes)

abbrev pub matches : String → List String → Bool
matches id xs = any (λ x. equal_fold (trim_space x) id) xs

unfoldable pub agent_allowed : String → List String → List String → Bool
agent_allowed id allowed excluded =
    if matches id excluded then false else elim allowed [ [] ↦ true | x ∷ xs ↦ matches id (x ∷ xs) ]

-- if timeout <= 0 { timeout = 2 * time.Minute }
abbrev pub timeout_of : Platform → String → Duration
timeout_of p s = positive_or (p.parse_duration s) (pos (2 * minute))

-- now.Sub(a.LastSeenAt) <= timeout
abbrev pub is_live : Time → Duration → Agent → Bool
is_live now timeout a = lei (time_sub now a.last_seen_at) timeout

module _ (p : Platform) where
  abbrev label_mbps : Label → ℤ
  label_mbps (number n) = n
  label_mbps (text s) = p.scan_int (trim_space s)
  label_mbps (another s) = pos 0

  abbrev lookup_mbps : Option (Table Label) → ℤ
  lookup_mbps none = pos 0
  lookup_mbps (some labels) = elim (get "bandwidth_mbps" labels) [
    | none ↦ pos 0
    | some v ↦ label_mbps v
  ]

  unfoldable pub agent_bandwidth_mbps : Agent → ℤ
  agent_bandwidth_mbps a = lookup_mbps (p.any_labels a.labels_json)

  -- labels[key]; a missing key reads as the empty text.
  abbrev trimmed_label : String → Option (Table String) → String
  trimmed_label key none = ""
  trimmed_label key (some labels) = elim (get key labels) [
    | none ↦ trim_space ""
    | some v ↦ trim_space v
  ]

  unfoldable pub agent_failure_domain : Agent → String → String
  agent_failure_domain a key =
      if eqs (trim_space key) ""
      then ""
      else if eqs a.id local_worker_affinity
      then "__local__"
      else trimmed_label (trim_space key) (p.text_labels a.labels_json)

  abbrev label_text : Label → String
  label_text (number n) = p.print_number n
  label_text (text s) = s
  label_text (another s) = s

  abbrev is_in_pool : String → Option (Table Label) → Bool
  is_in_pool label none = false
  is_in_pool label (some labels) = elim (get label labels) [
    | none ↦ false
    | some v ↦ not (eqs (trim_space (label_text v)) "")
  ]

  unfoldable pub agent_in_shard_pool : Agent → String → Bool
  agent_in_shard_pool a label =
      if eqs (trim_space label) ""
      then true
      else is_in_pool (trim_space label) (p.any_labels a.labels_json)
