-- ===== src/ControlPlane/Agents/Capacity.antt =====
-- The tests on agents as an order: to write to an agent asks more than to count on it, and that more
-- than to read from it. Space: what a placement leaves free.
use repo_ark.Prelude.{String, ◌≡◌, refl, true, false, List, arith, In, any-In}
use repo_ark.Prelude.Int.{ℤ, pos, ◌-ℤ◌, ◌≤ℤ◌, ◌<ℤ◌, IsInt64, wrap64-IsInt64, sub64}
use repo_ark.Prelude.Text.{trim_space, equal_fold}
use repo_ark.ControlPlane.Model.{Agent}
use repo_ark.ControlPlane.Config.{StorageDataConfig}
use repo_ark.ControlPlane.Agents.{
  agent_readable, agent_accepts_placement, agent_counts_durable, agent_has_capacity_for,
  agent_allowed,
}

-- An agent that accepts a placement counts as durable, and one that counts as durable is readable.
pub placement_order :
    (a : Agent) (cfg : StorageDataConfig)
    → (agent_accepts_placement a cfg ≡ true → agent_counts_durable a cfg ≡ true)
      × (agent_counts_durable a cfg ≡ true → agent_readable a cfg ≡ true)
unfolding agent_accepts_placement agent_counts_durable agent_readable
placement_order a cfg = (λ h. ground arith, λ h. ground arith)

-- An agent with room for an object of known size, whose free space is known and in range, accepts
-- placements, and keeps the configured reserve free after the object is stored.
pub capacity_keeps_reserve :
    (a : Agent) (cfg : StorageDataConfig) (bytes : ℤ)
    → IsInt64 bytes
    → IsInt64 a.storage_free_bytes
    → pos 0 <ℤ bytes
    → pos 0 <ℤ a.storage_free_bytes
    → agent_has_capacity_for a cfg bytes ≡ true
    → (agent_accepts_placement a cfg ≡ true)
      × (bytes ≤ℤ a.storage_free_bytes)
      × (cfg.min_free_bytes ≤ℤ a.storage_free_bytes -ℤ bytes)
unfolding agent_has_capacity_for sub64
capacity_keeps_reserve a cfg bytes hb hf pb pf h =
    ground (arith, wrap64-IsInt64 (a.storage_free_bytes -ℤ bytes))

-- An excluded agent is never allowed, whatever is listed as allowed; where nothing is, all the
-- others are.
pub excluded_not_allowed :
    (id name : String) (allowed excluded : List String)
    → In name excluded
    → equal_fold (trim_space name) id ≡ true
    → agent_allowed id allowed excluded ≡ false
unfolding agent_allowed
excluded_not_allowed id name allowed excluded here same =
    rw (any-In (λ x. equal_fold (trim_space x) id) excluded name here same) refl
