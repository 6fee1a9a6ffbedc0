-- ===== src/ControlPlane/Planner/Held.antt =====
-- What ReplicationReconciler.Reconcile of internal/controlplane/replication.go knows of a generation, in
-- terms of its replicas: which agents hold a copy that counts, and a healthy one.
use repo_ark.Prelude.{
  String, ◌≡◌, refl, ◌∙◌, ap, Bool, true, false, not, ◌&&◌, ◌||◌, none, some, List, [], ◌∷◌, arith,
  Option-cases, inl, inr, if◌then◌else◌,
}
use repo_ark.Prelude.Text.{eqs}
use repo_ark.Prelude.Table.{Keys, get, add_key}
use repo_ark.ControlPlane.Model.{GenerationReplica, is_replica_ready}
use repo_ark.ControlPlane.Config.{ReplicationConfig, StorageDataConfig}
use repo_ark.ControlPlane.Platform.{Platform}
use repo_ark.ControlPlane.Agents.{agent_counts_durable, agent_failure_domain}
use repo_ark.ControlPlane.Planner.Survey.{Roster}
use repo_ark.ControlPlane.Planner.{Holdings, hold, holdings}

-- The agents of the replicas that pass a test, each once.
abbrev pub holders : (GenerationReplica → Bool) → List GenerationReplica → Keys → Keys
holders f [] ks = ks
holders f (r ∷ rest) ks = holders f rest (if f r then add_key r.agent_id ks else ks)

module _ (p : Platform) (cfg : ReplicationConfig) (storage : StorageDataConfig)
    (roster : Roster) where
  -- A ready replica on an agent that is considered, and on a durable one where others are evacuated.
  abbrev pub is_counted_copy : GenerationReplica → Bool
  is_counted_copy r = is_replica_ready r.state && (elim (get r.agent_id roster.placement) [
    | none ↦ false
    | some a ↦ not storage.evacuate_degraded || agent_counts_durable a storage
  ])

  -- A ready replica on an agent that is considered and can take copies.
  abbrev pub is_healthy_copy : GenerationReplica → Bool
  is_healthy_copy r =
      is_replica_ready r.state
      && ((elim (get r.agent_id roster.placement) [ none ↦ false | some _ ↦ true ])
          && (elim (get r.agent_id roster.target_eligible) [ none ↦ false | some _ ↦ true ]))

  -- The failure domain of the agent that can take copies.
  abbrev pub domain_at : String → String
  domain_at id = elim (get id roster.target_eligible) [
    | none ↦ ""
    | some b ↦ agent_failure_domain p b cfg.failure_domain_label
  ]

  -- The failure domains of the healthy replicas, each once.
  abbrev pub held_domains : List GenerationReplica → Keys → Keys
  held_domains [] ks = ks
  held_domains (r ∷ rest) ks =
      let d = domain_at r.agent_id in
      held_domains rest (if is_healthy_copy r && not (eqs d "") then add_key d ks else ks)

  pub record Holds (rs : List GenerationReplica) (h out : Holdings) : Type 0 where
    pub ready : out.ready ≡ holders is_counted_copy rs h.ready
    pub healthy : out.healthy_ready ≡ holders is_healthy_copy rs h.healthy_ready
    pub domains : out.healthy_domains ≡ held_domains rs h.healthy_domains

  hold-Holds :
      (r : GenerationReplica) (h : Holdings) → Holds (r ∷ []) h (hold p cfg storage roster r h)
  hold-Holds r h = elim (Option-cases (get r.agent_id roster.placement)) [
    | inl e ↦ rw e record { ready = ground arith; healthy = ground arith; domains = ground arith }
    | inr (a, e) ↦ elim (Option-cases (get r.agent_id roster.target_eligible)) [
      | inl f ↦
          rw (e, f) record { ready = ground arith; healthy = ground arith; domains = ground arith }
      | inr (b, f) ↦
          rw (e, f) record { ready = ground arith; healthy = ground arith; domains = ground arith }
    ]
  ]

  pub holdings-Holds :
      (rs : List GenerationReplica) (h : Holdings) → Holds rs h (holdings p cfg storage roster rs h)
  unfolding holdings
  holdings-Holds [] h = record { ready = refl; healthy = refl; domains = refl }
  holdings-Holds (r ∷ rs) h =
      let one = hold-Holds r h in
      let later = holdings-Holds rs (hold p cfg storage roster r h) in
      record {
        ready = later.ready ∙ ap (holders is_counted_copy rs) one.ready;
        healthy = later.healthy ∙ ap (holders is_healthy_copy rs) one.healthy;
        domains = later.domains ∙ ap (held_domains rs) one.domains;
      }
