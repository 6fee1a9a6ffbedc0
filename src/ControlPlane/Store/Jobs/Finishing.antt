-- ===== src/ControlPlane/Store/Jobs/Finishing.antt =====
-- Complete and Fail: only the holder of the lease reports a result, and a restore that needs an
-- approval uses it up.
use repo_ark.Prelude.{
  String, ◌≡◌, refl, sym, ap, subst, ◌∙◌, ◌⊎◌, inl, inr, true, false, ◌&&◌, Option, some, In,
  if◌then◌else◌,
}
use mathlib.Core.Option.{some-injective}
use mathlib.Core.Bool.{false≢true}
use repo_ark.Prelude.Int.{ℤ}
use repo_ark.Prelude.Text.{eqs, eq_iff}
use repo_ark.Prelude.Table.{get, get-put}
use repo_ark.Prelude.Clock.{Time, Duration}
use repo_ark.ControlPlane.Model.{
  Job, JobStatus, RestoreApproval, ApprovalStatus, is_job_running, is_approval_scheduled,
}
use repo_ark.ControlPlane.Store.{
  MemoryStore, Error, Result, Outcome, ok, err, approval_not_scheduled, job_not_leased,
}
use repo_ark.ControlPlane.Store.Jobs.{
  approval_of, succeeded_job, executed_approval, complete, grant, lease,
}
use repo_ark.ControlPlane.Store.Jobs.Leasing.{IsKeyed, lease_hands_out}
use repo_ark.ControlPlane.Store.Jobs.Eligible.{is_running}
use repo_ark.ControlPlane.Store.Jobs.Named.{Names, named_by, approval_named}
use repo_ark.ControlPlane.Store.Jobs.Completion.{Settled, Completed, complete_inversion}

is_scheduled : (s : ApprovalStatus) → is_approval_scheduled s ≡ true → s ≡ ApprovalStatus.scheduled
is_scheduled ApprovalStatus.scheduled h = refl
is_scheduled _ h = cc

-- The caller holds the lease of the running job j.
abbrev pub HoldsLease : String → String → MemoryStore → Job → Type 0
HoldsLease id owner m j =
    (get id m.jobs ≡ some j) × (j.status ≡ JobStatus.running) × (j.lease_owner ≡ owner)

-- The approval waits for its restore.
abbrev pub Awaits : MemoryStore → String → RestoreApproval → Type 0
Awaits m aid a = (get aid m.approvals ≡ some a) × (a.status ≡ ApprovalStatus.scheduled)

module _ (approval_id : String → Option String) where
  -- Right after Lease handed a job of a table keyed by IDs to one worker, Complete of it by a
  -- worker of another name gets an error, and nothing changes.
  pub complete_fenced :
      (now later : Time) (slow owner : String) (limit : ℤ) (d : Duration) (m : MemoryStore)
      (j' : Job)
      → IsKeyed m.jobs
      → In j' (lease now owner limit d m).0
      → eqs owner slow ≡ false
      → let m' = (lease now owner limit d m).1 in
        ((e : Error) × ((complete approval_id later j'.id slow m').0 ≡ err e))
        × ((complete approval_id later j'.id slow m').1 ≡ m')
  unfolding grant
  complete_fenced now later slow owner limit d m j' keyed here other =
      let m' = (lease now owner limit d m).1 in
      let (j, stored, fit, is_grant, after) = lease_hands_out now owner limit d m keyed j' here in
      let id_same = ap (λ (x : Job). x.id) is_grant in
      elim (complete_inversion approval_id later j'.id slow m') [
        | inl (e, failed, same, _) ↦ ((e, failed), same)
        | inr (x, done, c) ↦
            let at_id = subst (λ k. get k m'.jobs ≡ some j') (sym id_same) after in
            let same_job = some-injective x j' (sym c.stored ∙ at_id) in
            let owner_same = ap (λ (y : Job). y.lease_owner) (same_job ∙ is_grant) in
            absurd (false≢true (sym other ∙ subst (λ o. eqs o slow ≡ true) owner_same c.owned))
      ]

  -- What a call of Complete that returns without an error has done.
  pub record Succeeded (now : Time) (id owner : String) (m m' : MemoryStore) (j : Job)
      : Type 0 where
    pub held : HoldsLease id owner m j
    pub jobs_after :
        (k : String)
        → get k m'.jobs ≡ (
            if eqs id k
            then some (record j {
              status = JobStatus.succeeded;
              lease_owner = "";
              lease_until = 0;
              updated_at = now;
            })
            else get k m.jobs)
    pub no_approval : ((aid : String) → ¬ Names approval_id j aid) → m'.approvals ≡ m.approvals
    pub approval :
        (aid : String)
        → Names approval_id j aid
        → (a : RestoreApproval) × Awaits m aid a
          × ((k : String)
              → get k m'.approvals ≡ (
                  if eqs aid k
                  then some (record a { status = ApprovalStatus.executed; updated_at = now })
                  else get k m.approvals))
    pub rest : m' ≡ record m { jobs = m'.jobs; approvals = m'.approvals }

  abbrev pub CompleteResult : Time → String → String → MemoryStore → Outcome (Unit {0}) → Type 0
  CompleteResult now id owner m r =
      ((r.0 ≡ err job_not_leased) × (r.1 ≡ m) × ((j : Job) → ¬ HoldsLease id owner m j))
      ⊎ (((r.0 ≡ err approval_not_scheduled)
            × (r.1 ≡ m)
            × ((j : Job) × (aid : String) × HoldsLease id owner m j
                × Names approval_id j aid
                × ((a : RestoreApproval) → ¬ Awaits m aid a)))
          ⊎ ((r.0 ≡ ok tt) × ((j : Job) × Succeeded now id owner m r.1 j)))

  module _ (now : Time) (id owner : String) (m m' : MemoryStore) (j : Job)
      (c : Completed approval_id now id owner m m' j) where
    held_by : HoldsLease id owner m j
    held_by = (c.stored, is_running j.status c.running, (eq_iff j.lease_owner owner).0 c.owned)

    untouched :
        Settled approval_id now j m m'
        → ((aid : String) → ¬ Names approval_id j aid)
        → m'.approvals ≡ m.approvals
    untouched (inl (no_name, same)) h = same
    untouched (inr (b, a, names, found, waiting, after)) h =
        absurd (h b (named_by approval_id j b names))

    used_up :
        Settled approval_id now j m m'
        → (aid : String) → approval_of approval_id j ≡ some aid
        → (a : RestoreApproval) × Awaits m aid a
          × ((k : String)
              → get k m'.approvals
                ≡ (if eqs aid k then some (executed_approval now a) else get k m.approvals))
    used_up (inl (no_name, same)) aid named = cc
    used_up (inr (b, a, names, found, waiting, after)) aid named =
        let b_is = some-injective b aid (sym names ∙ named) in
        (
          a,
          (subst (λ k. get k m.approvals ≡ some a) b_is found, is_scheduled a.status waiting),
          λ k.
              ap (get k) after
              ∙ get-put b k (executed_approval now a) m.approvals
              ∙ ap (λ x. if eqs x k then some (executed_approval now a) else get k m.approvals)
                  b_is,
        )

    completed-Succeeded : Succeeded now id owner m m' j
    completed-Succeeded = record {
      held = held_by;
      jobs_after = λ k. ap (get k) c.jobs_after ∙ get-put id k (succeeded_job now j) m.jobs;
      no_approval = untouched c.settled;
      approval = λ aid names. used_up c.settled aid (approval_named approval_id j aid names);
      rest = c.rest;
    }

  nobody_held :
      (id owner : String) (m : MemoryStore) (j : Job)
      → (get id m.jobs ≡ some j → (is_job_running j.status && eqs j.lease_owner owner) ≡ false)
      → ¬ HoldsLease id owner m j
  nobody_held id owner m j nobody (stored, running, owned) =
      let r : is_job_running j.status ≡ true = ap is_job_running running in
      let o = (eq_iff j.lease_owner owner).1 owned in
      absurd (false≢true (sym (rw (r, o) at nobody stored)))

  none_awaits :
      (m : MemoryStore) (aid : String) (a : RestoreApproval)
      → (get aid m.approvals ≡ some a → is_approval_scheduled a.status ≡ false)
      → ¬ Awaits m aid a
  none_awaits m aid a unready (found, waiting) =
      false≢true (sym (unready found) ∙ ap is_approval_scheduled waiting)

  -- Complete fails with one error where the caller does not hold the lease of the running job, and
  -- with another where the job is a restore that names an approval which is not scheduled; in both
  -- cases nothing changes. Else the job has succeeded and lost its lease, the approval that it
  -- names is executed, both are updated now, and everything else is as it was.
  pub complete_cases :
      (now : Time) (id owner : String) (m : MemoryStore)
      → CompleteResult now id owner m (complete approval_id now id owner m)
  complete_cases now id owner m = elim (complete_inversion approval_id now id owner m) [
    | inl (e, failed, same, inl (is_e, nobody)) ↦
        inl (failed ∙ ap err is_e, same, λ j. nobody_held id owner m j (nobody j))
    | inl (e, failed, same, inr (j, aid, is_e, stored, running, owned, names, unready)) ↦ inr (
        inl (
          failed ∙ ap err is_e,
          same,
          (
            j,
            aid,
            (stored, is_running j.status running, (eq_iff j.lease_owner owner).0 owned),
            named_by approval_id j aid names,
            λ a. none_awaits m aid a (unready a),
          ),
        ))
    | inr (j, done, c) ↦ inr (
        inr (
          done,
          (j, completed-Succeeded now id owner m (complete approval_id now id owner m).1 j c),
        ))
  ]

  -- An approval is used once: right after a call of Complete returned without an error for a restore
  -- job that names an approval, Complete of any other stored job that names it gets an error and
  -- changes nothing.
  pub approval_used_once :
      (now later : Time) (id id' owner owner' aid : String) (m : MemoryStore) (j j' : Job)
      → (complete approval_id now id owner m).0 ≡ ok tt
      → get id m.jobs ≡ some j
      → Names approval_id j aid
      → get id' m.jobs ≡ some j'
      → eqs id id' ≡ false
      → Names approval_id j' aid
      → let m' = (complete approval_id now id owner m).1 in
        ((e : Error) × ((complete approval_id later id' owner' m').0 ≡ err e))
        × ((complete approval_id later id' owner' m').1 ≡ m')
  approval_used_once now later id id' owner owner' aid m j j' done e names e' apart names' =
      let m' = (complete approval_id now id owner m).1 in
      elim (complete_cases now id owner m) [
        | inl (failed, _, _) ↦ absurd (not_both failed done)
        | inr (inl (failed, _, _)) ↦ absurd (not_both failed done)
        | inr (inr (_, (x, s))) ↦ elim (complete_cases later id' owner' m') [
          | inl (failed, same, _) ↦ ((job_not_leased, failed), same)
          | inr (inl (failed, same, _)) ↦ ((approval_not_scheduled, failed), same)
          | inr (inr (_, (y, s'))) ↦
              let x_is : x ≡ j = some-injective x j (sym s.held.0 ∙ e) in
              let still : get id' m'.jobs ≡ some j' = s.jobs_after id' ∙ rw apart e' in
              let y_is : y ≡ j' = some-injective y j' (sym s'.held.0 ∙ still) in
              let (a, _, after) =
                s.approval aid (subst (λ (z : Job). Names approval_id z aid) (sym x_is) names) in
              let (b, (found, waiting), _) =
                s'.approval aid (subst (λ (z : Job). Names approval_id z aid) (sym y_is) names') in
              let used =
                some-injective b (executed_approval now a)
                  (sym found ∙ after aid ∙ rw ((eq_iff aid aid).1 refl) refl) in
              absurd (not_scheduled (sym waiting ∙ ap (λ (z : RestoreApproval). z.status) used))
        ]
      ]
    where
      not_both : {r : Result (Unit {0})} {e : Error} → r ≡ err e → r ≡ ok tt → ⊥
      not_both p q = cc

      not_scheduled : ApprovalStatus.scheduled ≡ ApprovalStatus.executed → ⊥
      not_scheduled q = cc
