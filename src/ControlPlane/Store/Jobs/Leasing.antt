-- ===== src/ControlPlane/Store/Jobs/Leasing.antt =====
-- Lease: who gets a job, and for how long nobody else does.
use repo_ark.Prelude.{
  suc, String, ◌≡◌, refl, sym, ap, subst, ◌∙◌, ◌⊎◌, inl, inr, true, false, Option, none, some, List,
  [], ◌∷◌, arith, length, select, any, any-found, In, In-take, In-select, Bool-cases,
}
use repo_ark.Prelude.Int.{ℤ, pos, add64}
use repo_ark.Prelude.Text.{eqs, eq_iff}
use repo_ark.Prelude.Table.{
  Table, Keyed, get, put, values, update_all, get-put, get-update_all, get_of_In, Keyed-put,
  Keyed-update_all,
}
use repo_ark.Prelude.Sort.{sort_by, In-sort_by}
use repo_ark.Prelude.Clock.{Time, Duration, is_after, time_add}
use repo_ark.ControlPlane.Model.{Job, JobStatus, is_job_running}
use repo_ark.ControlPlane.Store.{MemoryStore}
use repo_ark.ControlPlane.Store.Jobs.Eligible.{CanLease, leasable-CanLease}
use repo_ark.ControlPlane.Store.Jobs.{
  expire_job, leasable, job_less, grant, picked, grant_all, granted, lease,
}

-- The table of jobs is keyed by their IDs.
abbrev pub IsKeyed : Table Job → Type 0
IsKeyed t = Keyed (λ j. j.id) t

module _ (g : Job → Job) where
  grant_all-miss :
      (k : String) (js : List Job) (t : Table Job)
      → any (λ j. eqs j.id k) js ≡ false
      → get k (grant_all g js t) ≡ get k t
  unfolding grant_all
  grant_all-miss k [] t h = refl
  grant_all-miss k (j ∷ js) t h =
      ground (arith, grant_all-miss k js (put j.id (g j) t), get-put j.id k (g j) t)

  grant_all_hit :
      (j : Job) (js : List Job) (t : Table Job)
      → In j js
      → (y : Job) × In y js × (y.id ≡ j.id) × (get j.id (grant_all g js t) ≡ some (g y))
  unfolding grant_all
  grant_all_hit j [] t m = absurd m
  grant_all_hit j (x ∷ js) t (inr m) =
      let (y, here, same, e) = grant_all_hit j js (put x.id (g x) t) m in (y, inr here, same, e)
  grant_all_hit j (x ∷ js) t (inl q) = elim (Bool-cases (any (λ y. eqs y.id j.id) js)) [
    | inl later ↦
        let (z, there, same) = any-found (λ y. eqs y.id j.id) js later in
        let (y, here, same', e) = grant_all_hit z js (put x.id (g x) t) there in
        let z_id = (eq_iff z.id j.id).0 same in
        (
          y,
          inr here,
          same' ∙ z_id,
          subst (λ k. get k (grant_all g js (put x.id (g x) t)) ≡ some (g y)) z_id e,
        )
    | inr none_later ↦ (
      x,
      inl refl,
      ap (λ (y : Job). y.id) (sym q),
      grant_all-miss j.id js (put x.id (g x) t) none_later
          ∙ ground (arith, get-put x.id j.id (g x) t, eq_iff x.id j.id),
    )
  ]

  grant_all_origin :
      (k : String) (js : List Job) (t : Table Job) (j' : Job)
      → get k (grant_all g js t) ≡ some j'
      → ((j : Job) × In j js × (k ≡ j.id) × (j' ≡ g j)) ⊎ (get k t ≡ some j')
  unfolding grant_all
  grant_all_origin k [] t j' e = inr e
  grant_all_origin k (x ∷ js) t j' e = elim (grant_all_origin k js (put x.id (g x) t) j' e) [
    | inl (j, here, at_k, is_g) ↦ inl (j, inr here, at_k, is_g)
    | inr e' ↦ elim (Bool-cases (eqs x.id k)) [
      | inl hit ↦
          inl (x, inl refl, sym ((eq_iff x.id k).0 hit), ground (arith, get-put x.id k (g x) t))
      | inr other ↦ inr (ground (arith, get-put x.id k (g x) t))
    ]
  ]

  pub grant_all-Keyed :
      ((j : Job) → (g j).id ≡ j.id)
      → (js : List Job) (t : Table Job) → IsKeyed t
      → IsKeyed (grant_all g js t)
  unfolding grant_all
  grant_all-Keyed same [] t h = h
  grant_all-Keyed same (j ∷ js) t h =
      grant_all-Keyed same js (put j.id (g j) t)
        (Keyed-put (λ (x : Job). x.id) j.id (g j) t (sym (same j)) h)

  In-granted : (j' : Job) (js : List Job) → In j' (granted g js) → (j : Job) × In j js × (j' ≡ g j)
  unfolding granted
  In-granted j' [] m = absurd m
  In-granted j' (j ∷ js) (inl e) = (j, inl refl, e)
  In-granted j' (j ∷ js) (inr m) = let (x, here, e) = In-granted j' js m in (x, inr here, e)

  pub length-granted : (js : List Job) → length (granted g js) ≡ length js
  unfolding granted
  length-granted [] = refl
  length-granted (j ∷ js) = ap suc (length-granted js)

module _ (now : Time) (owner : String) (limit : ℤ) (jobs : Table Job) where
  -- What is picked is leasable and in the table.
  pub In-picked :
      (j : Job)
      → In j (picked now owner limit jobs)
      → In j (values jobs) × (leasable now owner j ≡ true)
  unfolding picked
  In-picked j m =
      let candidates = select (leasable now owner) (values jobs) in
      In-select (leasable now owner) (values jobs) j
        (In-sort_by job_less candidates j (In-take _ (sort_by job_less candidates) j m))

  module _ (keyed : IsKeyed jobs) where
    get-picked : (j : Job) → In j (picked now owner limit jobs) → get j.id jobs ≡ some j
    get-picked j m = get_of_In (λ (x : Job). x.id) jobs j keyed (In-picked j m).0

    picked_same :
        (x y : Job)
        → In x (picked now owner limit jobs)
        → In y (picked now owner limit jobs)
        → x.id ≡ y.id
        → x ≡ y
    picked_same x y mx my e =
        ground (arith, get-picked x mx, get-picked y my, ap (λ k. get k jobs) e)

    not_picked :
        (k : String) (j : Job)
        → get k jobs ≡ some j
        → leasable now owner j ≡ false
        → any (λ x. eqs x.id k) (picked now owner limit jobs) ≡ false
    not_picked k j e h = elim (Bool-cases (any (λ x. eqs x.id k) (picked now owner limit jobs))) [
      | inr no_hit ↦ no_hit
      | inl hit ↦
          let (x, here, same) = any-found (λ x. eqs x.id k) (picked now owner limit jobs) hit in
          let at_k =
            subst (λ s. get s jobs ≡ some x) ((eq_iff x.id k).0 same) (get-picked x here) in
          ground (arith, In-picked x here)
    ]

module _ (now : Time) (owner : String) (limit : ℤ) (d : Duration) (m : MemoryStore) where
  -- j' is j in the hands of the caller.
  pub record HandedOut (j j' : Job) : Type 0 where
    pub stored : get j.id m.jobs ≡ some j
    pub could : CanLease now owner j
    pub changed : j' ≡ record j {
      status = JobStatus.running;
      attempts = add64 j.attempts (pos 1);
      lease_owner = owner;
      lease_until = time_add now d;
      updated_at = now;
    }
    pub after : get j.id (lease now owner limit d m).1.jobs ≡ some j'

  module _ (keyed : IsKeyed m.jobs) where
    -- In a table keyed by IDs, Lease leaves a job whose lease still runs exactly as it was, whoever
    -- asks for work.
    pub lease_exclusive :
        (id : String) (j : Job)
        → get id m.jobs ≡ some j
        → is_job_running j.status ≡ true
        → is_after j.lease_until now ≡ true
        → get id (lease now owner limit d m).1.jobs ≡ some j
    unfolding lease leasable expire_job
    lease_exclusive id j e running live =
        grant_all-miss (grant now owner d) id (picked now owner limit m.jobs)
          (update_all (expire_job now) m.jobs)
          (not_picked now owner limit m.jobs keyed id j e (ground arith))
        ∙ get-update_all (expire_job now) id m.jobs
        ∙ rw e (ground arith)

    -- Where a job that Lease returns comes from.
    pub lease_hands_out :
        (j' : Job)
        → In j' (lease now owner limit d m).0
        → (j : Job) × (get j.id m.jobs ≡ some j)
          × (leasable now owner j ≡ true)
          × (j' ≡ grant now owner d j)
          × (get j.id (lease now owner limit d m).1.jobs ≡ some j')
    unfolding lease
    lease_hands_out j' here =
        let g = grant now owner d in
        let xs = picked now owner limit m.jobs in
        let (j, there, e) = In-granted g j' xs here in
        let (y, also, same, found) =
          grant_all_hit g j xs (update_all (expire_job now) m.jobs) there in
        let y_is_j = picked_same now owner limit m.jobs keyed y j also there same in
        (
          j,
          get-picked now owner limit m.jobs keyed j there,
          (In-picked now owner limit m.jobs j there).1,
          e,
          found ∙ ap some (ap g y_is_j ∙ sym e),
        )

    -- In a table keyed by IDs, every job that Lease returns could be leased: it had attempts left,
    -- was due, was meant for the caller or for anyone, and was queued or ran under a lease that
    -- was over. It is now running under the caller until now + d with one attempt more, updated
    -- now and otherwise as it was, and stands so in the store.
    pub lease_grants : (j' : Job) → In j' (lease now owner limit d m).0 → (j : Job) × HandedOut j j'
    unfolding grant
    lease_grants j' here =
        let (j, stored, fit, is_grant, after) = lease_hands_out j' here in
        (
          j,
          record {
            stored = stored;
            could = leasable-CanLease now owner j fit;
            changed = is_grant;
            after = after;
          },
        )

    -- In a table keyed by IDs, every job after Lease is one that was there before, either granted
    -- to the caller or passed through the expiry of final attempts.
    pub lease_origin :
        (k : String) (j' : Job)
        → get k (lease now owner limit d m).1.jobs ≡ some j'
        → (j : Job) × (get k m.jobs ≡ some j)
          × ((j' ≡ expire_job now j) ⊎ ((leasable now owner j ≡ true) × (j' ≡ grant now owner d j)))
    unfolding lease
    lease_origin k j' e =
        elim (grant_all_origin (grant now owner d) k (picked now owner limit m.jobs)
          (update_all (expire_job now) m.jobs) j' e) [
            | inl (j, here, at_k, is_g) ↦ (
              j,
              subst (λ s. get s m.jobs ≡ some j) (sym at_k)
                  (get-picked now owner limit m.jobs keyed j here),
              inr ((In-picked now owner limit m.jobs j here).1, is_g),
            )
            | inr e' ↦
                expired_origin (get k m.jobs) refl
                  (sym (get-update_all (expire_job now) k m.jobs) ∙ e')
          ]
      where
        expired_origin :
            (o : Option Job)
            → get k m.jobs ≡ o
            → (elim o [ none ↦ none | some v ↦ some (expire_job now v) ]) ≡ some j'
            → (j : Job) × (get k m.jobs ≡ some j)
              × ((j' ≡ expire_job now j)
                  ⊎ ((leasable now owner j ≡ true) × (j' ≡ grant now owner d j)))
        expired_origin none p q = cc
        expired_origin (some j) p q = (j, p, inl (ground arith))

    pub lease-IsKeyed : IsKeyed (lease now owner limit d m).1.jobs
    unfolding lease grant expire_job
    lease-IsKeyed =
        grant_all-Keyed (grant now owner d) (λ j. refl) (picked now owner limit m.jobs)
          (update_all (expire_job now) m.jobs)
          (Keyed-update_all (λ (x : Job). x.id) (expire_job now) (λ j. ground arith) m.jobs keyed)
