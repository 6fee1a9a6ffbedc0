-- ===== src/ControlPlane/Store/ErasureSets/Shards.antt =====
-- The copies of the shards of an object: one for each index and agent, recorded and deleted.
use repo_ark.Prelude.{
  String, ◌≡◌, refl, sym, subst, ◌∙◌, Bool, true, false, not, ◌||◌, List, [], ◌∷◌, inl, inr, arith,
  any, In, In-select_of, select, Bool-cases,
}
use repo_ark.Prelude.Int.{ℤ, eqi_eq}
use repo_ark.Prelude.Text.{eqs, eq_iff}
use repo_ark.Prelude.Table.{list_at, list_at-put, list_at-put_self}
use repo_ark.Prelude.Clock.{Time}
use repo_ark.ControlPlane.Model.{ErasureShard}
use repo_ark.ControlPlane.Store.{MemoryStore}
use repo_ark.ControlPlane.Store.ErasureSets.{
  is_copy, put_shard, record_erasure_shard, delete_erasure_shard, list_erasure_shards,
}

-- No index and agent name two copies.
abbrev pub IsOneCopy : List ErasureShard → Type 0
IsOneCopy [] = Unit
IsOneCopy (x ∷ xs) = (any (is_copy x.shard_index x.agent_id) xs ≡ false) × IsOneCopy xs

is_copy-put_shard :
    (sh : ErasureShard) (index : ℤ) (agent : String) (xs : List ErasureShard)
    → is_copy index agent sh ≡ false
    → any (is_copy index agent) xs ≡ false
    → any (is_copy index agent) (put_shard sh xs) ≡ false
unfolding put_shard
is_copy-put_shard sh index agent [] e h = ground arith
is_copy-put_shard sh index agent (x ∷ xs) e h =
    ground (arith, is_copy-put_shard sh index agent xs e)

is_copy_sym :
    (x y : ErasureShard) → is_copy x.shard_index x.agent_id y ≡ is_copy y.shard_index y.agent_id x
is_copy_sym x y = ground (arith, eq_iff x.agent_id y.agent_id, eq_iff y.agent_id x.agent_id)

-- Two copies of one name hide the same others.
is_copy_same :
    (x y : ErasureShard) (xs : List ErasureShard)
    → is_copy y.shard_index y.agent_id x ≡ true
    → any (is_copy x.shard_index x.agent_id) xs ≡ false
    → any (is_copy y.shard_index y.agent_id) xs ≡ false
is_copy_same x y xs e h =
    subst (λ i. any (is_copy i y.agent_id) xs ≡ false)
      (eqi_eq x.shard_index y.shard_index (ground arith))
      (subst (λ a. any (is_copy x.shard_index a) xs ≡ false)
        ((eq_iff x.agent_id y.agent_id).0 (ground arith)) h)

put_shard-IsOneCopy :
    (sh : ErasureShard) (xs : List ErasureShard) → IsOneCopy xs → IsOneCopy (put_shard sh xs)
unfolding put_shard
put_shard-IsOneCopy sh [] h = (refl, tt)
put_shard-IsOneCopy sh (x ∷ xs) h = elim (Bool-cases (is_copy sh.shard_index sh.agent_id x)) [
  | inl e ↦ rw e (is_copy_same x sh xs e h.0, h.1)
  | inr e ↦ rw e (
    is_copy-put_shard sh x.shard_index x.agent_id xs (is_copy_sym x sh ∙ e) h.0,
    put_shard-IsOneCopy sh xs h.1,
  )
]

any-select :
    (p : ErasureShard → Bool) (xs : List ErasureShard) → any p (select (λ x. not (p x)) xs) ≡ false
any-select p [] = refl
any-select p (x ∷ xs) = ground (arith, any-select p xs)

any-select_le :
    (p q : ErasureShard → Bool) (xs : List ErasureShard)
    → any p xs ≡ false
    → any p (select q xs) ≡ false
any-select_le p q [] h = refl
any-select_le p q (x ∷ xs) h = ground (arith, any-select_le p q xs)

select-IsOneCopy :
    (q : ErasureShard → Bool) (xs : List ErasureShard) → IsOneCopy xs → IsOneCopy (select q xs)
select-IsOneCopy q [] h = tt
select-IsOneCopy q (x ∷ xs) h =
    ground (arith, select-IsOneCopy q xs, any-select_le (is_copy x.shard_index x.agent_id) q xs)

module _ (m : MemoryStore) (one : (d : String) → IsOneCopy (list_erasure_shards d m)) where
  -- Where each object has at most one copy for each shard index and agent, it is so after
  -- RecordErasureShard too.
  pub record_shard-IsOneCopy :
      (now : Time) (sh : ErasureShard) (d : String)
      → IsOneCopy (list_erasure_shards d (record_erasure_shard now sh m).1)
  unfolding record_erasure_shard list_erasure_shards
  record_shard-IsOneCopy now sh d =
      let k = sh.object_sha256 in
      let xs = put_shard (record sh { updated_at = now }) (list_at k m.erasure_shards) in
      elim (Bool-cases (eqs k "" || eqs sh.shard_sha256 "" || eqs sh.agent_id "")) [
        | inl e ↦ rw e (one d)
        | inr e ↦ rw e (
            subst IsOneCopy (sym (list_at-put k d xs m.erasure_shards))
              (elim (Bool-cases (eqs k d)) [
                | inl q ↦ rw q (put_shard-IsOneCopy (record sh { updated_at = now }) _ (one k))
                | inr q ↦ rw q (one d)
              ]))
      ]

  -- And after DeleteErasureShard.
  pub delete_shard-IsOneCopy :
      (digest : String) (index : ℤ) (agent : String) (d : String)
      → IsOneCopy (list_erasure_shards d (delete_erasure_shard digest index agent m))
  unfolding delete_erasure_shard list_erasure_shards
  delete_shard-IsOneCopy digest index agent d =
      let keep = λ (x : ErasureShard). not (is_copy index agent x) in
      let xs = list_at digest m.erasure_shards in
      subst IsOneCopy (sym (list_at-put digest d (select keep xs) m.erasure_shards))
        (elim (Bool-cases (eqs digest d)) [
          | inl q ↦ rw q (select-IsOneCopy keep xs (one digest))
          | inr q ↦ rw q (one d)
        ])

-- After DeleteErasureShard no copy of that index is on that agent, while every copy of another index
-- or agent is still listed.
pub delete_shard_cases :
    (digest : String) (index : ℤ) (agent : String) (m : MemoryStore)
    → let old = list_erasure_shards digest m in
      let new = list_erasure_shards digest (delete_erasure_shard digest index agent m) in
      (any (is_copy index agent) new ≡ false)
      × ((x : ErasureShard) → is_copy index agent x ≡ false → In x old → In x new)
unfolding delete_erasure_shard list_erasure_shards
delete_shard_cases digest index agent m =
    let xs = list_at digest m.erasure_shards in
    let kept = select (λ x. not (is_copy index agent x)) xs in
    let self = sym (list_at-put_self digest kept m.erasure_shards) in
    (
      subst (λ ys. any (is_copy index agent) ys ≡ false) self (any-select (is_copy index agent) xs),
      λ x other here.
          subst (In x) self
            (In-select_of (λ y. not (is_copy index agent y)) xs x here (rw other refl)),
    )
