-- ===== src/Audit/Tamper.antt =====
-- What the head of a ledger of internal/audit/ledger.go, and the checkpoint of checkpoint.go, say of
-- the records before it.
use repo_ark.Prelude.{
  String, ◌≡◌, refl, sym, ◌∙◌, ap, true, false, Option, none, some, List, [], ◌∷◌, arith,
  Option-cases, Bool-cases, inl, inr, ◌⊎◌, ◌≢◌, subst, map,
}
use repo_ark.Prelude.Text.{
  eqs, eq_iff, equal_fold, equal_fold_refl, equal_fold_sym, equal_fold_trans, equal_fold_empty,
}
use repo_ark.Audit.Lines.{lines}
use repo_ark.Audit.Ledger.{
  Record, Encoding, Cursor, Scan, scan_line, scan_lines, scan_verified, scan_head, no_visit,
  start_cursor, zero_record, unsigned, Result-cases,
}
use repo_ark.Audit.Operations.{Checkpoint, Signing, Files, verify_checkpoint, matches_head}
use repo_ark.Audit.Chain.{
  advance, Continues, scan_line_cases, scan_lines_done, scan_lines_step, scan_lines_stop,
}
use repo_ark.Audit.Visits.{scan_verified-Agree}

module _ {F : Type 0} (e : Encoding F) where
  abbrev pub collect : Record F → List (Record F) → List (Record F)
  collect r rs = r ∷ rs

  -- The verified records, the head first.
  abbrev pub newest_first : Option String → List (Record F)
  newest_first ledger = (scan_verified e collect [] ledger).0.seen

  abbrev pub latest : List (Record F) → Record F
  latest [] = zero_record e
  latest (r ∷ rs) = r

  -- The text that a record's hash is the hash of.
  abbrev pub hashed_text : Record F → Option String
  hashed_text r = e.marshal_unsigned (unsigned e r)

  abbrev pub Chained : List (Record F) → Type 0
  Chained [] = Unit
  Chained (r ∷ rs) =
      (r.prev_hash ≡ (latest rs).hash)
      × ((text : String) × (hashed_text r ≡ some text)
          × (equal_fold (e.sha256_hex text) r.hash ≡ true))
      × Chained rs

  abbrev IsChained : Cursor F (List (Record F)) → Type 0
  IsChained c = (c.prev ≡ c.head.hash) × (c.head ≡ latest c.seen) × Chained c.seen

  IsChained-advance :
      (c : Cursor F (List (Record F))) (r : Record F)
      → IsChained c
      → Continues e collect c r
      → IsChained (advance e collect c r)
  IsChained-advance c r (p, q, h) k =
      (refl, refl, (k.linked ∙ p ∙ ap (λ (v : Record F). v.hash) q, k.hashed, h))

  scan_lines-IsChained :
      (c : Cursor F (List (Record F))) (ls : List String)
      → IsChained c
      → IsChained (scan_lines e collect c ls).0
  scan_lines-IsChained c [] h = rw (scan_lines_done e collect c) h
  scan_lines-IsChained c (l ∷ ls) h = elim (Result-cases (scan_line e collect c l)) [
    | inl (y, q) ↦ rw (scan_lines_stop e collect c y l ls q) h
    | inr (x, q) ↦ rw (scan_lines_step e collect c x l ls q) (
        scan_lines-IsChained x ls (elim (scan_line_cases e collect c x l q) [
          | inl p ↦ subst IsChained (sym p) h
          | inr (r, k, p) ↦ subst IsChained (sym p) (IsChained-advance c r h k)
        ]))
  ]

  pub newest_first-Chained :
      (ledger : Option String)
      → ((scan_head e ledger).0.head ≡ latest (newest_first ledger)) × Chained (newest_first ledger)
  unfolding scan_head
  newest_first-Chained ledger =
      let (w, _, p) =
        scan_verified-Agree e collect (no_visit e) (λ v w. Unit {0}) (λ r v w h. tt) [] tt ledger
          tt in
      let (_, q, h) = chained ledger in (ap (λ (s : Scan F (Unit {0})). s.0.head) p ∙ q, h)
    where
      chained : (ledger : Option String) → IsChained (scan_verified e collect [] ledger).0
      chained none = unfold scan_verified in (refl, refl, tt)
      chained (some text) =
          unfold scan_verified in
          scan_lines-IsChained (start_cursor e collect []) (lines text) (refl, refl, tt)

  -- Two texts with the same SHA-256, as the scan compares hashes.
  abbrev pub Collision : Type 0
  Collision =
      (s : String) × (t : String) × (s ≢ t) × (equal_fold (e.sha256_hex s) (e.sha256_hex t) ≡ true)

  -- What encoding/json and crypto/sha256 are documented to do: a text of an unsigned record is
  -- written by records of one previous hash only, and a hash is not the empty text.
  pub record Tracing : Type 0 where
    pub one_parent :
        (r s : Record F) (text : String)
        → hashed_text r ≡ some text
        → hashed_text s ≡ some text
        → r.prev_hash ≡ s.prev_hash
    pub not_empty : (text : String) → eqs (e.sha256_hex text) "" ≡ false

  module _ (d : Tracing) where
    not_empty_hash :
        (r : Record F) (rs : List (Record F)) → Chained (r ∷ rs) → equal_fold r.hash "" ≡ true → ⊥
    not_empty_hash r rs (_, (text, _, f), _) h =
        let q = d.not_empty text in
        let p =
          equal_fold_empty (e.sha256_hex text)
            (equal_fold_trans (e.sha256_hex text) r.hash "" f h) in
        ground arith

    same_history :
        (rs ss : List (Record F))
        → Chained rs
        → Chained ss
        → equal_fold (latest rs).hash (latest ss).hash ≡ true
        → (map hashed_text rs ≡ map hashed_text ss) ⊎ Collision
    same_history [] [] c k h = inl refl
    same_history [] (s ∷ ss) c k h = absurd (not_empty_hash s ss k (equal_fold_sym "" s.hash h))
    same_history (r ∷ rs) [] c k h = absurd (not_empty_hash r rs c h)
    same_history (r ∷ rs) (s ∷ ss) (p, (t, tr, tf), c) (q, (u, us, uf), k) h =
        elim (Bool-cases (eqs t u)) [
          | inl same ↦
              let tu : t ≡ u = (eq_iff t u).0 same in
              let parent = d.one_parent r s u (tr ∙ ap (λ (x : String). some x) tu) us in
              let links : (latest rs).hash ≡ (latest ss).hash = sym p ∙ parent ∙ q in
              let older =
                subst (λ (x : String). equal_fold (latest rs).hash x ≡ true) links
                  (equal_fold_refl (latest rs).hash) in
              elim (same_history rs ss c k older) [
                | inr found ↦ inr found
                | inl rest ↦ inl (ground arith)
              ]
          | inr other ↦ inr (
            t,
            u,
            (λ tu. differ t u tu other),
            equal_fold_trans (e.sha256_hex t) r.hash (e.sha256_hex u) tf (
                equal_fold_trans r.hash s.hash (e.sha256_hex u) h
                  (equal_fold_sym (e.sha256_hex u) s.hash uf)),
          )
        ]
      where
        differ : (t u : String) → t ≡ u → eqs t u ≡ false → ⊥
        differ t u p q = let r = (eq_iff t u).1 p in ground arith

    -- Two ledgers whose verified heads have the same hash hold the same hashed texts, record by
    -- record from the head to the first one, or two different texts with the same SHA-256 are found
    -- among them: with a trusted head hash no record can be changed, inserted, removed or moved.
    pub same_head_same_history :
        (ledger other : Option String)
        → equal_fold (scan_head e ledger).0.head.hash (scan_head e other).0.head.hash ≡ true
        → (map hashed_text (newest_first ledger) ≡ map hashed_text (newest_first other)) ⊎ Collision
    same_head_same_history ledger other h =
        let (p, c) = newest_first-Chained ledger in
        let (q, k) = newest_first-Chained other in
        same_history (newest_first ledger) (newest_first other) c k (rw (p, q) at h)

module _ {F K P : Type 0} (e : Encoding F) (s : Signing K P) where
  -- What an accepted checkpoint says.
  pub record Accepted (trusted : Option P) (files : Files P) : Type 0 where
    pub body : String
    pub stored : files.checkpoint ≡ some body
    pub cp : Checkpoint
    pub decoded : s.unmarshal_checkpoint body ≡ some cp
    pub complete : (scan_head e files.ledger).1 ≡ none
    pub same_seq : (scan_head e files.ledger).0.head.seq ≡ cp.seq
    pub same_hash : equal_fold (scan_head e files.ledger).0.head.hash cp.hash ≡ true

  matches_head-same :
      (trusted : Option P) (head : Record F) (cp : Checkpoint)
      → matches_head e s trusted head cp ≡ none
      → (head.seq ≡ cp.seq) × (equal_fold head.hash cp.hash ≡ true)
  unfolding matches_head
  matches_head-same trusted head cp h = ground arith

  pub verify_checkpoint-Accepted :
      (path : String) (trusted : Option P) (files : Files P)
      → verify_checkpoint e s path trusted files ≡ none
      → Accepted trusted files
  unfolding verify_checkpoint
  verify_checkpoint-Accepted path trusted files h = elim (Option-cases files.checkpoint) [
    | inl q ↦ absurd (ground arith)
    | inr (body, q) ↦ elim (Option-cases (s.unmarshal_checkpoint body)) [
      | inl p ↦ absurd (ground arith)
      | inr (cp, p) ↦
          let (n, f) =
            matches_head-same trusted (scan_head e files.ledger).0.head cp (ground arith) in
          record {
            body = body;
            stored = q;
            cp = cp;
            decoded = p;
            complete = ground arith;
            same_seq = n;
            same_hash = f;
          }
    ]
  ]

  -- Two states of the files in which verification accepts the same checkpoint file have ledgers with
  -- the same hashed texts, record by record, or two texts with the same SHA-256 are found: under a
  -- checkpoint a ledger can be neither changed nor cut.
  pub checkpoint_pins_ledger :
      Tracing e
      → (path : String) (trusted : Option P) (before after : Files P)
      → verify_checkpoint e s path trusted before ≡ none
      → verify_checkpoint e s path trusted after ≡ none
      → before.checkpoint ≡ after.checkpoint
      → (map (hashed_text e) (newest_first e before.ledger)
          ≡ map (hashed_text e) (newest_first e after.ledger))
        ⊎ Collision e
  checkpoint_pins_ledger d path trusted before after h k same =
      let a = verify_checkpoint-Accepted path trusted before h in
      let b = verify_checkpoint-Accepted path trusted after k in
      let bodies : a.body ≡ b.body = ground (arith, a.stored, b.stored) in
      let cps : a.cp ≡ b.cp = ground (arith, a.decoded, b.decoded, bodies) in
      let hb = equal_fold_sym (scan_head e after.ledger).0.head.hash b.cp.hash b.same_hash in
      same_head_same_history e d before.ledger after.ledger (
        equal_fold_trans (scan_head e before.ledger).0.head.hash a.cp.hash
          (scan_head e after.ledger).0.head.hash a.same_hash (rw cps hb))
