-- ===== src/Audit/Chain.antt =====
-- What the scan of the ledger keeps from record to record, in internal/audit/ledger.go.
use Prim.Native.String.{len}
use repo_ark.Prelude.{
  ◌+◌, ◌%◌, ◌^◌, String, ◌≡◌, refl, sym, ◌∙◌, ap, true, none, some, List, [], ◌∷◌, ◌++◌, arith,
  Bool-cases, Option-cases, inl, inr, ◌⊎◌, ◌≢◌, subst, leb,
}
use repo_ark.Prelude.Text.{eqs, eq_iff, equal_fold, trim_space}
use repo_ark.Audit.Ledger.{
  Record, Encoding, AuditError, not_exist, ok, err, Cursor, next_seq, hash_record, admit, unsigned,
  Scan, Result-cases, line_limit, scan_line, scan_lines,
}

module _ {F V : Type 0} (e : Encoding F) (visit : Record F → V → V) where
  abbrev pub advance : Cursor F V → Record F → Cursor F V
  advance c r = record {
    prev = r.hash;
    head = r;
    want_seq = next_seq c.want_seq;
    count = c.count + 1;
    seen = visit r c.seen;
  }

  -- The record continues the chain at the cursor.
  pub record Continues (c : Cursor F V) (r : Record F) : Type 0 where
    pub in_sequence : r.seq ≡ c.want_seq
    pub linked : r.prev_hash ≡ c.prev
    pub hashed :
        (text : String) × (e.marshal_unsigned (unsigned e r) ≡ some text)
        × (equal_fold (e.sha256_hex text) r.hash ≡ true)

  pub admit_of :
      (c : Cursor F V) (r : Record F) → Continues c r → admit e visit c r ≡ ok (advance c r)
  unfolding admit hash_record
  admit_of c r k =
      let (text, q, f) = k.hashed in
      ground (arith, eq_iff r.prev_hash c.prev, q, f, k.in_sequence, k.linked)

  pub admit-Continues :
      (c after : Cursor F V) (r : Record F)
      → admit e visit c r ≡ ok after
      → Continues c r × (after ≡ advance c r)
  unfolding admit hash_record
  admit-Continues c after r h = elim (Option-cases (e.marshal_unsigned (unsigned e r))) [
    | inl none_ ↦ absurd (ground (arith, eq_iff r.prev_hash c.prev))
    | inr (text, q) ↦
        let f : equal_fold (e.sha256_hex text) r.hash ≡ true = ground arith in
        (
          record {
            in_sequence = ground arith;
            linked = ground (arith, eq_iff r.prev_hash c.prev);
            hashed = (text, q, f);
          },
          ground arith,
        )
  ]

  pub scan_lines_done : (c : Cursor F V) → scan_lines e visit c [] ≡ (c, none)
  unfolding scan_lines
  scan_lines_done c = refl

  -- One step of the scan.
  pub scan_lines_step :
      (c after : Cursor F V) (l : String) (ls : List String)
      → scan_line e visit c l ≡ ok after
      → scan_lines e visit c (l ∷ ls) ≡ scan_lines e visit after ls
  unfolding scan_lines
  scan_lines_step c after l ls h = rw (scan_lines, h) refl

  pub scan_lines_stop :
      (c : Cursor F V) (x : AuditError) (l : String) (ls : List String)
      → scan_line e visit c l ≡ err x
      → scan_lines e visit c (l ∷ ls) ≡ (c, some x)
  unfolding scan_lines
  scan_lines_stop c x l ls h = rw (scan_lines, h) refl

  pub scan_lines-append :
      (c after : Cursor F V) (ls ms : List String)
      → scan_lines e visit c ls ≡ (after, none)
      → scan_lines e visit c (ls ++ ms) ≡ scan_lines e visit after ms
  scan_lines-append c after [] ms h =
      ap (λ (s : Scan F V). scan_lines e visit s.0 ms) (sym (scan_lines_done c) ∙ h)
  scan_lines-append c after (l ∷ ls) ms h = elim (Result-cases (scan_line e visit c l)) [
    | inl (y, q) ↦
        absurd (no_error (sym (ap (λ (s : Scan F V). s.1) (sym (scan_lines_stop c y l ls q) ∙ h))))
    | inr (x, q) ↦
        scan_lines_step c x l (ls ++ ms) q
        ∙ scan_lines-append x after ls ms (sym (scan_lines_step c x l ls q) ∙ h)
  ]
    where
      no_error : {y : AuditError} → none ≡ some y → ⊥
      no_error p = cc

  scan_line_exists : (c : Cursor F V) (l : String) → scan_line e visit c l ≢ err not_exist
  unfolding scan_line admit hash_record
  scan_line_exists c l h = ground arith

  pub scan_lines_exists :
      (c : Cursor F V) (ls : List String) → (scan_lines e visit c ls).1 ≢ some not_exist
  scan_lines_exists c [] h = none_some (sym (ap (λ (s : Scan F V). s.1) (scan_lines_done c)) ∙ h)
    where
      none_some : {y : AuditError} → none ≡ some y → ⊥
      none_some p = cc
  scan_lines_exists c (l ∷ ls) h = elim (Result-cases (scan_line e visit c l)) [
    | inl (y, q) ↦
        scan_line_exists c l
          (q ∙ ap err (same (sym (ap (λ (s : Scan F V). s.1) (scan_lines_stop c y l ls q)) ∙ h)))
    | inr (x, q) ↦
        scan_lines_exists x ls (sym (ap (λ (s : Scan F V). s.1) (scan_lines_step c x l ls q)) ∙ h)
  ]
    where
      same : {y : AuditError} → some y ≡ some not_exist → y ≡ not_exist
      same p = cc

  -- What the cursor says of the record before it: its number is the count, and the next record
  -- names its successor and its hash.
  abbrev pub IsLinked : Cursor F V → Type 0
  IsLinked c =
      (c.want_seq ≡ next_seq c.head.seq) × (c.prev ≡ c.head.hash) × (c.head.seq ≡ c.count % 2 ^ 64)

  IsLinked-advance :
      (c : Cursor F V) (r : Record F) → IsLinked c → Continues c r → IsLinked (advance c r)
  IsLinked-advance c r (w, p, n) k =
      (ap next_seq (sym k.in_sequence), refl, rw (k.in_sequence, w, n) (omega arith))

  -- A line leaves the cursor or decodes to a record that continues the chain.
  pub scan_line_cases :
      (c after : Cursor F V) (l : String)
      → scan_line e visit c l ≡ ok after
      → (after ≡ c) ⊎ ((r : Record F) × Continues c r × (after ≡ advance c r))
  unfolding scan_line
  scan_line_cases c after l h = elim (Bool-cases (leb line_limit (len l))) [
    | inl q ↦ absurd (ground arith)
    | inr q ↦ elim (Bool-cases (eqs (trim_space l) "")) [
      | inl p ↦ inl (ground arith)
      | inr p ↦ elim (Option-cases (e.unmarshal (trim_space l))) [
        | inl u ↦ absurd (ground arith)
        | inr (r, u) ↦ let (k, p) = admit-Continues c after r (ground arith) in inr (r, k, p)
      ]
    ]
  ]

  pub scan_lines-IsLinked :
      (c : Cursor F V) (ls : List String) → IsLinked c → IsLinked (scan_lines e visit c ls).0
  scan_lines-IsLinked c [] h = subst (λ (s : Scan F V). IsLinked s.0) (sym (scan_lines_done c)) h
  scan_lines-IsLinked c (l ∷ ls) h = elim (Result-cases (scan_line e visit c l)) [
    | inl (y, q) ↦ subst (λ (s : Scan F V). IsLinked s.0) (sym (scan_lines_stop c y l ls q)) h
    | inr (x, q) ↦
        subst (λ (s : Scan F V). IsLinked s.0) (sym (scan_lines_step c x l ls q))
          (scan_lines-IsLinked x ls (elim (scan_line_cases c x l q) [
            | inl p ↦ subst IsLinked (sym p) h
            | inr (r, k, p) ↦ subst IsLinked (sym p) (IsLinked-advance c r h k)
          ]))
  ]
