-- ===== src/Audit/Visits.antt =====
-- The visitor of scanVerifiedLocked in internal/audit/ledger.go: two scans of one file with
-- different visitors differ only in what the visitors keep.
use Prim.Native.String.{len}
use repo_ark.Prelude.{
  String, ◌≡◌, refl, sym, ◌∙◌, ap, Option, none, some, List, [], ◌∷◌, arith, Option-cases,
  Bool-cases, inl, inr, leb, subst,
}
use repo_ark.Prelude.Text.{eqs, trim_space}
use repo_ark.Audit.Lines.{lines}
use repo_ark.Audit.Ledger.{
  Record, Encoding, AuditError, ok, err, Cursor, Scan, hash_record, admit, scan_line, scan_lines,
  scan_verified, start_cursor, line_limit, Result-cases,
}
use repo_ark.Audit.Chain.{
  Continues, admit_of, admit-Continues, scan_lines_done, scan_lines_step, scan_lines_stop,
}

abbrev pub with_seen : {F V W : Type 0} → Cursor F V → W → Cursor F W
with_seen c w = record {
  prev = c.prev;
  head = c.head;
  want_seq = c.want_seq;
  count = c.count;
  seen = w;
}

module _ {F V W : Type 0} (e : Encoding F) (f : Record F → V → V) (g : Record F → W → W) where
  recast :
      (c : Cursor F V) (w : W) (r : Record F) → Continues e f c r → Continues e g (with_seen c w) r
  recast c w r k = record { in_sequence = k.in_sequence; linked = k.linked; hashed = k.hashed }

  scan_line_err :
      (c : Cursor F V) (w : W) (l : String) (x : AuditError)
      → scan_line e f c l ≡ err x
      → scan_line e g (with_seen c w) l ≡ err x
  unfolding scan_line admit hash_record
  scan_line_err c w l x h = ground arith

  module _ (R : V → W → Type 0)
      (step : (r : Record F) (v : V) (w : W) → R v w → R (f r v) (g r w)) where
    -- The scans agree, and what the visitors keep is related.
    abbrev pub Agree : Scan F V → Scan F W → Type 0
    Agree s t = (w : W) × R (s.0).seen w × (t ≡ (with_seen s.0 w, s.1))

    scan_line_ok :
        (c after : Cursor F V) (w : W) (l : String)
        → R c.seen w
        → scan_line e f c l ≡ ok after
        → (v : W) × R after.seen v × (scan_line e g (with_seen c w) l ≡ ok (with_seen after v))
    unfolding scan_line
    scan_line_ok c after w l rel h = elim (Bool-cases (leb line_limit (len l))) [
      | inl q ↦ absurd (ground arith)
      | inr q ↦ elim (Bool-cases (eqs (trim_space l) "")) [
        | inl p ↦
            let same : c ≡ after = ground arith in
            (
              w,
              subst (λ (a : Cursor F V). R a.seen w) same rel,
              rw (q, p) (ap (λ (a : Cursor F V). ok (with_seen a w)) same),
            )
        | inr p ↦ elim (Option-cases (e.unmarshal (trim_space l))) [
          | inl u ↦ absurd (ground arith)
          | inr (r, u) ↦
              let (k, a) = admit-Continues e f c after r (ground arith) in
              (
                g r w,
                subst (λ (a : Cursor F V). R a.seen (g r w)) (sym a) (step r c.seen w rel),
                rw (q, p, u)
                    (admit_of e g (with_seen c w) r (recast c w r k)
                      ∙ ap (λ (a : Cursor F V). ok (with_seen a (g r w))) (sym a)),
              )
        ]
      ]
    ]

    pub scan_lines-Agree :
        (c : Cursor F V) (w : W) (ls : List String)
        → R c.seen w
        → Agree (scan_lines e f c ls) (scan_lines e g (with_seen c w) ls)
    scan_lines-Agree c w [] rel =
        rw (scan_lines_done e f c, scan_lines_done e g (with_seen c w)) (w, rel, refl)
    scan_lines-Agree c w (l ∷ ls) rel = elim (Result-cases (scan_line e f c l)) [
      | inl (x, q) ↦
          rw
            (
              scan_lines_stop e f c x l ls q,
              scan_lines_stop e g (with_seen c w) x l ls (scan_line_err c w l x q),
            )
            (w, rel, refl)
      | inr (a, q) ↦
          let (v, rel', p) = scan_line_ok c a w l rel q in
          rw
            (
              scan_lines_step e f c a l ls q,
              scan_lines_step e g (with_seen c w) (with_seen a v) l ls p,
            )
            (scan_lines-Agree a v ls rel')
    ]

    -- Two visitors that keep related states are in related states after any scan, and the scans
    -- stop at the same cursor with the same error.
    pub scan_verified-Agree :
        (v : V) (w : W) (ledger : Option String)
        → R v w
        → Agree (scan_verified e f v ledger) (scan_verified e g w ledger)
    unfolding scan_verified
    scan_verified-Agree v w none rel = (w, rel, refl)
    scan_verified-Agree v w (some text) rel =
        scan_lines-Agree (start_cursor e f v) w (lines text) rel
