-- ===== src/Audit/Extension.antt =====
-- What Append of internal/audit/ledger.go does to a ledger.
use Prim.Native.String.{len, ◌++◌ as ◌<>◌}
use repo_ark.Prelude.{
  ℕ, ◌<◌, String, ◌≡◌, refl, sym, ◌∙◌, ap, true, false, Option, none, some, List, [], ◌∷◌, ◌++◌,
  arith, Option-cases, inl, inr, ◌≢◌, subst, leb,
}
use repo_ark.Prelude.Text.{eqs, eq_iff, equal_fold, equal_fold_refl, trim_space}
use repo_ark.Prelude.Clock.{Time}
use repo_ark.Audit.Lines.{
  lines, has_newline, IsTerminated, lines-append, lines_of_one, IsTerminated-push,
}
use repo_ark.Audit.Ledger.{
  Record, Encoding, AuditError, not_exist, ok, err, Cursor, Scan, next_seq, hash_record, admit,
  scan_line, scan_lines, start_cursor, scan_verified, scan_head, no_visit, unsigned, line_limit,
  hash_mismatch,
}
use repo_ark.Audit.Operations.{Event, stops, text_of, next_record, write_record, append_locked}
use repo_ark.Audit.Chain.{
  advance, Continues, IsLinked, scan_lines-IsLinked, admit_of, scan_lines-append, scan_lines_exists,
  scan_lines_step, scan_lines_done, scan_lines_stop,
}

-- What the JSON package is documented to do: a record is one line of text that has no white space
-- around it and that decodes to the record, its fields read as `reread` reads them (a number of a
-- map is a float64 after decoding).
pub record Documented {F : Type 0} (e : Encoding F) : Type 0 where
  pub reread : F → F
  pub decoded :
      (r : Record F) (b : String)
      → e.marshal r ≡ some b
      → e.unmarshal b ≡ some (record r { fields = reread r.fields })
  pub one_line : (r : Record F) (b : String) → e.marshal r ≡ some b → has_newline b ≡ false
  pub trimmed : (r : Record F) (b : String) → e.marshal r ≡ some b → trim_space b ≡ b
  pub not_blank : (r : Record F) (b : String) → e.marshal r ≡ some b → eqs b "" ≡ false

module _ {F : Type 0} (e : Encoding F) where
  -- The record, the hashed text and the line of a successful write.
  pub record Written (text : String) (r w : Record F) (after : String) : Type 0 where
    pub body : String
    pub hashed : e.marshal_unsigned (unsigned e r) ≡ some body
    pub signed : w ≡ record r { hash = e.sha256_hex body }
    pub line : String
    pub printed : e.marshal w ≡ some line
    pub pushed : after ≡ text <> (line <> "\n")

  pub write_record-Written :
      (text : String) (r w : Record F) (after : String)
      → write_record e text r ≡ ok (w, after)
      → Written text r w after
  unfolding write_record hash_record
  write_record-Written text r w after h = elim (Option-cases (e.marshal_unsigned (unsigned e r))) [
    | inl q ↦ absurd (ground arith)
    | inr (body, q) ↦ elim (Option-cases (e.marshal (record r { hash = e.sha256_hex body }))) [
      | inl p ↦ absurd (ground arith)
      | inr (line, p) ↦
          let w_eq : w ≡ record r { hash = e.sha256_hex body } = ground arith in
          record {
            body = body;
            hashed = q;
            signed = w_eq;
            line = line;
            printed = rw w_eq p;
            pushed = ground arith;
          }
    ]
  ]

  -- The scan an append starts from.
  abbrev pub cursor_of : Option String → Cursor F (Unit {0})
  cursor_of ledger = (scan_head e ledger).0

  pub append_locked-Written :
      (now : Time) (ledger : Option String) (ev : Event F) (w : Record F) (after : String)
      → append_locked e now ledger ev ≡ ok (w, after)
      → (stops (scan_head e ledger).1 ≡ none)
        × Written (text_of ledger) (next_record e (cursor_of ledger).head now ev) w after
  unfolding append_locked
  append_locked-Written now ledger ev w after h =
      elim (Option-cases (stops (scan_head e ledger).1)) [
        | inl q ↦ (q, write_record-Written _ _ w after (ground arith))
        | inr (y, q) ↦ absurd (ground arith)
      ]

  stops-none : (x : Option AuditError) → stops x ≡ none → x ≢ some not_exist → x ≡ none
  stops-none none h n = refl
  stops-none (some x) h n = ground arith

  opened :
      (ledger : Option String)
      → stops (scan_head e ledger).1 ≡ none
      → scan_lines e (no_visit e) (start_cursor e (no_visit e) tt) (lines (text_of ledger))
        ≡ (cursor_of ledger, none)
  unfolding scan_head scan_verified lines
  opened none h = scan_lines_done e (no_visit e) _
  opened (some text) h =
      let s : Scan F (Unit {0}) =
        scan_lines e (no_visit e) (start_cursor e (no_visit e) tt) (lines text) in
      ap (λ (x : Option AuditError). (s.0, x))
        (stops-none s.1 h (scan_lines_exists e (no_visit e) _ (lines text)))

  -- The line of a record that continues the chain.
  scan_line_of :
      (c : Cursor F (Unit {0})) (b : String) (r : Record F)
      → len b < line_limit
      → trim_space b ≡ b
      → eqs b "" ≡ false
      → e.unmarshal b ≡ some r
      → Continues e (no_visit e) c r
      → scan_line e (no_visit e) c b ≡ ok (advance e (no_visit e) c r)
  unfolding scan_line
  scan_line_of c b r short t n u k =
      let long : leb line_limit (len b) ≡ false = ground arith in
      rw (long, t, n, u) (admit_of e (no_visit e) c r k)

  cursor_of-IsLinked : (ledger : Option String) → IsLinked e (no_visit e) (cursor_of ledger)
  unfolding scan_head scan_verified
  cursor_of-IsLinked none = (refl, refl, refl)
  cursor_of-IsLinked (some text) =
      scan_lines-IsLinked e (no_visit e) _ (lines text) (refl, refl, refl)

  module _ {text : String} {r w : Record F} {after : String} (wr : Written text r w after) where
    body_of : e.marshal_unsigned (unsigned e w) ≡ some wr.body
    body_of = ap (λ (v : Record F). e.marshal_unsigned (unsigned e v)) wr.signed ∙ wr.hashed

    hash_of : equal_fold (e.sha256_hex wr.body) w.hash ≡ true
    hash_of =
        ap (equal_fold (e.sha256_hex wr.body)) (ap (λ (v : Record F). v.hash) wr.signed)
        ∙ equal_fold_refl (e.sha256_hex wr.body)

    -- The lines of the new text.
    lines_of :
        IsTerminated text → has_newline wr.line ≡ false → lines after ≡ lines text ++ wr.line ∷ []
    lines_of t n =
        ap lines wr.pushed
        ∙ lines-append text (wr.line <> "\n") t
        ∙ ap (λ (ls : List String). lines text ++ ls) (lines_of_one wr.line n)

  admit_mismatch :
      (c : Cursor F (Unit {0})) (r : Record F) (other : String)
      → r.seq ≡ c.want_seq
      → r.prev_hash ≡ c.prev
      → e.marshal_unsigned (unsigned e r) ≡ some other
      → equal_fold (e.sha256_hex other) r.hash ≡ false
      → admit e (no_visit e) c r ≡ err (hash_mismatch r.seq)
  unfolding admit hash_record
  admit_mismatch c r other p q u f = ground (arith, eq_iff r.prev_hash c.prev)

  line_mismatch :
      (c : Cursor F (Unit {0})) (b : String) (r : Record F) {x : AuditError}
      → len b < line_limit
      → trim_space b ≡ b
      → eqs b "" ≡ false
      → e.unmarshal b ≡ some r
      → admit e (no_visit e) c r ≡ err x
      → scan_line e (no_visit e) c b ≡ err x
  unfolding scan_line
  line_mismatch c b r short t n u k =
      let long : leb line_limit (len b) ≡ false = ground arith in rw (long, t, n, u) k

  append_locked_stop :
      (now : Time) (ledger : Option String) (ev : Event F) {c : Cursor F (Unit {0})} {n : ℕ}
      → scan_head e ledger ≡ (c, some (hash_mismatch n))
      → append_locked e now ledger ev ≡ err (hash_mismatch n)
  unfolding append_locked
  append_locked_stop now ledger ev h = ground arith

  module _ (d : Documented e) where
    abbrev pub reread : Record F → Record F
    reread r = record r { fields = d.reread r.fields }

    scanned :
        {text : String} {r w : Record F} {after : String} (c : Cursor F (Unit {0}))
        (wr : Written text r w after)
        → scan_lines e (no_visit e) (start_cursor e (no_visit e) tt) (lines text) ≡ (c, none)
        → IsTerminated text
        → Continues e (no_visit e) c (reread w)
        → len wr.line < line_limit
        → scan_head e (some after) ≡ (advance e (no_visit e) c (reread w), none)
    unfolding scan_head scan_verified
    scanned {text} {r} {w} c wr s t k short =
        let step =
          scan_line_of c wr.line (reread w) short (d.trimmed w wr.line wr.printed)
            (d.not_blank w wr.line wr.printed) (d.decoded w wr.line wr.printed) k in
        ap (scan_lines e (no_visit e) _) (lines_of wr t (d.one_line w wr.line wr.printed))
        ∙ scan_lines-append e (no_visit e) _ c (lines text) (wr.line ∷ []) s
        ∙ scan_lines_step e (no_visit e) c _ wr.line [] step
        ∙ scan_lines_done e (no_visit e) _

    scanned_stop :
        {text : String} {r w : Record F} {after : String} {x : AuditError} (c : Cursor F (Unit {0}))
        (wr : Written text r w after)
        → scan_lines e (no_visit e) (start_cursor e (no_visit e) tt) (lines text) ≡ (c, none)
        → IsTerminated text
        → scan_line e (no_visit e) c wr.line ≡ err x
        → scan_head e (some after) ≡ (c, some x)
    unfolding scan_head scan_verified
    scanned_stop {text} {r} {w} {after} {x} c wr s t stop =
        ap (scan_lines e (no_visit e) _) (lines_of wr t (d.one_line w wr.line wr.printed))
        ∙ scan_lines-append e (no_visit e) _ c (lines text) (wr.line ∷ []) s
        ∙ scan_lines_stop e (no_visit e) c x wr.line [] stop

    -- Append to a ledger that ends in a newline or is absent writes a record whose sequence number
    -- and previous hash continue the head; the ledger ends in a newline again and is scanned to its
    -- end, with one record more, which is the head. This wants that the line is shorter than the
    -- scanner's limit and that the record encodes to the same text after it was decoded.
    pub append_extends :
        (now : Time) (ledger : Option String) (ev : Event F) (w : Record F) (after : String)
        → IsTerminated (text_of ledger)
        → append_locked e now ledger ev ≡ ok (w, after)
        → ((b : String) → e.marshal w ≡ some b → len b < line_limit)
        → e.marshal_unsigned (unsigned e (reread w)) ≡ e.marshal_unsigned (unsigned e w)
        → (w.seq ≡ next_seq (cursor_of ledger).head.seq)
          × (w.prev_hash ≡ (cursor_of ledger).head.hash)
          × IsTerminated after
          × (scan_head e (some after)
              ≡ (advance e (no_visit e) (cursor_of ledger) (reread w), none))
    append_extends now ledger ev w after t h short stable =
        let (q, wr) = append_locked-Written now ledger ev w after h in
        let c : Cursor F (Unit {0}) = cursor_of ledger in
        let (want, prev, _) = cursor_of-IsLinked ledger in
        let seq : w.seq ≡ next_seq c.head.seq = ap (λ (r : Record F). r.seq) wr.signed in
        let link : w.prev_hash ≡ c.head.hash = ap (λ (r : Record F). r.prev_hash) wr.signed in
        let k : Continues e (no_visit e) c (reread w) = record {
          in_sequence = seq ∙ sym want;
          linked = link ∙ sym prev;
          hashed = (wr.body, stable ∙ body_of wr, hash_of wr);
        } in
        (
          seq,
          link,
          subst IsTerminated (sym wr.pushed) (IsTerminated-push (text_of ledger) wr.line),
          scanned c wr (opened ledger q) t k (short wr.line wr.printed),
        )

    -- But where the decoded record encodes to another text, with another hash, Append succeeds and
    -- leaves a ledger whose scan stops at the new record, so that every later Append is refused.
    pub append_unstable :
        (now : Time) (ledger : Option String) (ev : Event F) (w : Record F) (after other : String)
        → IsTerminated (text_of ledger)
        → append_locked e now ledger ev ≡ ok (w, after)
        → ((b : String) → e.marshal w ≡ some b → len b < line_limit)
        → e.marshal_unsigned (unsigned e (reread w)) ≡ some other
        → equal_fold (e.sha256_hex other) w.hash ≡ false
        → (scan_head e (some after) ≡ (cursor_of ledger, some (hash_mismatch w.seq)))
          × ((next : Time) (more : Event F)
              → append_locked e next (some after) more ≡ err (hash_mismatch w.seq))
    append_unstable now ledger ev w after other t h short encoded differs =
        let (q, wr) = append_locked-Written now ledger ev w after h in
        let (want, prev, _) = cursor_of-IsLinked ledger in
        let c : Cursor F (Unit {0}) = cursor_of ledger in
        let seq : w.seq ≡ c.want_seq = ap (λ (r : Record F). r.seq) wr.signed ∙ sym want in
        let link : w.prev_hash ≡ c.prev = ap (λ (r : Record F). r.prev_hash) wr.signed ∙ sym prev in
        let refused = admit_mismatch c (reread w) other seq link encoded differs in
        let stop =
          line_mismatch c wr.line (reread w) (short wr.line wr.printed)
            (d.trimmed w wr.line wr.printed) (d.not_blank w wr.line wr.printed)
            (d.decoded w wr.line wr.printed) refused in
        let s = scanned_stop c wr (opened ledger q) t stop in
        (s, λ next more. append_locked_stop next (some after) more s)
