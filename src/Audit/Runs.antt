-- ===== src/Audit/Runs.antt =====
-- A ledger of two records, and its checkpoint, with small encoders in the place of JSON, SHA-256 and
-- Ed25519. The fields are a mark that decoding loses.
use Prim.Native.Nat.{Ordering}
use Prim.Native.String.compare.{cons-nil}
use text.Mathlib.Text.{is_eq}
use Prim.Native.String.{len, ◌++◌ as ◌<>◌}
use repo_ark.Prelude.{
  ℕ, ◌<◌, String, ◌≡◌, refl, sym, ap, Bool, true, false, ◌&&◌, Option, none, some, [], ◌==◌,
  if◌then◌else◌, arith, Bool-cases, inl, inr, ◌⊎◌, map, take, select,
}
use repo_ark.Prelude.Int.{pos}
use repo_ark.Prelude.Text.{eqs, eq_iff, trim_space, equal_fold}
use repo_ark.Audit.Lines.{lines, has_newline, IsTerminated, cons-push}
use repo_ark.Audit.Ledger.{
  Record, Encoding, UnsignedRecord, ok, err, hash_mismatch, scan_head, scan_verified, scan_lines,
  scan_line, admit, hash_record, next_seq, no_visit, line_limit,
}
use repo_ark.Audit.Operations.{
  Event, Signing, Checkpoint, Files, append, append_locked, append_with_checkpoint, write_record,
  write_checkpoint_for_head, verify_checkpoint, matches_head,
}
use repo_ark.Audit.Chain.{advance}
use repo_ark.Audit.Extension.{Documented, append_extends, append_unstable, cursor_of, reread}
use repo_ark.Audit.Signed.{Verifiable, append_with_checkpoint_verifies}
use repo_ark.Audit.Tamper.{
  Tracing, newest_first, hashed_text, Collision, checkpoint_pins_ledger, collect,
}
use repo_ark.Audit.Recent.{recent, capped, is_wanted}
use repo_ark.Audit.Recent.Newest.{recent_newest}

abbrev first : Record Bool
first = record {
  seq = 1;
  time = 5;
  action = "backup";
  target = "";
  status = "ok";
  detail = "";
  fields = false;
  prev_hash = "";
  hash = "h";
}

abbrev second : Record Bool
second = record {
  seq = 2;
  time = 9;
  action = "prune";
  target = "old";
  status = "ok";
  detail = "";
  fields = false;
  prev_hash = "h";
  hash = "hh";
}

abbrev marked : Record Bool
marked = record second { fields = true; hash = "hmarked" }

-- Two records are the same but for the mark.
same_record : Record Bool → Record Bool → Bool
same_record r s =
    (r.seq == s.seq)
    && (r.time == s.time)
    && eqs r.action s.action
    && eqs r.target s.target
    && eqs r.status s.status
    && eqs r.detail s.detail
    && eqs r.prev_hash s.prev_hash
    && eqs r.hash s.hash

same_record_eq :
    (r s : Record Bool)
    → same_record r s ≡ true
    → ◌≡◌ {A = Record Bool} (record r { fields = false }) (record s { fields = false })
unfolding same_record
same_record_eq r s h = ground (
  arith,
  eq_iff r.action s.action,
  eq_iff r.target s.target,
  eq_iff r.status s.status,
  eq_iff r.detail s.detail,
  eq_iff r.prev_hash s.prev_hash,
  eq_iff r.hash s.hash,
)

abbrev print_record : Record Bool → Option String
unfolding same_record
print_record r =
    if same_record r first
    then some "first"
    else if same_record r second
    then some "second"
    else if same_record r marked
    then some "marked"
    else none

abbrev read_record : String → Option (Record Bool)
read_record b =
    if eqs b "first"
    then some first
    else if eqs b "second"
    then some second
    else if eqs b "marked"
    then some (record marked { fields = false })
    else none

abbrev encoders : (UnsignedRecord Bool → Option String) → Encoding Bool
encoders f = record {
  marshal_unsigned = f;
  marshal = print_record;
  unmarshal = read_record;
  sha256_hex = λ t. "h" <> t;
  no_fields = false;
}

abbrev small : Encoding Bool
small = encoders (λ u. some u.prev_hash)

-- The hashed text shows the mark.
abbrev marking : Encoding Bool
marking = encoders (λ u. some (if u.fields then "marked" else u.prev_hash))

print_record_cases :
    (r : Record Bool) (b : String)
    → print_record r ≡ some b
    → (read_record b ≡ some (record r { fields = false }))
      × (has_newline b ≡ false)
      × (trim_space b ≡ b)
      × (eqs b "" ≡ false)
      × (len b < line_limit)
unfolding same_record trim_space
print_record_cases r b h = elim (Bool-cases (same_record r first)) [
  | inl p ↦
      let e : b ≡ "first" = ground arith in
      rw e (
        ap (λ (x : Record Bool). some x) (sym (same_record_eq r first p)),
        refl,
        refl,
        refl,
        omega arith,
      )
  | inr p ↦ elim (Bool-cases (same_record r second)) [
    | inl q ↦
        let e : b ≡ "second" = ground arith in
        rw e (
          ap (λ (x : Record Bool). some x) (sym (same_record_eq r second q)),
          refl,
          refl,
          refl,
          omega arith,
        )
    | inr q ↦ elim (Bool-cases (same_record r marked)) [
      | inl s ↦
          let e : b ≡ "marked" = ground arith in
          rw e (
            ap (λ (x : Record Bool). some x) (sym (same_record_eq r marked s)),
            refl,
            refl,
            refl,
            omega arith,
          )
      | inr s ↦ absurd (ground arith)
    ]
  ]
]

abbrev documented : (f : UnsignedRecord Bool → Option String) → Documented (encoders f)
documented f = record {
  reread = λ m. false;
  decoded = λ r b h. (print_record_cases r b h).0;
  one_line = λ r b h. (print_record_cases r b h).1;
  trimmed = λ r b h. (print_record_cases r b h).2;
  not_blank = λ r b h. (print_record_cases r b h).3;
}

abbrev pruning : Event Bool
pruning = record { action = " prune"; target = "old"; status = "ok"; detail = ""; fields = false }

abbrev marked_pruning : Event Bool
marked_pruning = record pruning { fields = true }

printed_short : (r : Record Bool) (b : String) → print_record r ≡ some b → len b < line_limit
printed_short r b h = (print_record_cases r b h).4

appended : append_locked small 9 (some "first\n") pruning ≡ ok (second, "first\nsecond\n")
unfolding append_locked write_record hash_record scan_head scan_verified scan_lines scan_line admit
    lines trim_space equal_fold same_record
appended = refl

appended_marked :
    append_locked marking 9 (some "first\n") marked_pruning ≡ ok (marked, "first\nmarked\n")
unfolding append_locked write_record hash_record scan_head scan_verified scan_lines scan_line admit
    lines trim_space equal_fold same_record
appended_marked = refl

differs : equal_fold "hh" "hmarked" ≡ false
unfolding equal_fold
differs = refl

append_extends_example :
    (second.seq ≡ next_seq (cursor_of small (some "first\n")).head.seq)
    × (second.prev_hash ≡ (cursor_of small (some "first\n")).head.hash)
    × IsTerminated "first\nsecond\n"
    × (scan_head small (some "first\nsecond\n") ≡ (
      advance small
          (no_visit small)
          (cursor_of small (some "first\n"))
          (reread small (documented _) second),
      none,
    ))
append_extends_example =
    append_extends small (documented _) 9 (some "first\n") pruning second "first\nsecond\n" refl
      appended (printed_short second) refl

append_unstable_example :
    (scan_head marking (some "first\nmarked\n")
      ≡ (cursor_of marking (some "first\n"), some (hash_mismatch 2)))
    × ((next : ℕ) (more : Event Bool)
        → append_locked marking next (some "first\nmarked\n") more ≡ err (hash_mismatch 2))
append_unstable_example =
    append_unstable marking (documented _) 9 (some "first\n") marked_pruning marked
      "first\nmarked\n" "h" refl appended_marked (printed_short marked) refl differs

path_named : eqs (trim_space "audit.jsonl") "" ≡ false
unfolding trim_space
path_named = refl

recent_newest_example :
    recent small "audit.jsonl" (some "first\nsecond\n") (pos 1) " backup"
    ≡ (elim (scan_verified small (collect small) [] (some "first\nsecond\n")).1 [
      | some x ↦ err x
      | none ↦ ok (
          take (capped (pos 1)) (
            select
              (is_wanted (trim_space " backup"))
              (newest_first small (some "first\nsecond\n"))))
    ])
recent_newest_example =
    recent_newest small "audit.jsonl" (some "first\nsecond\n") (pos 1) " backup" refl path_named

abbrev issued : Checkpoint
issued = record { seq = 2; hash = "hh"; created_at = 11; signature = "hh" }

abbrev same_checkpoint : Checkpoint → Checkpoint → Bool
same_checkpoint c d =
    (c.seq == d.seq)
    && eqs c.hash d.hash
    && (c.created_at == d.created_at)
    && eqs c.signature d.signature

abbrev signing : Signing (Unit {0}) (Unit {0})
signing = record {
  marshal_payload = λ p. some p.hash;
  marshal_checkpoint = λ c. if same_checkpoint c issued then some "checkpoint" else none;
  unmarshal_checkpoint = λ b. if eqs b "checkpoint" then some issued else none;
  sign = λ k text. text;
  is_signed = λ p text sig. eqs text sig;
  public_of = λ k. k;
}

printed_checkpoint :
    (c : Checkpoint) (b : String)
    → signing.marshal_checkpoint c ≡ some b
    → signing.unmarshal_checkpoint b ≡ some c
printed_checkpoint c b h =
    ground
      (arith, eq_iff b "checkpoint", eq_iff c.hash issued.hash, eq_iff c.signature issued.signature)

abbrev verifiable : Verifiable signing
verifiable = record { decoded = printed_checkpoint; verified = λ k text. (eq_iff text text).1 refl }

abbrev ledger_files : Option String → Option String → Files (Unit {0})
ledger_files ledger checkpoint = record {
  ledger = ledger;
  checkpoint = checkpoint;
  checkpoint_pub = some tt;
}

abbrev two_records : Files (Unit {0})
two_records = ledger_files (some "first\nsecond\n") (some "checkpoint")

appended_signed :
    append_with_checkpoint small signing "audit.jsonl"
      (some tt)
      9
      11
      (ledger_files (some "first\n") none)
      pruning
    ≡ (two_records, ok (second, none))
unfolding append_with_checkpoint append append_locked write_record write_checkpoint_for_head
    hash_record scan_head scan_verified scan_lines scan_line admit lines trim_space equal_fold
    same_record
appended_signed = refl

append_with_checkpoint_verifies_example :
    verify_checkpoint small signing "audit.jsonl" (some tt) two_records ≡ none
append_with_checkpoint_verifies_example =
    append_with_checkpoint_verifies small signing verifiable (documented _) "audit.jsonl" tt 9 11
      (ledger_files (some "first\n") none) two_records pruning second refl appended_signed
      (printed_short second) refl

abbrev spaced : Files (Unit {0})
spaced = ledger_files (some "first\n\n second\n") (some "checkpoint")

spaced_verifies : verify_checkpoint small signing "audit.jsonl" (some tt) spaced ≡ none
unfolding verify_checkpoint matches_head hash_record scan_head scan_verified scan_lines scan_line
    admit lines trim_space equal_fold same_record
spaced_verifies = refl

two_records_verifies : verify_checkpoint small signing "audit.jsonl" (some tt) two_records ≡ none
unfolding verify_checkpoint matches_head hash_record scan_head scan_verified scan_lines scan_line
    admit lines trim_space equal_fold same_record
two_records_verifies = refl

not_empty_text : (text : String) → eqs ("h" <> text) "" ≡ false
not_empty_text text =
    rw (cons-push "h" "" text) (ap (λ (o : Ordering). is_eq o) (λ i. cons-nil "h" ("" <> text) i))

tracing : Tracing small
tracing = record { one_parent = λ r s text h k. cc; not_empty = λ text. not_empty_text text }

checkpoint_pins_ledger_example :
    (map (hashed_text small) (newest_first small two_records.ledger)
      ≡ map (hashed_text small) (newest_first small spaced.ledger))
    ⊎ Collision small
checkpoint_pins_ledger_example =
    checkpoint_pins_ledger small signing tracing "audit.jsonl" (some tt) two_records spaced
      two_records_verifies spaced_verifies refl
