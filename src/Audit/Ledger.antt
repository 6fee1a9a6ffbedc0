-- ===== src/Audit/Ledger.antt =====
-- The audit ledger of internal/audit: ledger.go and recent.go. A ledger is the text of its file, or
-- none where there is no file. The guard makes each call one step. json.Marshal, json.Unmarshal and
-- the hexadecimal SHA-256 are parameters; the file operations on an existing directory succeed.
use Prim.Native.String.{len}
use repo_ark.Prelude.{
  ℕ, ◌+◌, ◌%◌, ◌^◌, String, ◌≡◌, not, Option, none, some, List, [], ◌∷◌, refl, inl, inr, ◌⊎◌, leb,
  ◌==◌, if◌then◌else◌,
}
use repo_ark.Prelude.Text.{eqs, trim_space, equal_fold}
use repo_ark.Prelude.Clock.{Time, zero_time}
use repo_ark.Audit.Lines.{lines}

-- map[string]any is a parameter, as only the JSON package looks at it.
pub record Record (F : Type 0) : Type 0 where
  pub seq : ℕ
  pub time : Time
  pub action : String
  pub target : String
  pub status : String
  pub detail : String
  pub fields : F
  pub prev_hash : String
  pub hash : String

pub record UnsignedRecord (F : Type 0) : Type 0 where
  pub seq : ℕ
  pub time : Time
  pub action : String
  pub target : String
  pub status : String
  pub detail : String
  pub fields : F
  pub prev_hash : String

-- The encoders, where `none` is an error.
pub record Encoding (F : Type 0) : Type 0 where
  pub marshal_unsigned : UnsignedRecord F → Option String
  pub marshal : Record F → Option String
  pub unmarshal : String → Option (Record F)
  pub sha256_hex : String → String
  -- nil, the fields of Record{}
  pub no_fields : F

-- The messages of the package. A message of a line has the number of the record it is about.
pub data AuditError : Type 0 where
  path_empty not_exist too_long cannot_encode action_and_status_required : AuditError
  not_json sequence_mismatch prev_hash_mismatch hash_mismatch : ℕ → AuditError
  empty_ledger no_key no_checkpoint bad_checkpoint checkpoint_mismatch bad_signature : AuditError

pub data Result (A : Type 0) : Type 0 where
  ok : A → Result A
  err : AuditError → Result A

pub Result-cases :
    {A : Type 0} (x : Result A) → ((y : AuditError) × (x ≡ err y)) ⊎ ((a : A) × (x ≡ ok a))
Result-cases (ok a) = inr (a, refl)
Result-cases (err y) = inl (y, refl)

-- seq + 1 of uint64
abbrev pub next_seq : ℕ → ℕ
next_seq n = (n + 1) % 2 ^ 64

-- The scanner's limit: a line of 8 MiB or more ends the scan.
abbrev pub line_limit : ℕ
line_limit = 8388608

-- The variables of the loop of scanVerifiedLocked, with the state of its visitor.
pub record Cursor (F V : Type 0) : Type 0 where
  pub prev : String
  pub head : Record F
  pub want_seq : ℕ
  pub count : ℕ
  pub seen : V

-- What the scan returns: the last cursor, and the error it stopped at.
abbrev pub Scan : Type 0 → Type 0 → Type 0
Scan F V = Cursor F V × Option AuditError

module _ {F : Type 0} (e : Encoding F) where
  abbrev pub zero_record : Record F
  zero_record = record {
    seq = 0;
    time = zero_time;
    action = "";
    target = "";
    status = "";
    detail = "";
    fields = e.no_fields;
    prev_hash = "";
    hash = "";
  }

  abbrev pub unsigned : Record F → UnsignedRecord F
  unsigned r = record {
    seq = r.seq;
    time = r.time;
    action = r.action;
    target = r.target;
    status = r.status;
    detail = r.detail;
    fields = r.fields;
    prev_hash = r.prev_hash;
  }

  unfoldable pub hash_record : Record F → Option String
  hash_record r = elim (e.marshal_unsigned (unsigned r)) [
    | none ↦ none
    | some text ↦ some (e.sha256_hex text)
  ]

  module _ {V : Type 0} (visit : Record F → V → V) where
    -- The checks on a decoded record, and the cursor after it.
    unfoldable pub admit : Cursor F V → Record F → Result (Cursor F V)
    admit c r =
        if not (r.seq == c.want_seq)
        then err (sequence_mismatch c.want_seq)
        else if not (eqs r.prev_hash c.prev)
        then err (prev_hash_mismatch r.seq)
        else elim (hash_record r) [
          | none ↦ err cannot_encode
          | some h ↦
              if not (equal_fold h r.hash)
              then err (hash_mismatch r.seq)
              else ok (record {
                prev = r.hash;
                head = r;
                want_seq = next_seq c.want_seq;
                count = c.count + 1;
                seen = visit r c.seen;
              })
        ]

    -- One line of the file.
    unfoldable pub scan_line : Cursor F V → String → Result (Cursor F V)
    scan_line c raw =
        if leb line_limit (len raw)
        then err too_long
        else let line = trim_space raw in
          if eqs line ""
          then ok c
          else elim (e.unmarshal line) [ none ↦ err (not_json (c.count + 1)) | some r ↦ admit c r ]

    unfoldable pub scan_lines : Cursor F V → List String → Scan F V
    scan_lines c [] = (c, none)
    scan_lines c (l ∷ ls) = elim (scan_line c l) [
      | err x ↦ (c, some x)
      | ok after ↦ scan_lines after ls
    ]

    abbrev pub start_cursor : V → Cursor F V
    start_cursor v = record { prev = ""; head = zero_record; want_seq = 1; count = 0; seen = v }

    unfoldable pub scan_verified : V → Option String → Scan F V
    scan_verified v none = (start_cursor v, some not_exist)
    scan_verified v (some text) = scan_lines (start_cursor v) (lines text)

  -- The scans with a nil visitor.
  abbrev pub no_visit : Record F → Unit {0} → Unit {0}
  no_visit r v = v

  unfoldable pub scan_head : Option String → Scan F Unit
  scan_head ledger = scan_verified no_visit tt ledger
