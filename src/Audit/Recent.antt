-- ===== src/Audit/Recent.antt =====
-- Recent and RecentIfExists of internal/audit/recent.go: the newest records in a ring buffer that
-- the scan fills.
pub mod Buffer
pub mod Newest
use repo_ark.Prelude.{
  ℕ, zero, suc, ◌+◌, ◌-◌, ◌%◌, String, Bool, true, ◌||◌, Option, none, some, List, [], ◌∷◌, ltb,
  ◌==◌, if◌then◌else◌,
}
use repo_ark.Prelude.Int.{ℤ, pos, lei, lti, pos_part}
use repo_ark.Prelude.Text.{eqs, trim_space}
use repo_ark.Audit.Ledger.{
  Record, Encoding, AuditError, path_empty, not_exist, Result, ok, err, Scan, scan_verified,
  zero_record,
}
use repo_ark.Audit.Recent.Buffer.{Ring, empty_ring, push, read_back}

abbrev pub max_recent_records : ℕ
max_recent_records = 4096

-- min(limit, maxRecentRecords) of a positive limit
abbrev pub capped : ℤ → ℕ
capped limit = if lti (pos max_recent_records) limit then max_recent_records else pos_part limit

-- The filter of the visitor.
abbrev pub is_wanted : {F : Type 0} → String → Record F → Bool
is_wanted action r = eqs action "" || eqs r.action action

module _ {F : Type 0} (e : Encoding F) where
  -- The visitor.
  abbrev pub keep_recent : ℕ → String → Record F → Ring (Record F) → Ring (Record F)
  keep_recent limit action r ring = if is_wanted action r then push limit r ring else ring

  -- The error of the scan, or the ring from its newest record.
  abbrev pub read_scan : ℕ → Scan F (Ring (Record F)) → Result (List (Record F))
  read_scan n (c, some y) = err y
  read_scan n (c, none) = ok (read_back (zero_record e) n c.seen)

  unfoldable pub recent : String → Option String → ℤ → String → Result (List (Record F))
  recent path ledger limit action =
      if lei limit (pos 0)
      then ok []
      else if eqs (trim_space path) ""
      then err path_empty
      else let n = capped limit in
        read_scan n (
          scan_verified e (keep_recent n (trim_space action)) (empty_ring (zero_record e) n) ledger)

  -- An absent ledger is an empty history.
  abbrev pub or_empty : Result (List (Record F)) → Result (List (Record F))
  or_empty (err not_exist) = ok []
  or_empty r = r

  unfoldable pub recent_if_exists : String → Option String → ℤ → String → Result (List (Record F))
  recent_if_exists path ledger limit action = or_empty (recent path ledger limit action)
