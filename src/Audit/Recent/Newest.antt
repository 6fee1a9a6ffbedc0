-- ===== src/Audit/Recent/Newest.antt =====
-- Recent of internal/audit/recent.go gives the newest matching records of the verified ledger.
use repo_ark.Prelude.{
  ℕ, ◌<◌, ◌<◌, String, ◌≡◌, refl, ◌∙◌, ap, false, Option, none, some, List, [], ◌∷◌, arith,
  Bool-cases, Option-cases, inl, inr, take, select,
}
use repo_ark.Prelude.Int.{ℤ, pos, lei}
use repo_ark.Prelude.Text.{eqs, trim_space}
use repo_ark.Audit.Ledger.{Record, Encoding, ok, err, scan_verified, zero_record}
use repo_ark.Audit.Tamper.{collect, newest_first}
use repo_ark.Audit.Visits.{scan_verified-Agree}
use repo_ark.Audit.Recent.{recent, capped, is_wanted, keep_recent, read_scan}
use repo_ark.Audit.Recent.Buffer.{Ring, empty_ring, Holds, Holds-empty, Holds-push, read_back_lem}

module _ {F : Type 0} (e : Encoding F) where
  capped_pos : (limit : ℤ) → lei limit (pos 0) ≡ false → 0 < capped limit
  capped_pos limit h = ground arith

  -- The ring of the visitor holds the matching records of those that were seen.
  keep_recent-Holds :
      (n : ℕ) (action : String) (r : Record F) (seen : List (Record F)) (ring : Ring (Record F))
      → Holds (zero_record e) n (select (is_wanted action) seen) ring
      → Holds
          (zero_record e)
          n
          (select (is_wanted action) (r ∷ seen))
          (keep_recent e n action r ring)
  keep_recent-Holds n action r seen ring h = elim (Bool-cases (is_wanted action r)) [
    | inl q ↦ rw q (Holds-push (zero_record e) r n (select (is_wanted action) seen) ring h)
    | inr q ↦ rw q h
  ]

  -- Recent with a positive limit fails exactly where the scan fails and with its error; otherwise
  -- it gives the records whose action is the trimmed one, or all for an empty one, the newest first,
  -- as many as there are up to the limit, which is at most 4096.
  pub recent_newest :
      (path : String) (ledger : Option String) (limit : ℤ) (action : String)
      → lei limit (pos 0) ≡ false
      → eqs (trim_space path) "" ≡ false
      → recent e path ledger limit action ≡ (elim (scan_verified e (collect e) [] ledger).1 [
        | some x ↦ err x
        | none ↦
            ok
              (take (capped limit) (select (is_wanted (trim_space action)) (newest_first e ledger)))
      ])
  unfolding recent
  recent_newest path ledger limit action positive named =
      let n = capped limit in
      let z = zero_record e in
      let (ring, holds, p) =
        scan_verified-Agree e (collect e) (keep_recent e n (trim_space action))
          (λ seen r. Holds z n (select (is_wanted (trim_space action)) seen) r)
          (λ r seen w. keep_recent-Holds n (trim_space action) r seen w) [] (empty_ring z n) ledger
          (Holds-empty z n (capped_pos limit positive)) in
      let found = read_back_lem z n _ ring holds in
      rw (positive, named)
        (ap (read_scan e n) p ∙ elim (Option-cases (scan_verified e (collect e) [] ledger).1) [
          | inl q ↦ rw q (ap (λ (rs : List (Record F)). ok rs) found)
          | inr (x, q) ↦ rw q refl
        ])
