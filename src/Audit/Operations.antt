-- ===== src/Audit/Operations.antt =====
-- Append, Verify and Head of internal/audit/ledger.go, and the signed checkpoint of checkpoint.go.
-- The time of the call is an argument; so are the keys that package signing finds.
use Prim.Native.String.{◌++◌ as ◌<>◌}
use repo_ark.Prelude.{ℕ, String, Bool, not, ◌||◌, Option, none, some, ◌==◌, if◌then◌else◌}
use repo_ark.Prelude.Text.{eqs, trim_space, equal_fold}
use repo_ark.Prelude.Clock.{Time}
use repo_ark.Audit.Ledger.{
  Record, Encoding, AuditError, not_exist, path_empty, cannot_encode, action_and_status_required,
  empty_ledger, no_key, no_checkpoint, bad_checkpoint, checkpoint_mismatch, bad_signature, Result,
  ok, err, next_seq, hash_record, scan_head, zero_record,
}

-- What Append is called with.
pub record Event (F : Type 0) : Type 0 where
  pub action : String
  pub target : String
  pub status : String
  pub detail : String
  pub fields : F

-- An absent ledger is an empty one for an append.
abbrev pub stops : Option AuditError → Option AuditError
stops none = none
stops (some not_exist) = none
stops (some x) = some x

abbrev pub text_of : Option String → String
text_of none = ""
text_of (some text) = text

module _ {F : Type 0} (e : Encoding F) where
  -- The record that follows a head, without its hash.
  abbrev pub next_record : Record F → Time → Event F → Record F
  next_record last now ev = record {
    seq = next_seq last.seq;
    time = now;
    action = trim_space ev.action;
    target = trim_space ev.target;
    status = trim_space ev.status;
    detail = trim_space ev.detail;
    fields = ev.fields;
    prev_hash = last.hash;
    hash = "";
  }

  -- The record and the new text of the file.
  unfoldable pub write_record : String → Record F → Result (Record F × String)
  write_record text r =
      if eqs r.action "" || eqs r.status ""
      then err action_and_status_required
      else elim (hash_record e r) [
        | none ↦ err cannot_encode
        | some h ↦
            let signed = record r { hash = h } in
            elim (e.marshal signed) [
              | none ↦ err cannot_encode
              | some b ↦ ok (signed, text <> (b <> "\n"))
            ]
      ]

  unfoldable pub append_locked : Time → Option String → Event F → Result (Record F × String)
  append_locked now ledger ev =
      let (c, x) = scan_head e ledger in
      elim (stops x) [
        | some y ↦ err y
        | none ↦ write_record (text_of ledger) (next_record c.head now ev)
      ]

  unfoldable pub append : String → Time → Option String → Event F → Result (Record F × String)
  append path now ledger ev =
      if eqs (trim_space path) "" then err path_empty else append_locked now ledger ev

  unfoldable pub verify : String → Option String → ℕ × Option AuditError
  verify path ledger =
      if eqs (trim_space path) ""
      then (0, some path_empty)
      else let (c, x) = scan_head e ledger in (c.count, x)

  unfoldable pub ledger_head : String → Option String → Record F × Option AuditError
  ledger_head path ledger =
      if eqs (trim_space path) ""
      then (zero_record e, some path_empty)
      else let (c, x) = scan_head e ledger in (c.head, x)

pub record Payload : Type 0 where
  pub seq : ℕ
  pub hash : String
  pub created_at : Time

pub record Checkpoint : Type 0 where
  pub seq : ℕ
  pub hash : String
  pub created_at : Time
  pub signature : String

-- The encoders of a checkpoint and the Ed25519 signatures of package signing, over private keys K
-- and public keys P.
pub record Signing (K P : Type 0) : Type 0 where
  pub marshal_payload : Payload → Option String
  pub marshal_checkpoint : Checkpoint → Option String
  pub unmarshal_checkpoint : String → Option Checkpoint
  pub sign : K → String → String
  pub is_signed : P → String → String → Bool
  pub public_of : K → P

-- The ledger's file and the two files beside it.
pub record Files (P : Type 0) : Type 0 where
  pub ledger : Option String
  pub checkpoint : Option String
  pub checkpoint_pub : Option P

module _ {F K P : Type 0} (e : Encoding F) (s : Signing K P) where
  -- The key is what EnsureKey gives.
  unfoldable pub write_checkpoint_for_head :
      Option K → Time → Record F → Files P → Files P × Option AuditError
  write_checkpoint_for_head key now head files =
      if head.seq == 0 || eqs (trim_space head.hash) ""
      then (files, some empty_ledger)
      else elim key [
        | none ↦ (files, some no_key)
        | some k ↦
            elim (s.marshal_payload
              (record { seq = head.seq; hash = head.hash; created_at = now })) [
                | none ↦ (files, some cannot_encode)
                | some b ↦
                    elim (s.marshal_checkpoint (record {
                      seq = head.seq;
                      hash = head.hash;
                      created_at = now;
                      signature = s.sign k b;
                    })) [
                      | none ↦ (files, some cannot_encode)
                      | some out ↦ (
                        record files {
                          checkpoint = some out;
                          checkpoint_pub = some (s.public_of k);
                        },
                        none,
                      )
                    ]
              ]
      ]

  unfoldable pub write_checkpoint : String → Option K → Time → Files P → Files P × Option AuditError
  write_checkpoint path key now files =
      if eqs (trim_space path) ""
      then (files, some path_empty)
      else let (c, x) = scan_head e files.ledger in
        elim x [ some y ↦ (files, some y) | none ↦ write_checkpoint_for_head key now c.head files ]

  -- A failed checkpoint leaves the record in the ledger.
  unfoldable pub append_with_checkpoint :
      String
      → Option K
      → Time
      → Time
      → Files P
      → Event F
      → Files P × Result (Record F × Option AuditError)
  append_with_checkpoint path key now later files ev = elim (append e path now files.ledger ev) [
    | err x ↦ (files, err x)
    | ok (r, text) ↦
        let (after, x) =
          write_checkpoint_for_head key later r (record files { ledger = some text }) in
        (after, ok (r, x))
  ]

  -- The comparison of a decoded checkpoint with the head, and its signature.
  unfoldable pub matches_head : Option P → Record F → Checkpoint → Option AuditError
  matches_head trusted head cp =
      if not (head.seq == cp.seq) || not (equal_fold head.hash cp.hash)
      then some checkpoint_mismatch
      else elim (s.marshal_payload
          (record { seq = cp.seq; hash = cp.hash; created_at = cp.created_at })) [
            | none ↦ some cannot_encode
            | some payload ↦ elim trusted [
              | none ↦ some no_key
              | some p ↦ if s.is_signed p payload cp.signature then none else some bad_signature
            ]
          ]

  -- The trusted key is what LoadPublic gives.
  unfoldable pub verify_checkpoint : String → Option P → Files P → Option AuditError
  verify_checkpoint path trusted files =
      if eqs (trim_space path) "" then some path_empty else elim files.checkpoint [
        | none ↦ some no_checkpoint
        | some b ↦ elim (s.unmarshal_checkpoint b) [
          | none ↦ some bad_checkpoint
          | some cp ↦
              let (c, x) = scan_head e files.ledger in
              elim x [ some y ↦ some y | none ↦ matches_head trusted c.head cp ]
        ]
      ]
