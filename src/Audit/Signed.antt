-- ===== src/Audit/Signed.antt =====
-- AppendWithCheckpoint of internal/audit/checkpoint.go, followed by VerifyCheckpoint.
use Prim.Native.String.{len}
use repo_ark.Prelude.{
  ◌<◌, String, ◌≡◌, ◌∙◌, ap, true, false, Option, none, some, arith, Option-cases, inl, inr, subst,
}
use repo_ark.Prelude.Text.{eqs, trim_space, equal_fold, equal_fold_refl}
use repo_ark.Prelude.Clock.{Time}
use repo_ark.Audit.Lines.{IsTerminated}
use repo_ark.Audit.Ledger.{
  Record, Encoding, ok, scan_head, unsigned, line_limit, Scan, Result-cases,
}
use repo_ark.Audit.Operations.{
  Event, Checkpoint, Signing, Files, append, append_locked, append_with_checkpoint,
  write_checkpoint_for_head, verify_checkpoint, matches_head, text_of,
}
use repo_ark.Audit.Extension.{Documented, append_extends, reread}

-- What encoding/json and crypto/ed25519 are documented to do.
pub record Verifiable {K P : Type 0} (s : Signing K P) : Type 0 where
  pub decoded :
      (cp : Checkpoint) (b : String)
      → s.marshal_checkpoint cp ≡ some b
      → s.unmarshal_checkpoint b ≡ some cp
  pub verified : (k : K) (text : String) → s.is_signed (s.public_of k) text (s.sign k text) ≡ true

module _ {F K P : Type 0} (e : Encoding F) (s : Signing K P) where
  -- The checkpoint of a successful write.
  record Issued (k : K) (now : Time) (head : Record F) (files after : Files P) : Type 0 where
    payload : String
    encoded :
        s.marshal_payload (record { seq = head.seq; hash = head.hash; created_at = now })
        ≡ some payload
    out : String
    printed :
        s.marshal_checkpoint (record {
          seq = head.seq;
          hash = head.hash;
          created_at = now;
          signature = s.sign k payload;
        })
        ≡ some out
    stored : after ≡ record files { checkpoint = some out; checkpoint_pub = some (s.public_of k) }

  write_checkpoint-Issued :
      (k : K) (now : Time) (head : Record F) (files after : Files P)
      → write_checkpoint_for_head e s (some k) now head files ≡ (after, none)
      → Issued k now head files after
  unfolding write_checkpoint_for_head
  write_checkpoint-Issued k now head files after h =
      elim (Option-cases
        (s.marshal_payload (record { seq = head.seq; hash = head.hash; created_at = now }))) [
          | inl q ↦ absurd (ground arith)
          | inr (payload, q) ↦
              elim (Option-cases (
                s.marshal_checkpoint (record {
                  seq = head.seq;
                  hash = head.hash;
                  created_at = now;
                  signature = s.sign k payload;
                }))) [
                  | inl p ↦ absurd (ground arith)
                  | inr (out, p) ↦ record {
                    payload = payload;
                    encoded = q;
                    out = out;
                    printed = p;
                    stored = ground arith;
                  }
                ]
        ]

  append_steps :
      (path : String) (now : Time) (ledger : Option String) (ev : Event F) (w : Record F)
      (text : String)
      → append e path now ledger ev ≡ ok (w, text)
      → (eqs (trim_space path) "" ≡ false) × (append_locked e now ledger ev ≡ ok (w, text))
  unfolding append
  append_steps path now ledger ev w text h = ground arith

  checkpoint_steps :
      (path : String) (key : Option K) (now later : Time) (files after : Files P) (ev : Event F)
      (w : Record F)
      → append_with_checkpoint e s path key now later files ev ≡ (after, ok (w, none))
      → (text : String) × (append e path now files.ledger ev ≡ ok (w, text))
        × (write_checkpoint_for_head e s key later w (record files { ledger = some text })
            ≡ (after, none))
  unfolding append_with_checkpoint
  checkpoint_steps path key now later files after ev w h =
      elim (Result-cases (append e path now files.ledger ev)) [
        | inl (y, q) ↦ absurd (ground arith)
        | inr ((r, text), q) ↦
            let same : r ≡ w = ground arith in
            (
              text,
              q ∙ ap (λ (x : Record F). ok (x, text)) same,
              subst
                  (λ (x : Record F).
                    write_checkpoint_for_head e s key later x (record files { ledger = some text })
                    ≡ (after, none))
                  same (ground arith),
            )
      ]

  module _ (v : Verifiable s) where
    matches_head_of :
        (k : K) (now : Time) (w head : Record F) (files after : Files P)
        → (i : Issued k now w files after) → head.seq ≡ w.seq
        → head.hash ≡ w.hash
        → matches_head e s (some (s.public_of k)) head (record {
          seq = w.seq;
          hash = w.hash;
          created_at = now;
          signature = s.sign k i.payload;
        })
          ≡ none
    unfolding matches_head
    matches_head_of k now w head files after i p q =
        let f : equal_fold head.hash w.hash ≡ true = rw q (equal_fold_refl w.hash) in
        rw (p, f, i.encoded, v.verified k i.payload) ground arith

    -- Verification under the signer's public key accepts the head that the checkpoint is for.
    accepted :
        (path : String) (k : K) (now : Time) (w : Record F) (files after : Files P)
        → eqs (trim_space path) "" ≡ false
        → Issued k now w files after
        → (scan_head e after.ledger).0.head.seq ≡ w.seq
        → (scan_head e after.ledger).0.head.hash ≡ w.hash
        → (scan_head e after.ledger).1 ≡ none
        → verify_checkpoint e s path (some (s.public_of k)) after ≡ none
    unfolding verify_checkpoint
    accepted path k now w files after named i p q x =
        let cp = v.decoded _ i.out i.printed in
        let m = matches_head_of k now w (scan_head e after.ledger).0.head files after i p q in
        let ck : after.checkpoint ≡ some i.out = ap (λ (f : Files P). f.checkpoint) i.stored in
        rw (ck, named, cp, x) m

    -- After AppendWithCheckpoint with a key has succeeded on a ledger that ends in a newline or is
    -- absent, VerifyCheckpoint under the key's public key accepts the files, where the written line
    -- is shorter than the scanner's limit and the record encodes to the same text after it was
    -- decoded.
    pub append_with_checkpoint_verifies :
        (d : Documented e) (path : String) (k : K) (now later : Time) (files after : Files P)
        (ev : Event F) (w : Record F)
        → IsTerminated (text_of files.ledger)
        → append_with_checkpoint e s path (some k) now later files ev ≡ (after, ok (w, none))
        → ((b : String) → e.marshal w ≡ some b → len b < line_limit)
        → e.marshal_unsigned (unsigned e (reread e d w)) ≡ e.marshal_unsigned (unsigned e w)
        → verify_checkpoint e s path (some (s.public_of k)) after ≡ none
    append_with_checkpoint_verifies d path k now later files after ev w t h short stable =
        let (text, appended, issued) =
          checkpoint_steps path (some k) now later files after ev w h in
        let (named, written) = append_steps path now files.ledger ev w text appended in
        let (_, _, _, scan) =
          append_extends e d now files.ledger ev w text t written short stable in
        let i =
          write_checkpoint-Issued k later w (record files { ledger = some text }) after issued in
        let same = ap (λ (f : Files P). scan_head e f.ledger) i.stored ∙ scan in
        accepted path k later w (record files { ledger = some text }) after named i
          (ap (λ (x : Scan F (Unit {0})). x.0.head.seq) same)
          (ap (λ (x : Scan F (Unit {0})). x.0.head.hash) same)
          (ap (λ (x : Scan F (Unit {0})). x.1) same)
