-- ===== src/Replication.antt =====
-- The sealed stream of internal/replication/crypto.go, in which a generation travels from agent to
-- agent. A byte is a natural number. X25519, HMAC-SHA-256, AES-GCM and base64 are parameters, and so
-- are the reads of the source and the random numbers; keys are read from their files by the caller.
pub mod Frames
pub mod RoundTrip
mod Runs
use repo_ark.Prelude.{
  ℕ, zero, suc, ◌+◌, ◌*◌, ◌/◌, ◌%◌, String, Bool, true, false, not, Option, none, some, List, [],
  ◌∷◌, ◌++◌, length, take, ltb, leb, ◌==◌, if◌then◌else◌,
}
use repo_ark.Replication.Frames.{Bytes, same_bytes, text_bytes, read_full, be32, of_be32}

abbrev pub magic : Bytes
magic = text_bytes "RARKRPL1"

-- chunkSize and maxFrame
abbrev pub chunk_size : ℕ
chunk_size = 1048576

abbrev pub max_frame : ℕ
max_frame = chunk_size + 128

abbrev pub nonce_size : ℕ
nonce_size = 12

pub record Cryptography : Type 0 where
  -- base64.RawStdEncoding.DecodeString, then NewPublicKey
  pub decode_public : String → Option Bytes
  pub new_public : Bytes → Option Bytes
  -- the public key of a private one, and ECDH
  pub public_of : Bytes → Bytes
  pub ecdh : Bytes → Bytes → Option Bytes
  -- HMAC-SHA-256 of a text under a key
  pub hmac : Bytes → Bytes → Bytes
  -- AES-256-GCM under a key and a nonce
  pub seal : Bytes → Bytes → Bytes → Bytes
  pub unseal : Bytes → Bytes → Bytes → Option Bytes

pub data StreamError : Type 0 where
  bad_public_key no_shared_key frame_exceeded : StreamError
  unexpected_end bad_magic frame_too_large authentication_failed : StreamError

pub data Sealed : Type 0 where
  ok : Bytes → Sealed
  err : StreamError → Sealed

-- One read of the source: what it gave, and the nonce that is drawn for it.
pub record Read : Type 0 where
  pub bytes : Bytes
  pub nonce : Bytes

module _ (c : Cryptography) where
  -- HKDF in one block.
  unfoldable pub derive_key : Bytes → Bytes → Bytes → Bytes
  derive_key shared ephemeral destination =
      let prk = c.hmac (text_bytes "repoark-replication-x25519-v1") shared in
      take 32 (c.hmac prk (text_bytes "x25519-v1" ++ (ephemeral ++ (destination ++ (1 ∷ [])))))

  -- A frame: its length, its nonce, and the sealed bytes.
  abbrev pub frame : Bytes → Read → Bytes
  frame key r =
      let sealed = c.seal key r.nonce r.bytes in be32 (length sealed) ++ (r.nonce ++ sealed)

  -- The loop over the reads up to the end of the source; a read without bytes writes nothing.
  unfoldable pub seal_reads : Bytes → List Read → Sealed
  seal_reads key [] = ok (be32 0)
  seal_reads key (r ∷ rest) =
      if length r.bytes == 0
      then seal_reads key rest
      else if ltb max_frame (length (c.seal key r.nonce r.bytes))
      then err frame_exceeded
      else elim (seal_reads key rest) [ err x ↦ err x | ok out ↦ ok (frame key r ++ out) ]

  abbrev pub prepend : Bytes → Sealed → Sealed
  prepend head (ok out) = ok (head ++ out)
  prepend head (err x) = err x

  -- `ephemeral` is the private key that is generated.
  unfoldable pub encrypt : String → Bytes → List Read → Sealed
  encrypt destination ephemeral reads = elim (c.decode_public destination) [
    | none ↦ err bad_public_key
    | some raw ↦ elim (c.new_public raw) [
      | none ↦ err bad_public_key
      | some dest ↦ elim (c.ecdh ephemeral dest) [
        | none ↦ err no_shared_key
        | some shared ↦
            let public = c.public_of ephemeral in
            prepend (magic ++ public) (seal_reads (derive_key shared public dest) reads)
      ]
    ]
  ]

  -- What was written, and the error that ended the loop.
  abbrev pub Opened : Type 0
  Opened = Bytes × Option StreamError

  abbrev pub after_plain : Bytes → Opened → Opened
  after_plain plain (out, x) = (plain ++ out, x)

  -- The loop over the frames. Each turn reads at least four bytes, so that the number of bytes is
  -- fuel enough.
  unfoldable pub open_frames : Bytes → ℕ → Bytes → Opened
  open_frames key zero stream = ([], some unexpected_end)
  open_frames key (suc fuel) stream = elim (read_full 4 stream) [
    | none ↦ ([], some unexpected_end)
    | some (head, rest) ↦
        let n = of_be32 head in
        if n == 0
        then ([], none)
        else if ltb max_frame n
        then ([], some frame_too_large)
        else elim (read_full nonce_size rest) [
          | none ↦ ([], some unexpected_end)
          | some (nonce, body) ↦ elim (read_full n body) [
            | none ↦ ([], some unexpected_end)
            | some (sealed, later) ↦ elim (c.unseal key nonce sealed) [
              | none ↦ ([], some authentication_failed)
              | some plain ↦ after_plain plain (open_frames key fuel later)
            ]
          ]
        ]
  ]

  unfoldable pub open_body : Bytes → Bytes → Opened
  open_body private stream = elim (read_full 32 stream) [
    | none ↦ ([], some unexpected_end)
    | some (raw, rest) ↦ elim (c.new_public raw) [
      | none ↦ ([], some bad_public_key)
      | some ephemeral ↦ elim (c.ecdh private ephemeral) [
        | none ↦ ([], some no_shared_key)
        | some shared ↦
            open_frames (derive_key shared raw (c.public_of private)) (suc (length rest)) rest
      ]
    ]
  ]

  unfoldable pub decrypt : Bytes → Bytes → Opened
  decrypt private stream = elim (read_full (length magic) stream) [
    | none ↦ ([], some unexpected_end)
    | some (head, rest) ↦
        if not (same_bytes head magic) then ([], some bad_magic) else open_body private rest
  ]
