-- ===== src/Replication/RoundTrip.antt =====
-- Encrypt and Decrypt of internal/replication/crypto.go, one after the other.
use repo_ark.Prelude.{
  ℕ, zero, suc, ◌+◌, ◌≤◌, ◌<◌, String, ◌≡◌, ap, refl, true, false, none, some, List, [], ◌∷◌, ◌++◌,
  length, length-append, All, ltb, ◌==◌, ◌∙◌, Bool-cases, inl, inr, arith,
}
use repo_ark.Replication.{
  Cryptography, Read, Sealed, chunk_size, max_frame, nonce_size, magic, frame, seal_reads, encrypt,
  open_frames, open_body, decrypt, after_plain, derive_key,
}
use repo_ark.Replication.Frames.{Bytes, read_full, be32, read_full-append, of_be32-be32}

-- What the packages of the standard library document: GCM opens what it sealed and adds a tag of 16
-- bytes; an X25519 key has 32 bytes and is read back; both sides agree on the shared secret.
pub record IsCipher (c : Cryptography) : Type 0 where
  pub opens : (key nonce plain : Bytes) → c.unseal key nonce (c.seal key nonce plain) ≡ some plain
  pub tag : (key nonce plain : Bytes) → length (c.seal key nonce plain) ≡ length plain + 16
  pub key_length : (k : Bytes) → length (c.public_of k) ≡ 32
  pub reads_key : (k : Bytes) → c.new_public (c.public_of k) ≡ some (c.public_of k)
  pub agrees : (a b : Bytes) → c.ecdh a (c.public_of b) ≡ c.ecdh b (c.public_of a)

-- A read into the buffer, with a nonce.
pub record IsRead (r : Read) : Type 0 where
  pub fits : length r.bytes ≤ chunk_size
  pub nonce_length : length r.nonce ≡ nonce_size

-- The bytes of the source.
abbrev pub source_bytes : List Read → Bytes
source_bytes [] = []
source_bytes (r ∷ rest) = r.bytes ++ source_bytes rest

append_assoc : (xs ys zs : Bytes) → (xs ++ ys) ++ zs ≡ xs ++ (ys ++ zs)
append_assoc [] ys zs = refl
append_assoc (x ∷ xs) ys zs = ap (λ ts. x ∷ ts) (append_assoc xs ys zs)

no_bytes : (xs ys : Bytes) → (length xs == 0) ≡ true → xs ++ ys ≡ ys
no_bytes [] ys e = refl
no_bytes (x ∷ xs) ys e = ground arith

length-be32 : (n : ℕ) → length (be32 n) ≡ 4
unfolding be32
length-be32 n = refl

module _ (c : Cryptography) (i : IsCipher c) where
  -- The frame of a read at the head of the stream is opened to the bytes of the read.
  opens_frame :
      (key : Bytes) (r : Read) (later : Bytes) (fuel : ℕ)
      → IsRead r
      → open_frames c key (suc fuel) (frame c key r ++ later)
        ≡ after_plain c r.bytes (open_frames c key fuel later)
  unfolding open_frames
  opens_frame key r later fuel w =
      let sealed = c.seal key r.nonce r.bytes in
      let n = length sealed in
      let t : n ≡ length r.bytes + 16 = i.tag key r.nonce r.bytes in
      let whole : frame c key r ++ later ≡ be32 n ++ (r.nonce ++ (sealed ++ later)) =
        append_assoc (be32 n) (r.nonce ++ sealed) later
        ∙ ap (λ zs. be32 n ++ zs) (append_assoc r.nonce sealed later) in
      let head = read_full-append (be32 n) (r.nonce ++ (sealed ++ later)) 4 (length-be32 n) in
      let small = w.fits in
      let back = of_be32-be32 n (omega arith) in
      let some_bytes : (n == 0) ≡ false = ground arith in
      let allowed : ltb max_frame n ≡ false = ground arith in
      let nonce = read_full-append r.nonce (sealed ++ later) nonce_size w.nonce_length in
      let body = read_full-append sealed later n refl in
      rw
        (
          open_frames,
          whole,
          head,
          back,
          some_bytes,
          allowed,
          nonce,
          back,
          body,
          i.opens key r.nonce r.bytes,
        )
        refl

  -- The frames of some reads and the end mark, which is what the loop of Encrypt writes.
  pub record IsStream (key : Bytes) (reads : List Read) (out : Bytes) : Type 0 where
    pub written : seal_reads c key reads ≡ Sealed.ok out
    pub opened :
        (fuel : ℕ) → length out < fuel → open_frames c key fuel out ≡ (source_bytes reads, none)

  ended : (key : Bytes) (fuel : ℕ) → 0 < fuel → open_frames c key fuel (be32 0) ≡ ([], none)
  unfolding open_frames read_full be32
  ended key zero h = absurd (omega arith)
  ended key (suc fuel) h = refl

  opens_next :
      (key : Bytes) (r : Read) (rest : List Read) (out : Bytes)
      → IsRead r
      → IsStream key rest out
      → (fuel : ℕ) → length (frame c key r ++ out) < fuel
      → open_frames c key fuel (frame c key r ++ out) ≡ (r.bytes ++ source_bytes rest, none)
  opens_next key r rest out w s zero h = absurd (omega arith)
  opens_next key r rest out w s (suc fuel) h =
      let sealed = c.seal key r.nonce r.bytes in
      let a = length-append (be32 (length sealed) ++ (r.nonce ++ sealed)) out in
      let b = length-append (be32 (length sealed)) (r.nonce ++ sealed) in
      let d = length-be32 (length sealed) in
      opens_frame key r out fuel w ∙ ap (after_plain c r.bytes) (s.opened fuel (omega arith))

  seals :
      (key : Bytes) (reads : List Read) → All IsRead reads → (out : Bytes) × IsStream key reads out
  unfolding seal_reads
  seals key [] w =
      (be32 0, record { written = refl; opened = λ fuel h. ended key fuel (omega arith) })
  seals key (r ∷ rest) w =
      let (out, s) = seals key rest w.1 in
      let t = i.tag key r.nonce r.bytes in
      let small = w.0.fits in
      let allowed : ltb max_frame (length (c.seal key r.nonce r.bytes)) ≡ false = ground arith in
      elim (Bool-cases (length r.bytes == 0)) [
        | inl e ↦ (
          out,
          record {
            written = rw e s.written;
            opened = λ fuel h. rw (no_bytes r.bytes (source_bytes rest) e) (s.opened fuel h);
          },
        )
        | inr e ↦ (
          frame c key r ++ out,
          record {
            written = rw (e, allowed, s.written) refl;
            opened = opens_next key r rest out w.0 s;
          },
        )
      ]

  opens_body :
      (private ephemeral shared body : Bytes) (reads : List Read)
      → c.ecdh ephemeral (c.public_of private) ≡ some shared
      → IsStream (derive_key c shared (c.public_of ephemeral) (c.public_of private)) reads body
      → open_body c private (c.public_of ephemeral ++ body) ≡ (source_bytes reads, none)
  unfolding open_body
  opens_body private ephemeral shared body reads agreed s =
      let raw = read_full-append (c.public_of ephemeral) body 32 (i.key_length ephemeral) in
      let same = i.agrees private ephemeral ∙ agreed in
      rw (open_body, raw, i.reads_key ephemeral, same) (s.opened (suc (length body)) (omega arith))

  -- What Encrypt writes for a public key is decrypted with its private key to the bytes of the
  -- source, without an error, however the source is cut into reads of at most the chunk size, each
  -- with a nonce of its size. This where the key is decoded and ECDH of the two keys succeeds, for a
  -- cryptography that does what its packages document.
  pub decrypt-encrypt :
      (destination : String) (private ephemeral shared : Bytes) (reads : List Read)
      → c.decode_public destination ≡ some (c.public_of private)
      → c.ecdh ephemeral (c.public_of private) ≡ some shared
      → All IsRead reads
      → (out : Bytes) × (encrypt c destination ephemeral reads ≡ Sealed.ok out)
        × (decrypt c private out ≡ (source_bytes reads, none))
  unfolding encrypt decrypt
  decrypt-encrypt destination private ephemeral shared reads named agreed w =
      let public = c.public_of ephemeral in
      let (body, s) = seals (derive_key c shared public (c.public_of private)) reads w in
      let whole = append_assoc magic public body in
      let head = read_full-append magic (public ++ body) (length magic) refl in
      (
        (magic ++ public) ++ body,
        rw (encrypt, named, i.reads_key private, agreed, s.written) refl,
        rw (decrypt, whole, head) (opens_body private ephemeral shared body reads agreed s),
      )
