-- ===== src/Replication/Runs.antt =====
-- Runs of the sealed stream with a cipher that only frames its input.
use repo_ark.Prelude.{
  All, ℕ, zero, suc, ◌+◌, ◌≡◌, refl, ap, Option, none, some, List, [], ◌∷◌, ◌++◌, length-append,
  if◌then◌else◌, arith,
}
use repo_ark.Prelude.Text.{eqs}
use repo_ark.Replication.{Cryptography, Read, Sealed, encrypt, decrypt}
use repo_ark.Replication.Frames.{Bytes, same_bytes, same_bytes_refl, read_full, read_full-append}
use repo_ark.Replication.RoundTrip.{IsRead, IsCipher, decrypt-encrypt}

abbrev first : Bytes → ℕ
first [] = 0
first (x ∷ xs) = x

abbrev zeros : ℕ → Bytes
zeros zero = []
zeros (suc n) = 0 ∷ zeros n

abbrev tag_of : Bytes → Bytes
tag_of key = first key ∷ zeros 15

-- A cipher whose tag is the first byte of the key, and a key agreement by addition.
abbrev checked : Bytes → Option (Bytes × Bytes) → Option Bytes
checked key none = none
checked key (some (tag, plain)) = if same_bytes tag (tag_of key) then some plain else none

abbrev toy : Cryptography
toy = record {
  decode_public = λ s. if eqs s "BQ" then some (5 ∷ zeros 31) else none;
  new_public = λ k. some k;
  public_of = λ k. first k ∷ zeros 31;
  ecdh = λ a b. some ((first a + first b) ∷ []);
  hmac = λ k x. x ++ k;
  seal = λ key nonce plain. tag_of key ++ plain;
  unseal = λ key nonce sealed. checked key (read_full 16 sealed);
}

toy-opens : (key nonce plain : Bytes) → toy.unseal key nonce (toy.seal key nonce plain) ≡ some plain
toy-opens key nonce plain =
    rw (read_full-append (tag_of key) plain 16 refl, same_bytes_refl (tag_of key)) refl

toy-IsCipher : IsCipher toy
toy-IsCipher = record {
  opens = toy-opens;
  tag = λ key nonce plain. omega (arith, length-append (tag_of key) plain);
  key_length = λ k. refl;
  reads_key = λ k. refl;
  agrees = λ a b. ap (λ n. some (n ∷ [])) (omega arith);
}

-- Two reads with one between them that gave nothing.
abbrev reads : List Read
reads =
    record { bytes = 1 ∷ 2 ∷ []; nonce = zeros 12 }
    ∷ record { bytes = []; nonce = zeros 12 }
    ∷ record { bytes = 3 ∷ []; nonce = zeros 12 }
    ∷ []

reads-fit : All IsRead reads
reads-fit = (
  record { fits = omega arith; nonce_length = refl },
  (
    record { fits = omega arith; nonce_length = refl },
    (record { fits = omega arith; nonce_length = refl }, tt),
  ),
)

decrypt-encrypt_example :
    (out : Bytes) × (encrypt toy "BQ" (7 ∷ []) reads ≡ Sealed.ok out)
    × (decrypt toy (5 ∷ []) out ≡ (1 ∷ 2 ∷ 3 ∷ [], none))
decrypt-encrypt_example =
    decrypt-encrypt toy toy-IsCipher "BQ" (5 ∷ []) (7 ∷ []) (12 ∷ []) reads refl refl reads-fit
