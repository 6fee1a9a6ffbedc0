-- ===== src/Replication/Frames.antt =====
-- Bytes of the sealed stream of internal/replication/crypto.go: io.ReadFull, and a uint32 in big-endian
-- order.
use Prim.Native.Char.{code}
use repo_ark.Prelude.{
  ℕ, zero, suc, ◌+◌, ◌*◌, ◌/◌, ◌%◌, ◌<◌, String, ◌≡◌, refl, ap, Bool, true, false, ◌&&◌, Option,
  none, some, List, [], ◌∷◌, ◌++◌, length, ◌==◌, arith,
}

abbrev pub Bytes : Type 0
Bytes = List ℕ

-- []byte(s) of an ASCII text
abbrev pub text_bytes : String → Bytes
text_bytes String.[] = []
text_bytes (String.◌∷◌ c s) = code c ∷ text_bytes s

abbrev pub same_bytes : Bytes → Bytes → Bool
same_bytes [] [] = true
same_bytes (x ∷ xs) (y ∷ ys) = (x == y) && same_bytes xs ys
same_bytes _ _ = false

-- io.ReadFull of n bytes: what was read and what is left, or none at an early end
abbrev pub ahead : ℕ → Option (Bytes × Bytes) → Option (Bytes × Bytes)
ahead x none = none
ahead x (some (xs, rest)) = some (x ∷ xs, rest)

unfoldable pub read_full : ℕ → Bytes → Option (Bytes × Bytes)
read_full zero xs = some ([], xs)
read_full (suc n) [] = none
read_full (suc n) (x ∷ xs) = ahead x (read_full n xs)

unfoldable pub be32 : ℕ → Bytes
be32 n = n / 16777216 % 256 ∷ n / 65536 % 256 ∷ n / 256 % 256 ∷ n % 256 ∷ []

abbrev pub of_be32 : Bytes → ℕ
of_be32 (a ∷ b ∷ c ∷ d ∷ rest) = a * 16777216 + b * 65536 + c * 256 + d
of_be32 _ = 0

pub read_full-append :
    (xs rest : Bytes) (n : ℕ) → length xs ≡ n → read_full n (xs ++ rest) ≡ some (xs, rest)
unfolding read_full
read_full-append [] rest zero h = refl
read_full-append [] rest (suc n) h = absurd (omega arith)
read_full-append (x ∷ xs) rest zero h = absurd (omega arith)
read_full-append (x ∷ xs) rest (suc n) h = ap (ahead x) (read_full-append xs rest n (omega arith))

pub of_be32-be32 : (n : ℕ) → n < 4294967296 → of_be32 (be32 n) ≡ n
unfolding be32
of_be32-be32 n h = omega arith

pub same_bytes_refl : (xs : Bytes) → same_bytes xs xs ≡ true
same_bytes_refl [] = refl
same_bytes_refl (x ∷ xs) = ground (arith, same_bytes_refl xs)
