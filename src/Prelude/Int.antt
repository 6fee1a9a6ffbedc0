-- ===== src/Prelude/Int.antt =====
-- Go's int and int64: signed integers over the native numbers, with the wrap-around of 64 bits.
use Prim.Native.Nat.{ℕ, suc, ◌+◌, ◌-◌, ◌%◌, ◌^◌, ◌≤◌, ◌<◌}
use mathlib.Core.Path.{◌≡◌, refl, ap}
use mathlib.Core.Bool.{Bool, true}
use native.Mathlib.Omega.{arith}
use repo_ark.Prelude.Tests.{ltb, leb, ◌==◌, if◌then◌else◌}

-- `negsuc n` is -(n + 1).
pub data ℤ : Type 0 where
  pos : ℕ → ℤ
  negsuc : ℕ → ℤ

abbrev pub pos_part : ℤ → ℕ
pos_part (pos n) = n
pos_part (negsuc n) = 0

abbrev pub neg_part : ℤ → ℕ
neg_part (pos n) = 0
neg_part (negsuc n) = suc n

-- m - n, as an integer.
abbrev pub sub_ℕ : ℕ → ℕ → ℤ
sub_ℕ m n = if leb n m then pos (m - n) else negsuc (n - m - 1)

infixl 65 ◌+ℤ◌ ◌-ℤ◌
abbrev pub ◌+ℤ◌ : ℤ → ℤ → ℤ
x +ℤ y = sub_ℕ (pos_part x + pos_part y) (neg_part x + neg_part y)

abbrev pub ◌-ℤ◌ : ℤ → ℤ → ℤ
x -ℤ y = sub_ℕ (pos_part x + neg_part y) (neg_part x + pos_part y)

infix 50 ◌≤ℤ◌ ◌<ℤ◌
abbrev pub ◌≤ℤ◌ : ℤ → ℤ → Type 0
x ≤ℤ y = pos_part x + neg_part y ≤ pos_part y + neg_part x

abbrev pub ◌<ℤ◌ : ℤ → ℤ → Type 0
x <ℤ y = pos_part x + neg_part y < pos_part y + neg_part x

-- x < y, x <= y, x == y
abbrev pub lti : ℤ → ℤ → Bool
lti x y = ltb (pos_part x + neg_part y) (pos_part y + neg_part x)

abbrev pub lei : ℤ → ℤ → Bool
lei x y = leb (pos_part x + neg_part y) (pos_part y + neg_part x)

abbrev pub eqi : ℤ → ℤ → Bool
eqi x y = (pos_part x + neg_part y) == (pos_part y + neg_part x)

pub eqi_eq : (x y : ℤ) → eqi x y ≡ true → x ≡ y
eqi_eq (pos m) (pos n) h = ap pos (ground arith)
eqi_eq (pos m) (negsuc n) h = absurd (ground arith)
eqi_eq (negsuc m) (pos n) h = absurd (ground arith)
eqi_eq (negsuc m) (negsuc n) h = ap negsuc (ground arith)

abbrev pub half_range : ℕ
half_range = 2 ^ 63

-- The 64 bits of an integer, and the integer of 64 bits.
to_bits : ℤ → ℕ
to_bits (pos n) = n % 2 ^ 64
to_bits (negsuc n) = 2 ^ 64 - 1 - n % 2 ^ 64

of_bits : ℕ → ℤ
of_bits b = if ltb b (2 ^ 63) then pos b else negsuc (2 ^ 64 - 1 - b)

unfoldable pub wrap64 : ℤ → ℤ
unfolding to_bits of_bits
wrap64 x = of_bits (to_bits x)

-- x + y and x - y of int64
unfoldable pub add64 : ℤ → ℤ → ℤ
unfolding wrap64
add64 x y = wrap64 (x +ℤ y)

unfoldable pub sub64 : ℤ → ℤ → ℤ
unfolding wrap64
sub64 x y = wrap64 (x -ℤ y)

-- The range of int64.
abbrev pub IsInt64 : ℤ → Type 0
IsInt64 x = (pos_part x < 2 ^ 63) × (neg_part x ≤ 2 ^ 63)

-- Within the range nothing wraps.
pub wrap64-IsInt64 : (x : ℤ) → IsInt64 x → wrap64 x ≡ x
unfolding wrap64
wrap64-IsInt64 (pos n) h = ground arith
wrap64-IsInt64 (negsuc n) h = ground arith

pub wrap64_range : (x : ℤ) → IsInt64 (wrap64 x)
unfolding wrap64
wrap64_range x = ground arith

-- x++ below a bound of the range does not wrap.
pub add64_one : (x y : ℤ) → IsInt64 x → IsInt64 y → x <ℤ y → add64 x (pos 1) ≡ x +ℤ pos 1
unfolding add64
add64_one (pos n) y hx hy h = wrap64-IsInt64 (pos n +ℤ pos 1) (ground arith)
add64_one (negsuc n) y hx hy h = wrap64-IsInt64 (negsuc n +ℤ pos 1) (ground arith)

wraps : add64 (pos (2 ^ 63 - 1)) (pos 1) ≡ negsuc (2 ^ 63 - 1)
unfolding add64
wraps = refl
