-- ===== src/Prelude/Text.antt =====
-- Go strings: equality, order by bytes, trimming and case folding. The order of UTF-8 bytes is the
-- order of code points, which `compare` of the native texts follows.
use Prim.Native.Char.{code}
use Prim.Native.Nat.{ℕ, Ordering, ◌+◌}
use Prim.Native.String.{String, compare}
use mathlib.Core.Path.{◌≡◌, refl}
use mathlib.Core.Bool.{Bool, true, false, ◌||◌, ◌&&◌}
use native.Mathlib.Omega.{arith}
use text.Mathlib.Text.{◌==◌ as eq_text}
pub use text.Mathlib.TextEquality.{eq_iff}
use repo_ark.Prelude.Tests.{leb, ◌==◌ as eq_num, if◌then◌else◌}

-- s == t
abbrev pub eqs : String → String → Bool
eqs s t = eq_text s t

-- s < t
abbrev pub lts : String → String → Bool
lts s t = elim (compare s t) [ Ordering.lt ↦ true | _ ↦ false ]

-- The white space of Unicode, as strings.TrimSpace trims it.
is_space : ℕ → Bool
is_space c =
    (leb 9 c && leb c 13)
    || eq_num c 32
    || eq_num c 0x85
    || eq_num c 0xa0
    || eq_num c 0x1680
    || (leb 0x2000 c && leb c 0x200a)
    || eq_num c 0x2028
    || eq_num c 0x2029
    || eq_num c 0x202f
    || eq_num c 0x205f
    || eq_num c 0x3000

trim_left : String → String
unfolding is_space
trim_left String.[] = ""
trim_left (String.◌∷◌ c s) = if is_space (code c) then trim_left s else (String.◌∷◌ c s)

trim_right : String → String
unfolding is_space
trim_right String.[] = ""
trim_right (String.◌∷◌ c s) =
    let rest = trim_right s in if is_space (code c) && eqs rest "" then "" else (String.◌∷◌ c rest)

-- strings.TrimSpace
unfoldable pub trim_space : String → String
unfolding trim_left trim_right
trim_space s = trim_right (trim_left s)

fold_code : ℕ → ℕ
fold_code c = if leb 65 c && leb c 90 then c + 32 else c

-- strings.EqualFold, with the case folding of ASCII.
unfoldable pub equal_fold : String → String → Bool
unfolding fold_code
equal_fold String.[] String.[] = true
equal_fold (String.◌∷◌ c s) (String.◌∷◌ d t) =
    eq_num (fold_code (code c)) (fold_code (code d)) && equal_fold s t
equal_fold _ _ = false

pub equal_fold_refl : (s : String) → equal_fold s s ≡ true
unfolding equal_fold
equal_fold_refl String.[] = refl
equal_fold_refl (String.◌∷◌ c s) = ground (arith, equal_fold_refl s)

pub equal_fold_sym : (s t : String) → equal_fold s t ≡ true → equal_fold t s ≡ true
unfolding equal_fold
equal_fold_sym String.[] String.[] h = h
equal_fold_sym String.[] (String.◌∷◌ d t) h = h
equal_fold_sym (String.◌∷◌ c s) String.[] h = h
equal_fold_sym (String.◌∷◌ c s) (String.◌∷◌ d t) h = ground (arith, equal_fold_sym s t)

pub equal_fold_trans :
    (s t u : String) → equal_fold s t ≡ true → equal_fold t u ≡ true → equal_fold s u ≡ true
unfolding equal_fold
equal_fold_trans String.[] String.[] u h k = k
equal_fold_trans String.[] (String.◌∷◌ d t) u h k = absurd (ground arith)
equal_fold_trans (String.◌∷◌ c s) String.[] u h k = absurd (ground arith)
equal_fold_trans (String.◌∷◌ c s) (String.◌∷◌ d t) String.[] h k = k
equal_fold_trans (String.◌∷◌ c s) (String.◌∷◌ d t) (String.◌∷◌ b u) h k =
    ground (arith, equal_fold_trans s t u)

-- Only the empty text is equal to the empty one.
pub equal_fold_empty : (s : String) → equal_fold s "" ≡ true → eqs s "" ≡ true
unfolding equal_fold
equal_fold_empty String.[] h = refl
equal_fold_empty (String.◌∷◌ c s) h = absurd (ground arith)

trim_test : trim_space "  a b\t" ≡ "a b"
unfolding trim_space
trim_test = refl

fold_test : equal_fold "Node-A" "nODE-a" ≡ true
unfolding equal_fold
fold_test = refl
