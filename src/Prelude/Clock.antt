-- ===== src/Prelude/Clock.antt =====
-- time.Time as nanoseconds since the zero time of Go (year 1, which IsZero tests), and
-- time.Duration as a 64-bit integer of nanoseconds. Instants before year 1 are not modelled.
use Prim.Native.Nat.{ℕ, ◌+◌, ◌-◌, ◌*◌, ◌^◌, min}
use mathlib.Core.Bool.{Bool}
use repo_ark.Prelude.Tests.{ltb, leb, ◌==◌, if◌then◌else◌}
use repo_ark.Prelude.Int.{ℤ, pos, negsuc, pos_part, neg_part, lei}

abbrev pub Time : Type 0
Time = ℕ

abbrev pub Duration : Type 0
Duration = ℤ

abbrev pub zero_time : Time
zero_time = 0

-- t.IsZero(), t.After(u), t.Before(u)
abbrev pub is_zero : Time → Bool
is_zero t = t == 0

abbrev pub is_after : Time → Time → Bool
is_after t u = ltb u t

abbrev pub is_before : Time → Time → Bool
is_before t u = ltb t u

-- t.Add(d)
abbrev pub time_add : Time → Duration → Time
time_add t d = t + pos_part d - neg_part d

-- t.Sub(u), which saturates at the ends of the range.
abbrev pub time_sub : Time → Time → Duration
time_sub t u =
    if leb u t then pos (min (t - u) (2 ^ 63 - 1)) else negsuc (min (u - t - 1) (2 ^ 63 - 1))

abbrev pub second : ℕ
second = 1000000000

abbrev pub minute : ℕ
minute = 60 * second

abbrev pub hour : ℕ
hour = 60 * minute

-- d <= 0 falls back to a default, as each `time.ParseDuration` of the configuration does.
abbrev pub positive_or : Duration → Duration → Duration
positive_or d fallback = if lei d (pos 0) then fallback else d
