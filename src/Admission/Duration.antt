-- ===== src/Admission/Duration.antt =====
-- `std::time::Duration` and `Instant`, in nanoseconds. An operation named `checked` is `none` where
-- the result cannot be represented.
use keep_afloat_d.Prelude.{ℕ, ◌+◌, ◌*◌, min, Option, none, some, leb, if◌then◌else◌, u64_max}

abbrev pub millis : ℕ → ℕ
millis ms = ms * 1000000

abbrev pub seconds : ℕ → ℕ
seconds s = s * 1000000000

-- `Duration::MAX`
abbrev pub duration_max : ℕ
duration_max = 18446744073709551615999999999

abbrev pub u32_max : ℕ
u32_max = 4294967295

-- `n` if it is at most `limit`.
abbrev pub checked : ℕ → ℕ → Option ℕ
checked limit n = if leb n limit then some n else none

abbrev pub checked_mul : ℕ → ℕ → Option ℕ
checked_mul d k = checked duration_max (d * k)

abbrev pub checked_add : ℕ → ℕ → Option ℕ
checked_add d e = checked duration_max (d + e)

abbrev pub saturating_duration_add : ℕ → ℕ → ℕ
saturating_duration_add d e = min (d + e) duration_max

-- `u64::saturating_mul`
abbrev pub saturating_mul : ℕ → ℕ → ℕ
saturating_mul a b = min (a * b) u64_max
