-- ===== src/Prelude/Words.antt =====
-- Saturating arithmetic on `u64`. A `u64` is a native number; subtraction on ℕ stops at 0, as
-- `saturating_sub` does.
use Prim.Native.Nat.{ℕ, ◌+◌, ◌-◌, min}

abbrev pub u64_max : ℕ
u64_max = 18446744073709551615

abbrev pub saturating_add : ℕ → ℕ → ℕ
saturating_add a b = min (a + b) u64_max

abbrev pub saturating_sub : ℕ → ℕ → ℕ
saturating_sub a b = a - b
