-- ===== src/Base/Words.antt =====
-- The `u64` counters, which saturate.
use Prim.Native.Nat.{ℕ, ◌+◌, min}

-- `u64::MAX`.
abbrev pub u64_max : ℕ
u64_max = 18446744073709551615

-- `u32::MAX`.
abbrev pub u32_max : ℕ
u32_max = 4294967295

-- `u64::saturating_add`.
abbrev pub sat_add : ℕ → ℕ → ℕ
sat_add a b = min (a + b) u64_max

-- `u32::saturating_add`.
abbrev pub sat_add32 : ℕ → ℕ → ℕ
sat_add32 a b = min (a + b) u32_max

-- `i32` values, which the program carries and never computes with. `negsuc n` is -(n + 1).
pub data ℤ : Type 0 where
  pos : ℕ → ℤ
  negsuc : ℕ → ℤ
