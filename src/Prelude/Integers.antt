-- ===== src/Prelude/Integers.antt =====
-- Signed integers over the native numbers, and the casts of Rust to them.
use Prim.Native.Nat.{ℕ, ◌-◌, ◌%◌, ◌^◌}
use hdfs_s3_gateway.Prelude.Tests.{ltb, if◌then◌else◌}

-- `negsuc n` is -(n + 1).
pub data ℤ : Type 0 where
  pos : ℕ → ℤ
  negsuc : ℕ → ℤ

-- The number whose two's complement in `w` bits is `n % 2 ^ w`.
unfoldable pub as_signed : ℕ → ℕ → ℤ
as_signed w n = let m = n % 2 ^ w in if ltb m (2 ^ (w - 1)) then pos m else negsuc (2 ^ w - 1 - m)

-- `n as i64` and `n as i32`
abbrev pub as_i64 : ℕ → ℤ
as_i64 = as_signed 64

abbrev pub as_i32 : ℕ → ℤ
as_i32 = as_signed 32
