-- ===== src/Base/Int.antt =====
-- The signed integers, over the native `ℕ`, with what the code asks of `i32` and `i64`.
use Prim.Native.Nat.{ℕ, zero, suc, ◌-◌, ◌*◌, ◌/◌, ◌%◌, ◌^◌}
use rocksolid.Base.Tests.{ltb, leb, if◌then◌else◌}

-- `negsuc n` is - (n + 1).
pub data ℤ : Type 0 where
  pos negsuc : ℕ → ℤ

-- `n as i32` of a `usize`
unfoldable pub as_i32 : ℕ → ℤ
as_i32 n = let m = n % 2 ^ 32 in if ltb m (2 ^ 31) then pos m else negsuc (2 ^ 32 - 1 - m)

-- `x.max(m)` for a literal `m` that is not negative
unfoldable pub max : ℤ → ℕ → ℤ
max (pos n) m = if leb m n then pos n else pos m
max (negsuc n) m = pos m

-- `x / 2`, which rounds towards 0
unfoldable pub half : ℤ → ℤ
half (pos n) = pos (n / 2)
half (negsuc zero) = pos 0
half (negsuc (suc n)) = negsuc (n / 2)

-- `x.saturating_mul(m)` of an `i64`, for a literal `m` that is not negative
unfoldable pub saturating_mul_i64 : ℤ → ℕ → ℤ
saturating_mul_i64 (pos n) m = if leb (n * m) (2 ^ 63 - 1) then pos (n * m) else pos (2 ^ 63 - 1)
saturating_mul_i64 (negsuc n) zero = pos 0
saturating_mul_i64 (negsuc n) (suc m) =
    if leb (suc n * suc m) (2 ^ 63) then negsuc (suc n * suc m - 1) else negsuc (2 ^ 63 - 1)

-- `n.saturating_mul(m)` of a `usize` or a `u64`
unfoldable pub saturating_mul : ℕ → ℕ → ℕ
saturating_mul n m = if leb (n * m) (2 ^ 64 - 1) then n * m else 2 ^ 64 - 1

-- `n.max(m)` of a `usize`
unfoldable pub max_usize : ℕ → ℕ → ℕ
max_usize n m = if leb m n then n else m
