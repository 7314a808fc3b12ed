-- ===== src/Common/Int.antt =====
-- Go's int: a 64-bit integer, as the integer that it stands for. Sums that may pass 2^63 are written
-- with their wrap-around where they stand.
use Prim.Native.Nat.{ℕ, zero, suc, ◌<◌, ◌^◌}
use native.Mathlib.Omega.{arith}

-- `negsuc n` is -(n + 1).
pub data ℤ : Type 0 where
  pos : ℕ → ℤ
  negsuc : ℕ → ℤ

-- `if v <= 0 { v = d }` at a positive d
unfoldable pub positive_or : ℤ → ℕ → ℕ
positive_or (pos zero) d = d
positive_or (pos (suc n)) d = suc n
positive_or (negsuc n) d = d

pub positive_or-pos : (v : ℤ) (d : ℕ) → 0 < d → 0 < positive_or v d
unfolding positive_or
positive_or-pos (pos zero) d h = h
positive_or-pos (pos (suc n)) d h = omega arith
positive_or-pos (negsuc n) d h = h

abbrev pub int_limit : ℕ
int_limit = 2 ^ 63
