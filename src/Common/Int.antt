-- ===== src/Common/Int.antt =====
-- C's `int` as an integer: `negsuc n` is -(n + 1).
use mathlib.Core.Bool.{Bool, true, false}
use Prim.Native.Nat.{ℕ, zero, suc, ◌-◌, ◌%◌, ◌^◌}

pub data ℤ : Type 0 where
  pos : ℕ → ℤ
  negsuc : ℕ → ℤ

-- The low `w` bits of an integer in two's complement, as `& ((1 << w) - 1)` takes them.
abbrev pub low_bits : ℤ → ℕ → ℕ
low_bits (pos n) w = n % 2 ^ w
low_bits (negsuc n) w = 2 ^ w - suc (n % 2 ^ w)

-- `x - 1` and `~x` on an `int`.
abbrev pub pred_ℤ : ℤ → ℤ
pred_ℤ (pos zero) = negsuc 0
pred_ℤ (pos (suc n)) = pos n
pred_ℤ (negsuc n) = negsuc (suc n)

abbrev pub not_ℤ : ℤ → ℤ
not_ℤ (pos n) = negsuc n
not_ℤ (negsuc n) = pos n

-- `x != 0`, as a condition reads an `int`.
abbrev pub is_nonzero : ℤ → Bool
is_nonzero (pos zero) = false
is_nonzero (pos (suc n)) = true
is_nonzero (negsuc n) = true

-- The rounds of `for (i = 0; i < x; i++)`.
abbrev pub rounds : ℤ → ℕ
rounds (pos n) = n
rounds (negsuc n) = 0
