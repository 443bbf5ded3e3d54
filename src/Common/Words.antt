-- ===== src/Common/Words.antt =====
-- Fixed-width unsigned words: the wrap-around of C written out.
use Prim.Native.Nat.{ℕ, ◌-◌, ◌*◌, ◌/◌, ◌%◌, ◌^◌}

abbrev pub u16 : ℕ → ℕ
u16 n = n % 2 ^ 16

abbrev pub u32 : ℕ → ℕ
u32 n = n % 2 ^ 32

-- `x << k` and `x >> k` on a `uint32`.
abbrev pub shl32 : ℕ → ℕ → ℕ
shl32 x k = x * 2 ^ k % 2 ^ 32

abbrev pub shr : ℕ → ℕ → ℕ
shr x k = x / 2 ^ k

-- `(1 << w) - 1`.
abbrev pub low_mask : ℕ → ℕ
low_mask w = 2 ^ w - 1

-- `~x` on a `uint32`.
abbrev pub not32 : ℕ → ℕ
not32 x = 2 ^ 32 - 1 - x
