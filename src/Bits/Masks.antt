-- ===== src/Bits/Masks.antt =====
-- `&` with masks and complements, as arithmetic.
use native.Mathlib.Nat.{pow-suc, one-le-pow}
use ajardsp.Common.{ℕ, zero, suc, ◌+◌, ◌-◌, ◌*◌, ◌/◌, ◌%◌, ◌^◌, ◌<◌, bit_and, ◌≡◌, refl, arith}
use ajardsp.Common.{ap, ap₂, ◌∙◌}
use ajardsp.Bits.Digit.{bit_and-half, bit_and-low}
use ajardsp.Bits.Laws.{bit_and-zero}

pow_even : (k : ℕ) → 2 ^ suc k ≡ 2 * 2 ^ k
pow_even k = omega (arith, pow-suc 2 k)

pub pow_pos : (k : ℕ) → 0 < 2 ^ k
pow_pos k = one-le-pow k 2 (omega arith)

mod_double : (a t : ℕ) → 0 < t → a % (2 * t) ≡ 2 * (a / 2 % t) + a % 2
mod_double a t pos = grind arith

mod_pow : (k a : ℕ) → a % 2 ^ suc k ≡ 2 * (a / 2 % 2 ^ k) + a % 2
mod_pow k a = rw (pow_even k) (mod_double a (2 ^ k) (pow_pos k))

complement_half : (k m : ℕ) → m < 2 ^ suc k → (2 ^ suc k - 1 - m) / 2 ≡ 2 ^ k - 1 - m / 2
complement_half k m q = omega (arith, pow_even k)

-- A word and a complementary pair of masks: the two parts add up to the word.
pub bit_and_complement :
    (k a m : ℕ) → a < 2 ^ k → m < 2 ^ k → bit_and a m + bit_and a (2 ^ k - 1 - m) ≡ a
bit_and_complement zero zero zero p q = refl
bit_and_complement zero zero (suc m) p q = absurd (omega arith)
bit_and_complement zero (suc a) m p q = absurd (omega arith)
bit_and_complement (suc k) a m p q =
    let c = 2 ^ suc k - 1 - m in
    let upper : bit_and a c / 2 ≡ bit_and (a / 2) (2 ^ k - 1 - m / 2) =
      bit_and-half a c ∙ ap (bit_and (a / 2)) (complement_half k m q) in
    omega (
      arith,
      pow_even k,
      bit_and-half a m,
      bit_and-low a m,
      upper,
      bit_and-low a c,
      bit_and_complement k (a / 2) (m / 2) (omega (arith, pow_even k)) (omega (arith, pow_even k)),
    )

-- A mask of `k` low bits is the remainder by `2 ^ k`.
pub bit_and-low_mask : (k a : ℕ) → bit_and a (2 ^ k - 1) ≡ a % 2 ^ k
bit_and-low_mask zero a = omega (arith, bit_and-zero a)
bit_and-low_mask (suc k) a =
    let m = 2 ^ suc k - 1 in
    let half : m / 2 ≡ 2 ^ k - 1 = omega (arith, pow_even k) in
    let upper : bit_and a m / 2 ≡ bit_and (a / 2) (2 ^ k - 1) =
      bit_and-half a m ∙ ap (bit_and (a / 2)) half in
    omega (
      arith,
      pow_even k,
      pow_pos k,
      mod_pow k a,
      upper,
      bit_and-low a m,
      bit_and-low_mask k (a / 2),
    )

mod_half : (k a : ℕ) → a % 2 ^ suc k / 2 ≡ a / 2 % 2 ^ k
mod_half k a = omega (arith, mod_pow k a)

-- Cutting both operands to `k` bits cuts the result.
pub bit_and-mod : (k a b : ℕ) → bit_and (a % 2 ^ k) (b % 2 ^ k) ≡ bit_and a b % 2 ^ k
bit_and-mod zero a b = rw (mod_one a, mod_one b, mod_one (bit_and a b))
  where
    mod_one : (x : ℕ) → x % 2 ^ 0 ≡ 0
    mod_one x = omega arith
bit_and-mod (suc k) a b =
    let x = a % 2 ^ suc k in
    let y = b % 2 ^ suc k in
    let upper : bit_and x y / 2 ≡ bit_and (a / 2 % 2 ^ k) (b / 2 % 2 ^ k) =
      bit_and-half x y ∙ ap₂ bit_and (mod_half k a) (mod_half k b) in
    omega (
      arith,
      mod_pow k a,
      mod_pow k b,
      mod_pow k (bit_and a b),
      upper,
      bit_and-low x y,
      bit_and-half a b,
      bit_and-low a b,
      bit_and-mod k (a / 2) (b / 2),
      ap (λ (t : ℕ). t % 2 ^ k) (bit_and-half a b),
    )
