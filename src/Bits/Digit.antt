-- ===== src/Bits/Digit.antt =====
-- The lowest digit and the rest of `a & b` and `a | b`.
use Prim.Native.Nat.{min, max, digits, bitwise, bit_and-bitwise, bit_or-bitwise}
use ajardsp.Common.{ℕ, zero, suc, ◌+◌, ◌*◌, ◌/◌, ◌%◌, ◌≤◌, bit_and, bit_or, ◌≡◌, refl, arith}

module _ (rest : ℕ → ℕ) (op : ℕ → ℕ → ℕ) where
  -- Fuel beyond the first operand changes nothing.
  enough_fuel : (f g a b : ℕ) → a ≤ f → a ≤ g → digits rest op f a b ≡ digits rest op g a b
  enough_fuel zero zero a b p q = refl
  enough_fuel zero (suc g) zero b p q = refl
  enough_fuel (suc f) zero zero b p q = refl
  enough_fuel (suc f) (suc g) zero b p q = refl
  enough_fuel zero (suc g) (suc a) b p q = absurd (omega arith)
  enough_fuel (suc f) zero (suc a) b p q = absurd (omega arith)
  enough_fuel (suc f) (suc g) (suc a) b p q =
      rw (enough_fuel f g (suc a / 2) (b / 2) (omega arith) (omega arith))

  one_digit :
      (a b : ℕ)
      → bitwise rest op (suc a) b ≡ bitwise rest op (suc a / 2) (b / 2) * 2 + op (suc a % 2) (b % 2)
  one_digit a b =
      omega (arith, enough_fuel a (suc a / 2) (suc a / 2) (b / 2) (omega arith) (omega arith))

and_digit : (a b : ℕ) → bit_and a b ≡ bit_and (a / 2) (b / 2) * 2 + min (a % 2) (b % 2)
and_digit zero b = simp bit_and-bitwise (omega arith)
and_digit (suc a) b = simp bit_and-bitwise (one_digit (λ y. 0) min a b)

or_digit : (a b : ℕ) → bit_or a b ≡ bit_or (a / 2) (b / 2) * 2 + max (a % 2) (b % 2)
or_digit zero b = simp bit_or-bitwise (omega arith)
or_digit (suc a) b = simp bit_or-bitwise (one_digit (λ y. y) max a b)

pub bit_and-half : (a b : ℕ) → bit_and a b / 2 ≡ bit_and (a / 2) (b / 2)
bit_and-half a b = omega (arith, and_digit a b)

pub bit_and-low : (a b : ℕ) → bit_and a b % 2 ≡ min (a % 2) (b % 2)
bit_and-low a b = omega (arith, and_digit a b)

pub bit_or-half : (a b : ℕ) → bit_or a b / 2 ≡ bit_or (a / 2) (b / 2)
bit_or-half a b = omega (arith, or_digit a b)

pub bit_or-low : (a b : ℕ) → bit_or a b % 2 ≡ max (a % 2) (b % 2)
bit_or-low a b = omega (arith, or_digit a b)

-- Two numbers with the same half and the same lowest digit are equal.
pub same_digits : (a b : ℕ) → a / 2 ≡ b / 2 → a % 2 ≡ b % 2 → a ≡ b
same_digits a b h l = omega arith
