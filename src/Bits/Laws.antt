-- ===== src/Bits/Laws.antt =====
-- The laws of `&`, `|` and shifts that the assembler and the disassembler rest on. Each goes by
-- induction on a bound of its operands, one binary digit at a time.
use native.Mathlib.Nat.{pow-suc}
use ajardsp.Common.{ℕ, zero, suc, ◌+◌, ◌*◌, ◌/◌, ◌^◌, ◌≤◌, ◌<◌, bit_and, bit_or}
use ajardsp.Common.{◌≡◌, refl, ap, ◌∙◌, arith}
use ajardsp.Bits.Digit.{bit_and-half, bit_and-low, bit_or-half, bit_or-low, same_digits}

pub ruleset halves = (bit_and-half, bit_or-half)

and_comm_upto : (n a b : ℕ) → a ≤ n → b ≤ n → bit_and a b ≡ bit_and b a
and_comm_upto zero zero zero p q = refl
and_comm_upto zero (suc a) b p q = absurd (omega arith)
and_comm_upto zero zero (suc b) p q = absurd (omega arith)
and_comm_upto (suc n) a b p q =
    same_digits _ _ (simp halves (and_comm_upto n (a / 2) (b / 2) (omega arith) (omega arith)))
      (omega (arith, bit_and-low a b, bit_and-low b a))

pub bit_and_comm : (a b : ℕ) → bit_and a b ≡ bit_and b a
bit_and_comm a b = and_comm_upto (a + b) a b (omega arith) (omega arith)

and_assoc_upto :
    (n a b c : ℕ) → a ≤ n → b ≤ n → c ≤ n → bit_and (bit_and a b) c ≡ bit_and a (bit_and b c)
and_assoc_upto zero zero zero zero p q r = refl
and_assoc_upto zero (suc a) b c p q r = absurd (omega arith)
and_assoc_upto zero zero (suc b) c p q r = absurd (omega arith)
and_assoc_upto zero zero zero (suc c) p q r = absurd (omega arith)
and_assoc_upto (suc n) a b c p q r =
    same_digits _ _
      (simp halves
        (and_assoc_upto n (a / 2) (b / 2) (c / 2) (omega arith) (omega arith) (omega arith)))
      (omega (
        arith,
        bit_and-low (bit_and a b) c,
        bit_and-low a b,
        bit_and-low a (bit_and b c),
        bit_and-low b c,
      ))

pub bit_and_assoc : (a b c : ℕ) → bit_and (bit_and a b) c ≡ bit_and a (bit_and b c)
bit_and_assoc a b c = and_assoc_upto (a + b + c) a b c (omega arith) (omega arith) (omega arith)

and_or_upto :
    (n a b c : ℕ)
    → a ≤ n
    → b ≤ n
    → c ≤ n
    → bit_and (bit_or a b) c ≡ bit_or (bit_and a c) (bit_and b c)
and_or_upto zero zero zero zero p q r = refl
and_or_upto zero (suc a) b c p q r = absurd (omega arith)
and_or_upto zero zero (suc b) c p q r = absurd (omega arith)
and_or_upto zero zero zero (suc c) p q r = absurd (omega arith)
and_or_upto (suc n) a b c p q r =
    same_digits _ _
      (simp halves
        (and_or_upto n (a / 2) (b / 2) (c / 2) (omega arith) (omega arith) (omega arith)))
      (omega (
        arith,
        bit_and-low (bit_or a b) c,
        bit_or-low a b,
        bit_or-low (bit_and a c) (bit_and b c),
        bit_and-low a c,
        bit_and-low b c,
      ))

-- A mask goes over `|`.
pub bit_and-bit_or : (a b c : ℕ) → bit_and (bit_or a b) c ≡ bit_or (bit_and a c) (bit_and b c)
bit_and-bit_or a b c = and_or_upto (a + b + c) a b c (omega arith) (omega arith) (omega arith)

and_idem_upto : (n a : ℕ) → a ≤ n → bit_and a a ≡ a
and_idem_upto zero zero p = refl
and_idem_upto zero (suc a) p = absurd (omega arith)
and_idem_upto (suc n) a p =
    same_digits _ _ (simp halves (and_idem_upto n (a / 2) (omega arith)))
      (omega (arith, bit_and-low a a))

pub bit_and_idem : (a : ℕ) → bit_and a a ≡ a
bit_and_idem a = and_idem_upto a a (omega arith)

or_zero_upto : (n a : ℕ) → a ≤ n → bit_or a 0 ≡ a
or_zero_upto zero zero p = refl
or_zero_upto zero (suc a) p = absurd (omega arith)
or_zero_upto (suc n) a p =
    same_digits _ _ (simp halves (or_zero_upto n (a / 2) (omega arith)))
      (omega (arith, bit_or-low a 0))

pub bit_or-zero : (a : ℕ) → bit_or a 0 ≡ a
bit_or-zero a = or_zero_upto a a (omega arith)

zero_or_upto : (n a : ℕ) → a ≤ n → bit_or 0 a ≡ a
zero_or_upto zero zero p = refl
zero_or_upto zero (suc a) p = absurd (omega arith)
zero_or_upto (suc n) a p =
    same_digits _ _ (simp halves (zero_or_upto n (a / 2) (omega arith)))
      (omega (arith, bit_or-low 0 a))

pub zero-bit_or : (a : ℕ) → bit_or 0 a ≡ a
zero-bit_or a = zero_or_upto a a (omega arith)

and_zero_upto : (n a : ℕ) → a ≤ n → bit_and a 0 ≡ 0
and_zero_upto zero zero p = refl
and_zero_upto zero (suc a) p = absurd (omega arith)
and_zero_upto (suc n) a p =
    same_digits _ _ (simp halves (and_zero_upto n (a / 2) (omega arith)))
      (omega (arith, bit_and-low a 0))

pub bit_and-zero : (a : ℕ) → bit_and a 0 ≡ 0
bit_and-zero a = and_zero_upto a a (omega arith)

pub zero-bit_and : (a : ℕ) → bit_and 0 a ≡ 0
zero-bit_and a = bit_and_comm 0 a ∙ bit_and-zero a

and_le_upto : (n a b : ℕ) → a ≤ n → b ≤ n → bit_and a b ≤ b
and_le_upto zero zero zero p q = omega arith
and_le_upto zero (suc a) b p q = absurd (omega arith)
and_le_upto zero zero (suc b) p q = absurd (omega arith)
and_le_upto (suc n) a b p q = omega (
  arith,
  bit_and-half a b,
  bit_and-low a b,
  and_le_upto n (a / 2) (b / 2) (omega arith) (omega arith),
)

pub bit_and-le : (a b : ℕ) → bit_and a b ≤ b
bit_and-le a b = and_le_upto (a + b) a b (omega arith) (omega arith)

twice : (x k : ℕ) → x * 2 ^ suc k ≡ 2 * (x * 2 ^ k)
twice x k = omega (arith, ap (λ (t : ℕ). x * t) (pow-suc 2 k))

half_double : (x : ℕ) → 2 * x / 2 ≡ x
half_double x = omega arith

bit_and-double : (x y : ℕ) → bit_and (2 * x) (2 * y) ≡ 2 * bit_and x y
bit_and-double x y =
    same_digits _ _ (simp (halves, half_double)) (omega (arith, bit_and-low (2 * x) (2 * y)))

times_one : (x : ℕ) → x * 2 ^ 0 ≡ x
times_one x = omega arith

-- A left shift goes over `&`.
pub bit_and-shl : (k a b : ℕ) → bit_and (a * 2 ^ k) (b * 2 ^ k) ≡ bit_and a b * 2 ^ k
bit_and-shl zero a b = rw (times_one a, times_one b, times_one (bit_and a b))
bit_and-shl (suc k) a b =
    rw (twice a k, twice b k, twice (bit_and a b) k)
      (bit_and-double (a * 2 ^ k) (b * 2 ^ k) ∙ ap (λ (t : ℕ). 2 * t) (bit_and-shl k a b))

-- `|` of two numbers of `k` bits has `k` bits.
pub bit_or-lt : (k a b : ℕ) → a < 2 ^ k → b < 2 ^ k → bit_or a b < 2 ^ k
bit_or-lt zero zero zero p q = omega arith
bit_or-lt zero zero (suc b) p q = absurd (omega arith)
bit_or-lt zero (suc a) b p q = absurd (omega arith)
bit_or-lt (suc k) a b p q = omega (
  arith,
  pow-suc 2 k,
  bit_or-half a b,
  bit_or-lt k (a / 2) (b / 2) (omega (arith, pow-suc 2 k)) (omega (arith, pow-suc 2 k)),
)

-- A number that fits below the other one's lowest bit is added to it.
pub bit_or-shifted : (n h l : ℕ) → l < 2 ^ n → bit_or (h * 2 ^ n) l ≡ h * 2 ^ n + l
bit_or-shifted zero h zero small = rw (times_one h) (bit_or-zero h ∙ omega arith)
bit_or-shifted zero h (suc l) small = absurd (omega arith)
bit_or-shifted (suc n) h l small =
    let double : h * 2 ^ suc n ≡ 2 * (h * 2 ^ n) = twice h n in
    let rest = bit_or-shifted n h (l / 2) (omega (arith, pow-suc 2 n)) in
    let half : bit_or (h * 2 ^ suc n) l / 2 ≡ bit_or (h * 2 ^ n) (l / 2) =
      bit_or-half (h * 2 ^ suc n) l ∙ ap (λ x. bit_or x (l / 2)) (omega (arith, double)) in
    let last = bit_or-low (h * 2 ^ suc n) l in omega (arith, double, half, last, rest)
