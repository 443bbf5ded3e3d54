-- ===== src/Bits/Subsets.antt =====
-- The bits of one number among those of another.
use ajardsp.Common.{ℕ, zero, suc, ◌+◌, ◌/◌, ◌≤◌, bit_and, bit_or, ◌≡◌, refl, sym, ap, ◌∙◌, arith}
use ajardsp.Bits.Digit.{bit_and-low, bit_or-low, same_digits}
use ajardsp.Bits.Laws.{halves, bit_and_comm, bit_and_assoc, zero-bit_and}

-- All bits of `a` are bits of `b`.
abbrev pub Inside : ℕ → ℕ → Type 0
Inside a b = bit_and a b ≡ a

pub Inside-trans : (a b c : ℕ) → Inside a b → Inside b c → Inside a c
Inside-trans a b c x y =
    ap (λ (t : ℕ). bit_and t c) (sym x) ∙ bit_and_assoc a b c ∙ ap (bit_and a) y ∙ x

-- What is clear of the whole is clear of the part.
pub Inside-clear : (p a b : ℕ) → Inside a b → bit_and p b ≡ 0 → bit_and p a ≡ 0
Inside-clear p a b x clear =
    ap (bit_and p) (sym x ∙ bit_and_comm a b)
    ∙ sym (bit_and_assoc p b a)
    ∙ ap (λ (t : ℕ). bit_and t a) clear
    ∙ zero-bit_and a

left_upto : (n a b : ℕ) → a ≤ n → b ≤ n → bit_and a (bit_or a b) ≡ a
left_upto zero zero zero p q = refl
left_upto zero (suc a) b p q = absurd (omega arith)
left_upto zero zero (suc b) p q = absurd (omega arith)
left_upto (suc n) a b p q =
    same_digits _ _ (simp halves (left_upto n (a / 2) (b / 2) (omega arith) (omega arith)))
      (omega (arith, bit_and-low a (bit_or a b), bit_or-low a b))

right_upto : (n a b : ℕ) → a ≤ n → b ≤ n → bit_and a (bit_or b a) ≡ a
right_upto zero zero zero p q = refl
right_upto zero (suc a) b p q = absurd (omega arith)
right_upto zero zero (suc b) p q = absurd (omega arith)
right_upto (suc n) a b p q =
    same_digits _ _ (simp halves (right_upto n (a / 2) (b / 2) (omega arith) (omega arith)))
      (omega (arith, bit_and-low a (bit_or b a), bit_or-low b a))

pub Inside-left : (a b : ℕ) → Inside a (bit_or a b)
Inside-left a b = left_upto (a + b) a b (omega arith) (omega arith)

pub Inside-right : (a b c : ℕ) → Inside a b → Inside a (bit_or c b)
Inside-right a b c x =
    Inside-trans a b (bit_or c b) x (right_upto (b + c) b c (omega arith) (omega arith))
