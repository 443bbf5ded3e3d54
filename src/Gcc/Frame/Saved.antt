-- ===== src/Gcc/Frame/Saved.antt =====
-- How many registers a function saves, and in how many words.
use ajardsp.Common.{
  ℕ, zero, suc, ◌+◌, ◌*◌, ◌<◌, ◌≤◌, ◌≡◌, inl, inr, refl, ap, ◌∙◌, arith, leb, ◌==◌, not, ◌&&◌, ◌||◌,
  if◌then◌else◌, Bool, true, Bool-cases, get_or, check_below, check_below_sound, good,
}
use ajardsp.Gcc.Registers.{
  first_pseudo_register, fixed_registers, call_used_registers, is_callee_saved_reg,
}
use ajardsp.Gcc.Frame.{
  is_saved, stack_words, usage_from, ajardsp_callee_saved_stack_usage, saved_from,
  registers_to_be_saved,
}

-- A register that calls keep and that is not fixed.
unfoldable kept : ℕ → Bool
unfolding call_used_registers fixed_registers
kept i = not (get_or call_used_registers i true) && not (get_or fixed_registers i true)

-- The words of a register.
abbrev width : ℕ → ℕ
width i = if leb i 7 then 1 else 2

-- The tables keep only pointers and accumulators that `is_callee_saved_reg` names.
abbrev agrees : ℕ → Bool
agrees i = not (kept i) || (is_callee_saved_reg i && not (i == 7))

tables_agree : check_below first_pseudo_register agrees ≡ true
unfolding check_below kept is_callee_saved_reg
tables_agree = refl

is_saved-kept : (live : ℕ → Bool) (i : ℕ) → is_saved live i ≡ true → kept i ≡ true
unfolding is_saved kept
is_saved-kept live i saved = ground arith

-- A register that is saved has a place.
stack_words-width :
    (i : ℕ) → i < first_pseudo_register → kept i ≡ true → stack_words i ≡ good (width i)
unfolding stack_words is_callee_saved_reg
stack_words-width i h k =
    let agreed : agrees i ≡ true =
      check_below_sound first_pseudo_register agrees i tables_agree h in
    ground (arith, agreed)

-- What is saved of `n` registers from `i` on: the words, and the most that they can be.
unfoldable saved_words : (ℕ → Bool) → ℕ → ℕ → ℕ
saved_words live zero i = 0
saved_words live (suc n) i = (if is_saved live i then width i else 0) + saved_words live n (i + 1)

unfoldable most : ℕ → ℕ → ℕ
unfolding kept
most zero i = 0
most (suc n) i = (if kept i then width i else 0) + most n (i + 1)

saved_words-most : (live : ℕ → Bool) (n i : ℕ) → saved_words live n i ≤ most n i
unfolding saved_words most
saved_words-most live zero i = omega arith
saved_words-most live (suc n) i =
    let rest = saved_words-most live n (i + 1) in
    elim (Bool-cases (is_saved live i)) [
      | inl saved ↦ rw (saved, is_saved-kept live i saved) (omega (arith, rest))
      | inr not_saved ↦ rw (not_saved) (omega (arith, rest))
    ]

usage_from-saved_words :
    (live : ℕ → Bool) (n i sum : ℕ)
    → i + n ≤ first_pseudo_register
    → usage_from live n i sum ≡ good (sum + saved_words live n i)
unfolding usage_from saved_words
usage_from-saved_words live zero i sum h = ap good (omega arith)
usage_from-saved_words live (suc n) i sum h = elim (Bool-cases (is_saved live i)) [
  | inl saved ↦
      rw (saved, stack_words-width i (omega arith) (is_saved-kept live i saved))
        (usage_from-saved_words live n (i + 1) (sum + width i) (omega arith)
          ∙ ap good (omega arith))
  | inr not_saved ↦
      rw (not_saved)
        (usage_from-saved_words live n (i + 1) (sum + 0) (omega arith) ∙ ap good (omega arith))
]

-- The number of the registers, against their words.
saved_from-saved_words :
    (live : ℕ → Bool) (n i num : ℕ)
    → (saved_from live n i num ≤ num + saved_words live n i)
      × (num + num + saved_words live n i ≤ saved_from live n i num + saved_from live n i num)
unfolding saved_from saved_words
saved_from-saved_words live zero i num = (omega arith, omega arith)
saved_from-saved_words live (suc n) i num = elim (Bool-cases (is_saved live i)) [
  | inl saved ↦
      let (low, high) = saved_from-saved_words live n (i + 1) (num + 1) in
      rw (saved) (ground (arith, low, high), ground (arith, low, high))
  | inr not_saved ↦
      let (low, high) = saved_from-saved_words live n (i + 1) num in
      rw (not_saved) (omega (arith, low), omega (arith, high))
]

-- Whichever registers a function uses, `ajardsp_callee_saved_stack_usage` does not come to
-- `gcc_unreachable`, and gives at most 19 words, at least one and at most two for each of the
-- registers that `registers_to_be_saved` counts.
pub ajardsp_callee_saved_stack_usage-bounds :
    (live : ℕ → Bool)
    → (words : ℕ) × (ajardsp_callee_saved_stack_usage live ≡ good words)
      × (words ≤ 19)
      × (registers_to_be_saved live ≤ words)
      × (words ≤ 2 * registers_to_be_saved live)
unfolding ajardsp_callee_saved_stack_usage registers_to_be_saved
ajardsp_callee_saved_stack_usage-bounds live =
    let words = saved_words live first_pseudo_register 0 in
    let (low, high) = saved_from-saved_words live first_pseudo_register 0 0 in
    let most_words : most first_pseudo_register 0 ≡ 19 = unfold most in refl in
    (
      words,
      usage_from-saved_words live first_pseudo_register 0 0 (omega arith) ∙ ap good (omega arith),
      omega (arith, most_words, saved_words-most live first_pseudo_register 0),
      omega (arith, low),
      omega (arith, high),
    )
