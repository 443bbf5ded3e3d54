-- ===== src/Gcc/Arguments/Apart.antt =====
-- Arguments have registers of their own.
use ajardsp.Common.{
  ℕ, zero, suc, ◌+◌, ◌*◌, ◌<◌, ◌≡◌, inl, inr, refl, arith, leb, ltb, subst, ◌==◌, ◌&&◌, ◌||◌,
  if◌then◌else◌, Bool, true, false, Bool-cases, Option, none, some, List, [], ◌∷◌, get_elem?, all,
  and-split,
}
use mathlib.Core.Option.{some-injective}
use ajardsp.Gcc.Registers.{
  Mode, bi_mode, qi_mode, hi_mode, qf_mode, other_mode, is_qi, is_hi, is_caller_saved_reg,
}
use ajardsp.Gcc.Arguments.{
  TreeCode, integer_type, pointer_type, other_type, CumArgs, init_cumulative_args, RegRtx, Argument,
  argument_regs, ajardsp_function_arg, ajardsp_function_arg_advance,
}

-- Integers of one or two words, and pointers of one; other types have any mode.
abbrev pub suits : Option TreeCode → Mode → Bool
suits none mode = true
suits (some integer_type) mode = is_qi mode || is_hi mode
suits (some pointer_type) mode = is_qi mode
suits (some other_type) mode = true

abbrev pub has_mode : Argument → Bool
has_mode arg = suits arg.type_code arg.mode

-- The registers that a value in a register takes.
unfoldable pub takes : RegRtx → ℕ → Bool
takes x r = r == x.regno || (is_hi x.mode && r == x.regno + 1)

-- The registers that are left from a state on.
unfoldable left : CumArgs → ℕ → Bool
left cum r = (leb cum.r_regs r && ltb r 4) || (leb (8 + 2 * cum.a_regs) r && ltb r 16)

-- An argument takes registers that are left before it and not after it.
record Given (cum next : CumArgs) (x : RegRtx) : Type 0 where
  from : (r : ℕ) → takes x r ≡ true → left cum r ≡ true
  apart : (r : ℕ) → takes x r ≡ true → left next r ≡ false

integer-Given :
    (cum : CumArgs) (mode : Mode)
    → (is_qi mode || is_hi mode) ≡ true
    → ltb cum.a_regs 4 ≡ true
    → Given cum
        (record cum { a_regs = cum.a_regs + 1 })
        (record { mode = mode; regno = 8 + cum.a_regs * 2 + (if is_qi mode then 1 else 0) })
unfolding takes left
integer-Given cum qi_mode h k = record { from = λ r t. ground arith; apart = λ r t. ground arith }
integer-Given cum hi_mode h k = record { from = λ r t. ground arith; apart = λ r t. ground arith }
integer-Given cum bi_mode h k = absurd (ground arith)
integer-Given cum qf_mode h k = absurd (ground arith)
integer-Given cum other_mode h k = absurd (ground arith)

pointer-Given :
    (cum : CumArgs) (mode : Mode)
    → is_qi mode ≡ true
    → ltb cum.r_regs 4 ≡ true
    → Given cum
        (record cum { r_regs = cum.r_regs + 1 })
        (record { mode = mode; regno = 0 + cum.r_regs })
unfolding takes left
pointer-Given cum qi_mode h k = record { from = λ r t. ground arith; apart = λ r t. ground arith }
pointer-Given cum bi_mode h k = absurd (ground arith)
pointer-Given cum hi_mode h k = absurd (ground arith)
pointer-Given cum qf_mode h k = absurd (ground arith)
pointer-Given cum other_mode h k = absurd (ground arith)

Given-if :
    {cum next : CumArgs} {x y : RegRtx} (b : Bool)
    → (if b then some y else none) ≡ some x
    → (b ≡ true → Given cum next y)
    → Given cum next x
Given-if true h g = subst (Given _ _) (some-injective _ _ h) (g refl)
Given-if false h g = absurd (ground arith)

-- The register that an argument is given.
argument-Given :
    (type_code : Option TreeCode) (mode : Mode) (cum : CumArgs) (x : RegRtx)
    → suits type_code mode ≡ true
    → ajardsp_function_arg cum mode type_code ≡ some x
    → Given cum (ajardsp_function_arg_advance cum type_code) x
unfolding ajardsp_function_arg ajardsp_function_arg_advance
argument-Given none mode cum x h gives = absurd (ground arith)
argument-Given (some integer_type) mode cum x h gives =
    Given-if (ltb cum.a_regs 4) gives (integer-Given cum mode h)
argument-Given (some pointer_type) mode cum x h gives =
    Given-if (ltb cum.r_regs 4) gives (pointer-Given cum mode h)
argument-Given (some other_type) mode cum x h gives = absurd (ground arith)

-- Fewer registers are left after an argument.
left-advance :
    (type_code : Option TreeCode) (cum : CumArgs) (r : ℕ)
    → left (ajardsp_function_arg_advance cum type_code) r ≡ true
    → left cum r ≡ true
unfolding left ajardsp_function_arg_advance
left-advance none cum r h = h
left-advance (some integer_type) cum r h = ground arith
left-advance (some pointer_type) cum r h = ground arith
left-advance (some other_type) cum r h = h

-- The registers of all arguments are among those that are left.
argument_regs-left :
    (args : List Argument) (cum : CumArgs) (i : ℕ) (x : RegRtx) (r : ℕ)
    → all has_mode args ≡ true
    → get_elem? (argument_regs args cum) i ≡ some (some x)
    → takes x r ≡ true
    → left cum r ≡ true
unfolding argument_regs all
argument_regs-left [] cum i x r h at t = absurd (ground arith)
argument_regs-left (arg ∷ args) cum zero x r h at t =
    (argument-Given arg.type_code arg.mode cum x (and-split _ _ h).0 (some-injective _ _ at)).from r
      t
argument_regs-left (arg ∷ args) cum (suc i) x r h at t = left-advance arg.type_code cum r (
    argument_regs-left args (ajardsp_function_arg_advance cum arg.type_code) i x r
      (and-split _ _ h).1 at t)

argument_regs-apart :
    (args : List Argument) (cum : CumArgs) (i j : ℕ) (x y : RegRtx) (r : ℕ)
    → all has_mode args ≡ true
    → i < j
    → get_elem? (argument_regs args cum) i ≡ some (some x)
    → get_elem? (argument_regs args cum) j ≡ some (some y)
    → takes x r ≡ true
    → takes y r ≡ false
unfolding argument_regs all
argument_regs-apart [] cum i j x y r h before at_i at_j t = absurd (ground arith)
argument_regs-apart (arg ∷ args) cum i zero x y r h before at_i at_j t = absurd (omega arith)
argument_regs-apart (arg ∷ args) cum zero (suc j) x y r h before at_i at_j t =
    let next = ajardsp_function_arg_advance cum arg.type_code in
    let given =
      argument-Given arg.type_code arg.mode cum x (and-split (has_mode arg) (all has_mode args) h).0
        (some-injective _ _ at_i) in
    elim (Bool-cases (takes y r)) [
      | inl both ↦
          let more : left next r ≡ true =
            argument_regs-left args next j y r (and-split (has_mode arg) (all has_mode args) h).1
              at_j both in
          let none_left : left next r ≡ false = given.apart r t in
          absurd (ground (arith, more, none_left))
      | inr one ↦ one
    ]
argument_regs-apart (arg ∷ args) cum (suc i) (suc j) x y r h before at_i at_j t =
    argument_regs-apart args (ajardsp_function_arg_advance cum arg.type_code) i j x y r
      (and-split (has_mode arg) (all has_mode args) h).1 (omega arith) at_i at_j t

left-caller_saved : (r : ℕ) → left init_cumulative_args r ≡ true → is_caller_saved_reg r ≡ true
unfolding left is_caller_saved_reg
left-caller_saved r h = ground arith

-- For the arguments of a call, integers of one or two words and pointers of one: a register of the
-- machine that the value of one argument takes is not taken by that of a later one, and a call may
-- destroy it (`is_caller_saved_reg`).
pub argument_regs-no_overlap :
    (args : List Argument) (i j : ℕ) (x y : RegRtx) (r : ℕ)
    → all has_mode args ≡ true
    → i < j
    → get_elem? (argument_regs args init_cumulative_args) i ≡ some (some x)
    → get_elem? (argument_regs args init_cumulative_args) j ≡ some (some y)
    → takes x r ≡ true
    → (takes y r ≡ false) × (is_caller_saved_reg r ≡ true)
argument_regs-no_overlap args i j x y r h before at_i at_j t = (
  argument_regs-apart args init_cumulative_args i j x y r h before at_i at_j t,
  left-caller_saved r (argument_regs-left args init_cumulative_args i x r h at_i t),
)
