-- ===== src/Tests/Compiler.antt =====
-- The target description of GCC: the theorems at concrete inputs.
use ajardsp.Common.{
  all, ℕ, ◌*◌, ◌≤◌, ◌≡◌, refl, arith, not, ◌==◌, true, false, some, List, [], ◌∷◌, length, pos,
  good,
}
use ajardsp.Gcc.Registers.{
  register_names, reg_class_names, regno_reg_class, is_caller_saved_reg, qi_mode, hi_mode,
}
use ajardsp.Gcc.Classes.{in_class, regno_reg_class-in_class}
use ajardsp.Gcc.Arguments.{
  Argument, RegRtx, integer_type, pointer_type, argument_regs, init_cumulative_args,
}
use ajardsp.Gcc.Arguments.Apart.{takes, argument_regs-no_overlap}
use ajardsp.Gcc.Frame.{
  ajardsp_callee_saved_stack_usage, registers_to_be_saved, initial_elimination_offset,
}
use ajardsp.Gcc.Frame.Saved.{ajardsp_callee_saved_stack_usage-bounds}

-- Thirteen names for fourteen classes.
names : (length register_names ≡ 30) × (length reg_class_names ≡ 13)
unfolding register_names reg_class_names
names = (refl, refl)

regno_reg_class-in_class_example : in_class (regno_reg_class 12) 12 ≡ not (12 == 29)
regno_reg_class-in_class_example = regno_reg_class-in_class 12 (omega arith)

abbrev three_arguments : List Argument
three_arguments =
    record { type_code = some integer_type; mode = hi_mode }
    ∷ record { type_code = some pointer_type; mode = qi_mode }
    ∷ record { type_code = some integer_type; mode = qi_mode }
    ∷ []

abbrev first_reg : RegRtx
first_reg = record { mode = hi_mode; regno = 8 }

abbrev third_reg : RegRtx
third_reg = record { mode = qi_mode; regno = 11 }

three_regs :
    argument_regs three_arguments init_cumulative_args
    ≡ some first_reg ∷ some (record { mode = qi_mode; regno = 0 }) ∷ some third_reg ∷ []
unfolding argument_regs
three_regs = refl

argument_regs-no_overlap_example : (takes third_reg 9 ≡ false) × (is_caller_saved_reg 9 ≡ true)
unfolding argument_regs takes all
argument_regs-no_overlap_example =
    argument_regs-no_overlap three_arguments 0 2 first_reg third_reg 9 refl (omega arith) refl refl
      refl

ajardsp_callee_saved_stack_usage-bounds_example :
    (words : ℕ) × (ajardsp_callee_saved_stack_usage (λ i. true) ≡ good words)
    × (words ≤ 19)
    × (registers_to_be_saved (λ i. true) ≤ words)
    × (words ≤ 2 * registers_to_be_saved (λ i. true))
ajardsp_callee_saved_stack_usage-bounds_example =
    ajardsp_callee_saved_stack_usage-bounds (λ i. true)

-- From the argument pointer to the stack pointer by way of the frame pointer, and at once.
offsets :
    (initial_elimination_offset (λ i. false) 10 6 7 ≡ pos 0)
    × (initial_elimination_offset (λ i. false) 10 7 28 ≡ pos 10)
    × (initial_elimination_offset (λ i. false) 10 6 28 ≡ pos 22)
unfolding initial_elimination_offset
offsets = (refl, refl, refl)
