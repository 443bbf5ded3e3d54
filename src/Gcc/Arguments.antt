-- ===== src/Gcc/Arguments.antt =====
-- The registers of arguments and results in ajardsp.c. The tree of a type is what `TREE_CODE` says
-- of it, a register of the compiler's its number and mode.
pub mod Apart
use ajardsp.Common.{
  ℕ, zero, suc, ◌+◌, ◌*◌, ltb, ◌==◌, ◌&&◌, ◌||◌, if◌then◌else◌, Bool, true, false, Option, none,
  some, List, [], ◌∷◌, Outcome, good, fault,
}
use ajardsp.Gcc.Registers.{regno_first_ptr, regno_first_acc, Mode, qi_mode, hi_mode, is_qi, is_hi}

pub data TreeCode : Type 0 where
  integer_type pointer_type other_type : TreeCode

-- `CUMULATIVE_ARGS`.
pub record CumArgs : Type 0 where
  pub r_regs : ℕ
  pub a_regs : ℕ

abbrev pub init_cumulative_args : CumArgs
init_cumulative_args = record { r_regs = 0; a_regs = 0 }

-- `gen_rtx_REG`.
pub record RegRtx : Type 0 where
  pub mode : Mode
  pub regno : ℕ

-- `ajardsp_function_arg`; no register for `NULL_RTX`, no type for `NULL`.
unfoldable pub ajardsp_function_arg : CumArgs → Mode → Option TreeCode → Option RegRtx
ajardsp_function_arg cum mode none = none
ajardsp_function_arg cum mode (some integer_type) =
    if ltb cum.a_regs 4
    then some (record {
      mode = mode;
      regno = regno_first_acc + cum.a_regs * 2 + (if is_qi mode then 1 else 0);
    })
    else none
ajardsp_function_arg cum mode (some pointer_type) =
    if ltb cum.r_regs 4
    then some (record { mode = mode; regno = regno_first_ptr + cum.r_regs })
    else none
ajardsp_function_arg cum mode (some other_type) = none

unfoldable pub ajardsp_function_arg_advance : CumArgs → Option TreeCode → CumArgs
ajardsp_function_arg_advance cum none = cum
ajardsp_function_arg_advance cum (some integer_type) = record cum { a_regs = cum.a_regs + 1 }
ajardsp_function_arg_advance cum (some pointer_type) = record cum { r_regs = cum.r_regs + 1 }
ajardsp_function_arg_advance cum (some other_type) = cum

-- An argument, and the registers of the arguments of a call, one after the other.
pub record Argument : Type 0 where
  pub type_code : Option TreeCode
  pub mode : Mode

unfoldable pub argument_regs : List Argument → CumArgs → List (Option RegRtx)
unfolding ajardsp_function_arg ajardsp_function_arg_advance
argument_regs [] cum = []
argument_regs (arg ∷ args) cum =
    ajardsp_function_arg cum arg.mode arg.type_code
    ∷ argument_regs args (ajardsp_function_arg_advance cum arg.type_code)

-- `ajardsp_function_value`, for the type of the result of a function or for a library call.
unfoldable pub ajardsp_function_value : Mode → Option TreeCode → Outcome RegRtx
ajardsp_function_value mode none = good (record { mode = mode; regno = regno_first_acc })
ajardsp_function_value mode (some integer_type) =
    good (record { mode = mode; regno = regno_first_acc + (if is_qi mode then 1 else 0) })
ajardsp_function_value mode (some pointer_type) =
    good (record { mode = mode; regno = regno_first_ptr })
ajardsp_function_value mode (some other_type) = fault

-- `ajardsp_struct_value_rtx`, in `Pmode`.
unfoldable pub ajardsp_struct_value_rtx : RegRtx
ajardsp_struct_value_rtx = record { mode = qi_mode; regno = 2 }
