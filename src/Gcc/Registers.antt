-- ===== src/Gcc/Registers.antt =====
-- The tables of ajardsp.h, and the questions about registers of ajardsp.c.
use ajardsp.Common.{
  ℕ, ◌+◌, ◌%◌, leb, ltb, ◌==◌, ◌&&◌, ◌||◌, if◌then◌else◌, Bool, true, false, List, [], ◌∷◌, CString,
  codes,
}

abbrev pub first_pseudo_register : ℕ
first_pseudo_register = 30

abbrev pub regno_first_ptr : ℕ
regno_first_ptr = 0

abbrev pub regno_last_ptr : ℕ
regno_last_ptr = 7

abbrev pub regno_first_acc : ℕ
regno_first_acc = 8

abbrev pub regno_last_acc : ℕ
regno_last_acc = 23

abbrev pub regno_first_pred : ℕ
regno_first_pred = 24

abbrev pub regno_last_pred : ℕ
regno_last_pred = 27

abbrev pub regno_first_spec : ℕ
regno_first_spec = 28

abbrev pub regno_last_spec : ℕ
regno_last_spec = 29

abbrev pub stack_pointer_regnum : ℕ
stack_pointer_regnum = 28

abbrev pub hard_frame_pointer_regnum : ℕ
hard_frame_pointer_regnum = 7

abbrev pub frame_pointer_regnum : ℕ
frame_pointer_regnum = 7

abbrev pub arg_pointer_regnum : ℕ
arg_pointer_regnum = 6

unfoldable pub register_names : List CString
register_names =
    codes "$ptr0"
    ∷ codes "$ptr1"
    ∷ codes "$ptr2"
    ∷ codes "$ptr3"
    ∷ codes "$ptr4"
    ∷ codes "$ptr5"
    ∷ codes "$ptr6"
    ∷ codes "$ptr7"
    ∷ codes "$acc0l"
    ∷ codes "$acc0h"
    ∷ codes "$acc1l"
    ∷ codes "$acc1h"
    ∷ codes "$acc2l"
    ∷ codes "$acc2h"
    ∷ codes "$acc3l"
    ∷ codes "$acc3h"
    ∷ codes "$acc4l"
    ∷ codes "$acc4h"
    ∷ codes "$acc5l"
    ∷ codes "$acc5h"
    ∷ codes "$acc6l"
    ∷ codes "$acc6h"
    ∷ codes "$acc7l"
    ∷ codes "$acc7h"
    ∷ codes "$pred0"
    ∷ codes "$pred1"
    ∷ codes "$pred2"
    ∷ codes "$pred3"
    ∷ codes "$sp"
    ∷ codes "$retpc"
    ∷ []

-- `REG_CLASS_NAMES`, in which a comma is missing.
unfoldable pub reg_class_names : List CString
reg_class_names =
    codes "NO_REGS"
    ∷ codes "CALLER_SAVED_REGS"
    ∷ codes "CALLEE_SAVED_REGS"
    ∷ codes "ACC_REGS_LOW_PART"
    ∷ codes "ACC_REGS_HIGH_PART"
    ∷ codes "ACC_REGS_0_3ACC_REGS"
    ∷ codes "PTR_REGS"
    ∷ codes "PRED_REGS"
    ∷ codes "SPEC_REGS"
    ∷ codes "ALL_PTR_REGS"
    ∷ codes "GEN_REGS"
    ∷ codes "ALL_REGS"
    ∷ codes "ACC_PTR"
    ∷ []

-- `FIXED_REGISTERS` and `CALL_USED_REGISTERS`.
unfoldable pub fixed_registers : List Bool
fixed_registers =
    let o = false in
    let x = true in
    o ∷ o ∷ o ∷ o ∷ o ∷ o ∷ o ∷ x ∷ o ∷ o ∷ o ∷ o ∷ o ∷ o ∷ o ∷ o ∷ o ∷ o ∷ o ∷ o ∷ o ∷ o ∷ o ∷ o
    ∷ x ∷ o ∷ o ∷ o ∷ x ∷ x ∷ []

unfoldable pub call_used_registers : List Bool
call_used_registers =
    let o = false in
    let x = true in
    x ∷ x ∷ x ∷ x ∷ o ∷ o ∷ o ∷ x ∷ x ∷ x ∷ x ∷ x ∷ x ∷ x ∷ x ∷ x ∷ o ∷ o ∷ o ∷ o ∷ o ∷ o ∷ o ∷ o
    ∷ x ∷ x ∷ x ∷ x ∷ x ∷ x ∷ []

abbrev within : ℕ → ℕ → ℕ → Bool
within low n high = leb low n && leb n high

unfoldable pub is_base_reg : ℕ → Bool
is_base_reg regn =
    within regno_first_ptr regn regno_last_ptr
    || (regn == stack_pointer_regnum || regn == hard_frame_pointer_regnum)

unfoldable pub is_arg_reg : ℕ → Bool
is_arg_reg regn =
    (leb regno_first_ptr regn && ltb regn (regno_first_ptr + 4))
    || (leb regno_first_acc regn && ltb regn (regno_first_acc + 4))

unfoldable pub is_return_val_reg : ℕ → Bool
is_return_val_reg regn = regn == regno_first_ptr || regn == regno_first_acc

unfoldable pub is_caller_saved_reg : ℕ → Bool
is_caller_saved_reg regn = within 0 regn 3 || within 8 regn 15

unfoldable pub is_callee_saved_reg : ℕ → Bool
is_callee_saved_reg regn = within 4 regn 7 || within 16 regn 23

unfoldable pub is_general_reg : ℕ → Bool
is_general_reg regn = ltb regn first_pseudo_register

unfoldable pub is_data_reg_low_part : ℕ → Bool
is_data_reg_low_part regn = within regno_first_acc regn regno_last_acc && regn % 2 == 0

unfoldable pub non_strict_base_reg : ℕ → Bool
unfolding is_base_reg
non_strict_base_reg regn = is_base_reg regn || leb first_pseudo_register regn

-- `ajardsp_regno_ok_for_base_p`, with GCC's table `reg_renumber`.
unfoldable pub ajardsp_regno_ok_for_base_p : (ℕ → ℕ) → ℕ → Bool
unfolding is_base_reg
ajardsp_regno_ok_for_base_p reg_renumber regn =
    is_base_reg regn || (leb first_pseudo_register regn && is_base_reg (reg_renumber regn))

-- The modes that the code names, and all others.
pub data Mode : Type 0 where
  bi_mode qi_mode hi_mode qf_mode other_mode : Mode

pub data ModeClass : Type 0 where
  mode_int mode_float mode_other : ModeClass

abbrev pub is_qi : Mode → Bool
is_qi qi_mode = true
is_qi _ = false

abbrev pub is_hi : Mode → Bool
is_hi hi_mode = true
is_hi _ = false

abbrev pub is_bi : Mode → Bool
is_bi bi_mode = true
is_bi _ = false

abbrev pub is_qf : Mode → Bool
is_qf qf_mode = true
is_qf _ = false

abbrev is_int : ModeClass → Bool
is_int mode_int = true
is_int _ = false

abbrev is_float : ModeClass → Bool
is_float mode_float = true
is_float _ = false

-- `hard_regno_mode_ok`, with `GET_MODE_CLASS`.
unfoldable pub hard_regno_mode_ok : (Mode → ModeClass) → ℕ → Mode → Bool
unfolding is_data_reg_low_part
hard_regno_mode_ok get_mode_class regn mode =
    if is_bi mode && within 24 regn 27
    then true
    else if is_float (get_mode_class mode)
        && (is_qf mode && within regno_first_ptr regn regno_last_acc)
    then true
    else if is_int (get_mode_class mode)
    then (is_qi mode && within regno_first_ptr regn regno_last_acc)
      || (is_hi mode && is_data_reg_low_part regn)
      || (is_qi mode && (regn == stack_pointer_regnum || regn == hard_frame_pointer_regnum))
    else false

-- `enum reg_class` and `REG_CLASS_CONTENTS`.
pub data RegClass : Type 0 where
  no_regs caller_saved_regs callee_saved_regs acc_regs_low_part acc_regs_high_part : RegClass
  acc_regs_0_3 acc_regs ptr_regs pred_regs spec_regs all_ptr_regs general_regs : RegClass
  all_regs acc_ptr : RegClass

unfoldable pub reg_class_contents : RegClass → ℕ
reg_class_contents no_regs = 0x00000000
reg_class_contents caller_saved_regs = 0x0000ff0f
reg_class_contents callee_saved_regs = 0x00ff00f0
reg_class_contents acc_regs_low_part = 0x00555500
reg_class_contents acc_regs_high_part = 0x00aaaa00
reg_class_contents acc_regs_0_3 = 0x0000ff00
reg_class_contents acc_regs = 0x00ffff00
reg_class_contents ptr_regs = 0x000000ff
reg_class_contents pred_regs = 0x0f000000
reg_class_contents spec_regs = 0x30000000
reg_class_contents all_ptr_regs = 0x100000ff
reg_class_contents general_regs = 0x0fffffff
reg_class_contents all_regs = 0x3fffffff
reg_class_contents acc_ptr = 0x00ffffff

unfoldable pub regno_reg_class : ℕ → RegClass
unfolding is_base_reg is_callee_saved_reg is_caller_saved_reg is_general_reg
regno_reg_class regn =
    if is_callee_saved_reg regn
    then callee_saved_regs
    else if is_caller_saved_reg regn
    then caller_saved_regs
    else if is_base_reg regn
    then all_ptr_regs
    else if within regno_first_ptr regn regno_last_ptr
    then ptr_regs
    else if within regno_first_acc regn (regno_first_acc + 7)
    then acc_regs_0_3
    else if within regno_first_acc regn regno_last_acc
    then acc_regs
    else if is_general_reg regn
    then general_regs
    else if within regno_first_pred regn regno_last_pred
    then pred_regs
    else if within regno_first_spec regn regno_last_spec
    then spec_regs
    else if within regno_first_ptr regn regno_last_acc
    then acc_ptr
    else no_regs
