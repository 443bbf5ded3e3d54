-- ===== src/Gcc/Classes.antt =====
-- The class of a register.
use ajardsp.Common.{
  ℕ, ◌%◌, ◌<◌, ◌≡◌, refl, arith, ◌==◌, not, if◌then◌else◌, Bool, true, check_below,
  check_below_sound, shr,
}
use ajardsp.Gcc.Registers.{first_pseudo_register, RegClass, reg_class_contents, regno_reg_class}

-- The bit of a register in the contents of a class.
unfoldable pub in_class : RegClass → ℕ → Bool
unfolding reg_class_contents
in_class c regn = shr (reg_class_contents c) regn % 2 == 1

abbrev is_retpc : ℕ → Bool
is_retpc regn = regn == 29

abbrev class_checked : ℕ → Bool
class_checked regn =
    (if is_retpc regn
      then not (in_class (regno_reg_class regn) regn)
      else in_class (regno_reg_class regn) regn)

classes_checked : check_below first_pseudo_register class_checked ≡ true
unfolding check_below in_class regno_reg_class
classes_checked = refl

-- Every hard register but one is in the class that `regno_reg_class` gives for it, as GCC wants of
-- REGNO_REG_CLASS: the register 29, `$retpc`, is given a class that does not have it.
pub regno_reg_class-in_class :
    (regn : ℕ)
    → regn < first_pseudo_register
    → in_class (regno_reg_class regn) regn ≡ not (regn == 29)
regno_reg_class-in_class regn h =
    let checked = check_below_sound first_pseudo_register class_checked regn classes_checked h in
    ground (arith, checked)
