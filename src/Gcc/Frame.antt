-- ===== src/Gcc/Frame.antt =====
-- The registers that a function saves and the offsets between its frame registers, in ajardsp.c.
-- `df_regs_ever_live_p` and `get_frame_size` are GCC's, and arguments of the model; `call_used_regs`
-- and `fixed_regs` are GCC's copies of the tables of ajardsp.h.
pub mod Saved
use ajardsp.Common.{
  ℕ, zero, suc, ◌+◌, ◌-◌, ◌*◌, leb, ◌==◌, not, ◌&&◌, if◌then◌else◌, Bool, true, false, get_or, ℤ,
  pos, negsuc, Outcome, good, fault, ◌>>=◌,
}
use ajardsp.Gcc.Registers.{
  first_pseudo_register, regno_first_ptr, regno_last_ptr, regno_first_acc, regno_last_acc,
  fixed_registers, call_used_registers, stack_pointer_regnum, hard_frame_pointer_regnum,
  frame_pointer_regnum, arg_pointer_regnum,
}

-- Whether the register is to be saved.
unfoldable pub is_saved : (ℕ → Bool) → ℕ → Bool
unfolding fixed_registers call_used_registers
is_saved df_regs_ever_live_p i =
    df_regs_ever_live_p i
    && not (get_or call_used_registers i true)
    && not (get_or fixed_registers i true)

-- What one register adds to `sum`; `gcc_unreachable` is a fault.
unfoldable pub stack_words : ℕ → Outcome ℕ
stack_words i =
    if leb regno_first_ptr i && leb i regno_last_ptr
    then good 1
    else if leb regno_first_acc i && leb i regno_last_acc
    then good 2
    else fault

-- The loop of `ajardsp_callee_saved_stack_usage`, from register `i` on.
unfoldable pub usage_from : (ℕ → Bool) → ℕ → ℕ → ℕ → Outcome ℕ
unfolding is_saved stack_words
usage_from live zero i sum = good sum
usage_from live (suc left) i sum = (if is_saved live i then stack_words i else good 0) >>= λ words.
    usage_from live left (i + 1) (sum + words)

unfoldable pub ajardsp_callee_saved_stack_usage : (ℕ → Bool) → Outcome ℕ
unfolding usage_from
ajardsp_callee_saved_stack_usage df_regs_ever_live_p =
    usage_from df_regs_ever_live_p first_pseudo_register 0 0

-- The loop of `registers_to_be_saved`.
unfoldable pub saved_from : (ℕ → Bool) → ℕ → ℕ → ℕ → ℕ
unfolding is_saved
saved_from live zero i num = num
saved_from live (suc left) i num =
    saved_from live left (i + 1) (if is_saved live i then num + 1 else num)

unfoldable pub registers_to_be_saved : (ℕ → Bool) → ℕ
unfolding saved_from
registers_to_be_saved df_regs_ever_live_p = saved_from df_regs_ever_live_p first_pseudo_register 0 0

-- `-n`.
abbrev minus : ℕ → ℤ
minus zero = pos zero
minus (suc n) = negsuc n

unfoldable pub initial_elimination_offset : (ℕ → Bool) → ℕ → ℕ → ℕ → ℤ
unfolding registers_to_be_saved
initial_elimination_offset df_regs_ever_live_p get_frame_size from to =
    let saved = (3 + registers_to_be_saved df_regs_ever_live_p) * 4 in
    if from == frame_pointer_regnum && to == stack_pointer_regnum
    then pos get_frame_size
    else if from == frame_pointer_regnum && to == hard_frame_pointer_regnum
    then minus saved
    else if from == arg_pointer_regnum && to == stack_pointer_regnum
    then pos (saved + get_frame_size)
    else if from == arg_pointer_regnum && to == hard_frame_pointer_regnum
    then pos 0
    else if from == hard_frame_pointer_regnum && to == stack_pointer_regnum
    then pos (saved + get_frame_size)
    else pos 0
