-- ===== src/Tests/Edges.antt =====
-- Inputs at which the code faults or accepts more than it means to.
use ajardsp.Common.{◌≡◌, refl, [], ◌∷◌, codes, pos, negsuc, fault}
use ajardsp.Common.{has_prefix, char_at}
use ajardsp.Asm.Encode.{encode_acc_fn, encode_acc_half_fn, encode_int_fn, place, digit, half_reg}
use ajardsp.Asm.Bundle.{operand_match, try_assemble_inst_bundle}
use ajardsp.Asm.Passes.{init, asm_gen_opcodes}
use ajardsp.Tests.Programs.{register, number, instruction, align}
use ajardsp.Tests.Rows.{add_row, field}

-- `add32 $acc0` has fewer operands than its row.
missing_operand :
    operand_match add_row (instruction (codes "add32") (register (codes "acc0") ∷ [])) ≡ fault
unfolding operand_match add_row
missing_operand = refl

-- `$acc` without a number.
bare_register : encode_acc_fn field (register (codes "acc")) 0 ≡ fault
unfolding encode_acc_fn has_prefix char_at
bare_register = refl

-- `$acc5h` in a field of three bits is taken for `$acc1h`.
high_register :
    encode_acc_half_fn field (register (codes "acc5h")) 0
    ≡ encode_acc_half_fn field (register (codes "acc1h")) 0
unfolding encode_acc_half_fn has_prefix char_at half_reg place digit
high_register = refl

-- -9 in a field of three bits is taken for -1.
low_number : encode_int_fn field (number (negsuc 8)) 0 ≡ encode_int_fn field (number (negsuc 0)) 0
unfolding encode_int_fn
low_number = refl

-- `.align 0`
align_zero : asm_gen_opcodes (align (pos 0) ∷ []) [] init ≡ fault
unfolding asm_gen_opcodes init try_assemble_inst_bundle
align_zero = refl
