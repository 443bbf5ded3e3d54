-- ===== src/Tests/Rows.antt =====
-- Single rows of the table, encoders, padding and the symbol table at concrete inputs.
use ajardsp.Common.{ℕ, ◌+◌, ◌^◌, ◌%◌, ◌≤◌, ◌<◌, ◌≡◌, refl, arith, true, some, bit_and}
use ajardsp.Common.{[], ◌∷◌, codes, Outcome, good, get_elem?, str_eq, has_prefix, char_at}
use ajardsp.Common.{pos, get_or}
use ajardsp.Asm.Types.{OperandDef, InstDef, reg, encode_acc, inst_16}
use ajardsp.Asm.Encode.{Context, call_encode, encode_acc_fn, place, digit}
use ajardsp.Asm.Encode.Fields.{field_mask, field_fits, call_encode-field_mask}
use ajardsp.Asm.Encode.Values.{plain, bits, call_encode-bits}
use ajardsp.Asm.Insns.{ajardsp_insns}
use ajardsp.Asm.Bundle.{encode_inst, operand_match}
use ajardsp.Asm.Bundle.Values.{AllMean, encode_inst-bits}
use ajardsp.Asm.Types.{zero_operand_def}
use ajardsp.Asm.Bundle.Once.{row_pattern, row_unique}
use ajardsp.Asm.Passes.{AsmState, init, pad_code}
use ajardsp.Asm.Passes.Align.{pad_code_pow}
use ajardsp.Tests.Programs.{register}
use ajardsp.Tests.Bundles.{first_pass, second_pass, add}

abbrev pub field : OperandDef
field = record { type = reg; offset = 6; width = 3; encode = some encode_acc }

field_encodes :
    call_encode second_pass encode_acc field (register (codes "acc5")) 0x4002 ≡ good 0x4142
unfolding call_encode encode_acc_fn has_prefix char_at place digit
field_encodes = refl

field_in_word : field_fits field ≡ true
unfolding field_fits field_mask
field_in_word = refl

field_masked : bit_and (field_mask field) 0xfe3f ≡ 0
unfolding field_mask
field_masked = refl

call_encode-field_mask_example : bit_and 0x4142 0xfe3f ≡ bit_and 0x4002 0xfe3f
call_encode-field_mask_example =
    call_encode-field_mask field field_in_word second_pass encode_acc (register (codes "acc5"))
      0x4002 0x4142 0xfe3f field_encodes field_masked

field_clear : bit_and 0x4002 (field_mask field) ≡ 0
unfolding field_mask
field_clear = refl

call_encode-bits_example :
    (q : ℕ) × (call_encode second_pass encode_acc field (register (codes "acc5")) 0x4002 ≡ good q)
    × (bit_and q (field_mask field) ≡ bits field (plain 5))
call_encode-bits_example =
    call_encode-bits second_pass field encode_acc (register (codes "acc5")) (plain 5) 0x4002
      field_in_word (omega arith) field_clear (refl, omega arith)

unfoldable pub add_row : InstDef
unfolding ajardsp_insns
add_row =
    get_or ajardsp_insns 15
      (record { mnemonic = []; nr_operands = 0; pattern = 0; size = inst_16; operands = [] })

abbrev add_index : ℕ
add_index = 15

add_row_found : get_elem? ajardsp_insns add_index ≡ some add_row
unfolding add_row ajardsp_insns
add_row_found = refl

unfoldable add_pattern : Context → Outcome ℕ
unfolding row_pattern add_row operand_match encode_inst call_encode encode_acc_fn str_eq has_prefix
    char_at place digit
add_pattern ctx = row_pattern ctx add true add_row

abbrev pattern_of : Outcome ℕ → ℕ
pattern_of (good n) = n
pattern_of _ = 0

add_gives : (ctx : Context) → add_pattern ctx ≡ good (pattern_of (add_pattern first_pass))
unfolding add_pattern
add_gives ctx = refl

row_unique_example : add_index ≡ add_index
unfolding add_pattern
row_unique_example =
    row_unique first_pass second_pass add true true add_index add_index add_row add_row
      (pattern_of (add_pattern first_pass)) (pattern_of (add_pattern first_pass)) add_row_found
      add_row_found (add_gives first_pass) (add_gives second_pass)

abbrev field_of : ℕ → OperandDef
field_of k = get_or add_row.operands k zero_operand_def

add_means : AllMean second_pass add_row 0 add.ops (plain 0 ∷ plain 1 ∷ plain 2 ∷ [])
unfolding add_row
add_means = (
  (field_of 0, encode_acc, refl, refl, omega arith, (refl, omega arith)),
  (
    (field_of 1, encode_acc, refl, refl, omega arith, (refl, omega arith)),
    ((field_of 2, encode_acc, refl, refl, omega arith, (refl, omega arith)), tt),
  ),
)

encode_inst-bits_example :
    (p : ℕ) × (encode_inst second_pass add true add_row ≡ good p)
    × (bit_and p (field_mask (field_of 2)) ≡ bits (field_of 2) (plain 2))
unfolding add_row
encode_inst-bits_example =
    encode_inst-bits second_pass add true add_index add_row (plain 0 ∷ plain 1 ∷ plain 2 ∷ []) 2
      (field_of 2) (plain 2) add_row_found refl add_means refl refl

abbrev moved_on : AsmState
moved_on = record init { imem_addr = 13 }

pad_code_pow_example :
    (target : ℕ) × (target % 2 ^ 3 ≡ 0)
    × (13 ≤ target)
    × (target < 13 + 2 ^ 3)
    × ((pad_code (pos (2 ^ 3)) moved_on).imem_addr ≡ target % 2 ^ 16)
unfolding init
pad_code_pow_example = pad_code_pow 3 moved_on (omega arith) (omega arith)
