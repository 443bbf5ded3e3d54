-- ===== src/Disasm/Codes.antt =====
-- The codes of the table's rows: which rows the disassembler can take for one another.
use ajardsp.Common.{ℕ, bit_and, bit_or, ◌==◌, Bool, true, false, ◌&&◌, if◌then◌else◌}
use ajardsp.Common.{List, [], ◌∷◌, CString, codes, str_eq, shl32, all, ◌≡◌, refl}
use ajardsp.Asm.Types.{InstDef, inst_16, inst_32}
use ajardsp.Asm.Encode.Fields.{field_mask}
use ajardsp.Asm.Insns.{ajardsp_insns}
use ajardsp.Disasm.{compare_mask, compare_pattern}

-- The mnemonic under which the disassembler shows an instruction: the unsigned comparisons have
-- the codes of the signed ones.
unfoldable pub shown : CString → CString
shown m =
    if str_eq m (codes "cmp16ltu")
    then codes "cmp16lt"
    else if str_eq m (codes "cmp16leu")
    then codes "cmp16le"
    else if str_eq m (codes "cmp16gtu")
    then codes "cmp16gt"
    else if str_eq m (codes "cmp16geu")
    then codes "cmp16ge"
    else m

-- Some word has the fixed bits of both rows.
unfoldable pub compatible : InstDef → InstDef → Bool
compatible r d =
    bit_and (compare_pattern d) (compare_mask r) == bit_and (compare_pattern r) (compare_mask d)

-- The first row that is compatible with `d` has its very code, and the mnemonic to show.
unfoldable pub first_compatible : List InstDef → InstDef → Bool
unfolding compatible shown
first_compatible [] d = false
first_compatible (r ∷ rows) d =
    if compatible r d
    then (compare_mask r == compare_mask d)
      && (compare_pattern r == compare_pattern d)
      && str_eq r.mnemonic (shown d.mnemonic)
    else first_compatible rows d

-- The fields of a row lie outside its mask.
unfoldable pub fields_masked : InstDef → Bool
fields_masked d = all (λ o. bit_and (field_mask o) (compare_mask d) == 0) d.operands

-- What is left of a pattern when the operands, the parallel bit, the predicate bits and for a
-- 16-bit row the upper half are taken out: the row's own code.
unfoldable pub code_kept : ℕ → InstDef → Bool
code_kept start d = elim d.size [
  | inst_32 ↦
      (bit_and (bit_or (bit_and start (compare_mask d)) 2) 0x3ffffffe == compare_pattern d)
      && (bit_and (compare_mask d) 2 == 2)
      && (bit_and (bit_and start (compare_mask d)) 2 == 0)
  | inst_16 ↦ bit_and (bit_and start (compare_mask d)) 0xfffc == compare_pattern d
]

unfoldable pub code_sound : InstDef → Bool
unfolding first_compatible fields_masked code_kept
code_sound d =
    fields_masked d
    && first_compatible ajardsp_insns d
    && code_kept d.pattern d
    && code_kept (bit_or d.pattern (shl32 1 0)) d

pub codes_sound : all code_sound ajardsp_insns ≡ true
unfolding all code_sound ajardsp_insns compare_mask compare_pattern field_mask str_eq
codes_sound = refl
