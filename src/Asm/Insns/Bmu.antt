-- ===== src/Asm/Insns/Bmu.antt =====
-- The rows of `ajardsp_insns` (sw/tools/asm/ajardsp-insns.c) for `nop` and the bit manipulation unit.
use ajardsp.Common.{List, [], ◌∷◌, codes}
use ajardsp.Asm.Types.{InstDef, encode_acc, encode_acc_half, inst_16, inst_32, reg}
use ajardsp.Asm.Insns.Rows.{insn, operand}
use ajardsp.Asm.Insns.Macros.{bmu_itype_and_16_32, bmu_itype_not_16_32, bmu_itype_or_16_32}
use ajardsp.Asm.Insns.Macros.{bmu_itype_shifta_16_32, bmu_itype_shiftl_16_32}
use ajardsp.Asm.Insns.Macros.{bmu_itype_xor_16_32, bmu_op_size_16, bmu_shift_left, fu_bmu}
use ajardsp.Asm.Insns.Macros.{insn_enc_32, ◌or◌}

unfoldable pub bmu_insns_1 : List InstDef
bmu_insns_1 =
    insn (codes "nop") inst_16 (0x0000) 0 ([])
    ∷ insn (codes "and32") inst_32 (insn_enc_32 or bmu_itype_and_16_32 or fu_bmu) 3 (
        operand reg 10 3 encode_acc
        ∷ operand reg 14 3 encode_acc
        ∷ operand reg 18 3 encode_acc
        ∷ [])
    ∷ insn (codes "or32") inst_32 (insn_enc_32 or bmu_itype_or_16_32 or fu_bmu) 3 (
        operand reg 10 3 encode_acc
        ∷ operand reg 14 3 encode_acc
        ∷ operand reg 18 3 encode_acc
        ∷ [])
    ∷ insn (codes "xor32") inst_32 (insn_enc_32 or bmu_itype_xor_16_32 or fu_bmu) 3 (
        operand reg 10 3 encode_acc
        ∷ operand reg 14 3 encode_acc
        ∷ operand reg 18 3 encode_acc
        ∷ [])
    ∷ insn (codes "not32") inst_32 (insn_enc_32 or bmu_itype_not_16_32 or fu_bmu) 2
        (operand reg 10 3 encode_acc ∷ operand reg 18 3 encode_acc ∷ [])
    ∷ insn (codes "shiftra32") inst_32 (insn_enc_32 or bmu_itype_shifta_16_32 or fu_bmu) 3 (
        operand reg 10 3 encode_acc
        ∷ operand reg 13 4 encode_acc_half
        ∷ operand reg 18 3 encode_acc
        ∷ [])
    ∷ []

unfoldable pub bmu_insns_2 : List InstDef
bmu_insns_2 =
    insn (codes "shiftrl32") inst_32 (insn_enc_32 or bmu_itype_shiftl_16_32 or fu_bmu) 3 (
      operand reg 10 3 encode_acc
      ∷ operand reg 13 4 encode_acc_half
      ∷ operand reg 18 3 encode_acc
      ∷ [])
    ∷ insn (codes "shiftll32") inst_32
        (insn_enc_32 or bmu_shift_left or bmu_itype_shiftl_16_32 or fu_bmu) 3
        (operand reg 10 3 encode_acc
          ∷ operand reg 13 4 encode_acc_half
          ∷ operand reg 18 3 encode_acc
          ∷ [])
    ∷ insn (codes "and16") inst_32 (insn_enc_32 or bmu_op_size_16 or bmu_itype_and_16_32 or fu_bmu)
        3
        (operand reg 9 4 encode_acc_half
          ∷ operand reg 13 4 encode_acc_half
          ∷ operand reg 17 4 encode_acc_half
          ∷ [])
    ∷ insn (codes "or16") inst_32 (insn_enc_32 or bmu_op_size_16 or bmu_itype_or_16_32 or fu_bmu) 3
        (operand reg 9 4 encode_acc_half
          ∷ operand reg 13 4 encode_acc_half
          ∷ operand reg 17 4 encode_acc_half
          ∷ [])
    ∷ insn (codes "xor16") inst_32 (insn_enc_32 or bmu_op_size_16 or bmu_itype_xor_16_32 or fu_bmu)
        3
        (operand reg 9 4 encode_acc_half
          ∷ operand reg 13 4 encode_acc_half
          ∷ operand reg 17 4 encode_acc_half
          ∷ [])
    ∷ []

unfoldable pub bmu_insns_3 : List InstDef
bmu_insns_3 =
    insn (codes "not16") inst_32 (insn_enc_32 or bmu_op_size_16 or bmu_itype_not_16_32 or fu_bmu) 2
      (operand reg 9 4 encode_acc_half ∷ operand reg 17 4 encode_acc_half ∷ [])
    ∷ insn (codes "shiftra16") inst_32
        (insn_enc_32 or bmu_op_size_16 or bmu_itype_shifta_16_32 or fu_bmu) 3
        (operand reg 9 4 encode_acc_half
          ∷ operand reg 13 4 encode_acc_half
          ∷ operand reg 17 4 encode_acc_half
          ∷ [])
    ∷ insn (codes "shiftrl16") inst_32
        (insn_enc_32 or bmu_op_size_16 or bmu_itype_shiftl_16_32 or fu_bmu) 3
        (operand reg 9 4 encode_acc_half
          ∷ operand reg 13 4 encode_acc_half
          ∷ operand reg 17 4 encode_acc_half
          ∷ [])
    ∷ insn (codes "shiftll16") inst_32
        (insn_enc_32 or bmu_op_size_16 or bmu_shift_left or bmu_itype_shiftl_16_32 or fu_bmu) 3
        (operand reg 9 4 encode_acc_half
          ∷ operand reg 13 4 encode_acc_half
          ∷ operand reg 17 4 encode_acc_half
          ∷ [])
    ∷ []
