-- ===== src/Asm/Insns/Cu.antt =====
-- The rows of `ajardsp_insns` (sw/tools/asm/ajardsp-insns.c) for the computational unit.
use ajardsp.Common.{List, [], ◌∷◌, codes}
use ajardsp.Asm.Types.{InstDef, encode_acc, encode_acc_half, encode_pred, inst_16, inst_32}
use ajardsp.Asm.Types.{reg}
use ajardsp.Asm.Insns.Rows.{insn, operand}
use ajardsp.Asm.Insns.Macros.{cmp_eq, cmp_ge, cmp_gt, cmp_le, cmp_lt, cmp_ne, cu_itype_add_16}
use ajardsp.Asm.Insns.Macros.{cu_itype_add_32, cu_itype_cmp_16, cu_itype_mac_16}
use ajardsp.Asm.Insns.Macros.{cu_itype_mpy_16, cu_itype_sub_16, cu_itype_sub_32, fu_cu}
use ajardsp.Asm.Insns.Macros.{insn_enc_32, ◌or◌}

unfoldable pub cu_insns_1 : List InstDef
cu_insns_1 =
    insn (codes "add32") inst_16 (cu_itype_add_32 or fu_cu) 3
      (operand reg 7 3 encode_acc ∷ operand reg 10 3 encode_acc ∷ operand reg 13 3 encode_acc ∷ [])
    ∷ insn (codes "sub32") inst_16 (cu_itype_sub_32 or fu_cu) 3 (
        operand reg 7 3 encode_acc ∷ operand reg 10 3 encode_acc ∷ operand reg 13 3 encode_acc ∷ [])
    ∷ insn (codes "add16") inst_16 (cu_itype_add_16 or fu_cu) 2
        (operand reg 11 4 encode_acc_half ∷ operand reg 7 4 encode_acc_half ∷ [])
    ∷ insn (codes "sub16") inst_16 (cu_itype_sub_16 or fu_cu) 2
        (operand reg 11 4 encode_acc_half ∷ operand reg 7 4 encode_acc_half ∷ [])
    ∷ insn (codes "mpy16") inst_16 (cu_itype_mpy_16 or fu_cu) 3 (
        operand reg 7 3 encode_acc_half
        ∷ operand reg 10 3 encode_acc_half
        ∷ operand reg 13 3 encode_acc
        ∷ [])
    ∷ []

unfoldable pub cu_insns_2 : List InstDef
cu_insns_2 =
    insn (codes "mac16") inst_16 (cu_itype_mac_16 or fu_cu) 3 (
      operand reg 7 3 encode_acc_half
      ∷ operand reg 10 3 encode_acc_half
      ∷ operand reg 13 3 encode_acc
      ∷ [])
    ∷ insn (codes "cmp16eq") inst_32 (insn_enc_32 or cmp_eq or cu_itype_cmp_16 or fu_cu) 3 (
        operand reg 9 4 encode_acc_half
        ∷ operand reg 13 4 encode_acc_half
        ∷ operand reg 24 2 encode_pred
        ∷ [])
    ∷ insn (codes "cmp16ne") inst_32 (insn_enc_32 or cmp_ne or cu_itype_cmp_16 or fu_cu) 3 (
        operand reg 9 4 encode_acc_half
        ∷ operand reg 13 4 encode_acc_half
        ∷ operand reg 24 2 encode_pred
        ∷ [])
    ∷ insn (codes "cmp16lt") inst_32 (insn_enc_32 or cmp_lt or cu_itype_cmp_16 or fu_cu) 3 (
        operand reg 9 4 encode_acc_half
        ∷ operand reg 13 4 encode_acc_half
        ∷ operand reg 24 2 encode_pred
        ∷ [])
    ∷ insn (codes "cmp16ltu") inst_32 (insn_enc_32 or cmp_lt or cu_itype_cmp_16 or fu_cu) 3 (
        operand reg 9 4 encode_acc_half
        ∷ operand reg 13 4 encode_acc_half
        ∷ operand reg 24 2 encode_pred
        ∷ [])
    ∷ []

unfoldable pub cu_insns_3 : List InstDef
cu_insns_3 =
    insn (codes "cmp16le") inst_32 (insn_enc_32 or cmp_le or cu_itype_cmp_16 or fu_cu) 3 (
      operand reg 9 4 encode_acc_half
      ∷ operand reg 13 4 encode_acc_half
      ∷ operand reg 24 2 encode_pred
      ∷ [])
    ∷ insn (codes "cmp16leu") inst_32 (insn_enc_32 or cmp_le or cu_itype_cmp_16 or fu_cu) 3 (
        operand reg 9 4 encode_acc_half
        ∷ operand reg 13 4 encode_acc_half
        ∷ operand reg 24 2 encode_pred
        ∷ [])
    ∷ insn (codes "cmp16gt") inst_32 (insn_enc_32 or cmp_gt or cu_itype_cmp_16 or fu_cu) 3 (
        operand reg 9 4 encode_acc_half
        ∷ operand reg 13 4 encode_acc_half
        ∷ operand reg 24 2 encode_pred
        ∷ [])
    ∷ insn (codes "cmp16gtu") inst_32 (insn_enc_32 or cmp_gt or cu_itype_cmp_16 or fu_cu) 3 (
        operand reg 9 4 encode_acc_half
        ∷ operand reg 13 4 encode_acc_half
        ∷ operand reg 24 2 encode_pred
        ∷ [])
    ∷ insn (codes "cmp16ge") inst_32 (insn_enc_32 or cmp_ge or cu_itype_cmp_16 or fu_cu) 3 (
        operand reg 9 4 encode_acc_half
        ∷ operand reg 13 4 encode_acc_half
        ∷ operand reg 24 2 encode_pred
        ∷ [])
    ∷ []

unfoldable pub cu_insns_4 : List InstDef
cu_insns_4 =
    insn (codes "cmp16geu") inst_32 (insn_enc_32 or cmp_ge or cu_itype_cmp_16 or fu_cu) 3 (
      operand reg 9 4 encode_acc_half
      ∷ operand reg 13 4 encode_acc_half
      ∷ operand reg 24 2 encode_pred
      ∷ [])
    ∷ []
