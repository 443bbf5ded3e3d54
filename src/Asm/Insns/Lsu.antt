-- ===== src/Asm/Insns/Lsu.antt =====
-- The rows of `ajardsp_insns` (sw/tools/asm/ajardsp-insns.c) for the load and store unit.
use ajardsp.Common.{List, [], ◌∷◌, codes}
use ajardsp.Asm.Types.{InstDef, encode_acc, encode_acc_half, encode_int, encode_ptr}
use ajardsp.Asm.Types.{encode_reg, encode_spec, encode_symref, inst_16, inst_32, integer, reg}
use ajardsp.Asm.Types.{symbol_ref}
use ajardsp.Asm.Insns.Rows.{insn, operand}
use ajardsp.Asm.Insns.Macros.{fu_lsu, insn_enc_32, lsu_itype_addptr_16, lsu_itype_ext_burst}
use ajardsp.Asm.Insns.Macros.{lsu_itype_ld_16, lsu_itype_ld_32, lsu_itype_ld_ext_32}
use ajardsp.Asm.Insns.Macros.{lsu_itype_ld_imm_acc_16, lsu_itype_ld_imm_ptr_16}
use ajardsp.Asm.Insns.Macros.{lsu_itype_ld_inc_16, lsu_itype_ld_inc_32, lsu_itype_ld_off_16}
use ajardsp.Asm.Insns.Macros.{lsu_itype_ld_off_32, lsu_itype_mv_acc_acc_16}
use ajardsp.Asm.Insns.Macros.{lsu_itype_mv_acc_ptr_16, lsu_itype_mv_ptr_ptr_16}
use ajardsp.Asm.Insns.Macros.{lsu_itype_mvfs_16, lsu_itype_mvts_16, lsu_itype_push_pop_16_32}
use ajardsp.Asm.Insns.Macros.{lsu_itype_st_16, lsu_itype_st_32, lsu_itype_st_ext_32}
use ajardsp.Asm.Insns.Macros.{lsu_itype_st_inc_16, lsu_itype_st_inc_32, lsu_itype_st_off_16}
use ajardsp.Asm.Insns.Macros.{lsu_itype_st_off_32, ◌<<◌, ◌or◌}

unfoldable pub lsu_insns_1 : List InstDef
lsu_insns_1 =
    insn (codes "ld16") inst_16 (lsu_itype_ld_16 or fu_lsu) 2
      (operand reg 8 3 encode_ptr ∷ operand reg 11 5 encode_reg ∷ [])
    ∷ insn (codes "ldinc16") inst_16 (lsu_itype_ld_inc_16 or fu_lsu) 2
        (operand reg 8 3 encode_ptr ∷ operand reg 11 5 encode_reg ∷ [])
    ∷ insn (codes "st16") inst_16 (lsu_itype_st_16 or fu_lsu) 2
        (operand reg 11 5 encode_reg ∷ operand reg 8 3 encode_ptr ∷ [])
    ∷ insn (codes "stinc16") inst_16 (lsu_itype_st_inc_16 or fu_lsu) 2
        (operand reg 11 5 encode_reg ∷ operand reg 8 3 encode_ptr ∷ [])
    ∷ insn (codes "ld32") inst_16 (lsu_itype_ld_32 or fu_lsu) 2
        (operand reg 8 3 encode_ptr ∷ operand reg 11 3 encode_acc ∷ [])
    ∷ insn (codes "ldinc32") inst_16 (lsu_itype_ld_inc_32 or fu_lsu) 2
        (operand reg 8 3 encode_ptr ∷ operand reg 11 3 encode_acc ∷ [])
    ∷ []

unfoldable pub lsu_insns_2 : List InstDef
lsu_insns_2 =
    insn (codes "st32") inst_16 (lsu_itype_st_32 or fu_lsu) 2
      (operand reg 11 3 encode_acc ∷ operand reg 8 3 encode_ptr ∷ [])
    ∷ insn (codes "stinc32") inst_16 (lsu_itype_st_inc_32 or fu_lsu) 2
        (operand reg 11 3 encode_acc ∷ operand reg 8 3 encode_ptr ∷ [])
    ∷ insn (codes "ldimm16") inst_32 (insn_enc_32 or lsu_itype_ld_imm_acc_16 or fu_lsu) 2
        (operand integer 12 16 encode_int ∷ operand reg 8 4 encode_acc_half ∷ [])
    ∷ insn (codes "ldimm16") inst_32 (insn_enc_32 or lsu_itype_ld_imm_ptr_16 or fu_lsu) 2
        (operand integer 12 16 encode_int ∷ operand reg 8 4 encode_ptr ∷ [])
    ∷ insn (codes "ldimm16") inst_32 (insn_enc_32 or lsu_itype_ld_imm_ptr_16 or fu_lsu) 2
        (operand symbol_ref 12 16 encode_symref ∷ operand reg 8 4 encode_ptr ∷ [])
    ∷ insn (codes "ldimm16") inst_32 (insn_enc_32 or lsu_itype_ld_imm_ptr_16 or fu_lsu) 2
        (operand symbol_ref 12 16 encode_symref ∷ operand reg 8 4 encode_acc_half ∷ [])
    ∷ []

unfoldable pub lsu_insns_3 : List InstDef
lsu_insns_3 =
    insn (codes "ldoff16") inst_32 (insn_enc_32 or lsu_itype_ld_off_16 or fu_lsu) 3 (
      operand reg 25 3 encode_ptr
      ∷ operand integer 13 12 encode_int
      ∷ operand reg 8 5 encode_reg
      ∷ [])
    ∷ insn (codes "ldoff16") inst_32 (insn_enc_32 or lsu_itype_ld_off_16 or fu_lsu) 3 (
        operand reg 25 3 encode_ptr
        ∷ operand symbol_ref 13 12 encode_symref
        ∷ operand reg 8 5 encode_reg
        ∷ [])
    ∷ insn (codes "ldoff32") inst_32 (insn_enc_32 or lsu_itype_ld_off_32 or fu_lsu) 3 (
        operand reg 25 3 encode_ptr
        ∷ operand integer 13 12 encode_int
        ∷ operand reg 9 3 encode_acc
        ∷ [])
    ∷ insn (codes "ldoff32") inst_32 (insn_enc_32 or lsu_itype_ld_off_32 or fu_lsu) 3 (
        operand reg 25 3 encode_ptr
        ∷ operand symbol_ref 13 12 encode_symref
        ∷ operand reg 9 3 encode_acc
        ∷ [])
    ∷ insn (codes "stoff16") inst_32 (insn_enc_32 or lsu_itype_st_off_16 or fu_lsu) 3 (
        operand reg 8 5 encode_reg
        ∷ operand reg 25 3 encode_ptr
        ∷ operand integer 13 12 encode_int
        ∷ [])
    ∷ []

unfoldable pub lsu_insns_4 : List InstDef
lsu_insns_4 =
    insn (codes "stoff16") inst_32 (insn_enc_32 or lsu_itype_st_off_16 or fu_lsu) 3 (
      operand reg 8 5 encode_reg
      ∷ operand reg 25 3 encode_ptr
      ∷ operand symbol_ref 13 12 encode_symref
      ∷ [])
    ∷ insn (codes "stoff32") inst_32 (insn_enc_32 or lsu_itype_st_off_32 or fu_lsu) 3 (
        operand reg 9 3 encode_acc
        ∷ operand reg 25 3 encode_ptr
        ∷ operand integer 13 12 encode_int
        ∷ [])
    ∷ insn (codes "stoff32") inst_32 (insn_enc_32 or lsu_itype_st_off_32 or fu_lsu) 3 (
        operand reg 9 3 encode_acc
        ∷ operand reg 25 3 encode_ptr
        ∷ operand symbol_ref 13 12 encode_symref
        ∷ [])
    ∷ insn (codes "addptr16") inst_32 (insn_enc_32 or lsu_itype_addptr_16 or fu_lsu) 2
        (operand integer 13 12 encode_int ∷ operand reg 25 3 encode_ptr ∷ [])
    ∷ insn (codes "mvts16") inst_32 (insn_enc_32 or lsu_itype_mvts_16 or fu_lsu) 2
        (operand reg 8 5 encode_reg ∷ operand reg 13 6 encode_spec ∷ [])
    ∷ insn (codes "mvfs16") inst_32 (insn_enc_32 or lsu_itype_mvfs_16 or fu_lsu) 2
        (operand reg 13 6 encode_spec ∷ operand reg 8 5 encode_reg ∷ [])
    ∷ []

unfoldable pub lsu_insns_5 : List InstDef
lsu_insns_5 =
    insn (codes "push16") inst_16 ((1 << 8) or lsu_itype_push_pop_16_32 or fu_lsu) 1
      (operand reg 11 5 encode_reg ∷ [])
    ∷ insn (codes "push16") inst_16 ((1 << 10) or (1 << 8) or lsu_itype_push_pop_16_32 or fu_lsu) 1
        (operand reg 11 5 encode_spec ∷ [])
    ∷ insn (codes "push32") inst_16
        ((1 << 15) or (1 << 9) or (1 << 8) or lsu_itype_push_pop_16_32 or fu_lsu) 1
        (operand reg 12 3 encode_acc ∷ [])
    ∷ insn (codes "pop16") inst_16 (lsu_itype_push_pop_16_32 or fu_lsu) 1
        (operand reg 11 5 encode_reg ∷ [])
    ∷ insn (codes "pop16") inst_16 ((1 << 10) or lsu_itype_push_pop_16_32 or fu_lsu) 1
        (operand reg 11 5 encode_spec ∷ [])
    ∷ insn (codes "pop32") inst_16 ((1 << 15) or (1 << 9) or lsu_itype_push_pop_16_32 or fu_lsu) 1
        (operand reg 12 3 encode_acc ∷ [])
    ∷ insn (codes "mv16") inst_16 ((0 << 8) or lsu_itype_mv_acc_ptr_16 or fu_lsu) 2
        (operand reg 9 3 encode_ptr ∷ operand reg 12 4 encode_acc_half ∷ [])
    ∷ insn (codes "mv16") inst_16 ((1 << 8) or lsu_itype_mv_acc_ptr_16 or fu_lsu) 2
        (operand reg 12 4 encode_acc_half ∷ operand reg 9 3 encode_ptr ∷ [])
    ∷ []

unfoldable pub lsu_insns_6 : List InstDef
lsu_insns_6 =
    insn (codes "mv16") inst_16 (lsu_itype_mv_ptr_ptr_16 or fu_lsu) 2
      (operand reg 9 3 encode_ptr ∷ operand reg 12 3 encode_ptr ∷ [])
    ∷ insn (codes "mv16") inst_16 (lsu_itype_mv_acc_acc_16 or fu_lsu) 2
        (operand reg 12 4 encode_acc_half ∷ operand reg 8 4 encode_acc_half ∷ [])
    ∷ insn (codes "stext32") inst_32 (insn_enc_32 or lsu_itype_st_ext_32 or fu_lsu) 3 (
        operand reg 14 3 encode_acc ∷ operand reg 8 3 encode_ptr ∷ operand reg 11 3 encode_ptr ∷ [])
    ∷ insn (codes "ldext32") inst_32 (insn_enc_32 or lsu_itype_ld_ext_32 or fu_lsu) 3 (
        operand reg 8 3 encode_ptr ∷ operand reg 11 3 encode_ptr ∷ operand reg 14 3 encode_acc ∷ [])
    ∷ insn (codes "extburst") inst_32 (insn_enc_32 or lsu_itype_ext_burst or fu_lsu) 4 (
        operand integer 17 8 encode_int
        ∷ operand reg 8 3 encode_ptr
        ∷ operand reg 11 3 encode_ptr
        ∷ operand reg 14 3 encode_acc
        ∷ [])
    ∷ []
