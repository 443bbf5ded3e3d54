-- ===== src/Asm/Insns/Pcu.antt =====
-- The rows of `ajardsp_insns` (sw/tools/asm/ajardsp-insns.c) for the program control unit.
use ajardsp.Common.{List, [], ◌∷◌, codes}
use ajardsp.Asm.Types.{InstDef, encode_ptr, encode_symref, inst_16, inst_32, reg, symbol_ref}
use ajardsp.Asm.Insns.Rows.{insn, operand}
use ajardsp.Asm.Insns.Macros.{fu_pcu, insn_enc_32, pcu_itype_bkrep, pcu_itype_call_abs}
use ajardsp.Asm.Insns.Macros.{pcu_itype_dint, pcu_itype_eint, pcu_itype_halt}
use ajardsp.Asm.Insns.Macros.{pcu_itype_jump_abs, pcu_itype_reti, pcu_itype_rets, ◌<<◌, ◌or◌}

unfoldable pub pcu_insns_1 : List InstDef
pcu_insns_1 =
    insn (codes "bra") inst_32 (insn_enc_32 or pcu_itype_jump_abs or fu_pcu) 1
      (operand symbol_ref 8 16 encode_symref ∷ [])
    ∷ insn (codes "bra.2ds") inst_32 ((2 << 24) or insn_enc_32 or pcu_itype_jump_abs or fu_pcu) 1
        (operand symbol_ref 8 16 encode_symref ∷ [])
    ∷ insn (codes "bra.1ds") inst_32 ((1 << 24) or insn_enc_32 or pcu_itype_jump_abs or fu_pcu) 1
        (operand symbol_ref 8 16 encode_symref ∷ [])
    ∷ insn (codes "bra") inst_16 (pcu_itype_jump_abs or fu_pcu) 1 (operand reg 8 3 encode_ptr ∷ [])
    ∷ insn (codes "bra.2ds") inst_16 ((2 << 12) or pcu_itype_jump_abs or fu_pcu) 1
        (operand reg 8 3 encode_ptr ∷ [])
    ∷ insn (codes "bra.1ds") inst_16 ((1 << 12) or pcu_itype_jump_abs or fu_pcu) 1
        (operand reg 8 3 encode_ptr ∷ [])
    ∷ insn (codes "call") inst_32 (insn_enc_32 or pcu_itype_call_abs or fu_pcu) 1
        (operand symbol_ref 8 16 encode_symref ∷ [])
    ∷ insn (codes "call.2ds") inst_32 ((2 << 24) or insn_enc_32 or pcu_itype_call_abs or fu_pcu) 1
        (operand symbol_ref 8 16 encode_symref ∷ [])
    ∷ insn (codes "call.1ds") inst_32 ((1 << 24) or insn_enc_32 or pcu_itype_call_abs or fu_pcu) 1
        (operand symbol_ref 8 16 encode_symref ∷ [])
    ∷ []

unfoldable pub pcu_insns_2 : List InstDef
pcu_insns_2 =
    insn (codes "call") inst_16 (pcu_itype_call_abs or fu_pcu) 1 (operand reg 8 3 encode_ptr ∷ [])
    ∷ insn (codes "call.2ds") inst_16 ((2 << 12) or pcu_itype_call_abs or fu_pcu) 1
        (operand reg 8 3 encode_ptr ∷ [])
    ∷ insn (codes "call.1ds") inst_16 ((1 << 12) or pcu_itype_call_abs or fu_pcu) 1
        (operand reg 8 3 encode_ptr ∷ [])
    ∷ insn (codes "rets") inst_16 (pcu_itype_rets or fu_pcu) 0 ([])
    ∷ insn (codes "rets.2ds") inst_16 ((2 << 12) or pcu_itype_rets or fu_pcu) 0 ([])
    ∷ insn (codes "rets.1ds") inst_16 ((1 << 12) or pcu_itype_rets or fu_pcu) 0 ([])
    ∷ insn (codes "reti") inst_16 (pcu_itype_reti or fu_pcu) 0 ([])
    ∷ insn (codes "reti.2ds") inst_16 ((2 << 12) or pcu_itype_reti or fu_pcu) 0 ([])
    ∷ insn (codes "reti.1ds") inst_16 ((1 << 12) or pcu_itype_reti or fu_pcu) 0 ([])
    ∷ insn (codes "eint") inst_16 (pcu_itype_eint or fu_pcu) 0 ([])
    ∷ insn (codes "dint") inst_16 (pcu_itype_dint or fu_pcu) 0 ([])
    ∷ insn (codes "bkrep") inst_32 (insn_enc_32 or pcu_itype_bkrep or fu_pcu) 1
        (operand symbol_ref 8 16 encode_symref ∷ [])
    ∷ insn (codes "halt") inst_16 (pcu_itype_halt or fu_pcu) 0 ([])
    ∷ []
