-- ===== src/Asm/Insns/Macros.antt =====
-- The fields of an instruction word that the macros of sw/tools/asm/ajardsp-insns.c name.
use ajardsp.Common.{ℕ, shl32, bit_or}

-- `a | b` and `x << k` of the C text.
infixl 40 ◌or◌
infixl 45 ◌<<◌
abbrev pub ◌or◌ : ℕ → ℕ → ℕ
a or b = bit_or a b

abbrev pub ◌<<◌ : ℕ → ℕ → ℕ
x << k = shl32 x k

abbrev pub fu_pcu : ℕ
fu_pcu = 0 << 2

abbrev pub fu_lsu : ℕ
fu_lsu = 1 << 2

abbrev pub fu_cu : ℕ
fu_cu = 2 << 2

abbrev pub fu_bmu : ℕ
fu_bmu = 3 << 2

abbrev pub pcu_itype_bkrep : ℕ
pcu_itype_bkrep = 0x1 << 4

abbrev pub pcu_itype_call_abs : ℕ
pcu_itype_call_abs = 0x2 << 4

abbrev pub pcu_itype_rets : ℕ
pcu_itype_rets = 0x3 << 4

abbrev pub pcu_itype_jump_abs : ℕ
pcu_itype_jump_abs = 0x4 << 4

abbrev pub pcu_itype_halt : ℕ
pcu_itype_halt = 0xf << 4

abbrev pub pcu_itype_reti : ℕ
pcu_itype_reti = 0x5 << 4

abbrev pub pcu_itype_eint : ℕ
pcu_itype_eint = 0x6 << 4

abbrev pub pcu_itype_dint : ℕ
pcu_itype_dint = 0x7 << 4

abbrev pub bmu_op_size_16 : ℕ
bmu_op_size_16 = 1 << 21

abbrev pub bmu_shift_left : ℕ
bmu_shift_left = 1 << 23

abbrev pub bmu_itype_and_16_32 : ℕ
bmu_itype_and_16_32 = 0x01 << 4

abbrev pub bmu_itype_not_16_32 : ℕ
bmu_itype_not_16_32 = 0x02 << 4

abbrev pub bmu_itype_or_16_32 : ℕ
bmu_itype_or_16_32 = 0x03 << 4

abbrev pub bmu_itype_xor_16_32 : ℕ
bmu_itype_xor_16_32 = 0x04 << 4

abbrev pub bmu_itype_shifta_16_32 : ℕ
bmu_itype_shifta_16_32 = 0x05 << 4

abbrev pub bmu_itype_shiftl_16_32 : ℕ
bmu_itype_shiftl_16_32 = 0x06 << 4

abbrev pub cu_itype_add_16 : ℕ
cu_itype_add_16 = 1 << 4

abbrev pub cu_itype_sub_16 : ℕ
cu_itype_sub_16 = 2 << 4

abbrev pub cu_itype_add_32 : ℕ
cu_itype_add_32 = 3 << 4

abbrev pub cu_itype_sub_32 : ℕ
cu_itype_sub_32 = 4 << 4

abbrev pub cu_itype_mpy_16 : ℕ
cu_itype_mpy_16 = 5 << 4

abbrev pub cu_itype_mac_16 : ℕ
cu_itype_mac_16 = 6 << 4

abbrev pub cu_itype_cmp_16 : ℕ
cu_itype_cmp_16 = 0x1 << 4

abbrev pub cmp_eq : ℕ
cmp_eq = 0x0 << 26

abbrev pub cmp_ne : ℕ
cmp_ne = 0x1 << 26

abbrev pub cmp_lt : ℕ
cmp_lt = 0x2 << 26

abbrev pub cmp_le : ℕ
cmp_le = 0x3 << 26

abbrev pub cmp_gt : ℕ
cmp_gt = 0x4 << 26

abbrev pub cmp_ge : ℕ
cmp_ge = 0x5 << 26

abbrev pub lsu_itype_ld_16 : ℕ
lsu_itype_ld_16 = 0x1 << 4

abbrev pub lsu_itype_ld_inc_16 : ℕ
lsu_itype_ld_inc_16 = 0x2 << 4

abbrev pub lsu_itype_st_16 : ℕ
lsu_itype_st_16 = 0x3 << 4

abbrev pub lsu_itype_st_inc_16 : ℕ
lsu_itype_st_inc_16 = 0x4 << 4

abbrev pub lsu_itype_ld_32 : ℕ
lsu_itype_ld_32 = 0x5 << 4

abbrev pub lsu_itype_ld_inc_32 : ℕ
lsu_itype_ld_inc_32 = 0x6 << 4

abbrev pub lsu_itype_st_32 : ℕ
lsu_itype_st_32 = 0x7 << 4

abbrev pub lsu_itype_st_inc_32 : ℕ
lsu_itype_st_inc_32 = 0x8 << 4

abbrev pub lsu_itype_push_pop_16_32 : ℕ
lsu_itype_push_pop_16_32 = 0x9 << 4

abbrev pub lsu_itype_mv_acc_ptr_16 : ℕ
lsu_itype_mv_acc_ptr_16 = 0xa << 4

abbrev pub lsu_itype_mv_acc_acc_16 : ℕ
lsu_itype_mv_acc_acc_16 = 0xb << 4

abbrev pub lsu_itype_mv_ptr_ptr_16 : ℕ
lsu_itype_mv_ptr_ptr_16 = 0xc << 4

abbrev pub lsu_itype_mvts_16 : ℕ
lsu_itype_mvts_16 = 0x1 << 4

abbrev pub lsu_itype_mvfs_16 : ℕ
lsu_itype_mvfs_16 = 0x2 << 4

abbrev pub lsu_itype_ld_off_16 : ℕ
lsu_itype_ld_off_16 = 0x4 << 4

abbrev pub lsu_itype_ld_off_32 : ℕ
lsu_itype_ld_off_32 = 0x5 << 4

abbrev pub lsu_itype_st_off_16 : ℕ
lsu_itype_st_off_16 = 0x6 << 4

abbrev pub lsu_itype_st_off_32 : ℕ
lsu_itype_st_off_32 = 0x7 << 4

abbrev pub lsu_itype_addptr_16 : ℕ
lsu_itype_addptr_16 = 0x8 << 4

abbrev pub lsu_itype_ld_imm_ptr_16 : ℕ
lsu_itype_ld_imm_ptr_16 = 0x9 << 4

abbrev pub lsu_itype_ld_imm_acc_16 : ℕ
lsu_itype_ld_imm_acc_16 = 0xa << 4

abbrev pub lsu_itype_ld_ext_32 : ℕ
lsu_itype_ld_ext_32 = 0xb << 4

abbrev pub lsu_itype_st_ext_32 : ℕ
lsu_itype_st_ext_32 = 0xc << 4

abbrev pub lsu_itype_ext_burst : ℕ
lsu_itype_ext_burst = 0xd << 4

abbrev pub insn_enc_32 : ℕ
insn_enc_32 = 1 << 29
