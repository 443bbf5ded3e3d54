-- ===== src/Asm/Encode.antt =====
-- The operand encoders of sw/tools/asm/asm.c. Each writes one field of the instruction word.
-- The static variables `ignore_sym_refs` and `symtab_p` are the record `Context`.
pub mod Exclusive
pub mod Writes
pub mod Fields
pub mod Values
use ajardsp.Common.{ℕ, ◌+◌, ◌-◌, ◌*◌, ◌^◌, bit_and, bit_or, Bool, true, false, ◌==◌, ltb, leb}
use ajardsp.Common.{if◌then◌else◌, Option, none, some, List, [], ◌∷◌, CString, codes, str_eq}
use ajardsp.Common.{has_prefix, char_at, ℤ, pos, negsuc, low_bits, u32, shl32, low_mask}
use ajardsp.Common.{Outcome, good, bad, fault, ◌>>=◌, readable}
use ajardsp.Asm.Types.{Operand, OperandDef, Encoder, encode_spec, encode_acc, encode_acc_half}
use ajardsp.Asm.Types.{encode_ptr, encode_pred, encode_reg, encode_int, encode_symref}
use ajardsp.Asm.Symtab.{Symtab, symtab_lookup}

pub record Context : Type 0 where
  pub ignore_sym_refs : Bool
  pub symtab : Symtab

-- `tmp_pattern |= (reg & ((1 << op_def_p->width) - 1)) << op_def_p->offset`.
unfoldable pub place : OperandDef → ℕ → ℕ → ℕ
place d reg pattern = bit_or pattern (shl32 (bit_and reg (low_mask d.width)) d.offset)

-- `c - '0'`, stored into a `uint32`. The lexer lets only ASCII through.
unfoldable pub digit : ℕ → ℕ
digit c = u32 (c + 2 ^ 32 - b'0')

pub record SpecialReg : Type 0 where
  pub name : CString
  pub reg : ℕ

abbrev special : CString → ℕ → SpecialReg
special name reg = record { name = name; reg = reg }

unfoldable pub special_regs : List SpecialReg
special_regs =
    special (codes "retpc") 1
    ∷ special (codes "sp") 2
    ∷ special (codes "satctrl") 3
    ∷ special (codes "mulsign") 4
    ∷ special (codes "masksel") 5
    ∷ special (codes "mask0") 6
    ∷ special (codes "mask1") 7
    ∷ special (codes "modsel") 8
    ∷ special (codes "mod0") 9
    ∷ special (codes "mod1") 10
    ∷ special (codes "bitrev") 11
    ∷ special (codes "retipc") 12
    ∷ special (codes "pred") 13
    ∷ special (codes "bkrepcnt") 14
    ∷ special (codes "gpio2") 30
    ∷ special (codes "gpio") 31
    ∷ []

-- The loop over `SpecialRegs`: the first entry of that name, 0xffffffff if there is none.
unfoldable pub find_special : List SpecialReg → CString → ℕ
find_special [] name = 0xffffffff
find_special (r ∷ rest) name = if str_eq name r.name then r.reg else find_special rest name

unfoldable pub encode_spec_fn : OperandDef → Operand → ℕ → Outcome ℕ
unfolding special_regs
encode_spec_fn d op pattern = do
  name ← readable op.name
  let reg = find_special special_regs name
  if ltb 64 reg then bad else good (place d reg pattern)

unfoldable pub encode_acc_fn : OperandDef → Operand → ℕ → Outcome ℕ
encode_acc_fn d op pattern = do
  name ← readable op.name
  if has_prefix name (codes "acc")
      then (do
        c ← readable (char_at name 3)
        end ← readable (char_at name 4)
        if end == 0 then good (place d (digit c) pattern) else bad)
      else bad

-- The `switch` on `name[4]`: which half of the accumulator.
unfoldable pub half_reg : ℕ → ℕ → Outcome ℕ
half_reg reg c =
    if c == b'l'
    then good (u32 (shl32 reg 1 + 0))
    else if c == b'h'
    then good (u32 (shl32 reg 1 + 1))
    else bad

unfoldable pub encode_acc_half_fn : OperandDef → Operand → ℕ → Outcome ℕ
unfolding half_reg
encode_acc_half_fn d op pattern = do
  name ← readable op.name
  if has_prefix name (codes "acc")
      then (do
        c ← readable (char_at name 3)
        half ← readable (char_at name 4)
        reg ← half_reg (digit c) half
        good (place d reg pattern))
      else bad

unfoldable pub encode_ptr_fn : OperandDef → Operand → ℕ → Outcome ℕ
encode_ptr_fn d op pattern = do
  name ← readable op.name
  if has_prefix name (codes "ptr")
      then (do c ← readable (char_at name 3); good (place d (digit c) pattern))
      else bad

unfoldable pub encode_pred_fn : OperandDef → Operand → ℕ → Outcome ℕ
encode_pred_fn d op pattern = do
  name ← readable op.name
  if has_prefix name (codes "pred")
      then (do c ← readable (char_at name 4); good (place d (digit c) pattern))
      else bad

-- A pointer, or half an accumulator with the top bit of the field set.
unfoldable pub encode_reg_fn : OperandDef → Operand → ℕ → Outcome ℕ
unfolding half_reg
encode_reg_fn d op pattern = do
  name ← readable op.name
  if has_prefix name (codes "ptr")
      then (do c ← readable (char_at name 3); good (place d (digit c) pattern))
      else if has_prefix name (codes "acc")
      then (do
        c ← readable (char_at name 3)
        half ← readable (char_at name 4)
        reg ← half_reg (digit c) half
        good (bit_or (place d reg pattern) (shl32 1 (d.width - 1 + d.offset))))
      else bad

-- `op_p->offset >= (1 << op_def_p->width)`, a comparison of `int`s.
abbrev pub out_of_range : ℤ → ℕ → Bool
out_of_range (pos n) width = leb (2 ^ width) n
out_of_range (negsuc n) width = false

unfoldable pub encode_int_fn : OperandDef → Operand → ℕ → Outcome ℕ
encode_int_fn d op pattern =
    if out_of_range op.offset d.width
    then bad
    else good (bit_or pattern (shl32 (low_bits op.offset d.width) d.offset))

unfoldable pub encode_symref_fn : Context → OperandDef → Operand → ℕ → Outcome ℕ
encode_symref_fn ctx d op pattern = if ctx.ignore_sym_refs then good pattern else (do
  name ← readable op.name
  elim (symtab_lookup ctx.symtab name) [
    | none ↦ bad
    | some address ↦ good (place d address pattern)
  ])

-- The call through `op_def_p->encode`.
unfoldable pub call_encode : Context → Encoder → OperandDef → Operand → ℕ → Outcome ℕ
call_encode ctx encode_spec d op pattern = encode_spec_fn d op pattern
call_encode ctx encode_acc d op pattern = encode_acc_fn d op pattern
call_encode ctx encode_acc_half d op pattern = encode_acc_half_fn d op pattern
call_encode ctx encode_ptr d op pattern = encode_ptr_fn d op pattern
call_encode ctx encode_pred d op pattern = encode_pred_fn d op pattern
call_encode ctx encode_reg d op pattern = encode_reg_fn d op pattern
call_encode ctx encode_int d op pattern = encode_int_fn d op pattern
call_encode ctx encode_symref d op pattern = encode_symref_fn ctx d op pattern
