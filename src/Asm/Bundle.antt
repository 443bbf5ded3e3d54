-- ===== src/Asm/Bundle.antt =====
-- `operand_match` and `try_assemble_inst_bundle` of sw/tools/asm/asm.c.
pub mod Unique
pub mod Once
pub mod Size
pub mod Agree
pub mod Words
pub mod Values
use ajardsp.Common.{
  ℕ, zero, suc, ◌+◌, ◌-◌, ◌*◌, bit_and, bit_or, Bool, true, false, not, ◌&&◌, ◌||◌,
}
use ajardsp.Common.{◌==◌, ltb, leb, if◌then◌else◌, none, some, List, [], ◌∷◌, get_or}
use ajardsp.Common.{CString, codes, str_eq, has_prefix, ℤ, pos, negsuc, low_bits, u16, shl32, shr}
use ajardsp.Common.{not32, Memory, update, Outcome, good, bad, fault, ◌>>=◌, readable, if_bad}
use ajardsp.Asm.Types.{Operand, Instruction, OperandDef, InstDef, inst_16, inst_32, type_eq}
use ajardsp.Asm.Types.{zero_operand_def}
use ajardsp.Asm.Encode.{Context, call_encode}
use ajardsp.Asm.Insns.{ajardsp_insns}

-- `id_p->operands[j]`; the elements that the table leaves out are zero.
abbrev pub operand_at : InstDef → ℕ → OperandDef
operand_at d j = get_or d.operands j zero_operand_def

-- The loop of `operand_match` with `left` rounds to go. With no operand left the type test is
-- skipped, and `op_p->next_p` is read through a null pointer.
unfoldable pub match_operands : InstDef → ℕ → ℕ → List Operand → Outcome (Unit {0})
match_operands d zero j [] = good tt
match_operands d zero j (op ∷ ops) = bad
match_operands d (suc left) j [] = fault
match_operands d (suc left) j (op ∷ ops) =
    let rest = match_operands d left (j + 1) ops in
    if type_eq (operand_at d j).type op.type then rest else bad

unfoldable pub operand_match : InstDef → Instruction → Outcome (Unit {0})
unfolding match_operands
operand_match d inst = match_operands d d.nr_operands 0 inst.ops

-- The loop that encodes the operands from `op_idx` on, with its `assert`.
unfoldable pub encode_operands : Context → InstDef → ℕ → List Operand → ℕ → Outcome ℕ
encode_operands ctx d op_idx [] pattern = good pattern
encode_operands ctx d op_idx (op ∷ ops) pattern = do
  encode ← readable (operand_at d op_idx).encode
  pattern' ← call_encode ctx encode (operand_at d op_idx) op pattern
  encode_operands ctx d (op_idx + 1) ops pattern'

-- `atoi` of the C library: blanks, a sign, decimal digits up to the first other character.
abbrev pub is_space : ℕ → Bool
is_space c = c == b' ' || (leb 9 c && leb c 13)

abbrev pub is_digit : ℕ → Bool
is_digit c = leb b'0' c && leb c b'9'

unfoldable pub atoi_digits : ℕ → CString → ℕ
atoi_digits acc [] = acc
atoi_digits acc (c ∷ s) =
    let more = atoi_digits (acc * 10 + (c - b'0')) s in if is_digit c then more else acc

abbrev pub negate : ℕ → ℤ
negate zero = pos zero
negate (suc n) = negsuc n

unfoldable pub atoi_sign : CString → ℤ
unfolding atoi_digits
atoi_sign [] = pos 0
atoi_sign (c ∷ s) =
    if c == b'-'
    then negate (atoi_digits 0 s)
    else if c == b'+'
    then pos (atoi_digits 0 s)
    else pos (atoi_digits 0 (c ∷ s))

unfoldable pub atoi : CString → ℤ
unfolding atoi_sign
atoi [] = pos 0
atoi (c ∷ s) = let rest = atoi s in if is_space c then rest else atoi_sign (c ∷ s)

-- `&pred[4]`.
abbrev pub drop_four : CString → CString
drop_four (a ∷ b ∷ c ∷ d ∷ s) = s
drop_four s = []

-- The predicate bits: `PRED_NEG_BIT`, then the register in the two highest bits.
unfoldable pub set_pred : Bool → ℤ → ℕ → ℕ
set_pred neg reg pattern =
    let marked = if neg then bit_or pattern (shl32 1 28) else pattern in
    bit_or (bit_and marked 0x3fffffff) (shl32 (low_bits reg 2) 30)

unfoldable pub add_pred : Instruction → ℕ → Outcome ℕ
unfolding set_pred atoi
add_pred inst pattern = elim inst.pred [
  | none ↦ good pattern
  | some p ↦
      if has_prefix p (codes "pred")
      then good (set_pred inst.pred_neg (atoi (drop_four p)) pattern)
      else bad
]

-- The pattern of an instruction under one row; `more` says that another instruction of the bundle
-- follows, which sets `PAR_BIT`. `bad` is the jump to `encode_failure`.
unfoldable pub encode_inst : Context → Instruction → Bool → InstDef → Outcome ℕ
unfolding encode_operands add_pred
encode_inst ctx inst more d = do
  let start = if more then bit_or d.pattern (shl32 1 0) else d.pattern
  pattern ← encode_operands ctx d 0 inst.ops start
  add_pred inst pattern

-- The variables of `try_assemble_inst_bundle` and the instruction memory that it writes.
pub record Emit : Type 0 where
  pub imem : Memory
  pub imem_addr : ℕ
  pub total_size : ℕ
  pub inst_properly_encoded : Bool

-- `id_p->size == INST_32 || inst_p->pred`.
unfoldable pub is_long : Instruction → InstDef → Bool
is_long inst d = elim inst.pred [
  | some p ↦ true
  | none ↦ elim d.size [ inst_32 ↦ true | inst_16 ↦ false ]
]

-- Two words, the lower first. `imem_addr+1` is an `int`, so at 0xffff it is outside the array.
unfoldable pub emit_long : ℕ → Emit → Outcome Emit
emit_long pattern e =
    let word = bit_or pattern (shl32 1 1) in
    let low = update e.imem e.imem_addr (bit_and word 0xffff) in
    if e.imem_addr == 0xffff
    then fault
    else good (record {
      imem = update low (e.imem_addr + 1) (shr word 16);
      imem_addr = u16 (e.imem_addr + 2);
      total_size = e.total_size + 2;
      inst_properly_encoded = true;
    })

unfoldable pub emit_short : ℕ → Emit → Outcome Emit
emit_short pattern e =
    let word = bit_and pattern (not32 (shl32 1 1)) in
    good (record {
      imem = update e.imem e.imem_addr (bit_and word 0xffff);
      imem_addr = u16 (e.imem_addr + 1);
      total_size = e.total_size + 1;
      inst_properly_encoded = true;
    })

unfoldable pub emit : Bool → ℕ → Emit → Outcome Emit
unfolding emit_long emit_short
emit long pattern e = if long then emit_long pattern e else emit_short pattern e

-- One round of the loop over `ajardsp_insns`. There is no `break`: a later row may encode the
-- instruction again.
unfoldable pub try_row : Context → Instruction → Bool → InstDef → Emit → Outcome Emit
unfolding operand_match encode_inst is_long emit
try_row ctx inst more d e =
    if str_eq d.mnemonic inst.mnemonic
    then if_bad (operand_match d inst) e
        (λ _. if_bad (encode_inst ctx inst more d) e (λ pattern. emit (is_long inst d) pattern e))
    else good e

unfoldable pub try_rows : Context → Instruction → Bool → List InstDef → Emit → Outcome Emit
unfolding try_row
try_rows ctx inst more [] e = good e
try_rows ctx inst more (d ∷ rows) e = do
  e' ← try_row ctx inst more d e
  try_rows ctx inst more rows e'

abbrev pub follows : List Instruction → Bool
follows [] = false
follows (inst ∷ rest) = true

-- The loop over the instructions of a bundle.
unfoldable pub assemble_insts : Context → List Instruction → Emit → Outcome Emit
unfolding try_rows
assemble_insts ctx [] e = good e
assemble_insts ctx (inst ∷ rest) e = do
  e' ← try_rows ctx inst (follows rest) ajardsp_insns (record e { inst_properly_encoded = false })
  let done = assemble_insts ctx rest e'
  if not e'.inst_properly_encoded then bad else if ltb 4 e'.total_size then bad else done

unfoldable pub try_assemble_inst_bundle : Context → List Instruction → Memory → ℕ → Outcome Emit
unfolding assemble_insts
try_assemble_inst_bundle ctx insts imem imem_addr =
    assemble_insts ctx insts
      (record { imem = imem; imem_addr = imem_addr; total_size = 0; inst_properly_encoded = false })
