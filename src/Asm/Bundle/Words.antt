-- ===== src/Asm/Bundle/Words.antt =====
-- Every word of a bundle fits the instruction memory.
use ajardsp.Common.{ℕ, ◌+◌, ◌^◌, ◌<◌, ◌≡◌, bit_and, bit_or, Bool, true, false, arith}
use ajardsp.Common.{List, [], ◌∷◌, none, some, has_prefix, codes, shl32}
use ajardsp.Common.{
  Memory, update, good, bad, readable, Ensures, Ensures-bind, Ensures-then, Ensures-if,
  Ensures-good,
}
use ajardsp.Common.{all_sound, ltb→lt, if◌then◌else◌, ltb, str_eq}
use ajardsp.Bits.Laws.{bit_or-lt, bit_and-le}
use ajardsp.Bits.Masks.{bit_and-low_mask}
use ajardsp.Asm.Types.{Operand, Instruction, InstDef}
use ajardsp.Asm.Encode.{Context, call_encode}
use ajardsp.Asm.Encode.Writes.{call_encode-Ensures}
use ajardsp.Asm.Insns.{ajardsp_insns}
use ajardsp.Asm.Insns.Checks.{row_sound, rows_sound}
use ajardsp.Asm.Bundle.{
  operand_at, operand_match, encode_operands, set_pred, add_pred, encode_inst, atoi, drop_four,
  emit, is_long, Emit, assemble_insts, follows, try_assemble_inst_bundle,
}
use ajardsp.Asm.Bundle.Once.{row_pattern}
use ajardsp.Asm.Bundle.Size.{cleared, assemble_insts-cons}

abbrev pub IsWords : Memory → Type 0
IsWords m = (a : ℕ) → m a < 2 ^ 16

abbrev IsLong : ℕ → Type 0
IsLong p = p < 2 ^ 32

shl32-or : (p v k : ℕ) → IsLong p → IsLong (bit_or p (shl32 v k))
shl32-or p v k h = bit_or-lt 32 p (shl32 v k) h (omega arith)

encode_operands-IsLong :
    (ctx : Context) (d : InstDef) (j : ℕ) (ops : List Operand) (p : ℕ)
    → IsLong p
    → Ensures IsLong (encode_operands ctx d j ops p)
unfolding encode_operands
encode_operands-IsLong ctx d j [] p h = h
encode_operands-IsLong ctx d j (op ∷ ops) p h =
    Ensures-bind IsLong (readable (operand_at d j).encode) _ λ a.
      Ensures-then IsLong IsLong (call_encode ctx a (operand_at d j) op p) _
        (call_encode-Ensures (operand_at d j) op p IsLong h (λ q v k small. shl32-or q v _ k)
          (λ q k. shl32-or q 1 _ k) ctx a)
        (λ q k. encode_operands-IsLong ctx d (j + 1) ops q k)

add_pred-IsLong : (inst : Instruction) (p : ℕ) → IsLong p → Ensures IsLong (add_pred inst p)
unfolding add_pred set_pred
add_pred-IsLong inst p h =
    elim inst.pred
      as (λ o. Ensures IsLong (elim o [
        | none ↦ good p
        | some s ↦
            if has_prefix s (codes "pred")
            then good (set_pred inst.pred_neg (atoi (drop_four s)) p)
            else bad
      ])) [
        | none ↦ h
        | some s ↦
            let marked = if inst.pred_neg then bit_or p (shl32 1 28) else p in
            Ensures-if IsLong (has_prefix s (codes "pred")) _ bad
              (shl32-or (bit_and marked 0x3fffffff) _ 30
                (omega (arith, bit_and-le marked 0x3fffffff)))
              tt
      ]

row_pattern-IsLong :
    (ctx : Context) (inst : Instruction) (more : Bool) (d : InstDef) {p : ℕ}
    → row_sound d ≡ true
    → row_pattern ctx inst more d ≡ good p
    → IsLong p
unfolding row_pattern encode_inst
row_pattern-IsLong ctx inst more d sound h =
    let small : d.pattern < 2 ^ 30 =
      let bounded : ltb d.pattern (2 ^ 30) ≡ true = unfold row_sound in ground arith in
      ltb→lt d.pattern (2 ^ 30) bounded in
    let start : IsLong (if more then bit_or d.pattern (shl32 1 0) else d.pattern) =
      elim more as (λ b. IsLong (if b then bit_or d.pattern (shl32 1 0) else d.pattern)) [
        | true ↦ bit_or-lt 32 d.pattern 1 (omega arith) (omega arith)
        | false ↦ omega arith
      ] in
    Ensures-good IsLong _
      (Ensures-if IsLong (str_eq d.mnemonic inst.mnemonic) _ bad
        (Ensures-bind IsLong (operand_match d inst) _ λ _.
          Ensures-then IsLong IsLong (encode_operands ctx d 0 inst.ops _) _
            (encode_operands-IsLong ctx d 0 inst.ops _ start) (λ q k. add_pred-IsLong inst q k))
        tt)
      h

emit-IsWords :
    (long : Bool) (p : ℕ) (e : Emit) {e' : Emit}
    → IsLong p
    → IsWords e.imem
    → emit long p e ≡ good e'
    → IsWords e'.imem
unfolding emit update
emit-IsWords long p e h words out a = ground (
  arith,
  words a,
  bit_and-low_mask 16 (bit_or p 2),
  bit_or-lt 32 p 2 h (omega arith),
  bit_and-low_mask 16 (bit_and p 0xfffffffd),
)

assemble_insts-IsWords :
    (ctx : Context) (insts : List Instruction) (e : Emit) {e' : Emit}
    → IsWords e.imem
    → assemble_insts ctx insts e ≡ good e'
    → IsWords e'.imem
assemble_insts-IsWords ctx [] e {e' = e'} words h =
    let same : e ≡ e' = unfold assemble_insts in ground arith in rw (← same) words
assemble_insts-IsWords ctx (inst ∷ rest) e words h =
    let (e₁, x, later) = assemble_insts-cons ctx inst rest e h in
    let by = x.by in
    let sound = all_sound row_sound ajardsp_insns by.index rows_sound by.at_index in
    let long = row_pattern-IsLong ctx inst (follows rest) by.row sound by.gives in
    assemble_insts-IsWords ctx rest e₁
      (emit-IsWords (is_long inst by.row) by.pattern (cleared e) long words by.emitted) later

-- The words of a bundle are 16-bit words.
pub try_assemble_inst_bundle-IsWords :
    (ctx : Context) (insts : List Instruction) (imem : Memory) (imem_addr : ℕ) {e : Emit}
    → IsWords imem
    → try_assemble_inst_bundle ctx insts imem imem_addr ≡ good e
    → IsWords e.imem
unfolding try_assemble_inst_bundle
try_assemble_inst_bundle-IsWords ctx insts imem imem_addr words h =
    assemble_insts-IsWords ctx insts _ words h
