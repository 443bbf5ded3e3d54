-- ===== src/Disasm/Fields.antt =====
-- The operands of an instruction leave the code of its row alone.
use ajardsp.Common.{
  ℕ, ◌+◌, ◌≤◌, bit_and, bit_or, ◌==◌, ==_iff, Bool, true, false, and-split, Bool-cases, inl, inr,
  if◌then◌else◌,
}
use ajardsp.Common.{
  none, List, [], ◌∷◌, str_eq, length, all, all_sound, get_elem?-lt, get_or-get_elem?, ◌≡◌, sym, ap,
  ap₂, ◌∙◌, arith,
}
use ajardsp.Common.{shl32, good, >>=-eq-good}
use ajardsp.Bits.Laws.{bit_and_assoc, bit_and_comm, bit_and-bit_or, bit_and-zero}
use ajardsp.Asm.Types.{Operand, Instruction, InstDef, inst_16, inst_32, zero_operand_def}
use ajardsp.Asm.Encode.{Context}
use ajardsp.Asm.Encode.Fields.{field_mask, field_fits, call_encode-Keeps}
use ajardsp.Asm.Bundle.{operand_at, operand_match, encode_operands, encode_inst, add_pred}
use ajardsp.Asm.Bundle.Unique.{encode_operands-cons}
use ajardsp.Asm.Bundle.Once.{row_pattern}
use ajardsp.Disasm.{compare_mask, compare_pattern, clean_word}
use ajardsp.Disasm.Codes.{code_kept, code_sound}
use ajardsp.Disasm.Scan.{and_swap}

-- A mask outside all fields of a row sees the pattern as it was before the operands.
pub encode_operands-Keeps :
    (ctx : Context) (d : InstDef) (mask j : ℕ) (ops : List Operand) (p : ℕ) {q : ℕ}
    → all field_fits d.operands ≡ true
    → all (λ o. bit_and (field_mask o) mask == 0) d.operands ≡ true
    → j + length ops ≤ length d.operands
    → encode_operands ctx d j ops p ≡ good q
    → bit_and q mask ≡ bit_and p mask
encode_operands-Keeps ctx d mask j [] p {q = q} fits masked room h =
    let same : p ≡ q = unfold encode_operands in ground arith in
    ap (λ (t : ℕ). bit_and t mask) (sym same)
encode_operands-Keeps ctx d mask j (op ∷ ops) p fits masked room h =
    let (a, p', found, called, later) = encode_operands-cons ctx d j op ops p h in
    let (o, at_j) = get_elem?-lt d.operands j (omega arith) in
    let here : operand_at d j ≡ o = get_or-get_elem? d.operands j zero_operand_def at_j in
    let kept =
      call_encode-Keeps o (all_sound field_fits d.operands j fits at_j) ctx a op p
        (rw here at called) mask ((==_iff _ _).0 (all_sound _ d.operands j masked at_j)) in
    encode_operands-Keeps ctx d mask (j + 1) ops p' fits masked (omega arith) later ∙ kept

-- The masks that `clean_word` puts on a word.
clean_long : (w : ℕ) → bit_and w 2 ≡ 2 → clean_word w ≡ bit_and w 0x3ffffffe
unfolding clean_word
clean_long w h =
    let bit : bit_and (bit_and (bit_and w 0xfffffffe) 0x3fffffff) 2 ≡ 2 =
      bit_and_assoc _ 0x3fffffff 2 ∙ bit_and_assoc w 0xfffffffe 2 ∙ h in
    rw bit (bit_and_assoc w 0xfffffffe 0x3fffffff)

clean_short : (w : ℕ) → bit_and w 2 ≡ 0 → clean_word w ≡ bit_and w 0xfffe
unfolding clean_word
clean_short w h =
    let bit : bit_and (bit_and (bit_and w 0xfffffffe) 0x3fffffff) 2 ≡ 0 =
      bit_and_assoc _ 0x3fffffff 2 ∙ bit_and_assoc w 0xfffffffe 2 ∙ h in
    rw bit (bit_and_assoc _ 0x3fffffff 0xffff ∙ bit_and_assoc w 0xfffffffe 0xffff)

-- The pattern that the operands of an instruction are written into.
abbrev pub start_pattern : Bool → InstDef → ℕ
start_pattern more d = if more then bit_or d.pattern (shl32 1 0) else d.pattern

pub row_pattern-start :
    (ctx : Context) (inst : Instruction) (more : Bool) (d : InstDef) (p : ℕ)
    → inst.pred ≡ none
    → row_pattern ctx inst more d ≡ good p
    → encode_operands ctx d 0 inst.ops (start_pattern more d) ≡ good p
unfolding row_pattern encode_inst
row_pattern-start ctx inst more d p plain h = elim (Bool-cases (str_eq d.mnemonic inst.mnemonic)) [
  | inl same ↦
      let (_, matched, h₁) = >>=-eq-good (operand_match d inst) _ (rw same at h) in
      let (q, encoded, rest) =
        >>=-eq-good (encode_operands ctx d 0 inst.ops (start_pattern more d)) _ h₁ in
      let no_pred : q ≡ p = unfold add_pred in ground arith in encoded ∙ ap good no_pred
  | inr differ ↦ cc (rw differ at h)
]

pub code_kept-start :
    (more : Bool) (d : InstDef) → code_sound d ≡ true → code_kept (start_pattern more d) d ≡ true
unfolding code_sound
code_kept-start true d h = (and-split _ _ h).1
code_kept-start false d h = (and-split _ _ (and-split _ _ h).0).1

module _ (d : InstDef) (start p : ℕ) (kept : code_kept start d ≡ true)
    (same : bit_and p (compare_mask d) ≡ bit_and start (compare_mask d)) where
  kept_long :
      d.size ≡ inst_32
      → (bit_and (bit_or (bit_and start (compare_mask d)) 2) 0x3ffffffe ≡ compare_pattern d)
        × (bit_and (compare_mask d) 2 ≡ 2)
        × (bit_and (bit_and start (compare_mask d)) 2 ≡ 0)
  unfolding code_kept
  kept_long size = ground arith

  kept_short :
      d.size ≡ inst_16 → bit_and (bit_and start (compare_mask d)) 0xfffc ≡ compare_pattern d
  unfolding code_kept
  kept_short size = ground arith

  -- The word of a 32-bit instruction has the row's code.
  pub long_code :
      d.size ≡ inst_32 → bit_and (clean_word (bit_or p 2)) (compare_mask d) ≡ compare_pattern d
  long_code size =
      let m = compare_mask d in
      let (code, m_two, start_two) = kept_long size in
      let p_two : bit_and p 2 ≡ 0 =
        ap (bit_and p) (sym m_two)
        ∙ sym (bit_and_assoc p m 2)
        ∙ ap (λ (t : ℕ). bit_and t 2) same
        ∙ start_two in
      let w_two : bit_and (bit_or p 2) 2 ≡ 2 =
        bit_and-bit_or p 2 2 ∙ ap (λ (t : ℕ). bit_or t 2) p_two in
      ap (λ (t : ℕ). bit_and t m) (clean_long (bit_or p 2) w_two)
      ∙ and_swap (bit_or p 2) 0x3ffffffe m
      ∙ ap (λ (t : ℕ). bit_and t 0x3ffffffe)
          (bit_and-bit_or p 2 m ∙ ap₂ bit_or same (bit_and_comm 2 m ∙ m_two))
      ∙ code

  -- So does a word whose lower half is that of a 16-bit instruction.
  pub short_code :
      (w : ℕ)
      → d.size ≡ inst_16
      → bit_and w 0xffff ≡ bit_and (bit_and p 0xfffffffd) 0xffff
      → bit_and (clean_word w) (compare_mask d) ≡ compare_pattern d
  short_code w size low =
      let m = compare_mask d in
      let part : (x : ℕ)
          → bit_and w (bit_and 0xffff x) ≡ bit_and p (bit_and 0xfffffffd (bit_and 0xffff x)) =
        λ x.
          sym (bit_and_assoc w 0xffff x)
          ∙ ap (λ (t : ℕ). bit_and t x) low
          ∙ bit_and_assoc _ 0xffff x
          ∙ bit_and_assoc p 0xfffffffd _ in
      ap (λ (t : ℕ). bit_and t m) (clean_short w (part 2 ∙ bit_and-zero p) ∙ part 0xfffe)
      ∙ and_swap p 0xfffc m
      ∙ ap (λ (t : ℕ). bit_and t 0xfffc) same
      ∙ kept_short size
