-- ===== src/Asm/Bundle/Values.antt =====
-- Every operand of an instruction ends up in its own field of the word.
use ajardsp.Common.{
  ℕ, zero, suc, ◌+◌, ◌^◌, ◌<◌, ◌≤◌, ◌≡◌, refl, sym, ap, ap₂, ◌∙◌, arith, bit_and, bit_or, ==_iff,
  and-split,
}
use ajardsp.Common.{
  Bool, true, false, if◌then◌else◌, none, some, List, [], ◌∷◌, get_elem?, get_or-get_elem?, all,
  all_sound, Outcome, good, readable, ◌>>=◌, shl32,
}
use ajardsp.Bits.Laws.{bit_and_comm, bit_and-bit_or}
use ajardsp.Bits.Subsets.{Inside, Inside-trans, Inside-clear, Inside-left, Inside-right}
use ajardsp.Asm.Types.{
  Operand, Instruction, OperandDef, InstDef, Encoder, inst_16, inst_32, zero_operand_def,
}
use ajardsp.Asm.Encode.{Context, call_encode}
use ajardsp.Asm.Encode.Fields.{field_mask, field_fits, call_encode-field_mask}
use ajardsp.Asm.Encode.Values.{Value, number, bits, Means, call_encode-bits}
use ajardsp.Asm.Insns.{ajardsp_insns}
use ajardsp.Asm.Insns.Checks.{operand_mask, field_bits, fields_disjoint, row_sound, rows_sound}
use ajardsp.Asm.Bundle.{operand_at, encode_operands, add_pred, encode_inst}

field_mask-Inside :
    (os : List OperandDef) (k : ℕ) {o : OperandDef}
    → get_elem? os k ≡ some o
    → Inside (field_mask o) (operand_mask os)
unfolding operand_mask
field_mask-Inside [] k at = cc
field_mask-Inside (p ∷ os) zero {o = o} at =
    let same : p ≡ o = ground arith in rw (← same) (Inside-left (field_mask p) (operand_mask os))
field_mask-Inside (p ∷ os) (suc k) {o = o} at =
    Inside-right (field_mask o) (operand_mask os) (field_mask p) (field_mask-Inside os k at)

-- Two fields of a row have no bit in common.
fields_apart :
    (os : List OperandDef) (j k : ℕ) {o p : OperandDef}
    → fields_disjoint os ≡ true
    → j < k
    → get_elem? os j ≡ some o
    → get_elem? os k ≡ some p
    → bit_and (field_mask o) (field_mask p) ≡ 0
unfolding fields_disjoint
fields_apart [] j k h below x y = cc
fields_apart (q ∷ os) zero zero h below x y = absurd (omega arith)
fields_apart (q ∷ os) (suc j) zero h below x y = absurd (omega arith)
fields_apart (q ∷ os) (suc j) (suc k) h below x y =
    fields_apart os j k (and-split _ _ h).1 (omega arith) x y
fields_apart (q ∷ os) zero (suc k) {o = o} {p = p} h below x y =
    let same : q ≡ o = ground arith in
    rw (← same) (
      Inside-clear (field_mask q) (field_mask p) (operand_mask os) (field_mask-Inside os k y)
        ((==_iff _ _).0 (and-split _ _ h).0))

-- The operand at a position of the row means a value that fits its field there.
abbrev pub OperandMeans : Context → InstDef → ℕ → Operand → Value → Type 0
OperandMeans ctx d k op v =
    (o : OperandDef) × (a : Encoder) × (get_elem? d.operands k ≡ some o)
    × (o.encode ≡ some a)
    × (number v < 2 ^ o.width)
    × Means ctx o a op v

-- Each operand means a value, from position `j` on.
abbrev pub AllMean : Context → InstDef → ℕ → List Operand → List Value → Type 0
AllMean ctx d j [] [] = Unit
AllMean ctx d j [] (v ∷ vs) = ⊥
AllMean ctx d j (op ∷ ops) [] = ⊥
AllMean ctx d j (op ∷ ops) (v ∷ vs) = OperandMeans ctx d j op v × AllMean ctx d (j + 1) ops vs

-- The operands from `j` on are in their fields, and nothing else has changed.
record Filled (ctx : Context) (d : InstDef) (j : ℕ) (ops : List Operand) (vs : List Value) (p : ℕ)
    : Type 0 where
  result : ℕ
  encoded : encode_operands ctx d j ops p ≡ good result
  frame :
      (mask : ℕ)
      → ((k : ℕ) (o : OperandDef)
          → j ≤ k
          → get_elem? d.operands k ≡ some o
          → bit_and (field_mask o) mask ≡ 0)
      → bit_and result mask ≡ bit_and p mask
  filled :
      (i : ℕ) (o : OperandDef) (v : Value)
      → get_elem? vs i ≡ some v
      → get_elem? d.operands (j + i) ≡ some o
      → bit_and result (field_mask o) ≡ bits o v

encode_operands-step :
    (ctx : Context) (d : InstDef) (j : ℕ) (op : Operand) (ops : List Operand) (p p' : ℕ)
    (o : OperandDef) (a : Encoder)
    → operand_at d j ≡ o
    → o.encode ≡ some a
    → call_encode ctx a o op p ≡ good p'
    → encode_operands ctx d j (op ∷ ops) p ≡ encode_operands ctx d (j + 1) ops p'
unfolding encode_operands
encode_operands-step ctx d j op ops p p' o a here has called =
    let next : ℕ → Outcome ℕ = encode_operands ctx d (j + 1) ops in
    ap (λ (q : OperandDef). readable q.encode >>= λ b. call_encode ctx b q op p >>= next) here
    ∙ ap (λ e. readable e >>= λ b. call_encode ctx b o op p >>= next) has
    ∙ ap (λ m. m >>= next) called

-- The field of one operand and those of the operands behind it.
filled_cons :
    (d : InstDef) (j r : ℕ) (o : OperandDef) (v : Value) (vs : List Value)
    → get_elem? d.operands j ≡ some o
    → bit_and r (field_mask o) ≡ bits o v
    → ((i : ℕ) (q : OperandDef) (w : Value)
        → get_elem? vs i ≡ some w
        → get_elem? d.operands (j + 1 + i) ≡ some q
        → bit_and r (field_mask q) ≡ bits q w)
    → (i : ℕ) (q : OperandDef) (w : Value) → get_elem? (v ∷ vs) i ≡ some w
    → get_elem? d.operands (j + i) ≡ some q
    → bit_and r (field_mask q) ≡ bits q w
filled_cons d j r o v vs at_j first rest zero q w at there =
    let index : j + 0 ≡ j = omega arith in
    let same_o : o ≡ q = ground (arith, (rw index at there)) in
    let same_v : v ≡ w = ground arith in rw (← same_o, ← same_v) first
filled_cons d j r o v vs at_j first rest (suc i) q w at there =
    let index : j + suc i ≡ j + 1 + i = omega arith in
    rest i q w at (ap (get_elem? d.operands) (sym index) ∙ there)

module _ (ctx : Context) (d : InstDef) (fits : all field_fits d.operands ≡ true)
    (disjoint : fields_disjoint d.operands ≡ true) where
  fill :
      (j : ℕ) (ops : List Operand) (vs : List Value) (p : ℕ)
      → ((k : ℕ) (o : OperandDef)
          → j ≤ k
          → get_elem? d.operands k ≡ some o
          → bit_and p (field_mask o) ≡ 0)
      → AllMean ctx d j ops vs
      → Filled ctx d j ops vs p
  fill j [] [] p clear means = record {
    result = p;
    encoded = unfold encode_operands in refl;
    frame = λ mask away. refl;
    filled = λ i o v at there. cc;
  }
  fill j [] (v ∷ vs) p clear means = absurd means
  fill j (op ∷ ops) [] p clear means = absurd means
  fill j (op ∷ ops) (v ∷ vs) p clear ((o, a, at_j, has, small, means), more) =
      let fit = all_sound field_fits d.operands j fits at_j in
      let (p', called, here) =
        call_encode-bits ctx o a op v p fit small (clear j o (omega arith) at_j) means in
      let kept : (mask : ℕ) → bit_and (field_mask o) mask ≡ 0 → bit_and p' mask ≡ bit_and p mask =
        λ mask. call_encode-field_mask o fit ctx a op p p' mask called in
      let apart : (k : ℕ) (q : OperandDef)
          → j + 1 ≤ k
          → get_elem? d.operands k ≡ some q
          → bit_and (field_mask o) (field_mask q) ≡ 0 =
        λ k q above at. fields_apart d.operands j k disjoint (omega arith) at_j at in
      let rest =
        fill (j + 1) ops vs p'
          (λ k q above at. kept (field_mask q) (apart k q above at) ∙ clear k q (omega arith) at)
          more in
      record {
        result = rest.result;
        encoded =
            encode_operands-step ctx d j op ops p p' o a
              (get_or-get_elem? d.operands j zero_operand_def at_j) has called
            ∙ rest.encoded;
        frame = λ mask away.
            rest.frame mask (λ k q above at. away k q (omega arith) at)
            ∙ kept mask (away j o (omega arith) at_j);
        filled =
            filled_cons d j rest.result o v vs at_j
              (rest.frame (field_mask o)
                  (λ k q above at. bit_and_comm (field_mask q) (field_mask o) ∙ apart k q above at)
                ∙ here)
              rest.filled;
      }

one_outside : (d : InstDef) → bit_and 1 (field_bits d) ≡ 0
one_outside d =
    elim d.size as (λ s. bit_and 1 (elim s [ inst_16 ↦ 0x0000fffc | inst_32 ↦ 0x0ffffffc ]) ≡ 0) [
      | inst_16 ↦ refl
      | inst_32 ↦ refl
    ]

-- The word that the operands are written into is clear in all fields.
start_clear :
    (d : InstDef) (more : Bool) (k : ℕ) {o : OperandDef}
    → row_sound d ≡ true
    → get_elem? d.operands k ≡ some o
    → bit_and (if more then bit_or d.pattern (shl32 1 0) else d.pattern) (field_mask o) ≡ 0
start_clear d more k {o = o} sound at =
    let part = field_mask-Inside d.operands k at in
    let own : bit_and d.pattern (operand_mask d.operands) ≡ 0 =
      (==_iff _ _).0 (unfold row_sound in ground arith) in
    let bits_inside : Inside (operand_mask d.operands) (field_bits d) =
      (==_iff _ _).0 (unfold row_sound in ground arith) in
    let clear = Inside-clear d.pattern (field_mask o) (operand_mask d.operands) part own in
    let one : bit_and 1 (field_mask o) ≡ 0 =
      Inside-clear 1 (field_mask o) (field_bits d)
        (Inside-trans (field_mask o) (operand_mask d.operands) (field_bits d) part bits_inside)
        (one_outside d) in
    elim more as (λ b. bit_and (if b then bit_or d.pattern 1 else d.pattern) (field_mask o) ≡ 0) [
      | true ↦ bit_and-bit_or d.pattern 1 (field_mask o) ∙ ap₂ bit_or clear one
      | false ↦ clear
    ]

-- An instruction without a predicate whose operands each mean a value that fits its field is
-- encoded by its row, and the field of an operand then holds the value of that operand.
pub encode_inst-bits :
    (ctx : Context) (inst : Instruction) (more : Bool) (row : ℕ) (d : InstDef) (vs : List Value)
    (i : ℕ) (o : OperandDef) (v : Value)
    → get_elem? ajardsp_insns row ≡ some d
    → inst.pred ≡ none
    → AllMean ctx d 0 inst.ops vs
    → get_elem? vs i ≡ some v
    → get_elem? d.operands i ≡ some o
    → (p : ℕ) × (encode_inst ctx inst more d ≡ good p) × (bit_and p (field_mask o) ≡ bits o v)
unfolding encode_inst add_pred
encode_inst-bits ctx inst more row d vs i o v at plain means at_v at_o =
    let sound = all_sound row_sound ajardsp_insns row rows_sound at in
    let fits : all field_fits d.operands ≡ true = unfold row_sound in ground arith in
    let disjoint : fields_disjoint d.operands ≡ true = unfold row_sound in ground arith in
    let f =
      fill ctx d fits disjoint 0 inst.ops vs
        (if more then bit_or d.pattern (shl32 1 0) else d.pattern)
        (λ k o above at_k. start_clear d more k sound at_k) means in
    let none_added : add_pred inst f.result ≡ good f.result = rw plain refl in
    (
      f.result,
      ap (λ m. m >>= add_pred inst) f.encoded ∙ none_added,
      f.filled i o v at_v (ap (get_elem? d.operands) (omega arith) ∙ at_o),
    )
