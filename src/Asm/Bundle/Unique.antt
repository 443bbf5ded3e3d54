-- ===== src/Asm/Bundle/Unique.antt =====
-- Two rows of the table never encode the same instruction.
use ajardsp.Common.{ℕ, zero, suc, ◌+◌, ◌≡◌, refl, sym, ◌∙◌, true, not, ◌||◌, Bool-cases}
use ajardsp.Common.{some, List, [], ◌∷◌, length, get_elem?, get_or-get_elem?, get_elem?-same_length}
use ajardsp.Common.{
  good, >>=-eq-good, readable, readable-good, arith, inl, inr, str_eq, str_eq-eq, str_eq_refl,
}
use ajardsp.Asm.Types.{
  Operand, Instruction, OperandDef, InstDef, OperandType, Encoder, type_eq, zero_operand_def,
}
use ajardsp.Asm.Encode.{Context, call_encode}
use ajardsp.Asm.Encode.Exclusive.{apart, apart_sound}
use ajardsp.Asm.Insns.Checks.{some_apart, rows_apart, row_sound}
use ajardsp.Asm.Bundle.{operand_at, match_operands, operand_match, encode_operands}

-- A successful match has as many operands as rounds, each of the row's type.
match-length :
    (d : InstDef) (left j : ℕ) (ops : List Operand)
    → match_operands d left j ops ≡ good tt
    → length ops ≡ left
unfolding match_operands
match-length d zero j [] h = refl
match-length d zero j (op ∷ ops) h = cc
match-length d (suc left) j [] h = cc
match-length d (suc left) j (op ∷ ops) h = ground (arith, match-length d left (j + 1) ops)

match-type :
    (d : InstDef) (left j : ℕ) (ops : List Operand) (k i : ℕ) {op : Operand}
    → match_operands d left j ops ≡ good tt
    → get_elem? ops k ≡ some op
    → j + k ≡ i
    → type_eq (operand_at d i).type op.type ≡ true
unfolding match_operands
match-type d left j [] k i h g e = cc
match-type d zero j (o ∷ ops) k i h g e = cc
match-type d (suc left) j (o ∷ ops) zero i {op} h g e =
    let same : j ≡ i = omega arith in ground arith
match-type d (suc left) j (o ∷ ops) (suc k) i {op} h g e =
    let next : j + 1 + k ≡ i = omega arith in
    elim (Bool-cases (type_eq (operand_at d j).type o.type)) [
      | inl fits ↦ match-type d left (j + 1) ops k i {op = op} (rw fits at h) g next
      | inr clash ↦ cc (rw clash at h)
    ]

-- The first operand of a successful encoding, and the rest.
pub encode_operands-cons :
    (ctx : Context) (d : InstDef) (j : ℕ) (op : Operand) (ops : List Operand) (p : ℕ) {q : ℕ}
    → encode_operands ctx d j (op ∷ ops) p ≡ good q
    → (a : Encoder) × (p' : ℕ) × ((operand_at d j).encode ≡ some a)
      × (call_encode ctx a (operand_at d j) op p ≡ good p')
      × (encode_operands ctx d (j + 1) ops p' ≡ good q)
unfolding encode_operands
encode_operands-cons ctx d j op ops p h =
    let (a, found, h₁) = >>=-eq-good (readable (operand_at d j).encode) _ h in
    let (p', called, later) = >>=-eq-good (call_encode ctx a (operand_at d j) op p) _ h₁ in
    (a, p', readable-good found, called, later)

-- A successful encoding has run an encoder on each operand.
encoded_by :
    (ctx : Context) (d : InstDef) (j : ℕ) (ops : List Operand) (p : ℕ) (k i : ℕ) {q : ℕ}
    {op : Operand}
    → encode_operands ctx d j ops p ≡ good q
    → get_elem? ops k ≡ some op
    → j + k ≡ i
    → (a : Encoder) × (p' q' : ℕ) × ((operand_at d i).encode ≡ some a)
      × (call_encode ctx a (operand_at d i) op p' ≡ good q')
encoded_by ctx d j [] p k i h g e = cc
encoded_by ctx d j (o ∷ ops) p zero i {op = op} h g e =
    let (a, p', found, called, _) = encode_operands-cons ctx d j o ops p h in
    let same : j ≡ i = omega arith in
    let first : o ≡ op = ground arith in (a, p, p', rw (← same) found, rw (← same, ← first) called)
encoded_by ctx d j (o ∷ ops) p (suc k) i h g e =
    let (a, p', found, called, later) = encode_operands-cons ctx d j o ops p h in
    encoded_by ctx d (j + 1) ops p' k i later g (omega arith)

-- Where two operand lists of one length are told apart.
apart_at :
    (ps os : List OperandDef)
    → some_apart ps os ≡ true
    → length ps ≡ length os
    → (k : ℕ) × (p o : OperandDef) × (get_elem? ps k ≡ some p)
      × (get_elem? os k ≡ some o)
      × ((not (type_eq p.type o.type) || apart p.encode o.encode) ≡ true)
unfolding some_apart
apart_at [] [] h e = cc
apart_at [] (o ∷ os) h e = absurd (omega arith)
apart_at (p ∷ ps) [] h e = absurd (omega arith)
apart_at (p ∷ ps) (o ∷ os) h e =
    elim (Bool-cases (not (type_eq p.type o.type) || apart p.encode o.encode)) [
      | inl here ↦ (0, p, o, refl, refl, here)
      | inr same ↦
          let (k, p', o', gp, go, t) = apart_at ps os (rw (same) at h) (omega arith) in
          (suc k, p', o', gp, go, t)
    ]

type_eq-common :
    (s t u : OperandType) → type_eq s u ≡ true → type_eq t u ≡ true → type_eq s t ≡ true
type_eq-common s t u p q = ground arith

row_sound-nr : (d : InstDef) → row_sound d ≡ true → d.nr_operands ≡ length d.operands
unfolding row_sound
row_sound-nr d h = ground arith

-- What it is for a row to encode an instruction, from a given pattern on.
pub record Encodes (ctx : Context) (inst : Instruction) (d : InstDef) : Type 0 where
  pub start : ℕ
  pub result : ℕ
  pub same_mnemonic : str_eq d.mnemonic inst.mnemonic ≡ true
  pub matched : operand_match d inst ≡ good tt
  pub encoded : encode_operands ctx d 0 inst.ops start ≡ good result

-- The operands that both rows have read at a position.
module _ (ctx : Context) (inst : Instruction) (d : InstDef) (x : Encodes ctx inst d) where
  pub Encodes-length : row_sound d ≡ true → length inst.ops ≡ length d.operands
  unfolding operand_match
  Encodes-length sound = match-length d d.nr_operands 0 inst.ops x.matched ∙ row_sound-nr d sound

  Encodes-type :
      (k : ℕ) {op : Operand} {p : OperandDef}
      → get_elem? inst.ops k ≡ some op
      → get_elem? d.operands k ≡ some p
      → type_eq p.type op.type ≡ true
  unfolding operand_match
  Encodes-type k g gp =
      rw (get_or-get_elem? d.operands k zero_operand_def gp) at
        (match-type d d.nr_operands 0 inst.ops k k x.matched g (omega arith))

  Encodes-call :
      (k : ℕ) {op : Operand} {p : OperandDef}
      → get_elem? inst.ops k ≡ some op
      → get_elem? d.operands k ≡ some p
      → (a : Encoder) × (q q' : ℕ) × (p.encode ≡ some a) × (call_encode ctx a p op q ≡ good q')
  Encodes-call k g gp =
      rw (get_or-get_elem? d.operands k zero_operand_def gp) at
        (encoded_by ctx d 0 inst.ops x.start k k x.encoded g (omega arith))

same_mnemonic_apart :
    (d e : InstDef)
    → rows_apart d e ≡ true
    → d.mnemonic ≡ e.mnemonic
    → some_apart d.operands e.operands ≡ true
unfolding rows_apart
same_mnemonic_apart d e h one =
    let same : str_eq d.mnemonic e.mnemonic ≡ true = rw one (str_eq_refl e.mnemonic) in ground arith

-- Rows that are told apart do not both encode an instruction, also in different contexts.
pub rows_apart_sound :
    (ctx ctx' : Context) (inst : Instruction) (d e : InstDef)
    → row_sound d ≡ true
    → row_sound e ≡ true
    → rows_apart d e ≡ true
    → Encodes ctx inst d
    → Encodes ctx' inst e
    → ⊥
rows_apart_sound ctx ctx' inst d e sd se h x y =
    let len_d = Encodes-length ctx inst d x sd in
    let len_e = Encodes-length ctx' inst e y se in
    let one : d.mnemonic ≡ e.mnemonic =
      str_eq-eq d.mnemonic inst.mnemonic x.same_mnemonic
      ∙ sym (str_eq-eq e.mnemonic inst.mnemonic y.same_mnemonic) in
    let (k, p, o, gp, go, t) =
      apart_at d.operands e.operands (same_mnemonic_apart d e h one) (sym len_d ∙ len_e) in
    let (op, g) = get_elem?-same_length d.operands inst.ops k (sym len_d) gp in
    let (a, q, q', found, called) = Encodes-call ctx inst d x k g gp in
    let (b, r, r', found', called') = Encodes-call ctx' inst e y k g go in
    let types =
      type_eq-common p.type o.type op.type (Encodes-type ctx inst d x k g gp)
        (Encodes-type ctx' inst e y k g go) in
    let split : apart p.encode o.encode ≡ true = ground arith in
    apart_sound ctx ctx' a b p o op q r (rw (found, found') at split) called called'
