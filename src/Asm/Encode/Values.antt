-- ===== src/Asm/Encode/Values.antt =====
-- What an operand means, and that its encoder puts just that into the operand's field.
use native.Mathlib.Nat.{mod-eq_of_lt}
use ajardsp.Common.{
  ℕ, ◌+◌, ◌-◌, ◌*◌, ◌%◌, ◌^◌, ◌<◌, ◌≤◌, ◌≡◌, refl, ap, ap₂, ◌∙◌, arith, bit_and, bit_or,
}
use ajardsp.Common.{
  true, false, if◌then◌else◌, Option, ltb, leb, suc, none, some, [], ◌∷◌, ◌++◌, CString, codes,
  has_prefix, char_at, pos, negsuc, ◌⊎◌, inl, inr,
}
use ajardsp.Common.{shl32, low_mask, good, bad}
use ajardsp.Bits.Laws.{bit_and-bit_or, zero-bit_or}
use ajardsp.Bits.Masks.{bit_and-low_mask}
use ajardsp.Asm.Types.{Operand, OperandDef, Encoder, encode_spec, encode_acc, encode_acc_half}
use ajardsp.Asm.Types.{encode_ptr, encode_pred, encode_reg, encode_int, encode_symref}
use ajardsp.Asm.Symtab.{symtab_lookup}
use ajardsp.Asm.Encode.{Context, place, digit, half_reg, call_encode, encode_spec_fn, encode_acc_fn}
use ajardsp.Asm.Encode.{encode_acc_half_fn, encode_ptr_fn, encode_pred_fn, encode_reg_fn}
use ajardsp.Asm.Encode.{find_special, special_regs, encode_int_fn, encode_symref_fn}
use ajardsp.Asm.Encode.Fields.{field_mask, field_fits, value_in_field, top_in_field}

-- A number in the field, or a number with the highest bit of the field, by which `encode_reg`
-- tells an accumulator from a pointer.
pub data Value : Type 0 where
  plain : ℕ → Value
  upper : ℕ → Value

abbrev pub number : Value → ℕ
number (plain v) = v
number (upper v) = v

-- The value's bits at the place of the field.
abbrev pub bits : OperandDef → Value → ℕ
bits d (plain v) = shl32 v d.offset
bits d (upper v) = bit_or (shl32 v d.offset) (shl32 1 (d.width - 1 + d.offset))

-- A register is written as a prefix and one digit, half an accumulator with `l` or `h` behind it.
abbrev pub IsReg : CString → Operand → ℕ → Type 0
IsReg prefix op v = (op.name ≡ some (prefix ++ (v + b'0') ∷ [])) × (v < 10)

abbrev pub IsHalf : Operand → ℕ → Type 0
IsHalf op v =
    (n : ℕ) × (n < 10)
    × (((op.name ≡ some (codes "acc" ++ (n + b'0') ∷ b'l' ∷ [])) × (v ≡ 2 * n))
        ⊎ ((op.name ≡ some (codes "acc" ++ (n + b'0') ∷ b'h' ∷ [])) × (v ≡ 2 * n + 1)))

-- What the operand says to the encoder: the number of a register, a number that fits or minus
-- one that fits, or the address of a symbol.
abbrev pub Means : Context → OperandDef → Encoder → Operand → Value → Type 0
Means ctx d encode_spec op (plain v) =
    (name : CString) × (op.name ≡ some name) × (find_special special_regs name ≡ v) × (v ≤ 64)
Means ctx d encode_acc op (plain v) = IsReg (codes "acc") op v
Means ctx d encode_acc_half op (plain v) = IsHalf op v
Means ctx d encode_ptr op (plain v) = IsReg (codes "ptr") op v
Means ctx d encode_pred op (plain v) = IsReg (codes "pred") op v
Means ctx d encode_reg op (plain v) = IsReg (codes "ptr") op v
Means ctx d encode_reg op (upper v) = IsHalf op v
Means ctx d encode_int op (plain v) =
    (op.offset ≡ pos v)
    ⊎ ((n : ℕ) × (op.offset ≡ negsuc n) × (n < 2 ^ d.width) × (v ≡ 2 ^ d.width - 1 - n))
Means ctx d encode_symref op (plain v) =
    (ctx.ignore_sym_refs ≡ false)
    × ((name : CString) × (op.name ≡ some name) × (symtab_lookup ctx.symtab name ≡ some v))
Means ctx d a op v = ⊥

digit_lem : (n : ℕ) → n < 10 → digit (n + b'0') ≡ n
unfolding digit
digit_lem n h = omega arith

-- What the encoder does with the word.
abbrev written : OperandDef → Value → ℕ → ℕ
written d (plain v) p = place d v p
written d (upper v) p = bit_or (place d v p) (shl32 1 (d.width - 1 + d.offset))

module _ (ctx : Context) (d : OperandDef) (op : Operand) (p : ℕ) where
  in_range : (v : ℕ) → v ≤ 64 → (if ltb 64 v then bad else good (place d v p)) ≡ good (place d v p)
  in_range v h = ground arith

  spec-written :
      (v : ℕ) → Means ctx d encode_spec op (plain v) → encode_spec_fn d op p ≡ good (place d v p)
  unfolding encode_spec_fn
  spec-written v (name, e, found, small) = rw (e, found) (in_range v small)

  acc-written : (v : ℕ) → IsReg (codes "acc") op v → encode_acc_fn d op p ≡ good (place d v p)
  unfolding encode_acc_fn has_prefix char_at
  acc-written v (e, small) = rw (e, digit_lem v small) refl

  ptr-written : (v : ℕ) → IsReg (codes "ptr") op v → encode_ptr_fn d op p ≡ good (place d v p)
  unfolding encode_ptr_fn has_prefix char_at
  ptr-written v (e, small) = rw (e, digit_lem v small) refl

  pred-written : (v : ℕ) → IsReg (codes "pred") op v → encode_pred_fn d op p ≡ good (place d v p)
  unfolding encode_pred_fn has_prefix char_at
  pred-written v (e, small) = rw (e, digit_lem v small) refl

  reg_ptr-written : (v : ℕ) → IsReg (codes "ptr") op v → encode_reg_fn d op p ≡ good (place d v p)
  unfolding encode_reg_fn has_prefix char_at
  reg_ptr-written v (e, small) = rw (e, digit_lem v small) refl

  half-written : (v : ℕ) → IsHalf op v → encode_acc_half_fn d op p ≡ good (place d v p)
  unfolding encode_acc_half_fn half_reg has_prefix char_at
  half-written v (n, small, inl (e, value)) =
      let u : ((n * 2 % 2 ^ 32) + 0) % 2 ^ 32 ≡ v = omega arith in rw (e, digit_lem n small, u) refl
  half-written v (n, small, inr (e, value)) =
      let u : ((n * 2 % 2 ^ 32) + 1) % 2 ^ 32 ≡ v = omega arith in rw (e, digit_lem n small, u) refl

  reg_half-written :
      (v : ℕ)
      → IsHalf op v
      → encode_reg_fn d op p ≡ good (bit_or (place d v p) (shl32 1 (d.width - 1 + d.offset)))
  unfolding encode_reg_fn half_reg has_prefix char_at
  reg_half-written v (n, small, inl (e, value)) =
      let u : ((n * 2 % 2 ^ 32) + 0) % 2 ^ 32 ≡ v = omega arith in rw (e, digit_lem n small, u) refl
  reg_half-written v (n, small, inr (e, value)) =
      let u : ((n * 2 % 2 ^ 32) + 1) % 2 ^ 32 ≡ v = omega arith in rw (e, digit_lem n small, u) refl

  symref-written :
      (v : ℕ)
      → Means ctx d encode_symref op (plain v)
      → encode_symref_fn ctx d op p ≡ good (place d v p)
  unfolding encode_symref_fn
  symref-written v (second, (name, e, found)) =
      rw (second, e)
        (ap (λ (r : Option ℕ). elim r [ none ↦ bad | some address ↦ good (place d address p) ])
          found)

  -- A number is written as it stands, which is what `place` does with one that fits.
  int-written :
      (v : ℕ)
      → v < 2 ^ d.width
      → Means ctx d encode_int op (plain v)
      → encode_int_fn d op p ≡ good (place d v p)
  unfolding encode_int_fn place
  int-written v small (inl e) =
      let cut : bit_and v (low_mask d.width) ≡ v =
        bit_and-low_mask d.width v ∙ mod-eq_of_lt small in
      let less : leb (2 ^ d.width) v ≡ false = ground arith in
      rw (e, less, mod-eq_of_lt small, cut) refl
  int-written v small (inr (n, e, fits, value)) =
      let cut : bit_and v (low_mask d.width) ≡ v =
        bit_and-low_mask d.width v ∙ mod-eq_of_lt small in
      let low : 2 ^ d.width - suc (n % 2 ^ d.width) ≡ v = omega (arith, mod-eq_of_lt fits) in
      rw (e, low, cut) refl

  call_encode-written :
      (a : Encoder) (v : Value)
      → number v < 2 ^ d.width
      → Means ctx d a op v
      → call_encode ctx a d op p ≡ good (written d v p)
  unfolding call_encode
  call_encode-written encode_spec (plain v) small m = spec-written v m
  call_encode-written encode_acc (plain v) small m = acc-written v m
  call_encode-written encode_acc_half (plain v) small m = half-written v m
  call_encode-written encode_ptr (plain v) small m = ptr-written v m
  call_encode-written encode_pred (plain v) small m = pred-written v m
  call_encode-written encode_reg (plain v) small m = reg_ptr-written v m
  call_encode-written encode_reg (upper v) small m = reg_half-written v m
  call_encode-written encode_int (plain v) small m = int-written v small m
  call_encode-written encode_symref (plain v) small m = symref-written v m
  call_encode-written a v small m = absurd m

place-bits :
    (d : OperandDef)
    → field_fits d ≡ true
    → (v p : ℕ) → v < 2 ^ d.width
    → bit_and p (field_mask d) ≡ 0
    → bit_and (place d v p) (field_mask d) ≡ shl32 v d.offset
unfolding place
place-bits d fits v p small clear =
    let cut : bit_and v (low_mask d.width) ≡ v = bit_and-low_mask d.width v ∙ mod-eq_of_lt small in
    bit_and-bit_or p (shl32 (bit_and v (low_mask d.width)) d.offset) (field_mask d)
    ∙ ap₂ bit_or clear (
        ap (λ (t : ℕ). bit_and (shl32 t d.offset) (field_mask d)) cut
        ∙ value_in_field d fits v small)
    ∙ zero-bit_or (shl32 v d.offset)

-- An operand that means a value which fits its field is accepted, and the field, which was clear
-- and lies inside a 32-bit word, then holds the value.
pub call_encode-bits :
    (ctx : Context) (d : OperandDef) (a : Encoder) (op : Operand) (v : Value) (p : ℕ)
    → field_fits d ≡ true
    → number v < 2 ^ d.width
    → bit_and p (field_mask d) ≡ 0
    → Means ctx d a op v
    → (q : ℕ) × (call_encode ctx a d op p ≡ good q) × (bit_and q (field_mask d) ≡ bits d v)
call_encode-bits ctx d a op (plain v) p fits small clear means = (
  place d v p,
  call_encode-written ctx d op p a (plain v) small means,
  place-bits d fits v p small clear,
)
call_encode-bits ctx d a op (upper v) p fits small clear means =
    let high = shl32 1 (d.width - 1 + d.offset) in
    (
      bit_or (place d v p) high,
      call_encode-written ctx d op p a (upper v) small means,
      bit_and-bit_or (place d v p) high (field_mask d)
          ∙ ap₂ bit_or (place-bits d fits v p small clear) (top_in_field d fits),
    )
