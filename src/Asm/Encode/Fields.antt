-- ===== src/Asm/Encode/Fields.antt =====
-- Where an encoder writes: in the field of its operand, and nowhere else.
use native.Mathlib.Nat.{mod-eq_of_lt}
use ajardsp.Common.{
  ℕ, ◌+◌, ◌-◌, ◌*◌, ◌^◌, ◌<◌, ◌≤◌, bit_and, bit_or, ◌≡◌, refl, sym, ap, ap₂, ◌∙◌, arith,
}
use ajardsp.Common.{Bool, true, ◌&&◌, ◌==◌, ltb, and-split, ==_iff, ltb→lt}
use ajardsp.Common.{shl32, low_mask, good, Ensures-good}
use ajardsp.Bits.Laws.{bit_and_assoc, bit_and-bit_or, bit_and-zero, bit_or-zero, bit_and-shl}
use ajardsp.Bits.Masks.{bit_and-low_mask}
use ajardsp.Asm.Types.{Operand, OperandDef, Encoder}
use ajardsp.Asm.Encode.{Context, call_encode}
use ajardsp.Asm.Encode.Writes.{call_encode-Ensures}

-- The bits of an operand's field.
unfoldable pub field_mask : OperandDef → ℕ
field_mask o = shl32 (low_mask o.width) o.offset

-- The field lies inside a word, its highest bit included.
unfoldable pub field_fits : OperandDef → Bool
unfolding field_mask
field_fits o =
    ltb (low_mask o.width * 2 ^ o.offset) (2 ^ 32)
    && (bit_and (shl32 1 (o.width - 1 + o.offset)) (field_mask o)
        == shl32 1 (o.width - 1 + o.offset))

-- `q` differs from `p` at most in the field of `d`.
abbrev pub Keeps : OperandDef → ℕ → ℕ → Type 0
Keeps d p q = (mask : ℕ) → bit_and (field_mask d) mask ≡ 0 → bit_and q mask ≡ bit_and p mask

-- Bits inside the field are kept away from every mask outside it.
or-Keeps : (d : OperandDef) (p f : ℕ) → bit_and f (field_mask d) ≡ f → Keeps d p (bit_or p f)
or-Keeps d p f inside mask outside =
    let gone : bit_and f mask ≡ 0 =
      ap (λ (t : ℕ). bit_and t mask) (sym inside)
      ∙ bit_and_assoc f (field_mask d) mask
      ∙ ap (bit_and f) outside
      ∙ bit_and-zero f in
    bit_and-bit_or p f mask ∙ ap (bit_or (bit_and p mask)) gone ∙ bit_or-zero (bit_and p mask)

module _ (d : OperandDef) (fits : field_fits d ≡ true) where
  field_in_word : low_mask d.width * 2 ^ d.offset < 2 ^ 32
  unfolding field_fits
  field_in_word = ltb→lt _ _ (and-split _ _ fits).0

  pub top_in_field :
      bit_and (shl32 1 (d.width - 1 + d.offset)) (field_mask d) ≡ shl32 1 (d.width - 1 + d.offset)
  unfolding field_fits
  top_in_field = (==_iff _ _).0 (and-split _ _ fits).1

  -- A value of the field's width stays inside the field.
  pub value_in_field :
      (x : ℕ) → x < 2 ^ d.width → bit_and (shl32 x d.offset) (field_mask d) ≡ shl32 x d.offset
  unfolding field_mask
  value_in_field x h =
      let below : x ≤ low_mask d.width = omega arith in
      let product : x * 2 ^ d.offset ≤ low_mask d.width * 2 ^ d.offset = grind arith in
      let whole : shl32 x d.offset ≡ x * 2 ^ d.offset =
        mod-eq_of_lt (omega (arith, field_in_word, product)) in
      let mask : shl32 (low_mask d.width) d.offset ≡ low_mask d.width * 2 ^ d.offset =
        mod-eq_of_lt field_in_word in
      ap₂ bit_and whole mask
      ∙ bit_and-shl d.offset x (low_mask d.width)
      ∙ ap (λ (t : ℕ). t * 2 ^ d.offset) (bit_and-low_mask d.width x ∙ mod-eq_of_lt h)
      ∙ sym whole

  pub call_encode-Keeps :
      (ctx : Context) (a : Encoder) (op : Operand) (p : ℕ) {q : ℕ}
      → call_encode ctx a d op p ≡ good q
      → Keeps d p q
  call_encode-Keeps ctx a op p =
      let add : (q f : ℕ) → Keeps d p q → bit_and f (field_mask d) ≡ f → Keeps d p (bit_or q f) =
        λ q f kept inside mask outside. or-Keeps d q f inside mask outside ∙ kept mask outside in
      Ensures-good (Keeps d p) _ (
        call_encode-Ensures d op p (Keeps d p) (λ mask outside. refl)
          (λ q v kept small. add q _ kept (value_in_field v small))
          (λ q kept. add q _ kept top_in_field) ctx a)

  -- An encoder that accepts an operand writes only in the field of its row, which lies inside a
  -- 32-bit word: a mask that leaves the field out sees the pattern as it was.
  pub call_encode-field_mask :
      (ctx : Context) (a : Encoder) (op : Operand) (p q mask : ℕ)
      → call_encode ctx a d op p ≡ good q
      → bit_and (field_mask d) mask ≡ 0
      → bit_and q mask ≡ bit_and p mask
  call_encode-field_mask ctx a op p q mask encoded outside =
      call_encode-Keeps ctx a op p encoded mask outside
