-- ===== src/Asm/Encode/Exclusive.antt =====
-- Which encoders exclude one another: a name that one of them accepts is refused by the other.
-- The rows of one mnemonic are told apart by this.
use ajardsp.Common.{ℕ, ◌≡◌, refl, sym, ap, ◌∙◌, inl, inr, ltb, Bool, true, false, not, ◌&&◌, ◌||◌}
use ajardsp.Common.{Option, some, List, [], ◌∷◌, CString, codes, str_eq, str_eq-eq, has_prefix}
use ajardsp.Common.{good, arith, Bool-cases, and-split}
use ajardsp.Asm.Types.{Operand, OperandDef, Encoder, encode_spec, encode_acc_half}
use ajardsp.Asm.Types.{encode_ptr, encode_reg}
use ajardsp.Asm.Encode.{Context, SpecialReg, special_regs, find_special, call_encode}
use ajardsp.Asm.Encode.{encode_spec_fn, encode_acc_half_fn, encode_ptr_fn, encode_reg_fn}

abbrev starts_with_ptr : CString → Bool
starts_with_ptr s = has_prefix s (codes "ptr")

abbrev starts_with_acc : CString → Bool
starts_with_acc s = has_prefix s (codes "acc")

not_both : (s : CString) → starts_with_ptr s ≡ true → starts_with_acc s ≡ true → ⊥
unfolding has_prefix
not_both [] p q = cc
not_both (c ∷ s) p q = ground arith

module _ (d : OperandDef) (op : Operand) (pattern : ℕ) {q : ℕ} where
  ptr_named :
      encode_ptr_fn d op pattern ≡ good q
      → (s : CString) × (op.name ≡ some s) × (starts_with_ptr s ≡ true)
  unfolding encode_ptr_fn
  ptr_named h = ground arith

  acc_half_named :
      encode_acc_half_fn d op pattern ≡ good q
      → (s : CString) × (op.name ≡ some s) × (starts_with_acc s ≡ true)
  unfolding encode_acc_half_fn
  acc_half_named h = ground arith

  reg_named :
      encode_reg_fn d op pattern ≡ good q
      → (s : CString) × (op.name ≡ some s) × ((starts_with_ptr s || starts_with_acc s) ≡ true)
  unfolding encode_reg_fn
  reg_named h = ground arith

  spec_named :
      encode_spec_fn d op pattern ≡ good q
      → (s : CString) × (op.name ≡ some s) × (ltb 64 (find_special special_regs s) ≡ false)
  unfolding encode_spec_fn
  spec_named h = ground arith

-- No special register is called like a pointer or an accumulator.
abbrev unprefixed : CString → Bool
unprefixed s = not (starts_with_ptr s || starts_with_acc s)

abbrev all_unprefixed : List SpecialReg → Bool
all_unprefixed [] = true
all_unprefixed (r ∷ rs) = unprefixed r.name && all_unprefixed rs

special_regs_unprefixed : all_unprefixed special_regs ≡ true
unfolding special_regs has_prefix
special_regs_unprefixed = refl

find_special-unprefixed :
    (rs : List SpecialReg) (s : CString)
    → all_unprefixed rs ≡ true
    → ltb 64 (find_special rs s) ≡ false
    → unprefixed s ≡ true
unfolding find_special
find_special-unprefixed [] s a h = cc
find_special-unprefixed (r ∷ rs) s a h =
    let (here, later) = and-split (unprefixed r.name) (all_unprefixed rs) a in
    elim (Bool-cases (str_eq s r.name)) [
      | inl same ↦ rw (str_eq-eq s r.name same) here
      | inr differ ↦ find_special-unprefixed rs s later (rw (differ) at h)
    ]

same_name : {name : Option CString} {s t : CString} → name ≡ some s → name ≡ some t → s ≡ t
same_name p q = cc

module _ (d e : OperandDef) (op : Operand) (p p' : ℕ) {q q' : ℕ} where
  ptr_or_half : encode_ptr_fn d op p ≡ good q → encode_acc_half_fn e op p' ≡ good q' → ⊥
  ptr_or_half h k =
      let (s, named, is_ptr) = ptr_named d op p h in
      let (t, named', is_acc) = acc_half_named e op p' k in
      not_both t (rw (same_name named named') at is_ptr) is_acc

  reg_or_spec : encode_reg_fn d op p ≡ good q → encode_spec_fn e op p' ≡ good q' → ⊥
  reg_or_spec h k =
      let (s, named, prefixed) = reg_named d op p h in
      let (t, named', found) = spec_named e op p' k in
      let plain : unprefixed t ≡ true =
        find_special-unprefixed special_regs t special_regs_unprefixed found in
      let prefixed' : (starts_with_ptr t || starts_with_acc t) ≡ true =
        rw (same_name named named') at prefixed in
      cc (sym plain ∙ ap not prefixed')

-- Two encoders that accept no common operand.
abbrev pub apart : Option Encoder → Option Encoder → Bool
apart (some encode_ptr) (some encode_acc_half) = true
apart (some encode_acc_half) (some encode_ptr) = true
apart (some encode_reg) (some encode_spec) = true
apart (some encode_spec) (some encode_reg) = true
apart _ _ = false

pub apart_sound :
    (ctx ctx' : Context) (a b : Encoder) (d e : OperandDef) (op : Operand) (p p' : ℕ) {q q' : ℕ}
    → apart (some a) (some b) ≡ true
    → call_encode ctx a d op p ≡ good q
    → call_encode ctx' b e op p' ≡ good q'
    → ⊥
unfolding call_encode
apart_sound ctx ctx' encode_ptr encode_acc_half d e op p p' w h k = ptr_or_half d e op p p' h k
apart_sound ctx ctx' encode_acc_half encode_ptr d e op p p' w h k = ptr_or_half e d op p' p k h
apart_sound ctx ctx' encode_reg encode_spec d e op p p' w h k = reg_or_spec d e op p p' h k
apart_sound ctx ctx' encode_spec encode_reg d e op p p' w h k = reg_or_spec e d op p' p k h
apart_sound ctx ctx' _ _ d e op p p' w h k = cc
