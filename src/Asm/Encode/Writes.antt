-- ===== src/Asm/Encode/Writes.antt =====
-- What every encoder does to the word: it adds bits in the field of its operand, and nothing else.
use native.Mathlib.Nat.{mod-lt}
use ajardsp.Common.{ℕ, ◌+◌, ◌-◌, ◌^◌, ◌<◌, bit_and, bit_or, arith}
use ajardsp.Common.{◌==◌, ltb, if◌then◌else◌}
use ajardsp.Common.{none, some, CString, codes, has_prefix, char_at, ℤ, pos, negsuc, low_bits}
use ajardsp.Common.{
  shl32, low_mask, Outcome, good, ◌>>=◌, bad, readable, Ensures, Ensures-bind, Ensures-if,
}
use ajardsp.Bits.Laws.{bit_and-le}
use ajardsp.Bits.Masks.{pow_pos}
use ajardsp.Asm.Types.{Operand, OperandDef, Encoder, encode_spec, encode_acc, encode_acc_half}
use ajardsp.Asm.Types.{encode_ptr, encode_pred, encode_reg, encode_int, encode_symref}
use ajardsp.Asm.Symtab.{symtab_lookup}
use ajardsp.Asm.Encode.{Context, place, half_reg, call_encode, encode_spec_fn, encode_acc_fn}
use ajardsp.Asm.Encode.{encode_acc_half_fn, encode_ptr_fn, encode_pred_fn, encode_reg_fn}
use ajardsp.Asm.Encode.{find_special, special_regs, encode_int_fn, encode_symref_fn, out_of_range}

-- A property of the word that holds before, and that lasts when a value of the field's width is
-- added at the place of the field, and when the highest bit of the field is set.
module _ (d : OperandDef) (op : Operand) (p : ℕ) (P : ℕ → Type 0) (stays : P p)
    (writes : (q v : ℕ) → P q → v < 2 ^ d.width → P (bit_or q (shl32 v d.offset)))
    (top : (q : ℕ) → P q → P (bit_or q (shl32 1 (d.width - 1 + d.offset)))) where
  place-Writes : (v q : ℕ) → P q → P (place d v q)
  unfolding place
  place-Writes v q holds =
      writes q (bit_and v (low_mask d.width)) holds
        (omega (arith, bit_and-le v (low_mask d.width), pow_pos d.width))

  low_bits-lt : (x : ℤ) → low_bits x d.width < 2 ^ d.width
  low_bits-lt (pos n) = mod-lt n (pow_pos d.width)
  low_bits-lt (negsuc n) = omega (arith, pow_pos d.width)

  abbrev Writes : Outcome ℕ → Type 0
  Writes = Ensures P

  half-Writes :
      (reg c : ℕ) (f : ℕ → Outcome ℕ) → ((v : ℕ) → Writes (f v)) → Writes (half_reg reg c >>= f)
  half-Writes reg c f h = Ensures-bind P (half_reg reg c) f h

  -- `strncmp` and what follows it.
  prefixed-Writes :
      (prefix : CString) (f g : CString → Outcome ℕ)
      → ((s : CString) → Writes (f s))
      → ((s : CString) → Writes (g s))
      → Writes (readable op.name >>= λ s. if has_prefix s prefix then f s else g s)
  prefixed-Writes prefix f g h k =
      Ensures-bind P (readable op.name) _
        λ s. Ensures-if P (has_prefix s prefix) (f s) (g s) (h s) (k s)

  char-Writes :
      (s : CString) (i : ℕ) (f : ℕ → Outcome ℕ)
      → ((c : ℕ) → Writes (f c))
      → Writes (readable (char_at s i) >>= f)
  char-Writes s i f h = Ensures-bind P (readable (char_at s i)) f h

  spec-Writes : Writes (encode_spec_fn d op p)
  unfolding encode_spec_fn
  spec-Writes = Ensures-bind P (readable op.name) _ λ s.
      let reg = find_special special_regs s in
      Ensures-if P (ltb 64 reg) bad (good (place d reg p)) tt (place-Writes reg p stays)

  acc-Writes : Writes (encode_acc_fn d op p)
  unfolding encode_acc_fn
  acc-Writes =
      prefixed-Writes (codes "acc") _ _
        (λ s.
          char-Writes s 3 _
            λ c. char-Writes s 4 _ λ end. Ensures-if P (end == 0) _ bad (place-Writes _ p stays) tt)
        (λ s. tt)

  acc_half-Writes : Writes (encode_acc_half_fn d op p)
  unfolding encode_acc_half_fn
  acc_half-Writes =
      prefixed-Writes (codes "acc") _ _
        (λ s.
          char-Writes s 3 _
            λ c. char-Writes s 4 _ λ half. half-Writes _ half _ λ reg. place-Writes reg p stays)
        (λ s. tt)

  ptr-Writes : Writes (encode_ptr_fn d op p)
  unfolding encode_ptr_fn
  ptr-Writes =
      prefixed-Writes (codes "ptr") _ _ (λ s. char-Writes s 3 _ λ c. place-Writes _ p stays)
        (λ s. tt)

  pred-Writes : Writes (encode_pred_fn d op p)
  unfolding encode_pred_fn
  pred-Writes =
      prefixed-Writes (codes "pred") _ _ (λ s. char-Writes s 4 _ λ c. place-Writes _ p stays)
        (λ s. tt)

  reg-Writes : Writes (encode_reg_fn d op p)
  unfolding encode_reg_fn
  reg-Writes =
      prefixed-Writes (codes "ptr") _ _ (λ s. char-Writes s 3 _ λ c. place-Writes _ p stays)
        λ s.
          Ensures-if P (has_prefix s (codes "acc")) _ bad
            (char-Writes s 3 _ λ c.
              char-Writes s 4 _
                λ half. half-Writes _ half _ λ reg. top (place d reg p) (place-Writes reg p stays))
            tt

  int-Writes : Writes (encode_int_fn d op p)
  unfolding encode_int_fn
  int-Writes =
      Ensures-if P (out_of_range op.offset d.width) bad
        (good (bit_or p (shl32 (low_bits op.offset d.width) d.offset))) tt
        (writes p (low_bits op.offset d.width) stays (low_bits-lt op.offset))

  symref-Writes : (ctx : Context) → Writes (encode_symref_fn ctx d op p)
  unfolding encode_symref_fn
  symref-Writes ctx = Ensures-if P ctx.ignore_sym_refs (good p) _ stays (
      Ensures-bind P (readable op.name) _ λ name.
        elim (symtab_lookup ctx.symtab name)
          as (λ r. Writes (elim r [ none ↦ bad | some a ↦ good (place d a p) ])) [
            | none ↦ tt
            | some a ↦ place-Writes a p stays
          ])

  -- It lasts through every encoder that succeeds.
  pub call_encode-Ensures : (ctx : Context) (a : Encoder) → Ensures P (call_encode ctx a d op p)
  unfolding call_encode
  call_encode-Ensures ctx encode_spec = spec-Writes
  call_encode-Ensures ctx encode_acc = acc-Writes
  call_encode-Ensures ctx encode_acc_half = acc_half-Writes
  call_encode-Ensures ctx encode_ptr = ptr-Writes
  call_encode-Ensures ctx encode_pred = pred-Writes
  call_encode-Ensures ctx encode_reg = reg-Writes
  call_encode-Ensures ctx encode_int = int-Writes
  call_encode-Ensures ctx encode_symref = symref-Writes ctx
