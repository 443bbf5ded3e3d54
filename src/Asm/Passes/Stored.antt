-- ===== src/Asm/Passes/Stored.antt =====
-- The data words stay in the data memory: the second pass goes upwards there.
use ajardsp.Common.{
  ℕ, zero, suc, ◌+◌, ◌^◌, ◌<◌, ◌≡◌, refl, sym, ap, ◌∙◌, arith, Bool-cases, Option-cases, inl, inr,
}
use ajardsp.Common.{
  true, false, none, some, List, [], ◌∷◌, ◌++◌, is_nonzero, rounds, u16, update_other, update_self,
  if◌then◌else◌,
}
use ajardsp.Common.{good, ◌>>=◌, >>=-eq-good}
use ajardsp.Asm.Types.{InstBundle, DataElement}
use ajardsp.Asm.Passes.{AsmState}
use ajardsp.Asm.Passes.{put_data, skip_data, data_word}
use ajardsp.Asm.Passes.{
  pass_1_data_element, pass_1_data, rewound, asm_do_pass_0, asm_gen_opcodes, pass_0_code,
}
use ajardsp.Asm.Passes.Program.{run}
use ajardsp.Asm.Passes.Untouched.{code-dmem}

-- The words of an element in the second pass.
abbrev pub element_room : DataElement → ℕ
element_room x = elim x.label [
  | some label ↦ 0
  | none ↦ if is_nonzero x.skip_length then rounds x.skip_length else 1
]

abbrev pub data_room : List DataElement → ℕ
data_room [] = 0
data_room (x ∷ xs) = element_room x + data_room xs

record Stored (st st' : AsmState) (room : ℕ) : Type 0 where
  below : (a : ℕ) → a < st.dmem_addr → st'.dmem a ≡ st.dmem a
  moved : st'.dmem_addr ≡ st.dmem_addr + room

Stored-refl : (st : AsmState) → Stored st st 0
Stored-refl st = record { below = λ a h. refl; moved = omega arith }

Stored-trans :
    (st su sv : AsmState) (m n : ℕ) → Stored st su m → Stored su sv n → Stored st sv (m + n)
Stored-trans st su sv m n x y = record {
  below = λ a h. y.below a (omega (arith, x.moved)) ∙ x.below a h;
  moved = omega (arith, x.moved, y.moved);
}

put_data-Stored : (v : ℕ) (st : AsmState) → st.dmem_addr + 1 < 2 ^ 16 → Stored st (put_data v st) 1
unfolding put_data
put_data-Stored v st h = record {
  below = λ a k. update_other st.dmem st.dmem_addr (u16 v) a (λ same. omega arith);
  moved = omega arith;
}

skip_data-Stored :
    (n : ℕ) (st : AsmState) → st.dmem_addr + n < 2 ^ 16 → Stored st (skip_data n st) n
unfolding skip_data
skip_data-Stored zero st h = Stored-refl st
skip_data-Stored (suc n) st h =
    let x = put_data-Stored 0xdead st (omega arith) in
    let y = skip_data-Stored n (put_data 0xdead st) (omega (arith, x.moved)) in
    record {
      below = λ a k. y.below a (omega (arith, x.moved)) ∙ x.below a k;
      moved = omega (arith, x.moved, y.moved);
    }

-- A data word that was stored.
record Word (x : DataElement) (st st' : AsmState) : Type 0 where
  value : ℕ
  known : data_word x st ≡ good value
  put : put_data value st ≡ st'

element-Word :
    (x : DataElement) (st : AsmState) {st' : AsmState}
    → x.label ≡ none
    → is_nonzero x.skip_length ≡ false
    → pass_1_data_element x st ≡ good st'
    → Word x st st'
unfolding pass_1_data_element
element-Word x st {st' = st'} no_label no_skip h =
    let both : (data_word x st >>= λ value. good (put_data value st)) ≡ good st' = ground arith in
    let (value, known, put) = >>=-eq-good (data_word x st) _ both in
    record { value = value; known = known; put = ground arith }

element-Stored :
    (x : DataElement) (st : AsmState) {st' : AsmState}
    → st.dmem_addr + element_room x < 2 ^ 16
    → pass_1_data_element x st ≡ good st'
    → Stored st st' (element_room x)
unfolding pass_1_data_element
element-Stored x st {st' = st'} room h = elim (Option-cases x.label) [
  | inr (name, is_label) ↦ let e : st ≡ st' = ground arith in rw (is_label, ← e) (Stored-refl st)
  | inl no_label ↦ elim (Bool-cases (is_nonzero x.skip_length)) [
    | inl skips ↦
        let e : skip_data (rounds x.skip_length) st ≡ st' = ground arith in
        rw (no_label, skips, ← e)
          (skip_data-Stored (rounds x.skip_length) st (rw (no_label, skips) at room))
    | inr plain ↦
        let w = element-Word x st no_label plain h in
        rw (no_label, plain, ← w.put) (put_data-Stored w.value st (rw (no_label, plain) at room))
  ]
]

data-Stored :
    (xs : List DataElement) (st : AsmState) {st' : AsmState}
    → st.dmem_addr + data_room xs < 2 ^ 16
    → pass_1_data xs st ≡ good st'
    → Stored st st' (data_room xs)
unfolding pass_1_data
data-Stored [] st {st' = st'} room h = let e : st ≡ st' = ground arith in rw (← e) (Stored-refl st)
data-Stored (x ∷ xs) st {st' = st'} room h =
    let (su, h₁, h₂) = >>=-eq-good (pass_1_data_element x st) _ h in
    let first = element-Stored x st (omega arith) h₁ in
    Stored-trans st su st' (element_room x) (data_room xs) first
      (data-Stored xs su (omega (arith, first.moved)) h₂)

module _ (x : DataElement) (post : List DataElement) (no_label : x.label ≡ none)
    (no_skip : is_nonzero x.skip_length ≡ false) where
  word_kept :
      (pre : List DataElement) (st st' : AsmState)
      → st.dmem_addr + data_room (pre ++ x ∷ post) < 2 ^ 16
      → pass_1_data (pre ++ x ∷ post) st ≡ good st'
      → (sv : AsmState) × (value : ℕ) × (pass_1_data pre st ≡ good sv)
        × (data_word x sv ≡ good value)
        × (st'.dmem sv.dmem_addr ≡ u16 value)
  unfolding pass_1_data put_data
  word_kept [] st st' room h =
      let (su, h₁, h₂) = >>=-eq-good (pass_1_data_element x st) _ h in
      let w = element-Word x st no_label no_skip h₁ in
      let first = element-Stored x st (omega arith) h₁ in
      let size : element_room x ≡ 1 = rw (no_label, no_skip) refl in
      let rest = data-Stored post su (omega (arith, first.moved)) h₂ in
      (
        st,
        w.value,
        refl,
        w.known,
        rest.below st.dmem_addr (omega (arith, first.moved, size))
            ∙ ap (λ (s : AsmState). s.dmem st.dmem_addr) (sym w.put)
            ∙ update_self st.dmem st.dmem_addr (u16 w.value),
      )
  word_kept (first ∷ pre) st st' room h =
      let (su, h₁, h₂) = >>=-eq-good (pass_1_data_element first st) _ h in
      let stored = element-Stored first st (omega arith) h₁ in
      let (sv, value, reached, known, kept) =
        word_kept pre su st' (omega (arith, stored.moved)) h₂ in
      (sv, value, ap (λ r. r >>= pass_1_data pre) h₁ ∙ reached, known, kept)

  -- For a program that assembles and whose data section takes less than 2 ^ 16 words: a data word,
  -- be it a number or the address of a symbol, has a value when the second pass comes to it, and
  -- the final data memory has that value, cut to 16 bits, at the address that the pass stands at.
  pub asm_gen_opcodes-data_word :
      (pre : List DataElement) (ibs : List InstBundle) (st st' : AsmState)
      → data_room (pre ++ x ∷ post) < 2 ^ 16
      → asm_gen_opcodes ibs (pre ++ x ∷ post) st ≡ good st'
      → (mid sv : AsmState) × (value : ℕ) × (asm_do_pass_0 ibs (pre ++ x ∷ post) (rewound true st)
          ≡ good mid)
        × (pass_1_data pre (rewound false mid) ≡ good sv)
        × (data_word x sv ≡ good value)
        × (st'.dmem sv.dmem_addr ≡ u16 value)
  unfolding asm_do_pass_0
  asm_gen_opcodes-data_word pre ibs st st' room h =
      let r = run ibs (pre ++ x ∷ post) st h in
      let (sv, value, reached, known, kept) =
        word_kept pre (rewound false r.mid) r.data_1 (omega arith) r.pass_1_of_data in
      (
        r.mid,
        sv,
        value,
        ap (λ o. o >>= pass_0_code ibs) r.pass_0_of_data ∙ r.pass_0_of_code,
        reached,
        known,
        ap (λ m. m sv.dmem_addr) (code-dmem ibs r.data_1 r.pass_1_of_code) ∙ kept,
      )
