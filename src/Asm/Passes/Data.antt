-- ===== src/Asm/Passes/Data.antt =====
-- The data section: both passes move alike, and a label gets the address that the second pass
-- reaches there.
use ajardsp.Common.{
  ℕ, zero, suc, ◌+◌, ◌%◌, ◌^◌, ◌<◌, ◌≡◌, refl, ap, ◌∙◌, arith, Bool-cases, Option-cases, inl, inr,
}
use ajardsp.Common.{none, some, List, [], ◌∷◌, ◌++◌, CString, ℤ, pos, negsuc}
use ajardsp.Common.{is_nonzero, rounds, low_bits, good, ◌>>=◌, >>=-eq-good}
use ajardsp.Asm.Types.{DataElement}
use ajardsp.Asm.Symtab.{symtab_lookup}
use ajardsp.Asm.Passes.{
  AsmState, define_label, data_size, put_data, skip_data, data_word, dmem_uninit_value,
}
use ajardsp.Asm.Passes.{pass_0_data_element, pass_0_data, pass_1_data_element, pass_1_data}
use ajardsp.Asm.Passes.Agree.{Extends, Extends-refl, define_label-Defined}

-- A `.skip` that is not negative.
abbrev pub SkipFits : ℤ → Type 0
SkipFits (pos n) = Unit
SkipFits (negsuc n) = ⊥

abbrev pub DataFits : List DataElement → Type 0
DataFits [] = Unit
DataFits (x ∷ xs) = SkipFits x.skip_length × DataFits xs

-- The second pass: where it moves, and what it leaves alone.
record Moved (n : ℕ) (su su' : AsmState) : Type 0 where
  to : su'.dmem_addr ≡ (su.dmem_addr + n) % 2 ^ 16
  symtab_kept : su'.symtab ≡ su.symtab
  imem_kept : su'.imem_addr ≡ su.imem_addr

skip_data-Moved : (n : ℕ) (su : AsmState) → su.dmem_addr < 2 ^ 16 → Moved n su (skip_data n su)
unfolding skip_data
skip_data-Moved zero su h = record { to = omega arith; symtab_kept = refl; imem_kept = refl }
skip_data-Moved (suc n) su h =
    let x = skip_data-Moved n (put_data dmem_uninit_value su) (omega arith) in
    record { to = omega (arith, x.to); symtab_kept = x.symtab_kept; imem_kept = x.imem_kept }

skip-size : (s : ℤ) → SkipFits s → rounds s % 2 ^ 16 ≡ low_bits s 16
skip-size (pos n) fits = refl
skip-size (negsuc n) fits = absurd fits

put_data-Moved : (value : ℕ) (su : AsmState) → Moved 1 su (put_data value su)
unfolding put_data
put_data-Moved value su = record { to = refl; symtab_kept = refl; imem_kept = refl }

-- What an element that is no label does, for the number of words that it takes.
pass_1_data_element-Moved :
    (x : DataElement) (su : AsmState) {su' : AsmState}
    → SkipFits x.skip_length
    → su.dmem_addr < 2 ^ 16
    → x.label ≡ none
    → pass_1_data_element x su ≡ good su'
    → (n : ℕ) × Moved n su su' × (n % 2 ^ 16 ≡ data_size x)
unfolding pass_1_data_element
pass_1_data_element-Moved x su {su' = su'} fits start plain h =
    elim (Bool-cases (is_nonzero x.skip_length)) [
      | inl skips ↦
          let done : skip_data (rounds x.skip_length) su ≡ su' = ground arith in
          let size : rounds x.skip_length % 2 ^ 16 ≡ data_size x =
            unfold data_size in rw skips (skip-size x.skip_length fits) in
          (
            rounds x.skip_length,
            rw (← done) (skip_data-Moved (rounds x.skip_length) su start),
            size,
          )
      | inr one ↦
          let bound : (data_word x su >>= λ value. good (put_data value su)) ≡ good su' =
            ground arith in
          let (value, _, put) = >>=-eq-good (data_word x su) _ bound in
          let done : put_data value su ≡ su' = ground arith in
          let size : 1 % 2 ^ 16 ≡ data_size x = unfold data_size in rw one in
          (1, rw (← done) (put_data-Moved value su), size)
    ]

-- Both passes over data, from the same address.
pub record DataTogether (st su st' su' : AsmState) : Type 0 where
  pub extends : Extends st.symtab st'.symtab
  pub kept : su'.symtab ≡ su.symtab
  pub same_addr : st'.dmem_addr ≡ su'.dmem_addr
  pub inside : st'.dmem_addr < 2 ^ 16
  pub imem_kept : st'.imem_addr ≡ st.imem_addr
  pub imem_kept' : su'.imem_addr ≡ su.imem_addr

element-DataTogether :
    (x : DataElement) (st su : AsmState) {st' su' : AsmState}
    → SkipFits x.skip_length
    → st.dmem_addr < 2 ^ 16
    → st.dmem_addr ≡ su.dmem_addr
    → pass_0_data_element x st ≡ good st'
    → pass_1_data_element x su ≡ good su'
    → DataTogether st su st' su'
unfolding pass_0_data_element
element-DataTogether x st su {st' = st'} {su' = su'} fits start same h k =
    elim (Option-cases x.label) [
      | inr (name, is_label) ↦
          let defined : define_label name st.dmem_addr st ≡ good st' = ground arith in
          let stays : su ≡ su' = unfold pass_1_data_element in ground arith in
          let x = define_label-Defined name st.dmem_addr st defined in
          rw (← stays) (record {
            extends = x.extends;
            kept = refl;
            same_addr = x.dmem_kept ∙ same;
            inside = rw (x.dmem_kept) start;
            imem_kept = x.imem_kept;
            imem_kept' = refl;
          })
      | inl plain ↦
          let (n, moved, size) = pass_1_data_element-Moved x su fits (rw (← same) start) plain k in
          let one : record st { dmem_addr = (st.dmem_addr + data_size x) % 2 ^ 16 } ≡ st' =
            ground arith in
          rw (← one) (record {
            extends = Extends-refl st.symtab;
            kept = moved.symtab_kept;
            same_addr = omega (arith, size, moved.to);
            inside = omega arith;
            imem_kept = refl;
            imem_kept' = moved.imem_kept;
          })
    ]

pub data-DataTogether :
    (xs : List DataElement) (st su : AsmState) {st' su' : AsmState}
    → DataFits xs
    → st.dmem_addr < 2 ^ 16
    → st.dmem_addr ≡ su.dmem_addr
    → pass_0_data xs st ≡ good st'
    → pass_1_data xs su ≡ good su'
    → DataTogether st su st' su'
unfolding pass_0_data pass_1_data
data-DataTogether [] st su {st' = st'} {su' = su'} fits start same h k =
    let one : st ≡ st' = ground arith in
    let two : su ≡ su' = ground arith in
    rw (← one, ← two)
      (record {
        extends = Extends-refl st.symtab;
        kept = refl;
        same_addr = same;
        inside = start;
        imem_kept = refl;
        imem_kept' = refl;
      })
data-DataTogether (x ∷ xs) st su (fit, fits) start same h k =
    let (st₁, h₁, h₂) = >>=-eq-good (pass_0_data_element x st) _ h in
    let (su₁, k₁, k₂) = >>=-eq-good (pass_1_data_element x su) _ k in
    let p = element-DataTogether x st su fit start same h₁ k₁ in
    let q = data-DataTogether xs st₁ su₁ fits p.inside p.same_addr h₂ k₂ in
    record {
      extends = λ name a found. q.extends name a (p.extends name a found);
      kept = q.kept ∙ p.kept;
      same_addr = q.same_addr;
      inside = q.inside;
      imem_kept = q.imem_kept ∙ p.imem_kept;
      imem_kept' = q.imem_kept' ∙ p.imem_kept';
    }

label_entered :
    (x : DataElement) (st : AsmState) {st' : AsmState} {name : CString}
    → x.label ≡ some name
    → pass_0_data_element x st ≡ good st'
    → symtab_lookup st'.symtab name ≡ some st.dmem_addr
unfolding pass_0_data_element
label_entered x st {st' = st'} {name = name} e h =
    let defined : define_label name st.dmem_addr st ≡ good st' = ground arith in
    (define_label-Defined name st.dmem_addr st defined).found

-- The second pass stands at the label's entry when it has done the elements before it.
pub data_labels :
    (pre : List DataElement) (x : DataElement) (post : List DataElement) (st su : AsmState)
    {st' su' : AsmState} {name : CString}
    → DataFits (pre ++ x ∷ post)
    → st.dmem_addr < 2 ^ 16
    → st.dmem_addr ≡ su.dmem_addr
    → pass_0_data (pre ++ x ∷ post) st ≡ good st'
    → pass_1_data (pre ++ x ∷ post) su ≡ good su'
    → x.label ≡ some name
    → (sv : AsmState) × (pass_1_data pre su ≡ good sv)
      × (symtab_lookup st'.symtab name ≡ some sv.dmem_addr)
unfolding pass_0_data pass_1_data
data_labels [] x post st su {name = name} (fit, fits) start same h k e =
    let (st₁, h₁, h₂) = >>=-eq-good (pass_0_data_element x st) _ h in
    let (su₁, k₁, k₂) = >>=-eq-good (pass_1_data_element x su) _ k in
    let p = element-DataTogether x st su fit start same h₁ k₁ in
    let q = data-DataTogether post st₁ su₁ fits p.inside p.same_addr h₂ k₂ in
    (su, refl, q.extends name su.dmem_addr (label_entered x st e h₁ ∙ ap some same))
data_labels (first ∷ pre) x post st su (fit, fits) start same h k e =
    let (st₁, h₁, h₂) = >>=-eq-good (pass_0_data_element first st) _ h in
    let (su₁, k₁, k₂) = >>=-eq-good (pass_1_data_element first su) _ k in
    let p = element-DataTogether first st su fit start same h₁ k₁ in
    let (sv, reached, found) = data_labels pre x post st₁ su₁ fits p.inside p.same_addr h₂ k₂ e in
    (sv, ap (λ r. r >>= pass_1_data pre) k₁ ∙ reached, found)
