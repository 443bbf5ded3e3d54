-- ===== src/Asm/Passes/Labels.antt =====
-- Each label of the code section gets the address at which the second pass reaches it.
use ajardsp.Common.{
  zero, suc, ◌^◌, ◌<◌, ◌≡◌, refl, sym, ap, ◌∙◌, arith, Bool-cases, Option-cases, inl, inr,
}
use ajardsp.Common.{true, some, List, [], ◌∷◌, ◌++◌, CString, ℤ, pos, negsuc}
use ajardsp.Common.{is_nonzero, good, ◌>>=◌, >>=-eq-good}
use ajardsp.Asm.Types.{Instruction, InstBundle}
use ajardsp.Asm.Symtab.{symtab_lookup}
use ajardsp.Asm.Passes.{AsmState, define_label, align_16, assemble_bundle, pad_code}
use ajardsp.Asm.Passes.{pass_0_bundle, pass_0_code, pass_1_insts, pass_1_bundle, pass_1_code}
use ajardsp.Asm.Passes.Align.{align_agree, pad_code_agree, pad_code_symtab}
use ajardsp.Asm.Passes.Agree.{Extends-refl, define_label-Defined}
use ajardsp.Asm.Passes.Agree.{Together, insts-Together, AlignFits, CodeFits}

pad-Together :
    (align : ℤ) (st su : AsmState)
    → AlignFits align
    → is_nonzero align ≡ true
    → st.imem_addr < 2 ^ 16
    → st.imem_addr ≡ su.imem_addr
    → Together st su (record st { imem_addr = align_16 align st.imem_addr }) (pad_code align su)
pad-Together (negsuc n) st su fits z start same = absurd fits
pad-Together (pos zero) st su fits z start same = cc
pad-Together (pos (suc n)) st su fits z start same =
    let there = pad_code_agree (suc n) su (omega arith, fits) (rw (← same) start) in
    record {
      extends = Extends-refl st.symtab;
      kept = pad_code_symtab (pos (suc n)) su;
      same_addr = ap (align_16 (pos (suc n))) same ∙ sym there;
      inside = omega (arith, (align_agree (suc n) st.imem_addr (omega arith, fits) start).0);
    }

label-Together :
    (name : CString) (st su : AsmState) {st' : AsmState}
    → st.imem_addr < 2 ^ 16
    → st.imem_addr ≡ su.imem_addr
    → define_label name st.imem_addr st ≡ good st'
    → Together st su st' su
label-Together name st su start same h =
    let x = define_label-Defined name st.imem_addr st h in
    record {
      extends = x.extends;
      kept = refl;
      same_addr = x.imem_kept ∙ same;
      inside = rw (x.imem_kept) start;
    }

pub pass_1_insts-good :
    (insts : List Instruction) (st : AsmState) {st' : AsmState}
    → pass_1_insts insts st ≡ good st'
    → assemble_bundle insts st ≡ good st'
unfolding pass_1_insts
pass_1_insts-good [] st h = cc
pass_1_insts-good (inst ∷ rest) st h = h

bundle-Together :
    (ib : InstBundle) (st su : AsmState) {st' su' : AsmState}
    → AlignFits ib.align
    → st.imem_addr < 2 ^ 16
    → st.imem_addr ≡ su.imem_addr
    → pass_0_bundle ib st ≡ good st'
    → pass_1_bundle ib su ≡ good su'
    → Together st su st' su'
unfolding pass_0_bundle pass_1_bundle
bundle-Together ib st su {st' = st'} {su' = su'} fits start same h k =
    elim (Option-cases ib.label) [
      | inr (name, is_label) ↦
          let defined : define_label name st.imem_addr st ≡ good st' = ground arith in
          let stays : su ≡ su' = ground arith in
          rw (← stays) (label-Together name st su start same defined)
      | inl no_label ↦ elim (Bool-cases (is_nonzero ib.align)) [
        | inl aligns ↦
            let one : record st { imem_addr = align_16 ib.align st.imem_addr } ≡ st' =
              ground arith in
            let two : pad_code ib.align su ≡ su' = ground arith in
            rw (← one, ← two) (pad-Together ib.align st su fits aligns start same)
        | inr plain ↦
            let k₁ : pass_1_insts ib.insts su ≡ good su' = ground arith in
            let one : assemble_bundle ib.insts st ≡ good st' = ground arith in
            let two : assemble_bundle ib.insts su ≡ good su' = pass_1_insts-good ib.insts su k₁ in
            insts-Together ib.insts st su start same one two
      ]
    ]

-- The two passes over the rest of the code keep the table's entries.
pub rest-Together :
    (ibs : List InstBundle) (st su : AsmState) {st' su' : AsmState}
    → CodeFits ibs
    → st.imem_addr < 2 ^ 16
    → st.imem_addr ≡ su.imem_addr
    → pass_0_code ibs st ≡ good st'
    → pass_1_code ibs su ≡ good su'
    → Together st su st' su'
unfolding pass_0_code pass_1_code
rest-Together [] st su {st' = st'} {su' = su'} fits start same h k =
    let one : st ≡ st' = ground arith in
    let two : su ≡ su' = ground arith in
    rw (← one, ← two)
      (record { extends = Extends-refl st.symtab; kept = refl; same_addr = same; inside = start })
rest-Together (ib ∷ ibs) st su (fit, fits) start same h k =
    let (st₁, h₁, h₂) = >>=-eq-good (pass_0_bundle ib st) _ h in
    let (su₁, k₁, k₂) = >>=-eq-good (pass_1_bundle ib su) _ k in
    let x = bundle-Together ib st su fit start same h₁ k₁ in
    let y = rest-Together ibs st₁ su₁ fits x.inside x.same_addr h₂ k₂ in
    record {
      extends = λ name a found. y.extends name a (x.extends name a found);
      kept = y.kept ∙ x.kept;
      same_addr = y.same_addr;
      inside = y.inside;
    }

label_entered :
    (ib : InstBundle) (st : AsmState) {st' : AsmState} {name : CString}
    → ib.label ≡ some name
    → pass_0_bundle ib st ≡ good st'
    → symtab_lookup st'.symtab name ≡ some st.imem_addr
unfolding pass_0_bundle
label_entered ib st {st' = st'} {name = name} e h =
    let defined : define_label name st.imem_addr st ≡ good st' = ground arith in
    (define_label-Defined name st.imem_addr st defined).found

-- The second pass stands at the label's entry when it has done the bundles before it.
pub code_labels :
    (pre : List InstBundle) (ib : InstBundle) (post : List InstBundle) (st su : AsmState)
    {st' su' : AsmState} {name : CString}
    → CodeFits (pre ++ ib ∷ post)
    → st.imem_addr < 2 ^ 16
    → st.imem_addr ≡ su.imem_addr
    → pass_0_code (pre ++ ib ∷ post) st ≡ good st'
    → pass_1_code (pre ++ ib ∷ post) su ≡ good su'
    → ib.label ≡ some name
    → (sv : AsmState) × (pass_1_code pre su ≡ good sv)
      × (symtab_lookup st'.symtab name ≡ some sv.imem_addr)
unfolding pass_0_code pass_1_code
code_labels [] ib post st su {name = name} (fit, fits) start same h k e =
    let (st₁, h₁, h₂) = >>=-eq-good (pass_0_bundle ib st) _ h in
    let (su₁, k₁, k₂) = >>=-eq-good (pass_1_bundle ib su) _ k in
    let x = bundle-Together ib st su fit start same h₁ k₁ in
    let y = rest-Together post st₁ su₁ fits x.inside x.same_addr h₂ k₂ in
    (su, refl, y.extends name su.imem_addr (label_entered ib st e h₁ ∙ ap some same))
code_labels (first ∷ pre) ib post st su (fit, fits) start same h k e =
    let (st₁, h₁, h₂) = >>=-eq-good (pass_0_bundle first st) _ h in
    let (su₁, k₁, k₂) = >>=-eq-good (pass_1_bundle first su) _ k in
    let x = bundle-Together first st su fit start same h₁ k₁ in
    let (sv, reached, found) = code_labels pre ib post st₁ su₁ fits x.inside x.same_addr h₂ k₂ e in
    (sv, ap (λ r. r >>= pass_1_code pre) k₁ ∙ reached, found)
