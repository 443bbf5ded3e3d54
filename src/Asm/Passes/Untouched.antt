-- ===== src/Asm/Passes/Untouched.antt =====
-- The code section does not touch the data memory.
use ajardsp.Common.{
  ℕ, zero, suc, ◌-◌, ◌≡◌, refl, sym, ap, ◌∙◌, arith, Bool-cases, Option-cases, inl, inr,
}
use ajardsp.Common.{List, [], ◌∷◌, ℤ, is_nonzero}
use ajardsp.Common.{Outcome, good, exits, >>=-eq-good, Ensures, Ensures-good}
use ajardsp.Asm.Types.{Instruction, InstBundle}
use ajardsp.Asm.Bundle.{try_assemble_inst_bundle}
use ajardsp.Asm.Passes.{AsmState, context, align_32, assemble_bundle, put_code, put_nops, pad_code}
use ajardsp.Asm.Passes.{pass_1_insts, pass_1_bundle, pass_1_code}
use ajardsp.Asm.Passes.Labels.{pass_1_insts-good}

put_nops-dmem : (n : ℕ) (st : AsmState) → (put_nops n st).dmem ≡ st.dmem
unfolding put_nops put_code
put_nops-dmem zero st = refl
put_nops-dmem (suc n) st = put_nops-dmem n (put_code 0x0001 st)

pad_code-dmem : (align : ℤ) (st : AsmState) → (pad_code align st).dmem ≡ st.dmem
unfolding pad_code put_code
pad_code-dmem align st =
    ground (arith, put_nops-dmem (align_32 align st.imem_addr - st.imem_addr - 1) st)

assemble_bundle-dmem :
    (insts : List Instruction) (st : AsmState) {st' : AsmState}
    → assemble_bundle insts st ≡ good st'
    → st'.dmem ≡ st.dmem
unfolding assemble_bundle
assemble_bundle-dmem insts st =
    let Kept : AsmState → Type 0 = λ st'. st'.dmem ≡ st.dmem in
    Ensures-good Kept (assemble_bundle insts st)
      (elim (try_assemble_inst_bundle (context st) insts st.imem st.imem_addr)
        as (λ o. Ensures Kept (elim o [
          | good e ↦ good (record st { imem = e.imem; imem_addr = e.imem_addr })
          | Outcome.bad ↦ exits
          | exits ↦ exits
          | Outcome.fault ↦ Outcome.fault
        ])) [ good e ↦ refl | Outcome.bad ↦ tt | exits ↦ tt | Outcome.fault ↦ tt ])

bundle-dmem :
    (ib : InstBundle) (st : AsmState) {st' : AsmState}
    → pass_1_bundle ib st ≡ good st'
    → st'.dmem ≡ st.dmem
unfolding pass_1_bundle
bundle-dmem ib st {st' = st'} h = elim (Option-cases ib.label) [
  | inr (name, is_label) ↦ let e : st ≡ st' = ground arith in ap (λ (s : AsmState). s.dmem) (sym e)
  | inl no_label ↦ elim (Bool-cases (is_nonzero ib.align)) [
    | inl aligns ↦
        let e : pad_code ib.align st ≡ st' = ground arith in
        ap (λ (s : AsmState). s.dmem) (sym e) ∙ pad_code-dmem ib.align st
    | inr plain ↦
        let k : pass_1_insts ib.insts st ≡ good st' = ground arith in
        assemble_bundle-dmem ib.insts st (pass_1_insts-good ib.insts st k)
  ]
]

pub code-dmem :
    (ibs : List InstBundle) (st : AsmState) {st' : AsmState}
    → pass_1_code ibs st ≡ good st'
    → st'.dmem ≡ st.dmem
unfolding pass_1_code
code-dmem [] st {st' = st'} h =
    let e : st ≡ st' = ground arith in ap (λ (s : AsmState). s.dmem) (sym e)
code-dmem (ib ∷ ibs) st h =
    let (su, h₁, h₂) = >>=-eq-good (pass_1_bundle ib st) _ h in
    code-dmem ibs su h₂ ∙ bundle-dmem ib st h₁
