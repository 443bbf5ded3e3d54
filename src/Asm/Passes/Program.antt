-- ===== src/Asm/Passes/Program.antt =====
-- Whole programs: after `asm_gen_opcodes` the symbol table holds the addresses that the second
-- pass gave to the labels.
use ajardsp.Common.{
  ◌^◌, ◌<◌, ◌≡◌, refl, sym, ap, ◌∙◌, arith, some, List, ◌∷◌, ◌++◌, CString, true, false, good,
  ◌>>=◌, >>=-eq-good,
}
use ajardsp.Asm.Types.{InstBundle, DataElement}
use ajardsp.Asm.Symtab.{symtab_lookup}
use ajardsp.Asm.Passes.{AsmState, rewound, pass_0_data, pass_0_code, pass_1_data, pass_1_code}
use ajardsp.Asm.Passes.{asm_do_pass_0, asm_do_pass_1, asm_gen_opcodes}
use ajardsp.Asm.Passes.Agree.{CodeFits}
use ajardsp.Asm.Passes.Labels.{code_labels, rest-Together}
use ajardsp.Asm.Passes.Data.{DataFits, data-DataTogether, data_labels}

-- The stages of a run that succeeds.
pub record Run (ibs : List InstBundle) (xs : List DataElement) (st st' : AsmState) : Type 0 where
  pub data_0 : AsmState
  pub mid : AsmState
  pub data_1 : AsmState
  pub pass_0_of_data : pass_0_data xs (rewound true st) ≡ good data_0
  pub pass_0_of_code : pass_0_code ibs data_0 ≡ good mid
  pub pass_1_of_data : pass_1_data xs (rewound false mid) ≡ good data_1
  pub pass_1_of_code : pass_1_code ibs data_1 ≡ good st'

pub run :
    (ibs : List InstBundle) (xs : List DataElement) (st : AsmState) {st' : AsmState}
    → asm_gen_opcodes ibs xs st ≡ good st'
    → Run ibs xs st st'
unfolding asm_gen_opcodes
run ibs xs st h =
    let (m, p, q) = >>=-eq-good (asm_do_pass_0 ibs xs (rewound true st)) _ h in
    let (d, p₁, p₂) = >>=-eq-good (pass_0_data xs (rewound true st)) _ p in
    let (e, q₁, q₂) = >>=-eq-good (pass_1_data xs (rewound false m)) _ q in
    record {
      data_0 = d;
      mid = m;
      data_1 = e;
      pass_0_of_data = p₁;
      pass_0_of_code = p₂;
      pass_1_of_data = q₁;
      pass_1_of_code = q₂;
    }

module _ (st st' : AsmState) {name : CString} where
  -- For a program that assembles, whose `.align` operands are between 0 and 2 ^ 30 and whose
  -- `.skip` operands are not negative: the final table gives a label of the code section the
  -- address at which the second pass stands when it has assembled what precedes the label.
  pub code_label_address :
      (pre : List InstBundle) (ib : InstBundle) (post : List InstBundle) (xs : List DataElement)
      → CodeFits (pre ++ ib ∷ post)
      → DataFits xs
      → asm_gen_opcodes (pre ++ ib ∷ post) xs st ≡ good st'
      → ib.label ≡ some name
      → (mid sv : AsmState) × (asm_do_pass_0 (pre ++ ib ∷ post) xs (rewound true st) ≡ good mid)
        × (asm_do_pass_1 pre xs (rewound false mid) ≡ good sv)
        × (symtab_lookup st'.symtab name ≡ some sv.imem_addr)
  unfolding asm_do_pass_0 asm_do_pass_1
  code_label_address pre ib post xs code_fits data_fits h e =
      let r = run (pre ++ ib ∷ post) xs st h in
      let d =
        data-DataTogether xs (rewound true st) (rewound false r.mid) data_fits (omega arith) refl
          r.pass_0_of_data r.pass_1_of_data in
      let same : r.data_0.imem_addr ≡ r.data_1.imem_addr = d.imem_kept ∙ sym d.imem_kept' in
      let start : r.data_0.imem_addr < 2 ^ 16 = omega (arith, d.imem_kept) in
      let all =
        rest-Together (pre ++ ib ∷ post) r.data_0 r.data_1 code_fits start same r.pass_0_of_code
          r.pass_1_of_code in
      let (sv, reached, found) =
        code_labels pre ib post r.data_0 r.data_1 code_fits start same r.pass_0_of_code
          r.pass_1_of_code e in
      let table : r.mid.symtab ≡ st'.symtab = sym (all.kept ∙ d.kept) in
      (
        r.mid,
        sv,
        ap (λ o. o >>= pass_0_code (pre ++ ib ∷ post)) r.pass_0_of_data ∙ r.pass_0_of_code,
        ap (λ o. o >>= pass_1_code pre) r.pass_1_of_data ∙ reached,
        ap (λ t. symtab_lookup t name) (sym table) ∙ found,
      )

  -- For a program that assembles, whose `.align` operands are between 0 and 2 ^ 30 and whose
  -- `.skip` operands are not negative: the final table gives a label of the data section the
  -- address at which the second pass stands when it has laid out what precedes the label.
  pub data_label_address :
      (pre : List DataElement) (x : DataElement) (post : List DataElement) (ibs : List InstBundle)
      → CodeFits ibs
      → DataFits (pre ++ x ∷ post)
      → asm_gen_opcodes ibs (pre ++ x ∷ post) st ≡ good st'
      → x.label ≡ some name
      → (mid sv : AsmState) × (asm_do_pass_0 ibs (pre ++ x ∷ post) (rewound true st) ≡ good mid)
        × (pass_1_data pre (rewound false mid) ≡ good sv)
        × (symtab_lookup st'.symtab name ≡ some sv.dmem_addr)
  unfolding asm_do_pass_0 asm_do_pass_1
  data_label_address pre x post ibs code_fits data_fits h e =
      let r = run ibs (pre ++ x ∷ post) st h in
      let d =
        data-DataTogether (pre ++ x ∷ post) (rewound true st) (rewound false r.mid) data_fits
          (omega arith) refl r.pass_0_of_data r.pass_1_of_data in
      let same : r.data_0.imem_addr ≡ r.data_1.imem_addr = d.imem_kept ∙ sym d.imem_kept' in
      let start : r.data_0.imem_addr < 2 ^ 16 = omega (arith, d.imem_kept) in
      let all =
        rest-Together ibs r.data_0 r.data_1 code_fits start same r.pass_0_of_code
          r.pass_1_of_code in
      let (sv, reached, found) =
        data_labels pre x post (rewound true st) (rewound false r.mid) data_fits (omega arith) refl
          r.pass_0_of_data r.pass_1_of_data e in
      let table : r.mid.symtab ≡ st'.symtab = sym (all.kept ∙ d.kept) in
      (
        r.mid,
        sv,
        ap (λ o. o >>= pass_0_code ibs) r.pass_0_of_data ∙ r.pass_0_of_code,
        reached,
        ap (λ t. symtab_lookup t name) (sym table) ∙ all.extends name sv.dmem_addr found,
      )
