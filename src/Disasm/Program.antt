-- ===== src/Disasm/Program.antt =====
-- A whole program: what `asm_gen_opcodes` leaves in the instruction memory disassembles to the
-- instructions of the program.
use ajardsp.Common.{ℕ, ◌+◌, ◌*◌, ◌^◌, ◌<◌, ◌≤◌, ◌≡◌, refl, ap, ◌∙◌, arith, true, false}
use ajardsp.Common.{
  none, some, List, [], ◌∷◌, ◌++◌, get_elem?, is_nonzero, good, ◌>>=◌, >>=-eq-good,
}
use ajardsp.Asm.Types.{Instruction, InstBundle, DataElement}
use ajardsp.Asm.Passes.{
  AsmState, context, rewound, pass_1_insts, pass_0_code, pass_1_bundle, pass_1_code, asm_do_pass_0,
  asm_do_pass_1, asm_gen_opcodes,
}
use ajardsp.Asm.Passes.Agree.{CodeFits, assemble_bundle-Placed}
use ajardsp.Asm.Passes.Labels.{pass_1_insts-good}
use ajardsp.Asm.Passes.Stays.{
  code_room, bundle_room, pass_1_bundle-Stays, pass_1_code-Stays, pass_1_data-imem_addr,
}
use ajardsp.Asm.Passes.Program.{run}
use ajardsp.Disasm.{disasm}
use ajardsp.Disasm.Codes.{shown}
use ajardsp.Disasm.Assembled.{word_at}
use ajardsp.Disasm.Bundles.{Shown, try_assemble_inst_bundle-Shown}

module _ (ib : InstBundle) (post : List InstBundle) (i : ℕ) (inst : Instruction)
    (no_label : ib.label ≡ none) (no_align : is_nonzero ib.align ≡ false)
    (at_i : get_elem? ib.insts i ≡ some inst) (plain : inst.pred ≡ none) where
  -- The bundle itself, and the code behind it.
  bundle-Shown :
      (st st' : AsmState)
      → CodeFits (ib ∷ post)
      → st.imem_addr + code_room (ib ∷ post) < 2 ^ 16
      → pass_1_code (ib ∷ post) st ≡ good st'
      → Shown inst st'.imem i st.imem_addr st'.imem_addr
  unfolding pass_1_code pass_1_bundle
  bundle-Shown st st' (fit, fits) room h =
      let (su, h₁, h₂) = >>=-eq-good (pass_1_bundle ib st) _ h in
      let here = pass_1_bundle-Stays ib st fit (omega arith) h₁ in
      let rest = pass_1_code-Stays post su fits (omega (arith, here.limit)) h₂ in
      let insts : pass_1_insts ib.insts st ≡ good su = ground arith in
      let x = assemble_bundle-Placed ib.insts st (pass_1_insts-good ib.insts st insts) in
      let here_room : st.imem_addr + bundle_room ib < 2 ^ 16 = omega arith in
      let four : st.imem_addr + 4 < 2 ^ 16 = rw (no_label, no_align) at here_room in
      let (a, above, near, below, seen) =
        try_assemble_inst_bundle-Shown (context st) ib.insts st.imem st.imem_addr x.emitted st'.imem
          i four x.assembled
          (λ a above below. rest.below a (omega (arith, x.addr)) ∙ ap (λ m. m a) x.imem_after) at_i
          plain in
      (a, above, near, omega (arith, x.addr, rest.onward), seen)

  code-Shown :
      (pre : List InstBundle) (st st' : AsmState)
      → CodeFits (pre ++ ib ∷ post)
      → st.imem_addr + code_room (pre ++ ib ∷ post) < 2 ^ 16
      → pass_1_code (pre ++ ib ∷ post) st ≡ good st'
      → (sv : AsmState) × (pass_1_code pre st ≡ good sv)
        × Shown inst st'.imem i sv.imem_addr st'.imem_addr
  unfolding pass_1_code
  code-Shown [] st st' fits room h = (st, refl, bundle-Shown st st' fits room h)
  code-Shown (first ∷ pre) st st' (fit, fits) room h =
      let (su, h₁, h₂) = >>=-eq-good (pass_1_bundle first st) _ h in
      let x = pass_1_bundle-Stays first st fit (omega arith) h₁ in
      let (sv, reached, seen) = code-Shown pre su st' fits (omega (arith, x.limit)) h₂ in
      (sv, ap (λ r. r >>= pass_1_code pre) h₁ ∙ reached, seen)

  -- For a program that assembles, whose `.align` operands are between 0 and 2 ^ 30 and that takes
  -- less than 2 ^ 16 words, counted as four for each bundle and as many for an `.align` as its
  -- operand says: an instruction without a predicate at position `i` of a bundle is found in the
  -- final instruction memory, from `i` to 2 * `i` words behind the address at which the second
  -- pass stands before the bundle; the word there disassembles to the mnemonic, an unsigned
  -- comparison to the signed one.
  pub asm_gen_opcodes-disasm :
      (pre : List InstBundle) (xs : List DataElement) (st st' : AsmState)
      → CodeFits (pre ++ ib ∷ post)
      → code_room (pre ++ ib ∷ post) < 2 ^ 16
      → asm_gen_opcodes (pre ++ ib ∷ post) xs st ≡ good st'
      → (mid sv : AsmState) × (a : ℕ) × (asm_do_pass_0 (pre ++ ib ∷ post) xs (rewound true st)
          ≡ good mid)
        × (asm_do_pass_1 pre xs (rewound false mid) ≡ good sv)
        × (sv.imem_addr + i ≤ a)
        × (a ≤ sv.imem_addr + 2 * i)
        × (a < st'.imem_addr)
        × (disasm (word_at st'.imem a) ≡ some (shown inst.mnemonic))
  unfolding asm_do_pass_0 asm_do_pass_1
  asm_gen_opcodes-disasm pre xs st st' fits room h =
      let r = run (pre ++ ib ∷ post) xs st h in
      let start = pass_1_data-imem_addr xs (rewound false r.mid) r.pass_1_of_data in
      let (sv, reached, (a, above, near, below, seen)) =
        code-Shown pre r.data_1 st' fits (omega (arith, start)) r.pass_1_of_code in
      (
        r.mid,
        sv,
        a,
        ap (λ o. o >>= pass_0_code (pre ++ ib ∷ post)) r.pass_0_of_data ∙ r.pass_0_of_code,
        ap (λ o. o >>= pass_1_code pre) r.pass_1_of_data ∙ reached,
        above,
        near,
        below,
        seen,
      )
