-- ===== src/Asm/Passes/Invariant.antt =====
-- The invariant of the 16-bit words through both passes of sw/tools/asm/asm.c.
use ajardsp.Common.{◌≡◌, arith}
use ajardsp.Common.{List, [], ◌∷◌}
use ajardsp.Common.{Bool, true, false, good, Ensures-then, Ensures-good}
use ajardsp.Asm.Types.{InstBundle, DataElement}
use ajardsp.Asm.Passes.{
  AsmState, pass_0_data_element, pass_0_data, pass_0_bundle, pass_0_code, asm_do_pass_0,
  pass_1_data_element, pass_1_data, pass_1_bundle, pass_1_code, asm_do_pass_1, rewound,
  asm_gen_opcodes,
}
use ajardsp.Asm.Passes.Words.{
  IsWordState, Keeps, pass_0_data_element-IsWordState, pass_0_bundle-IsWordState,
  pass_1_data_element-IsWordState, pass_1_bundle-IsWordState,
}

-- The loops over the two lists.
pass_0_data-IsWordState :
    (xs : List DataElement) (st : AsmState) → IsWordState st → Keeps (pass_0_data xs st)
unfolding pass_0_data
pass_0_data-IsWordState [] st h = h
pass_0_data-IsWordState (x ∷ xs) st h =
    Ensures-then IsWordState IsWordState (pass_0_data_element x st) _
      (pass_0_data_element-IsWordState x st h) (pass_0_data-IsWordState xs)

pass_0_code-IsWordState :
    (ibs : List InstBundle) (st : AsmState) → IsWordState st → Keeps (pass_0_code ibs st)
unfolding pass_0_code
pass_0_code-IsWordState [] st h = h
pass_0_code-IsWordState (ib ∷ ibs) st h =
    Ensures-then IsWordState IsWordState (pass_0_bundle ib st) _ (pass_0_bundle-IsWordState ib st h)
      (pass_0_code-IsWordState ibs)

pass_1_data-IsWordState :
    (xs : List DataElement) (st : AsmState) → IsWordState st → Keeps (pass_1_data xs st)
unfolding pass_1_data
pass_1_data-IsWordState [] st h = h
pass_1_data-IsWordState (x ∷ xs) st h =
    Ensures-then IsWordState IsWordState (pass_1_data_element x st) _
      (pass_1_data_element-IsWordState x st h) (pass_1_data-IsWordState xs)

pass_1_code-IsWordState :
    (ibs : List InstBundle) (st : AsmState) → IsWordState st → Keeps (pass_1_code ibs st)
unfolding pass_1_code
pass_1_code-IsWordState [] st h = h
pass_1_code-IsWordState (ib ∷ ibs) st h =
    Ensures-then IsWordState IsWordState (pass_1_bundle ib st) _ (pass_1_bundle-IsWordState ib st h)
      (pass_1_code-IsWordState ibs)

rewound-IsWordState :
    (ignore : Bool) (st : AsmState) → IsWordState st → IsWordState (rewound ignore st)
rewound-IsWordState ignore st h = record {
  imem_words = h.imem_words;
  dmem_words = h.dmem_words;
  imem_inside = omega arith;
  dmem_inside = omega arith;
}

-- When a program assembles, every word of both memories is a 16-bit word and both addresses are
-- 16-bit addresses, if they were so before.
pub asm_gen_opcodes-IsWordState :
    (ibs : List InstBundle) (xs : List DataElement) (st st' : AsmState)
    → IsWordState st
    → asm_gen_opcodes ibs xs st ≡ good st'
    → IsWordState st'
unfolding asm_gen_opcodes asm_do_pass_0 asm_do_pass_1
asm_gen_opcodes-IsWordState ibs xs st st' h = Ensures-good IsWordState (asm_gen_opcodes ibs xs st) (
    Ensures-then IsWordState IsWordState (asm_do_pass_0 ibs xs (rewound true st)) _
      (Ensures-then IsWordState IsWordState (pass_0_data xs (rewound true st)) _
        (pass_0_data-IsWordState xs (rewound true st) (rewound-IsWordState true st h))
        (pass_0_code-IsWordState ibs))
      (λ mid k.
        Ensures-then IsWordState IsWordState (pass_1_data xs (rewound false mid)) _
          (pass_1_data-IsWordState xs (rewound false mid) (rewound-IsWordState false mid k))
          (pass_1_code-IsWordState ibs)))
