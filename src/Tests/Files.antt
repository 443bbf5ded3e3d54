-- ===== src/Tests/Files.antt =====
-- The small program's files, and what the disassembler lists of them.
use ajardsp.Common.{◌≡◌, refl, arith, true, false, some, [], ◌∷◌, get_elem?, CString}
use ajardsp.Asm.Passes.{init}
use ajardsp.Asm.Passes.Words.{IsWordState}
use ajardsp.Asm.Passes.Invariant.{asm_gen_opcodes-IsWordState}
use ajardsp.Asm.Output.{output_hex}
use ajardsp.Disasm.Assembled.{word_at}
use ajardsp.Disasm.Listing.{disasm_word, disasm_lines}
use ajardsp.Disasm.Hex.{disasm_lines-output_hex}
use ajardsp.Common.{ℕ, ◌+◌, ◌<◌, good, codes, pos, ◌≤◌, ◌*◌}
use ajardsp.Asm.Passes.{AsmState, rewound, asm_do_pass_0, asm_do_pass_1}
use ajardsp.Disasm.{disasm}
use ajardsp.Disasm.Codes.{shown}
use ajardsp.Disasm.Program.{asm_gen_opcodes-disasm}
use ajardsp.Common.{◌++◌, u16}
use ajardsp.Asm.Passes.{pass_1_data, data_word}
use ajardsp.Asm.Passes.Stored.{asm_gen_opcodes-data_word}
use ajardsp.Tests.Programs.{
  word, data_before, data_label, bundle, label, align, instruction, load_table, add_and_nop,
  assembled, state_of, program, the_data, program_assembles,
}

pub init-IsWordState : IsWordState init
unfolding init
init-IsWordState = record {
  imem_words = λ a. omega arith;
  dmem_words = λ a. omega arith;
  imem_inside = omega arith;
  dmem_inside = omega arith;
}

asm_gen_opcodes-IsWordState_example : IsWordState (state_of assembled)
asm_gen_opcodes-IsWordState_example =
    asm_gen_opcodes-IsWordState program the_data init (state_of assembled) init-IsWordState
      program_assembles

pub files_end : (state_of assembled).imem_addr ≡ 9
unfolding assembled
files_end = refl

disasm_lines-output_hex_example :
    let printed = disasm_lines (output_hex false (state_of assembled)).imem_file (λ i. 0) 0 [] in
    (before before' : CString) × (get_elem? printed 4
      ≡ some (disasm_word (word_at (state_of assembled).imem 10) 4 before))
    × (get_elem? printed 5 ≡ some (disasm_word (word_at (state_of assembled).imem 8) 5 before'))
disasm_lines-output_hex_example =
    disasm_lines-output_hex false (state_of assembled) 2 (λ i. 0) []
      (asm_gen_opcodes-IsWordState program the_data init (state_of assembled) init-IsWordState
        program_assembles).imem_words
      (omega (arith, files_end))

-- The second instruction of the second bundle.
asm_gen_opcodes-disasm_example :
    (mid sv : AsmState) × (a : ℕ) × (asm_do_pass_0 program the_data (rewound true init) ≡ good mid)
    × (asm_do_pass_1 (bundle (load_table ∷ []) ∷ []) the_data (rewound false mid) ≡ good sv)
    × (sv.imem_addr + 1 ≤ a)
    × (a ≤ sv.imem_addr + 2 * 1)
    × (a < (state_of assembled).imem_addr)
    × (disasm (word_at (state_of assembled).imem a) ≡ some (shown (codes "nop")))
asm_gen_opcodes-disasm_example =
    asm_gen_opcodes-disasm (bundle add_and_nop)
      (align (pos 8) ∷ label (codes "end") ∷ bundle (instruction (codes "halt") [] ∷ []) ∷ []) 1
      (instruction (codes "nop") []) refl refl refl refl (bundle (load_table ∷ []) ∷ []) the_data
      init (state_of assembled) (omega arith) (omega arith) program_assembles

asm_gen_opcodes-data_word_example :
    (mid sv : AsmState) × (value : ℕ) × (asm_do_pass_0 program the_data (rewound true init)
      ≡ good mid)
    × (pass_1_data (data_before ++ data_label (codes "table") ∷ []) (rewound false mid) ≡ good sv)
    × (data_word (word (pos 9)) sv ≡ good value)
    × ((state_of assembled).dmem sv.dmem_addr ≡ u16 value)
asm_gen_opcodes-data_word_example =
    asm_gen_opcodes-data_word (word (pos 9)) [] refl refl
      (data_before ++ data_label (codes "table") ∷ []) program init (state_of assembled)
      (omega arith) program_assembles
