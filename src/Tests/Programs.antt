-- ===== src/Tests/Programs.antt =====
-- A small program through both passes, and the theorems about passes on it.
use ajardsp.Common.{
  ℕ, ◌≡◌, refl, arith, true, false, none, some, List, [], ◌∷◌, ◌++◌, CString, codes, ℤ, pos,
}
use ajardsp.Common.{Outcome, good, update, str_eq, has_prefix, char_at}
use ajardsp.Asm.Types.{Operand, Instruction, InstBundle, DataElement, reg, integer, symbol_ref}
use ajardsp.Asm.Symtab.{symtab_add, symtab_lookup}
use ajardsp.Asm.Encode.{
  call_encode, place, digit, encode_acc_fn, encode_symref_fn, encode_ptr_fn, encode_acc_half_fn,
  encode_int_fn,
}
use ajardsp.Asm.Insns.{ajardsp_insns}
use ajardsp.Asm.Bundle.{try_assemble_inst_bundle}
use ajardsp.Asm.Passes.{
  AsmState, init, asm_gen_opcodes, asm_do_pass_0, asm_do_pass_1, pass_1_data, rewound,
}
use ajardsp.Asm.Passes.Duplicates.{asm_do_pass_0_once}
use ajardsp.Asm.Passes.{define_label}
use ajardsp.Common.{exits}
use ajardsp.Asm.Passes.Program.{code_label_address, data_label_address}

abbrev pub register : CString → Operand
register name = record { type = reg; name = some name; offset = pos 0 }

abbrev pub number : ℤ → Operand
number n = record { type = integer; name = none; offset = n }

abbrev pub symbol : CString → Operand
symbol name = record { type = symbol_ref; name = some name; offset = pos 0 }

abbrev pub instruction : CString → List Operand → Instruction
instruction mnemonic ops = record {
  pred = none;
  pred_neg = false;
  mnemonic = mnemonic;
  ops = ops;
  lineno = 1;
}

abbrev pub bundle : List Instruction → InstBundle
bundle insts = record { insts = insts; label = none; align = pos 0 }

abbrev pub label : CString → InstBundle
label name = record { insts = []; label = some name; align = pos 0 }

abbrev pub align : ℤ → InstBundle
align n = record { insts = []; label = none; align = n }

abbrev pub data_label : CString → DataElement
data_label name = record { label = some name; symref = none; value = pos 0; skip_length = pos 0 }

abbrev pub word : ℤ → DataElement
word n = record { label = none; symref = none; value = n; skip_length = pos 0 }

abbrev pub skip : ℤ → DataElement
skip n = record { label = none; symref = none; value = pos 0; skip_length = n }

-- add32 $acc0, $acc1, $acc2 | nop
abbrev pub add_and_nop : List Instruction
add_and_nop =
    instruction (codes "add32")
      (register (codes "acc0") ∷ register (codes "acc1") ∷ register (codes "acc2") ∷ [])
    ∷ instruction (codes "nop") []
    ∷ []

abbrev pub load_table : Instruction
load_table = instruction (codes "ldimm16") (symbol (codes "table") ∷ register (codes "ptr3") ∷ [])

abbrev code_before : List InstBundle
code_before = bundle (load_table ∷ []) ∷ bundle add_and_nop ∷ align (pos 8) ∷ []

abbrev code_after : List InstBundle
code_after = bundle (instruction (codes "halt") [] ∷ []) ∷ []

abbrev pub program : List InstBundle
program = code_before ++ label (codes "end") ∷ code_after

abbrev pub data_before : List DataElement
data_before = word (pos 5) ∷ skip (pos 3) ∷ []

abbrev pub the_data : List DataElement
the_data = data_before ++ data_label (codes "table") ∷ word (pos 9) ∷ []

abbrev pub state_of : Outcome AsmState → AsmState
state_of (good st) = st
state_of _ = init

abbrev value_of : Outcome ℕ → ℕ
value_of (good n) = n
value_of _ = 0

unfoldable pub assembled : Outcome AsmState
unfolding asm_gen_opcodes init try_assemble_inst_bundle ajardsp_insns call_encode encode_acc_fn
    encode_symref_fn encode_ptr_fn encode_acc_half_fn encode_int_fn symtab_add symtab_lookup str_eq
    has_prefix char_at place digit
assembled = asm_gen_opcodes program the_data init

addresses :
    (symtab_lookup (state_of assembled).symtab (codes "end") ≡ some 8)
    × (symtab_lookup (state_of assembled).symtab (codes "table") ≡ some 4)
    × ((state_of assembled).imem_addr ≡ 9)
unfolding assembled
addresses = (refl, refl, refl)

stored_words :
    ((state_of assembled).imem 0 ≡ 0x4396)
    × ((state_of assembled).imem 1 ≡ 0x2000)
    × ((state_of assembled).dmem 4 ≡ 9)
    × ((state_of assembled).dmem 2 ≡ 0xdead)
unfolding assembled update
stored_words = (refl, refl, refl, refl)

pub program_assembles : asm_gen_opcodes program the_data init ≡ good (state_of assembled)
unfolding assembled
program_assembles = refl

code_label_address_example :
    (mid sv : AsmState) × (asm_do_pass_0 program the_data (rewound true init) ≡ good mid)
    × (asm_do_pass_1 code_before the_data (rewound false mid) ≡ good sv)
    × (symtab_lookup (state_of assembled).symtab (codes "end") ≡ some sv.imem_addr)
code_label_address_example =
    code_label_address init (state_of assembled) code_before (label (codes "end")) code_after
      the_data (omega arith) (omega arith) program_assembles refl

data_label_address_example :
    (mid sv : AsmState) × (asm_do_pass_0 program the_data (rewound true init) ≡ good mid)
    × (pass_1_data data_before (rewound false mid) ≡ good sv)
    × (symtab_lookup (state_of assembled).symtab (codes "table") ≡ some sv.dmem_addr)
data_label_address_example =
    data_label_address init (state_of assembled) data_before (data_label (codes "table"))
      (word (pos 9) ∷ []) program (omega arith) (omega arith) program_assembles refl

-- The state after the first pass.
unfoldable labelled : Outcome AsmState
unfolding asm_do_pass_0 init try_assemble_inst_bundle ajardsp_insns call_encode encode_acc_fn
    encode_symref_fn encode_ptr_fn encode_acc_half_fn encode_int_fn symtab_add symtab_lookup str_eq
    has_prefix char_at place digit
labelled = asm_do_pass_0 program the_data init

names_entered : asm_do_pass_0 program the_data init ≡ good (state_of labelled)
unfolding labelled
names_entered = refl

abbrev second : ℕ
second = 1

asm_do_pass_0_once_example : second ≡ second
asm_do_pass_0_once_example =
    asm_do_pass_0_once program the_data init (state_of labelled) second second (codes "end")
      names_entered refl refl

twice_refused : asm_do_pass_0 (label (codes "a") ∷ label (codes "a") ∷ []) [] init ≡ exits
unfolding asm_do_pass_0 init define_label symtab_add symtab_lookup str_eq
twice_refused = refl
