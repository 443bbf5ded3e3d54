-- ===== src/Asm/Passes.antt =====
-- The two passes of sw/tools/asm/asm.c, `asm_do_pass_0` and `asm_do_pass_1`, with `init` and
-- `asm_gen_opcodes`. The static variables of the file are the record `AsmState`; what is printed
-- on the error output and into the listing file is left out.
pub mod Align
pub mod Agree
pub mod Labels
pub mod Data
pub mod Program
pub mod Words
pub mod Invariant
pub mod Duplicates
pub mod Stays
pub mod Untouched
pub mod Stored
use ajardsp.Common.{ℕ, zero, suc, ◌+◌, ◌-◌, bit_and, Bool, true, false, ltb, if◌then◌else◌}
use ajardsp.Common.{none, some, List, [], ◌∷◌, CString, ℤ, low_bits, pred_ℤ, not_ℤ, is_nonzero}
use ajardsp.Common.{rounds, u16, u32, Memory, update, Outcome, good, bad, exits, fault, ◌>>=◌}
use ajardsp.Asm.Types.{Instruction, InstBundle, DataElement}
use ajardsp.Asm.Symtab.{Symtab, symtab_add, symtab_lookup}
use ajardsp.Asm.Encode.{Context}
use ajardsp.Asm.Bundle.{try_assemble_inst_bundle}

pub record AsmState : Type 0 where
  pub imem : Memory
  pub imem_addr : ℕ
  pub dmem : Memory
  pub dmem_addr : ℕ
  pub symtab : Symtab
  pub ignore_sym_refs : Bool

abbrev pub dmem_uninit_value : ℕ
dmem_uninit_value = 0xdead

-- `init`, with the empty symbol table that the program starts from.
unfoldable pub init : AsmState
init = record {
  imem = λ i. 0;
  imem_addr = 0;
  dmem = λ i. dmem_uninit_value;
  dmem_addr = 0;
  symtab = [];
  ignore_sym_refs = false;
}

abbrev pub context : AsmState → Context
context st = record { ignore_sym_refs = st.ignore_sym_refs; symtab = st.symtab }

-- A label is entered with an address unless it is there already, which ends the program.
unfoldable pub define_label : CString → ℕ → AsmState → Outcome AsmState
define_label name address st = elim (symtab_lookup st.symtab name) [
  | some temp_addr ↦ exits
  | none ↦ good (record st { symtab = symtab_add st.symtab name address })
]

-- `dmem_addr += skip_length`, or one word.
unfoldable pub data_size : DataElement → ℕ
data_size x = if is_nonzero x.skip_length then low_bits x.skip_length 16 else 1

unfoldable pub pass_0_data_element : DataElement → AsmState → Outcome AsmState
unfolding define_label data_size
pass_0_data_element x st = elim x.label [
  | some label ↦ define_label label st.dmem_addr st
  | none ↦ good (record st { dmem_addr = u16 (st.dmem_addr + data_size x) })
]

unfoldable pub pass_0_data : List DataElement → AsmState → Outcome AsmState
unfolding pass_0_data_element
pass_0_data [] st = good st
pass_0_data (x ∷ xs) st = do st' ← pass_0_data_element x st; pass_0_data xs st'

-- `imem_addr += align - 1; imem_addr &= ~(align - 1)` on a `uint16`.
unfoldable pub align_16 : ℤ → ℕ → ℕ
align_16 align addr =
    bit_and (u16 (addr + low_bits (pred_ℤ align) 16)) (low_bits (not_ℤ (pred_ℤ align)) 16)

-- The same on an `int`, of which the 32 bits are given.
unfoldable pub align_32 : ℤ → ℕ → ℕ
align_32 align addr =
    bit_and (u32 (addr + low_bits (pred_ℤ align) 32)) (low_bits (not_ℤ (pred_ℤ align)) 32)

-- Assemble a bundle at the current address; a failure ends the program.
unfoldable pub assemble_bundle : List Instruction → AsmState → Outcome AsmState
assemble_bundle insts st = elim (try_assemble_inst_bundle (context st) insts st.imem st.imem_addr) [
  | good e ↦ good (record st { imem = e.imem; imem_addr = e.imem_addr })
  | bad ↦ exits
  | exits ↦ exits
  | fault ↦ fault
]

unfoldable pub pass_0_bundle : InstBundle → AsmState → Outcome AsmState
unfolding define_label align_16 assemble_bundle
pass_0_bundle ib st = elim ib.label [
  | some label ↦ define_label label st.imem_addr st
  | none ↦
      if is_nonzero ib.align
      then good (record st { imem_addr = align_16 ib.align st.imem_addr })
      else assemble_bundle ib.insts st
]

unfoldable pub pass_0_code : List InstBundle → AsmState → Outcome AsmState
unfolding pass_0_bundle
pass_0_code [] st = good st
pass_0_code (ib ∷ rest) st = do st' ← pass_0_bundle ib st; pass_0_code rest st'

unfoldable pub asm_do_pass_0 : List InstBundle → List DataElement → AsmState → Outcome AsmState
unfolding pass_0_data pass_0_code
asm_do_pass_0 ibs xs st = do st' ← pass_0_data xs st; pass_0_code ibs st'

-- `dmem[dmem_addr++] = value`.
unfoldable pub put_data : ℕ → AsmState → AsmState
put_data value st = record st {
  dmem = update st.dmem st.dmem_addr (u16 value);
  dmem_addr = u16 (st.dmem_addr + 1);
}

unfoldable pub skip_data : ℕ → AsmState → AsmState
unfolding put_data
skip_data zero st = st
skip_data (suc n) st = skip_data n (put_data dmem_uninit_value st)

-- The value of a data word: the address of a symbol, or a literal.
unfoldable pub data_word : DataElement → AsmState → Outcome ℕ
data_word x st = elim x.symref [
  | none ↦ good (low_bits x.value 16)
  | some name ↦ elim (symtab_lookup st.symtab name) [ none ↦ exits | some value ↦ good value ]
]

unfoldable pub pass_1_data_element : DataElement → AsmState → Outcome AsmState
unfolding skip_data put_data data_word
pass_1_data_element x st = elim x.label [
  | some label ↦ good st
  | none ↦
      if is_nonzero x.skip_length
      then good (skip_data (rounds x.skip_length) st)
      else (data_word x st >>= λ value. good (put_data value st))
]

unfoldable pub pass_1_data : List DataElement → AsmState → Outcome AsmState
unfolding pass_1_data_element
pass_1_data [] st = good st
pass_1_data (x ∷ xs) st = do st' ← pass_1_data_element x st; pass_1_data xs st'

-- `imem[imem_addr++] = word`.
unfoldable pub put_code : ℕ → AsmState → AsmState
put_code word st = record st {
  imem = update st.imem st.imem_addr word;
  imem_addr = u16 (st.imem_addr + 1);
}

-- `n` nops that run in parallel with the next instruction.
unfoldable pub put_nops : ℕ → AsmState → AsmState
unfolding put_code
put_nops zero st = st
put_nops (suc n) st = put_nops n (put_code 0x0001 st)

unfoldable pub pad_code : ℤ → AsmState → AsmState
unfolding put_nops align_32
pad_code align st =
    let aligned = align_32 align st.imem_addr in
    if ltb st.imem_addr aligned
    then put_code 0x0000 (put_nops (aligned - st.imem_addr - 1) st)
    else st

-- The listing line reads the first instruction of the bundle, also where there is none.
unfoldable pub pass_1_insts : List Instruction → AsmState → Outcome AsmState
unfolding assemble_bundle
pass_1_insts [] st = fault
pass_1_insts (inst ∷ rest) st = assemble_bundle (inst ∷ rest) st

unfoldable pub pass_1_bundle : InstBundle → AsmState → Outcome AsmState
unfolding pad_code pass_1_insts
pass_1_bundle ib st = elim ib.label [
  | some label ↦ good st
  | none ↦ if is_nonzero ib.align then good (pad_code ib.align st) else pass_1_insts ib.insts st
]

unfoldable pub pass_1_code : List InstBundle → AsmState → Outcome AsmState
unfolding pass_1_bundle
pass_1_code [] st = good st
pass_1_code (ib ∷ rest) st = do st' ← pass_1_bundle ib st; pass_1_code rest st'

unfoldable pub asm_do_pass_1 : List InstBundle → List DataElement → AsmState → Outcome AsmState
unfolding pass_1_data pass_1_code
asm_do_pass_1 ibs xs st = do st' ← pass_1_data xs st; pass_1_code ibs st'

abbrev pub rewound : Bool → AsmState → AsmState
rewound ignore st = record st { imem_addr = 0; dmem_addr = 0; ignore_sym_refs = ignore }

unfoldable pub asm_gen_opcodes : List InstBundle → List DataElement → AsmState → Outcome AsmState
unfolding asm_do_pass_0 asm_do_pass_1
asm_gen_opcodes ibs xs st = do
  st' ← asm_do_pass_0 ibs xs (rewound true st)
  asm_do_pass_1 ibs xs (rewound false st')
