-- ===== src/Tests/Bundles.antt =====
-- Bundles and single rows at concrete inputs.
use ajardsp.Common.{
  ℕ, ◌+◌, ◌%◌, ◌^◌, ◌≤◌, ◌≡◌, refl, arith, true, false, some, List, [], ◌∷◌, ◌⊎◌, codes,
}
use ajardsp.Common.{Outcome, good, str_eq, has_prefix, char_at}
use ajardsp.Asm.Types.{Instruction}
use ajardsp.Asm.Symtab.{symtab_lookup}
use ajardsp.Asm.Encode.{
  Context, call_encode, place, digit, encode_acc_fn, encode_symref_fn, encode_ptr_fn,
  encode_acc_half_fn,
}
use ajardsp.Asm.Insns.{ajardsp_insns}
use ajardsp.Asm.Bundle.{Emit, try_rows, try_assemble_inst_bundle}
use ajardsp.Asm.Bundle.Once.{EmittedBy, try_rows_once}
use ajardsp.Asm.Bundle.Size.{cleared, try_assemble_inst_bundle_size, try_assemble_inst_bundle_frame}
use ajardsp.Asm.Bundle.Agree.{try_assemble_inst_bundle_agree}
use ajardsp.Disasm.{disasm}
use ajardsp.Disasm.Codes.{shown}
use ajardsp.Disasm.Assembled.{word_at, disasm-try_rows}
use ajardsp.Tests.Programs.{register, instruction, load_table}

abbrev start : Emit
start = record { imem = λ i. 0; imem_addr = 3; total_size = 0; inst_properly_encoded = false }

abbrev pub first_pass : Context
first_pass = record { ignore_sym_refs = true; symtab = [] }

abbrev pub second_pass : Context
second_pass = record {
  ignore_sym_refs = false;
  symtab = record { name = codes "table"; address = 77 } ∷ [];
}

abbrev emit_of : Outcome Emit → Emit
emit_of (good e) = e
emit_of _ = start

abbrev number_of : Outcome ℕ → ℕ
number_of (good n) = n
number_of _ = 0

unfoldable bundle_of : Context → List Instruction → Outcome Emit
unfolding try_assemble_inst_bundle ajardsp_insns call_encode encode_acc_fn encode_symref_fn
    encode_ptr_fn encode_acc_half_fn symtab_lookup str_eq has_prefix char_at place digit
bundle_of ctx insts = try_assemble_inst_bundle ctx insts start.imem start.imem_addr

load_first :
    bundle_of first_pass (load_table ∷ []) ≡ good (emit_of (bundle_of first_pass (load_table ∷ [])))
unfolding bundle_of
load_first = refl

load_second :
    bundle_of second_pass (load_table ∷ [])
    ≡ good (emit_of (bundle_of second_pass (load_table ∷ [])))
unfolding bundle_of
load_second = refl

try_assemble_inst_bundle_size_example :
    let e = emit_of (bundle_of second_pass (load_table ∷ [])) in
    (e.total_size ≤ 4) × (e.imem_addr ≡ (3 + e.total_size) % 2 ^ 16)
unfolding bundle_of
try_assemble_inst_bundle_size_example =
    try_assemble_inst_bundle_size second_pass (load_table ∷ []) start.imem 3
      (emit_of (bundle_of second_pass (load_table ∷ []))) (omega arith) load_second

load_size : (emit_of (bundle_of second_pass (load_table ∷ []))).total_size ≡ 2
unfolding bundle_of
load_size = refl

try_assemble_inst_bundle_frame_example :
    (emit_of (bundle_of second_pass (load_table ∷ []))).imem 5 ≡ 0
unfolding bundle_of
try_assemble_inst_bundle_frame_example =
    try_assemble_inst_bundle_frame second_pass (load_table ∷ []) start.imem 3
      (emit_of (bundle_of second_pass (load_table ∷ []))) (omega arith) load_second 5
      (λ k below. omega (arith, load_size, below))

try_assemble_inst_bundle_agree_example :
    let e = emit_of (bundle_of first_pass (load_table ∷ [])) in
    let f = emit_of (bundle_of second_pass (load_table ∷ [])) in
    (e.total_size ≡ f.total_size) × (e.imem_addr ≡ f.imem_addr)
unfolding bundle_of
try_assemble_inst_bundle_agree_example =
    try_assemble_inst_bundle_agree first_pass second_pass (load_table ∷ []) start.imem start.imem 3
      (emit_of (bundle_of first_pass (load_table ∷ [])))
      (emit_of (bundle_of second_pass (load_table ∷ []))) (omega arith) load_first load_second

abbrev pub add : Instruction
add =
    instruction (codes "add32")
      (register (codes "acc0") ∷ register (codes "acc1") ∷ register (codes "acc2") ∷ [])

unfoldable rows_of : Context → Instruction → Outcome Emit
unfolding try_rows ajardsp_insns call_encode encode_acc_fn encode_symref_fn encode_ptr_fn
    encode_acc_half_fn symtab_lookup str_eq has_prefix char_at place digit
rows_of ctx inst = try_rows ctx inst false ajardsp_insns (cleared start)

add_emitted : rows_of first_pass add ≡ good (emit_of (rows_of first_pass add))
unfolding rows_of
add_emitted = refl

add_encoded : (emit_of (rows_of first_pass add)).inst_properly_encoded ≡ true
unfolding rows_of
add_encoded = refl

try_rows_once_example :
    (emit_of (rows_of first_pass add) ≡ cleared start)
    ⊎ EmittedBy first_pass add false ajardsp_insns
        (cleared start)
        (emit_of (rows_of first_pass add))
unfolding rows_of
try_rows_once_example =
    try_rows_once first_pass add false (cleared start) (emit_of (rows_of first_pass add))
      add_emitted

disasm-try_rows_example :
    disasm (word_at (emit_of (rows_of first_pass add)).imem 3) ≡ some (shown (codes "add32"))
unfolding rows_of
disasm-try_rows_example =
    disasm-try_rows first_pass add false start (emit_of (rows_of first_pass add)) refl add_emitted
      add_encoded
