-- ===== src/Asm/Passes/Words.antt =====
-- The state of the assembler holds 16-bit words and addresses throughout, as its C types say.
use ajardsp.Common.{ℕ, zero, suc, ◌+◌, ◌-◌, ◌^◌, ◌<◌, ◌≡◌, arith, refl}
use ajardsp.Common.{
  none, some, List, [], ◌∷◌, CString, ℤ, is_nonzero, low_bits, pred_ℤ, not_ℤ, rounds, u16, ltb,
  if◌then◌else◌,
}
use ajardsp.Common.{
  true, false, Ensures-bind, ◌>>=◌, Memory, update, Outcome, good, exits, Ensures, Ensures-if,
}
use ajardsp.Bits.Laws.{bit_and-le, bit_and_comm}
use ajardsp.Asm.Types.{Instruction, InstBundle, DataElement}
use ajardsp.Asm.Symtab.{symtab_lookup, symtab_add}
use ajardsp.Asm.Bundle.{try_assemble_inst_bundle}
use ajardsp.Asm.Bundle.Size.{try_assemble_inst_bundle_size}
use ajardsp.Asm.Bundle.Words.{IsWords, try_assemble_inst_bundle-IsWords}
use ajardsp.Asm.Passes.{
  AsmState, context, define_label, data_size, pass_0_data_element, align_16, align_32,
  assemble_bundle, pass_0_bundle, put_data, skip_data, data_word, pass_1_data_element, put_code,
  put_nops, pad_code, pass_1_insts, pass_1_bundle,
}

-- The memories hold 16-bit words, and so are the two addresses.
pub record IsWordState (st : AsmState) : Type 0 where
  pub imem_words : IsWords st.imem
  pub dmem_words : IsWords st.dmem
  pub imem_inside : st.imem_addr < 2 ^ 16
  pub dmem_inside : st.dmem_addr < 2 ^ 16

update-IsWords : (m : Memory) (a v : ℕ) → IsWords m → v < 2 ^ 16 → IsWords (update m a v)
unfolding update
update-IsWords m a v h k i = ground (arith, h i)

abbrev pub Keeps : Outcome AsmState → Type 0
Keeps = Ensures IsWordState

define_label-IsWordState :
    (name : CString) (address : ℕ) (st : AsmState)
    → IsWordState st
    → Keeps (define_label name address st)
unfolding define_label
define_label-IsWordState name address st h =
    elim (symtab_lookup st.symtab name)
      as (λ r. Keeps (elim r [
        | some temp_addr ↦ exits
        | none ↦ good (record st { symtab = symtab_add st.symtab name address })
      ])) [
        | some temp_addr ↦ tt
        | none ↦ record {
          imem_words = h.imem_words;
          dmem_words = h.dmem_words;
          imem_inside = h.imem_inside;
          dmem_inside = h.dmem_inside;
        }
      ]

assemble_bundle-IsWordState :
    (insts : List Instruction) (st : AsmState) → IsWordState st → Keeps (assemble_bundle insts st)
unfolding assemble_bundle
assemble_bundle-IsWordState insts st h =
    let assembled = try_assemble_inst_bundle (context st) insts st.imem st.imem_addr in
    elim assembled
        as (λ o.
          assembled ≡ o
          → Keeps (elim o [
            | good e ↦ good (record st { imem = e.imem; imem_addr = e.imem_addr })
            | Outcome.bad ↦ exits
            | exits ↦ exits
            | Outcome.fault ↦ Outcome.fault
          ])) [
            | good e ↦ λ done. record {
              imem_words =
                  try_assemble_inst_bundle-IsWords (context st) insts st.imem st.imem_addr
                    h.imem_words done;
              dmem_words = h.dmem_words;
              imem_inside = omega (
                arith,
                try_assemble_inst_bundle_size (context st) insts st.imem st.imem_addr e
                    h.imem_inside done,
              );
              dmem_inside = h.dmem_inside;
            }
            | Outcome.bad ↦ λ done. tt
            | exits ↦ λ done. tt
            | Outcome.fault ↦ λ done. tt
          ]
      refl

pub pass_0_data_element-IsWordState :
    (x : DataElement) (st : AsmState) → IsWordState st → Keeps (pass_0_data_element x st)
unfolding pass_0_data_element
pass_0_data_element-IsWordState x st h =
    elim x.label
      as (λ o. Keeps (elim o [
        | some label ↦ define_label label st.dmem_addr st
        | none ↦ good (record st { dmem_addr = u16 (st.dmem_addr + data_size x) })
      ])) [
        | some label ↦ define_label-IsWordState label st.dmem_addr st h
        | none ↦ record {
          imem_words = h.imem_words;
          dmem_words = h.dmem_words;
          imem_inside = h.imem_inside;
          dmem_inside = omega arith;
        }
      ]

align_16-lt : (align : ℤ) (addr : ℕ) → align_16 align addr < 2 ^ 16
unfolding align_16
align_16-lt align addr =
    let x = u16 (addr + low_bits (pred_ℤ align) 16) in
    let m = low_bits (not_ℤ (pred_ℤ align)) 16 in omega (arith, bit_and_comm x m, bit_and-le m x)

pub pass_0_bundle-IsWordState :
    (ib : InstBundle) (st : AsmState) → IsWordState st → Keeps (pass_0_bundle ib st)
unfolding pass_0_bundle
pass_0_bundle-IsWordState ib st h =
    elim ib.label
      as (λ o. Keeps (elim o [
        | some label ↦ define_label label st.imem_addr st
        | none ↦
            if is_nonzero ib.align
            then good (record st { imem_addr = align_16 ib.align st.imem_addr })
            else assemble_bundle ib.insts st
      ])) [
        | some label ↦ define_label-IsWordState label st.imem_addr st h
        | none ↦
            Ensures-if IsWordState (is_nonzero ib.align) _ _
              (record {
                imem_words = h.imem_words;
                dmem_words = h.dmem_words;
                imem_inside = align_16-lt ib.align st.imem_addr;
                dmem_inside = h.dmem_inside;
              })
              (assemble_bundle-IsWordState ib.insts st h)
      ]

put_data-IsWordState : (v : ℕ) (st : AsmState) → IsWordState st → IsWordState (put_data v st)
unfolding put_data
put_data-IsWordState v st h = record {
  imem_words = h.imem_words;
  dmem_words = update-IsWords st.dmem st.dmem_addr (u16 v) h.dmem_words (omega arith);
  imem_inside = h.imem_inside;
  dmem_inside = omega arith;
}

skip_data-IsWordState : (n : ℕ) (st : AsmState) → IsWordState st → IsWordState (skip_data n st)
unfolding skip_data
skip_data-IsWordState zero st h = h
skip_data-IsWordState (suc n) st h = skip_data-IsWordState n _ (put_data-IsWordState 0xdead st h)

put_code-IsWordState :
    (w : ℕ) (st : AsmState) → w < 2 ^ 16 → IsWordState st → IsWordState (put_code w st)
unfolding put_code
put_code-IsWordState w st k h = record {
  imem_words = update-IsWords st.imem st.imem_addr w h.imem_words k;
  dmem_words = h.dmem_words;
  imem_inside = omega arith;
  dmem_inside = h.dmem_inside;
}

put_nops-IsWordState : (n : ℕ) (st : AsmState) → IsWordState st → IsWordState (put_nops n st)
unfolding put_nops
put_nops-IsWordState zero st h = h
put_nops-IsWordState (suc n) st h =
    put_nops-IsWordState n _ (put_code-IsWordState 0x0001 st (omega arith) h)

pad_code-IsWordState :
    (align : ℤ) (st : AsmState) → IsWordState st → IsWordState (pad_code align st)
unfolding pad_code
pad_code-IsWordState align st h =
    let aligned = align_32 align st.imem_addr in
    let count = aligned - st.imem_addr - 1 in
    let padded =
      put_code-IsWordState 0x0000 (put_nops count st) (omega arith)
        (put_nops-IsWordState count st h) in
    elim (ltb st.imem_addr aligned)
      as (λ b. IsWordState (if b then put_code 0x0000 (put_nops count st) else st)) [
        | true ↦ padded
        | false ↦ h
      ]

pub pass_1_data_element-IsWordState :
    (x : DataElement) (st : AsmState) → IsWordState st → Keeps (pass_1_data_element x st)
unfolding pass_1_data_element
pass_1_data_element-IsWordState x st h =
    elim x.label
      as (λ o. Keeps (elim o [
        | some label ↦ good st
        | none ↦
            if is_nonzero x.skip_length
            then good (skip_data (rounds x.skip_length) st)
            else (data_word x st >>= λ value. good (put_data value st))
      ])) [
        | some label ↦ h
        | none ↦
            Ensures-if IsWordState (is_nonzero x.skip_length) _ _
              (skip_data-IsWordState (rounds x.skip_length) st h)
              (Ensures-bind IsWordState (data_word x st) _ λ value. put_data-IsWordState value st h)
      ]

pass_1_insts-IsWordState :
    (insts : List Instruction) (st : AsmState) → IsWordState st → Keeps (pass_1_insts insts st)
unfolding pass_1_insts
pass_1_insts-IsWordState [] st h = tt
pass_1_insts-IsWordState (inst ∷ rest) st h = assemble_bundle-IsWordState (inst ∷ rest) st h

pub pass_1_bundle-IsWordState :
    (ib : InstBundle) (st : AsmState) → IsWordState st → Keeps (pass_1_bundle ib st)
unfolding pass_1_bundle
pass_1_bundle-IsWordState ib st h =
    elim ib.label
      as (λ o. Keeps (elim o [
        | some label ↦ good st
        | none ↦
            if is_nonzero ib.align then good (pad_code ib.align st) else pass_1_insts ib.insts st
      ])) [
        | some label ↦ h
        | none ↦
            Ensures-if IsWordState (is_nonzero ib.align) _ _ (pad_code-IsWordState ib.align st h)
              (pass_1_insts-IsWordState ib.insts st h)
      ]
