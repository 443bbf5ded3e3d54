-- ===== src/Asm/Passes/Agree.antt =====
-- The first pass enters each label with the address that the second pass reaches there.
use ajardsp.Common.{ℕ, ◌^◌, ◌<◌, ◌≤◌, ◌≡◌, refl, sym, subst, ap, ◌∙◌, arith}
use ajardsp.Common.{none, some, List, [], ◌∷◌, CString, ℤ, pos, negsuc}
use ajardsp.Common.{Outcome, good, bad, exits, fault}
use ajardsp.Asm.Types.{Instruction, InstBundle}
use ajardsp.Asm.Symtab.{Symtab, symtab_add, symtab_lookup}
use ajardsp.Asm.Symtab.Laws.{symtab_lookup-symtab_add}
use ajardsp.Asm.Bundle.{Emit, try_assemble_inst_bundle}
use ajardsp.Asm.Bundle.Agree.{try_assemble_inst_bundle_agree}
use ajardsp.Asm.Bundle.Size.{try_assemble_inst_bundle_size}
use ajardsp.Asm.Passes.{AsmState, context, define_label, assemble_bundle}

-- Every name that the first table has, the second has with the same address.
abbrev pub Extends : Symtab → Symtab → Type 0
Extends s t =
    (name : CString) (a : ℕ) → symtab_lookup s name ≡ some a → symtab_lookup t name ≡ some a

symtab_add-Extends :
    (s : Symtab) (name : CString) (address : ℕ)
    → symtab_lookup s name ≡ none
    → Extends s (symtab_add s name address)
symtab_add-Extends s name address new other a found =
    (symtab_lookup-symtab_add s name other address).1
      (λ same. none_some (sym new ∙ ap (symtab_lookup s) same ∙ found))
    ∙ found
  where
    none_some : {x : ℕ} → none ≡ some x → ⊥
    none_some h = cc

-- A label that was entered: it was new.
pub record Defined (name : CString) (address : ℕ) (st st' : AsmState) : Type 0 where
  pub extends : Extends st.symtab st'.symtab
  pub found : symtab_lookup st'.symtab name ≡ some address
  pub imem_kept : st'.imem_addr ≡ st.imem_addr
  pub dmem_kept : st'.dmem_addr ≡ st.dmem_addr

pub define_label_new :
    (name : CString) (address : ℕ) (st : AsmState) {st' : AsmState}
    → define_label name address st ≡ good st'
    → (symtab_lookup st.symtab name ≡ none)
      × (record st { symtab = symtab_add st.symtab name address } ≡ st')
unfolding define_label
define_label_new name address st h = ground arith

pub define_label-Defined :
    (name : CString) (address : ℕ) (st : AsmState) {st' : AsmState}
    → define_label name address st ≡ good st'
    → Defined name address st st'
define_label-Defined name address st h =
    let (new, e) = define_label_new name address st h in
    rw (← e) (record {
      extends = symtab_add-Extends st.symtab name address new;
      found = (symtab_lookup-symtab_add st.symtab name name address).0;
      imem_kept = refl;
      dmem_kept = refl;
    })

-- What assembling a bundle did to the addresses and the table.
pub record Placed (insts : List Instruction) (st st' : AsmState) : Type 0 where
  pub emitted : Emit
  pub assembled : try_assemble_inst_bundle (context st) insts st.imem st.imem_addr ≡ good emitted
  pub addr : st'.imem_addr ≡ emitted.imem_addr
  pub imem_after : st'.imem ≡ emitted.imem
  pub symtab_kept : st'.symtab ≡ st.symtab
  pub dmem_kept : st'.dmem_addr ≡ st.dmem_addr

pub assemble_bundle-Placed :
    (insts : List Instruction) (st : AsmState) {st' : AsmState}
    → assemble_bundle insts st ≡ good st'
    → Placed insts st st'
unfolding assemble_bundle
assemble_bundle-Placed insts st {st' = st'} h =
    go (try_assemble_inst_bundle (context st) insts st.imem st.imem_addr) refl h
  where
    go :
        (r : Outcome Emit)
        → try_assemble_inst_bundle (context st) insts st.imem st.imem_addr ≡ r
        → elim r [
          | good e ↦ good (record st { imem = e.imem; imem_addr = e.imem_addr })
          | bad ↦ exits
          | exits ↦ exits
          | fault ↦ fault
        ]
          ≡ good st'
        → Placed insts st st'
    go (good e) run k =
        let same : record st { imem = e.imem; imem_addr = e.imem_addr } ≡ st' = ground arith in
        rw (← same) (record {
          emitted = e;
          assembled = run;
          addr = refl;
          imem_after = refl;
          symtab_kept = refl;
          dmem_kept = refl;
        })
    go bad run k = cc
    go exits run k = cc
    go fault run k = cc

-- The `.align` operands that both passes treat alike.
abbrev pub AlignFits : ℤ → Type 0
AlignFits (pos n) = n ≤ 2 ^ 30
AlignFits (negsuc n) = ⊥

abbrev pub CodeFits : List InstBundle → Type 0
CodeFits [] = Unit
CodeFits (ib ∷ ibs) = AlignFits ib.align × CodeFits ibs

-- Both passes over one bundle, from the same address.
pub record Together (st su st' su' : AsmState) : Type 0 where
  pub extends : Extends st.symtab st'.symtab
  pub kept : su'.symtab ≡ su.symtab
  pub same_addr : st'.imem_addr ≡ su'.imem_addr
  pub inside : st'.imem_addr < 2 ^ 16

pub Extends-refl : (s : Symtab) → Extends s s
Extends-refl s name a h = h

pub Extends-eq : {s t : Symtab} → t ≡ s → Extends s t
Extends-eq {s = s} e = rw e (Extends-refl s)

pub insts-Together :
    (insts : List Instruction) (st su : AsmState) {st' su' : AsmState}
    → st.imem_addr < 2 ^ 16
    → st.imem_addr ≡ su.imem_addr
    → assemble_bundle insts st ≡ good st'
    → assemble_bundle insts su ≡ good su'
    → Together st su st' su'
insts-Together insts st su start same h k =
    let x = assemble_bundle-Placed insts st h in
    let y = assemble_bundle-Placed insts su k in
    let (_, moved) =
      try_assemble_inst_bundle_size (context st) insts st.imem st.imem_addr x.emitted start
        x.assembled in
    let (_, agreed) =
      try_assemble_inst_bundle_agree (context st) (context su) insts st.imem su.imem st.imem_addr
        x.emitted y.emitted start x.assembled
        (subst (λ a. try_assemble_inst_bundle (context su) insts su.imem a ≡ good y.emitted)
          (sym same) y.assembled) in
    record {
      extends = Extends-eq x.symtab_kept;
      kept = y.symtab_kept;
      same_addr = x.addr ∙ agreed ∙ sym y.addr;
      inside = omega (arith, x.addr, moved);
    }
