-- ===== src/Asm/Bundle/Agree.antt =====
-- A bundle takes the same words in both passes, whatever the symbol table.
use ajardsp.Common.{ℕ, ◌^◌, ◌<◌, ◌≡◌, refl, sym, Bool}
use ajardsp.Common.{some, List, [], ◌∷◌, get_elem?, some, Memory, good, arith}
use ajardsp.Asm.Types.{Instruction, InstDef}
use ajardsp.Asm.Encode.{Context}
use ajardsp.Asm.Insns.{ajardsp_insns}
use ajardsp.Asm.Bundle.{is_long, Emit, emit, assemble_insts, try_assemble_inst_bundle, follows}
use ajardsp.Asm.Bundle.Once.{EmittedBy, row_unique}
use ajardsp.Asm.Bundle.Size.{Assembled, assemble_insts-cons, emit-words, cleared}

abbrev SamePlace : Emit → Emit → Type 0
SamePlace e f = (e.imem_addr ≡ f.imem_addr) × (e.total_size ≡ f.total_size)

some_row :
    (xs : List InstDef) (i j : ℕ) {d e : InstDef}
    → get_elem? xs i ≡ some d
    → get_elem? xs j ≡ some e
    → i ≡ j
    → d ≡ e
some_row xs i j p q same = ground arith

module _ (ctx ctx' : Context) where
  -- Both passes find the same row for an instruction.
  same_row :
      (inst : Instruction) (more : Bool) (e f e' f' : Emit)
      → EmittedBy ctx inst more ajardsp_insns e e'
      → EmittedBy ctx' inst more ajardsp_insns f f'
      → (d : InstDef) × (p q : ℕ) × (emit (is_long inst d) p e ≡ good e')
        × (emit (is_long inst d) q f ≡ good f')
  same_row inst more e f e' f' x y =
      let same : x.index ≡ y.index =
        row_unique ctx ctx' inst more more x.index y.index x.row y.row x.pattern y.pattern
          x.at_index y.at_index x.gives y.gives in
      let row : y.row ≡ x.row =
        some_row ajardsp_insns y.index x.index y.at_index x.at_index (sym same) in
      (x.row, x.pattern, y.pattern, x.emitted, rw (row) at y.emitted)

  Assembled-SamePlace :
      (inst : Instruction) (more : Bool) (e f e' f' : Emit)
      → e.imem_addr < 2 ^ 16
      → SamePlace e f
      → Assembled ctx inst more e e'
      → Assembled ctx' inst more f f'
      → SamePlace e' f' × (e'.imem_addr < 2 ^ 16)
  Assembled-SamePlace inst more e f e' f' start (addr, total) x y =
      let (d, p, q, out, out') = same_row inst more (cleared e) (cleared f) e' f' x.by y.by in
      let (t, m, _) = emit-words p (cleared e) start (is_long inst d) out in
      let (t', m', _) = emit-words q (cleared f) (rw (← addr) start) (is_long inst d) out' in
      ((ground arith, ground arith), ground arith)

  assemble_insts-SamePlace :
      (insts : List Instruction) (e f e' f' : Emit)
      → e.imem_addr < 2 ^ 16
      → SamePlace e f
      → assemble_insts ctx insts e ≡ good e'
      → assemble_insts ctx' insts f ≡ good f'
      → SamePlace e' f'
  assemble_insts-SamePlace [] e f e' f' start same h k =
      let one : e ≡ e' = unfold assemble_insts in ground arith in
      let two : f ≡ f' = unfold assemble_insts in ground arith in rw (← one, ← two) same
  assemble_insts-SamePlace (inst ∷ rest) e f e' f' start same h k =
      let (e₁, x, later) = assemble_insts-cons ctx inst rest e h in
      let (f₁, y, later') = assemble_insts-cons ctx' inst rest f k in
      let (same₁, start₁) = Assembled-SamePlace inst (follows rest) e f e₁ f₁ start same x y in
      assemble_insts-SamePlace rest e₁ f₁ e' f' start₁ same₁ later later'

  -- Two runs on one bundle from the same 16-bit address that both succeed, with whatever symbol tables,
  -- memories and treatment of symbol references, take as many words and end at the same address.
  pub try_assemble_inst_bundle_agree :
      (insts : List Instruction) (imem imem' : Memory) (imem_addr : ℕ) (e f : Emit)
      → imem_addr < 2 ^ 16
      → try_assemble_inst_bundle ctx insts imem imem_addr ≡ good e
      → try_assemble_inst_bundle ctx' insts imem' imem_addr ≡ good f
      → (e.total_size ≡ f.total_size) × (e.imem_addr ≡ f.imem_addr)
  unfolding try_assemble_inst_bundle
  try_assemble_inst_bundle_agree insts imem imem' imem_addr e f start h k =
      let (addr, total) = assemble_insts-SamePlace insts _ _ e f start (refl, refl) h k in
      (total, addr)
