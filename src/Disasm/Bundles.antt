-- ===== src/Disasm/Bundles.antt =====
-- Every instruction of a bundle can be read back from a memory that has the bundle's words.
use ajardsp.Common.{ℕ, zero, suc, ◌+◌, ◌*◌, ◌^◌, ◌<◌, ◌≤◌, ◌≡◌, ap, ◌∙◌, arith}
use ajardsp.Common.{none, some, List, [], ◌∷◌, get_elem?, Memory, good}
use ajardsp.Asm.Types.{Instruction}
use ajardsp.Asm.Encode.{Context}
use ajardsp.Asm.Bundle.{Emit, is_long, assemble_insts, follows, try_assemble_inst_bundle}
use ajardsp.Asm.Bundle.Size.{
  IsGrown, Assembled, assemble_insts-cons, assemble_insts-IsGrown, emit-words, word_count, cleared,
}
use ajardsp.Disasm.{disasm}
use ajardsp.Disasm.Codes.{shown}
use ajardsp.Disasm.Assembled.{word_at, EmittedBy-disasm}

-- The four words that a bundle may take end before the end of the memory.
abbrev HasRoom : Emit → Type 0
HasRoom e = (e.total_size ≤ 4) × (e.imem_addr + 4 < 2 ^ 16 + e.total_size)

-- The memory has the words from the one address to the other.
abbrev Holds : Memory → Emit → Emit → Type 0
Holds m e e' = (a : ℕ) → e.imem_addr ≤ a → a < e'.imem_addr → m a ≡ e'.imem a

-- The word of the instruction at position `i` shows its mnemonic: one or two words on from the
-- first for each instruction before it.
abbrev pub Shown : Instruction → Memory → ℕ → ℕ → ℕ → Type 0
Shown inst m i from to =
    (a : ℕ) × (from + i ≤ a)
    × (a ≤ from + 2 * i)
    × (a < to)
    × (disasm (word_at m a) ≡ some (shown inst.mnemonic))

record Grown (e e' : Emit) : Type 0 where
  below : (a : ℕ) → a < e.imem_addr → e'.imem a ≡ e.imem a
  onward : e.imem_addr ≤ e'.imem_addr

IsGrown-Grown : (e e' : Emit) → HasRoom e → IsGrown e e' → e'.total_size ≤ 4 → Grown e e'
IsGrown-Grown e e' (some_left, room) g fits = record {
  below = λ a h. g.frame a (λ k more. omega (arith, g.total));
  onward = omega (arith, g.total, g.moved);
}

-- The first instruction of a bundle and the rest, in a memory without wrap-around.
record FirstOf (ctx : Context) (inst : Instruction) (rest : List Instruction) (e e' : Emit)
    : Type 0 where
  middle : Emit
  assembled : Assembled ctx inst (follows rest) e middle
  later : assemble_insts ctx rest middle ≡ good e'
  end : middle.imem_addr ≡ e.imem_addr + word_count (is_long inst assembled.by.row)
  room : HasRoom middle
  grown : Grown middle e'

first_of :
    (ctx : Context) (inst : Instruction) (rest : List Instruction) (e e' : Emit)
    → HasRoom e
    → assemble_insts ctx (inst ∷ rest) e ≡ good e'
    → FirstOf ctx inst rest e e'
first_of ctx inst rest e e' room h =
    let (e₁, x, later) = assemble_insts-cons ctx inst rest e h in
    let by = x.by in
    let (total, moved, _) =
      emit-words by.pattern (cleared e) (omega arith) (is_long inst by.row) by.emitted in
    let end : e₁.imem_addr ≡ e.imem_addr + word_count (is_long inst by.row) =
      omega (arith, x.fits) in
    let room₁ : HasRoom e₁ = (x.fits, omega arith) in
    let (g, fits) = assemble_insts-IsGrown ctx rest e₁ (omega arith) x.fits later in
    record {
      middle = e₁;
      assembled = x;
      later = later;
      end = end;
      room = room₁;
      grown = IsGrown-Grown e₁ e' room₁ g fits;
    }

assemble_insts-Shown :
    (ctx : Context) (insts : List Instruction) (e e' : Emit) (m : Memory) (i : ℕ)
    {inst : Instruction}
    → HasRoom e
    → assemble_insts ctx insts e ≡ good e'
    → Holds m e e'
    → get_elem? insts i ≡ some inst
    → inst.pred ≡ none
    → Shown inst m i e.imem_addr e'.imem_addr
assemble_insts-Shown ctx [] e e' m i room h holds at plain = cc
assemble_insts-Shown ctx (first ∷ rest) e e' m zero {inst = inst} room h holds at plain =
    let f = first_of ctx first rest e e' room h in
    let same : first ≡ inst = ground arith in
    let positive : 1 ≤ word_count (is_long first f.assembled.by.row) = ground arith in
    (
      e.imem_addr,
      omega arith,
      omega arith,
      omega (arith, f.end, f.grown.onward, positive),
      EmittedBy-disasm ctx first (follows rest) e f.middle m (rw same plain) f.assembled.by
            (λ a above below.
              holds a above (omega (arith, f.end, f.grown.onward))
              ∙ f.grown.below a (omega (arith, f.end)))
          ∙ ap (λ (x : Instruction). some (shown x.mnemonic)) same,
    )
assemble_insts-Shown ctx (first ∷ rest) e e' m (suc i) {inst = inst} room h holds at plain =
    let f = first_of ctx first rest e e' room h in
    let (positive, small) : (1 ≤ word_count (is_long first f.assembled.by.row))
        × (word_count (is_long first f.assembled.by.row) ≤ 2) =
      ground arith in
    let (a, above, near, below, seen) =
      assemble_insts-Shown ctx rest f.middle e' m i f.room f.later
        (λ a above below. holds a (omega (arith, f.end)) below) at plain in
    (a, omega (arith, f.end, above, positive), omega (arith, f.end, near, small), below, seen)

pub try_assemble_inst_bundle-Shown :
    (ctx : Context) (insts : List Instruction) (imem : Memory) (imem_addr : ℕ) (e' : Emit)
    (m : Memory) (i : ℕ) {inst : Instruction}
    → imem_addr + 4 < 2 ^ 16
    → try_assemble_inst_bundle ctx insts imem imem_addr ≡ good e'
    → ((a : ℕ) → imem_addr ≤ a → a < e'.imem_addr → m a ≡ e'.imem a)
    → get_elem? insts i ≡ some inst
    → inst.pred ≡ none
    → Shown inst m i imem_addr e'.imem_addr
unfolding try_assemble_inst_bundle
try_assemble_inst_bundle-Shown ctx insts imem imem_addr e' m i room h holds =
    assemble_insts-Shown ctx insts _ e' m i (omega arith, omega arith) h holds
