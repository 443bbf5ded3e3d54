-- ===== src/Disasm/Assembled.antt =====
-- What the assembler has put into the memory, the disassembler names.
use ajardsp.Common.{
  ℕ, ◌+◌, ◌*◌, ◌%◌, ◌^◌, ◌≤◌, ◌<◌, bit_and, bit_or, Bool, true, false, and-split, ◌⊎◌, inl, inr,
}
use ajardsp.Common.{none, some, str_eq-eq, all, all_sound, ◌≡◌, refl, ap, ◌∙◌, arith}
use ajardsp.Common.{Memory, update, good}
use ajardsp.Bits.Masks.{bit_and-low_mask}
use ajardsp.Asm.Types.{Instruction, InstDef, InstSize, inst_16, inst_32}
use ajardsp.Asm.Encode.{Context}
use ajardsp.Asm.Encode.Fields.{field_fits}
use ajardsp.Asm.Insns.{ajardsp_insns}
use ajardsp.Asm.Insns.Checks.{row_sound, rows_sound}
use ajardsp.Asm.Bundle.{try_rows, is_long, Emit, emit}
use ajardsp.Asm.Bundle.Unique.{Encodes-length}
use ajardsp.Asm.Bundle.Once.{EmittedBy, row_pattern, row_pattern-Encodes}
use ajardsp.Asm.Bundle.Size.{cleared, encoded_inst, word_count}
use ajardsp.Disasm.{compare_mask, compare_pattern, clean_word, disasm}
use ajardsp.Disasm.Codes.{shown, fields_masked, code_sound, codes_sound}
use ajardsp.Disasm.Scan.{scan_rows-shown}
use ajardsp.Disasm.Fields.{
  encode_operands-Keeps, start_pattern, row_pattern-start, code_kept-start, long_code, short_code,
}

-- The 32 bits that stand at an address of the instruction memory, the lower word first.
abbrev pub word_at : Memory → ℕ → ℕ
word_at imem addr = imem addr + 2 ^ 16 * imem (addr + 1)

emit_long_word :
    (p : ℕ) (e : Emit) (m : Memory) {e' : Emit}
    → emit true p e ≡ good e'
    → m e.imem_addr ≡ e'.imem e.imem_addr
    → m (e.imem_addr + 1) ≡ e'.imem (e.imem_addr + 1)
    → word_at m e.imem_addr ≡ bit_or p 2
unfolding emit update
emit_long_word p e m {e' = e'} h low high = ground (arith, bit_and-low_mask 16 (bit_or p 2))

emit_short_word :
    (p : ℕ) (e : Emit) (m : Memory) {e' : Emit}
    → emit false p e ≡ good e'
    → m e.imem_addr ≡ e'.imem e.imem_addr
    → bit_and (word_at m e.imem_addr) 0xffff ≡ bit_and (bit_and p 0xfffffffd) 0xffff
unfolding emit update
emit_short_word p e m {e' = e'} h there =
    let low = bit_and (bit_and p 0xfffffffd) 0xffff in
    let stored : e'.imem e.imem_addr ≡ low = ground arith in
    let small : low ≡ bit_and p 0xfffffffd % 2 ^ 16 = bit_and-low_mask 16 (bit_and p 0xfffffffd) in
    omega (arith, stored, there, small, bit_and-low_mask 16 (word_at m e.imem_addr))

size_cases : (s : InstSize) → (s ≡ inst_16) ⊎ (s ≡ inst_32)
size_cases inst_16 = inl refl
size_cases inst_32 = inr refl

-- A word with a row's code is shown under the row's mnemonic.
coded-shown :
    (d : InstDef) (w : ℕ)
    → code_sound d ≡ true
    → bit_and (clean_word w) (compare_mask d) ≡ compare_pattern d
    → disasm w ≡ some (shown d.mnemonic)
unfolding disasm code_sound
coded-shown d w sound coded =
    scan_rows-shown ajardsp_insns d (clean_word w)
      (and-split _ _ (and-split _ _ (and-split _ _ sound).0).0).1 coded

-- The memory has the words that were written from one address to another.
abbrev pub SameWords : Emit → Emit → ℕ → Memory → Type 0
SameWords e e' words m = (a : ℕ) → e.imem_addr ≤ a → a < e.imem_addr + words → m a ≡ e'.imem a

emitted_code :
    (ctx : Context) (inst : Instruction) (more : Bool) (d : InstDef) (p : ℕ) (e e' : Emit)
    (m : Memory)
    → row_sound d ≡ true
    → code_sound d ≡ true
    → inst.pred ≡ none
    → row_pattern ctx inst more d ≡ good p
    → emit (is_long inst d) p e ≡ good e'
    → SameWords e e' (word_count (is_long inst d)) m
    → bit_and (clean_word (word_at m e.imem_addr)) (compare_mask d) ≡ compare_pattern d
emitted_code ctx inst more d p e e' m row code plain gives out there =
    let fits : all field_fits d.operands ≡ true = unfold row_sound in ground arith in
    let masked : fields_masked d ≡ true = unfold code_sound in ground arith in
    let len = Encodes-length ctx inst d (row_pattern-Encodes ctx inst more d gives) row in
    let same =
      encode_operands-Keeps ctx d (compare_mask d) 0 inst.ops (start_pattern more d) fits
        (unfold fields_masked in masked) (omega (arith, len))
        (row_pattern-start ctx inst more d p plain gives) in
    let kept = code_kept-start more d code in
    elim (size_cases d.size) [
      | inl short ↦
          let is_short : is_long inst d ≡ false = unfold is_long in ground arith in
          let one : SameWords e e' 1 m = rw is_short at there in
          short_code d (start_pattern more d) p kept same (word_at m e.imem_addr) short (
            emit_short_word p e m (rw is_short at out)
              (one e.imem_addr (omega arith) (omega arith)))
      | inr long ↦
          let is_32 : is_long inst d ≡ true = unfold is_long in ground arith in
          let two : SameWords e e' 2 m = rw is_32 at there in
          ap (λ (w : ℕ). bit_and (clean_word w) (compare_mask d))
            (emit_long_word p e m (rw is_32 at out) (two e.imem_addr (omega arith) (omega arith))
              (two (e.imem_addr + 1) (omega arith) (omega arith)))
          ∙ long_code d (start_pattern more d) p kept same long
    ]

-- An instruction without a predicate that a row has emitted, in any memory that has its words.
pub EmittedBy-disasm :
    (ctx : Context) (inst : Instruction) (more : Bool) (e e' : Emit) (m : Memory)
    → inst.pred ≡ none
    → (by : EmittedBy ctx inst more ajardsp_insns (cleared e) e')
    → SameWords e e' (word_count (is_long inst by.row)) m
    → disasm (word_at m e.imem_addr) ≡ some (shown inst.mnemonic)
EmittedBy-disasm ctx inst more e e' m plain by there =
    let row = all_sound row_sound ajardsp_insns by.index rows_sound by.at_index in
    let code = all_sound code_sound ajardsp_insns by.index codes_sound by.at_index in
    let coded =
      emitted_code ctx inst more by.row by.pattern (cleared e) e' m row code plain by.gives
        by.emitted there in
    let name =
      str_eq-eq by.row.mnemonic inst.mnemonic
        (row_pattern-Encodes ctx inst more by.row by.gives).same_mnemonic in
    coded-shown by.row _ code coded ∙ ap (λ m. some (shown m)) name

-- For an instruction without a predicate that the loop over the table has encoded, the word at
-- the address that it was assembled to disassembles to its mnemonic; an unsigned comparison
-- disassembles to the signed one.
pub disasm-try_rows :
    (ctx : Context) (inst : Instruction) (more : Bool) (e e' : Emit)
    → inst.pred ≡ none
    → try_rows ctx inst more ajardsp_insns (cleared e) ≡ good e'
    → e'.inst_properly_encoded ≡ true
    → disasm (word_at e'.imem e.imem_addr) ≡ some (shown inst.mnemonic)
disasm-try_rows ctx inst more e e' plain tried done =
    EmittedBy-disasm ctx inst more e e' e'.imem plain (encoded_inst ctx inst more e e' tried done)
      (λ a above below. refl)
