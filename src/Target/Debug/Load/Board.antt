-- ===== src/Target/Debug/Load/Board.antt =====
-- From the assembler's files to the memory of the board: asm.c prints, wb_debug.c reads and sends,
-- and wb_debug.v writes.
use ajardsp.Common.{
  ℕ, ◌+◌, ◌*◌, ◌/◌, ◌^◌, ◌<◌, ◌≤◌, ◌≡◌, arith, Bool, Option, some, List, Memory, good,
}
use ajardsp.Asm.Passes.{AsmState, asm_gen_opcodes}
use ajardsp.Asm.Types.{InstBundle, DataElement}
use ajardsp.Asm.Passes.Words.{IsWordState}
use ajardsp.Asm.Passes.Invariant.{asm_gen_opcodes-IsWordState}
use ajardsp.Asm.Output.{fill, output_hex}
use ajardsp.Disasm.Assembled.{word_at}
use ajardsp.Target.Debug.{W32, serial}
use ajardsp.Target.Debug.Receiver.{Receiver, s_idle, receive_all}
use ajardsp.Target.Debug.Sweep.{sweep}
use ajardsp.Target.Debug.Swept.{Swept, sweep-Swept}
use ajardsp.Target.Debug.Load.{target_load_imem, target_load_dmem}
use ajardsp.Target.Debug.Load.Lines.{stream, contents}
use ajardsp.Target.Debug.Load.Imem.{target_load_imem-lines}
use ajardsp.Target.Debug.Load.Dmem.{target_load_dmem-lines}

-- A load that comes to its end, and with its calls delivered leaves the 32-bit words of a memory
-- of 16-bit words on the bus: the word `k` at the address and `4 * k`, and nothing else changed.
pub record Loaded (result : Option (List W32)) (memory : Memory) (address len : ℕ) (r : Receiver)
    : Type 0 where
  pub calls : List W32
  pub gives : result ≡ some calls
  pub on_board :
      Swept
        (λ k. word_at memory (2 * k))
        address
        ((len + 3) / 4)
        r.bus
        (receive_all (serial calls) r)

swept-Loaded :
    {result : Option (List W32)} (memory : Memory) (address len : ℕ) (r : Receiver)
    → ((a : ℕ) → memory a < 2 ^ 16)
    → r.state ≡ s_idle
    → address + 4 * ((len + 3) / 4) ≤ 2 ^ 32
    → result ≡ some (sweep (λ k. word_at memory (2 * k)) ((len + 3) / 4) 0 address)
    → Loaded result memory address len r
swept-Loaded memory address len r words is_idle fits gives = record {
  calls = _;
  gives = gives;
  on_board =
      sweep-Swept (λ k. word_at memory (2 * k)) address ((len + 3) / 4) r is_idle fits
        (λ k. omega (arith, words (2 * k), words (2 * k + 1)));
}

-- A program that assembles from a state of 16-bit words, and the file of its instruction memory:
-- `target_load_imem` of that file, for a length above 0 and at most that of the file's words, to a
-- range of addresses that does not wrap, ends, and its calls delivered to a board that waits for a
-- command leave the 32-bit words of the instruction memory, the one at 0 first, in that range of
-- the bus, and all else on it as it was; no value is one that no conversion has set.
pub asm_gen_opcodes-target_load_imem :
    (ibs : List InstBundle) (xs : List DataElement) (st st' : AsmState) (option_fill_mems : Bool)
    (unset : ℕ → ℕ) (address len : ℕ) (r : Receiver)
    → IsWordState st
    → asm_gen_opcodes ibs xs st ≡ good st'
    → 0 < len
    → len ≤ 8 * ((fill option_fill_mems st'.imem_addr + 3) / 4)
    → address + 4 * ((len + 3) / 4) ≤ 2 ^ 32
    → r.state ≡ s_idle
    → Loaded
        (target_load_imem unset
          (stream (contents (output_hex option_fill_mems st').imem_file))
          address
          len)
        st'.imem
        address
        len
        r
unfolding output_hex
asm_gen_opcodes-target_load_imem ibs xs st st' filled unset address len r words runs some_left
      inside fits is_idle =
    let after = asm_gen_opcodes-IsWordState ibs xs st st' words runs in
    swept-Loaded st'.imem address len r after.imem_words is_idle fits (
      target_load_imem-lines unset st'.imem after.imem_words ((fill filled st'.imem_addr + 3) / 4)
        address len (omega arith) some_left inside)

-- A program that assembles from a state of 16-bit words, and the file of its data memory:
-- `target_load_dmem` of that file, for a length of at most that of the pairs of words of the file,
-- to a range of 32-bit addresses that does not wrap, ends, and its calls delivered to a board that
-- waits for a command leave the words of the data memory in pairs, the word at the even address in
-- the lower half, in that range of the bus, and all else on it as it was; no value is one that no
-- conversion has set.
pub asm_gen_opcodes-target_load_dmem :
    (ibs : List InstBundle) (xs : List DataElement) (st st' : AsmState) (option_fill_mems : Bool)
    (unset : ℕ → ℕ) (address len : ℕ) (r : Receiver)
    → IsWordState st
    → asm_gen_opcodes ibs xs st ≡ good st'
    → len ≤ 4 * (fill option_fill_mems st'.dmem_addr / 2)
    → address < 2 ^ 32
    → address + 4 * ((len + 3) / 4) ≤ 2 ^ 32
    → r.state ≡ s_idle
    → Loaded
        (target_load_dmem unset
          (stream (contents (output_hex option_fill_mems st').dmem_file))
          address
          len)
        st'.dmem
        address
        len
        r
unfolding output_hex
asm_gen_opcodes-target_load_dmem ibs xs st st' filled unset address len r words runs inside word
      fits is_idle =
    let after = asm_gen_opcodes-IsWordState ibs xs st st' words runs in
    swept-Loaded st'.dmem address len r after.dmem_words is_idle fits (
      target_load_dmem-lines unset st'.dmem after.dmem_words (fill filled st'.dmem_addr) address len
        word inside)
