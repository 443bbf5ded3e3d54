-- ===== src/Tests/Boards.antt =====
-- The debug tool and the board: small runs.
use ajardsp.Common.{◌%◌, ◌≡◌, refl, arith, false, some, good, update, ℕ, List, [], ◌∷◌}
use ajardsp.Asm.Passes.{init}
use ajardsp.Asm.Output.{output_hex}
use ajardsp.Target.Debug.{W32, w32, serial, hex_file, pat_mem, dump_mem}
use ajardsp.Target.Debug.Receiver.{Receiver, s_idle, receive_all}
use ajardsp.Target.Debug.Delivered.{
  AreWords, Idle, perform, answers, receive_all-serial, receive_all-dump_mem,
}
use ajardsp.Target.Debug.HexFile.{byte_lines, hex_file-serial}
use ajardsp.Target.Debug.Swept.{Swept}
use ajardsp.Target.Debug.Patterns.{eight_digits, pat_mem-Swept}
use ajardsp.Target.Debug.Load.{target_load_imem, target_load_dmem}
use ajardsp.Target.Debug.Load.Ends.{Ended, target_load-Ended}
use ajardsp.Target.Debug.Load.Lines.{stream, contents}
use ajardsp.Target.Debug.Load.Board.{
  Loaded, asm_gen_opcodes-target_load_imem, asm_gen_opcodes-target_load_dmem,
}
use ajardsp.Tests.Programs.{assembled, state_of, program, the_data, program_assembles}
use ajardsp.Tests.Files.{init-IsWordState, files_end}

-- A board that waits for a command, with an empty bus.
abbrev board : Receiver
board = record {
  state = s_idle;
  addr_0_r = 0;
  addr_1_r = 0;
  addr_2_r = 0;
  addr_3_r = 0;
  byte0_r = 0;
  byte1_r = 0;
  byte2_r = 0;
  byte3_r = 0;
  bus = λ a. 0;
  sent = [];
}

abbrev two_calls : List W32
two_calls = w32 0xc0000004 1 ∷ w32 0xd0000100 0x12345678 ∷ []

board_written : (receive_all (serial two_calls) board).bus 0xd0000100 ≡ 0x12345678
unfolding receive_all serial update
board_written = refl

receive_all-serial_example :
    Idle (receive_all (serial two_calls) board) (perform two_calls (λ a. 0)) []
unfolding AreWords
receive_all-serial_example =
    receive_all-serial two_calls board refl
      (omega arith, omega arith, (omega arith, omega arith, tt))

receive_all-dump_mem_example :
    (bytes : List ℕ) × (dump_mem 0xd0000100 6 ≡ good bytes)
    × Idle (receive_all bytes board) (λ a. 0) (answers 2 0 0xd0000100 (λ a. 0))
receive_all-dump_mem_example = receive_all-dump_mem 0xd0000100 6 board refl

hex_file-serial_example : hex_file two_calls ≡ byte_lines (serial two_calls)
hex_file-serial_example = hex_file-serial two_calls

pat_mem-Swept_example :
    (calls : List W32) × (pat_mem 0xf0000000 81 ≡ good calls)
    × Swept (λ k. eight_digits (k % 16)) 0xf0000000 20 (λ a. 0) (receive_all (serial calls) board)
pat_mem-Swept_example = pat_mem-Swept 0xf0000000 81 board refl (omega arith)

-- A file of nothing: the loops end by the length.
target_load-Ended_example :
    Ended (target_load_imem (λ a. 7) (stream []) 0xd0000000 64) 16
    × Ended (target_load_dmem (λ a. 7) (stream []) 0xd0000000 64) 16
target_load-Ended_example = target_load-Ended (λ a. 7) (stream []) 0xd0000000 64

-- After the last line of a file the loop goes on: two words that no conversion has set.
imem_past_end :
    target_load_imem (λ a. 7) (stream (b'\n' ∷ [])) 0xd0000000 64
    ≡ some (w32 0xd0000000 7 ∷ w32 0xd0000004 7 ∷ [])
unfolding target_load_imem
imem_past_end = refl

asm_gen_opcodes-target_load_imem_example :
    Loaded
      (target_load_imem
        (λ a. 7)
        (stream (contents (output_hex false (state_of assembled)).imem_file))
        0xd0000100
        18)
      (state_of assembled).imem
      0xd0000100
      18
      board
asm_gen_opcodes-target_load_imem_example =
    asm_gen_opcodes-target_load_imem program the_data init (state_of assembled) false (λ a. 7)
      0xd0000100 18 board init-IsWordState program_assembles (omega arith)
      (omega (arith, files_end)) (omega arith) refl

data_end : (state_of assembled).dmem_addr ≡ 5
unfolding assembled
data_end = refl

asm_gen_opcodes-target_load_dmem_example :
    Loaded
      (target_load_dmem
        (λ a. 7)
        (stream (contents (output_hex false (state_of assembled)).dmem_file))
        0xd0000500
        8)
      (state_of assembled).dmem
      0xd0000500
      8
      board
asm_gen_opcodes-target_load_dmem_example =
    asm_gen_opcodes-target_load_dmem program the_data init (state_of assembled) false (λ a. 7)
      0xd0000500 8 board init-IsWordState program_assembles (omega (arith, data_end)) (omega arith)
      (omega arith) refl
