-- ===== src/Tests/Monitors.antt =====
-- The monitor and the board: small runs.
use ajardsp.Common.{ℕ, ◌*◌, ◌<◌, ◌^◌, ◌≡◌, refl, arith, false, update, List, [], ◌∷◌, ◌++◌, Memory}
use ajardsp.Asm.Output.{dmem_lines, imem_lines}
use ajardsp.Disasm.Assembled.{word_at}
use ajardsp.Target.Debug.Load.Lines.{stream, contents}
use ajardsp.Target.Monitor.{
  resets, target_reset, target_write_imem, target_write_dmem, target_read_dmem,
  target_read_dmem_file, dead_lines,
}
use ajardsp.Target.Monitor.Receiver.{Top, State, s_idle, s_write_imem_addr_0, receive_all}
use ajardsp.Target.Monitor.Reset.{Stopped, reset_write, target_reset-Stopped}
use ajardsp.Target.Monitor.Imem.{line_write}
use ajardsp.Target.Monitor.Imem.Kept.{Loaded, target_write_imem-Loaded}
use ajardsp.Target.Monitor.Dmem.{PairsWritten, target_write_dmem-PairsWritten}
use ajardsp.Target.Monitor.ReadBack.{target_read_dmem-target_write_dmem}

abbrev board_at : State → Top
board_at s = record {
  state = s;
  core_rst_r = false;
  imem_addr_0_r = 0;
  imem_addr_1_r = 0;
  imem_word_0_r = 0;
  imem_word_1_r = 0;
  imem_word_2_r = 0;
  imem_word_3_r = 0;
  imem_word_4_r = 0;
  imem_word_5_r = 0;
  imem_word_6_r = 0;
  imem_word_7_r = 0;
  dmem_addr_0_r = 0;
  dmem_addr_1_r = 0;
  dmem_byte0_r = 0;
  dmem_byte1_r = 0;
  dmem_byte2_r = 0;
  dmem_byte3_r = 0;
  imem_writes = [];
  dmem = λ a. 0;
  sent = [];
}

-- A memory of 16-bit words.
abbrev words : Memory
words = λ a. update (update (λ b. 0) 0 0x1234) 1 0xabcd a

words_small : (a : ℕ) → words a < 2 ^ 16
unfolding update
words_small a = ground arith

target_reset-Stopped_example :
    let t = board_at s_write_imem_addr_0 in
    let t' = receive_all (resets 10) t in
    Stopped (receive_all target_reset t)
    × Stopped (receive_all (resets 11) t)
    × (t'.core_rst_r ≡ false)
    × (t'.imem_writes ≡ reset_write ∷ [])
target_reset-Stopped_example = target_reset-Stopped (board_at s_write_imem_addr_0) 11 (omega arith)

target_write_imem-Loaded_example : Loaded words 2 (board_at s_idle) (
    receive_all
      (target_write_imem (λ a i. 7) (stream (contents (imem_lines 3 0 words))) 8)
      (board_at s_idle))
target_write_imem-Loaded_example =
    target_write_imem-Loaded (λ a i. 7) words 3 8 (board_at s_idle) words_small (omega arith)
      (omega arith) refl

-- The first two lines go to the same place.
same_place :
    ((line_write words 0).high ≡ (line_write words 1).high)
    × ((line_write words 0).addrb ≡ (line_write words 1).addrb)
same_place = (refl, refl)

target_write_dmem-PairsWritten_example :
    PairsWritten
      (λ k. word_at words (2 * k))
      2
      0
      (board_at s_idle)
      (receive_all
        (target_write_dmem (stream (contents (dmem_lines 5 0 words))) 3)
        (board_at s_idle))
target_write_dmem-PairsWritten_example =
    target_write_dmem-PairsWritten words 5 3 (board_at s_idle) words_small (omega arith)
      (omega arith) refl

target_read_dmem-target_write_dmem_example :
    let t' =
      receive_all
        (target_write_dmem (stream (contents (dmem_lines 5 0 words))) 4)
        (board_at s_idle) in
    (bytes : List ℕ) × ((receive_all (target_read_dmem 4) t').sent ≡ t'.sent ++ bytes)
    × (target_read_dmem_file bytes 4 6 ≡ dmem_lines 4 0 words ++ dead_lines 2)
target_read_dmem-target_write_dmem_example =
    target_read_dmem-target_write_dmem words 5 4 6 (board_at s_idle) words_small (omega arith)
      (omega arith) refl
