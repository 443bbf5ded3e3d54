-- ===== src/Target/Monitor/Receiver.antt =====
-- rtl/verilog/top_top.v: what the board does with the bytes of the serial line. `receive` is one
-- byte, `rx_en`, in the process that keeps `state`; the four bytes of an answer are sent before the
-- next command comes, since the tool waits for them. The instruction memory is that of
-- rtl/verilog/imem.v as the board has it, without `SIMULATION_IMEM`: two block RAMs, which are not
-- part of the repository, so that a write to it is what comes to their ports.
use ajardsp.Common.{
  ℕ, ◌+◌, ◌*◌, ◌/◌, ◌%◌, ◌^◌, ◌≡◌, refl, Bool, true, false, List, [], ◌∷◌, ◌++◌, ◌==◌,
  if◌then◌else◌, Memory, update,
}

pub data State : Type 0 where
  s_write_imem_addr_0 s_write_imem_addr_1 : State
  s_write_imem_data_0 s_write_imem_data_1 s_write_imem_data_2 s_write_imem_data_3 : State
  s_write_imem_data_4 s_write_imem_data_5 s_write_imem_data_6 s_write_imem_data_7 : State
  s_write_dmem_addr_0 s_write_dmem_addr_1 : State
  s_write_dmem_data_0 s_write_dmem_data_1 s_write_dmem_data_2 s_write_dmem_data_3 : State
  s_read_dmem_addr_0 s_read_dmem_addr_1 s_idle : State

-- A write at the second port of a block RAM of imem.v, `imem_ram_high` or `imem_ram_low`:
-- what imem.v connects to its `ADDRB` and `DIB`.
pub record ImemWrite : Type 0 where
  pub high : Bool
  pub addrb : ℕ
  pub dib : ℕ

-- A write of 64 bits at `addr` as imem.v takes it: the data is cut to 32 bits, bit 1 of the address
-- enables one of the RAMs, and the bits above it are the address there.
unfoldable pub imem_write : ℕ → ℕ → ImemWrite
imem_write addr data_64 = record {
  high = addr / 2 % 2 == 1;
  addrb = addr / 4;
  dib = data_64 % 2 ^ 32;
}

-- `imem_writes` are the writes to the instruction memory, in their order; `dmem` holds 32 bits at an
-- address; `sent` is what went out on the line.
pub record Top : Type 0 where
  pub state : State
  pub core_rst_r : Bool
  pub imem_addr_0_r : ℕ
  pub imem_addr_1_r : ℕ
  pub imem_word_0_r : ℕ
  pub imem_word_1_r : ℕ
  pub imem_word_2_r : ℕ
  pub imem_word_3_r : ℕ
  pub imem_word_4_r : ℕ
  pub imem_word_5_r : ℕ
  pub imem_word_6_r : ℕ
  pub imem_word_7_r : ℕ
  pub dmem_addr_0_r : ℕ
  pub dmem_addr_1_r : ℕ
  pub dmem_byte0_r : ℕ
  pub dmem_byte1_r : ℕ
  pub dmem_byte2_r : ℕ
  pub dmem_byte3_r : ℕ
  pub imem_writes : List ImemWrite
  pub dmem : Memory
  pub sent : List ℕ

-- Two bytes next to each other in a Verilog concatenation.
abbrev pub pair : ℕ → ℕ → ℕ
pair high low = 2 ^ 8 * high + low

-- `imem_data_64_w`, at `ext_imem_wr_addr_i`.
unfoldable pub write_imem_word : Top → Top
unfolding imem_write
write_imem_word t = record t {
  imem_writes =
      t.imem_writes
      ++ imem_write (pair t.imem_addr_1_r t.imem_addr_0_r) (
          2 ^ 48 * pair t.imem_word_0_r t.imem_word_1_r
          + 2 ^ 32 * pair t.imem_word_2_r t.imem_word_3_r
          + 2 ^ 16 * pair t.imem_word_4_r t.imem_word_5_r
          + pair t.imem_word_6_r t.imem_word_7_r)
        ∷ [];
}

-- `dmem_wr_data_32_w`, at `ext_dmem_addr_i`, which is the lower byte of the address only.
unfoldable pub write_dmem_word : Top → Top
write_dmem_word t = record t {
  dmem =
      update t.dmem t.dmem_addr_0_r
        (2 ^ 16 * pair t.dmem_byte2_r t.dmem_byte3_r + pair t.dmem_byte0_r t.dmem_byte1_r);
}

-- The bytes of `dmem_read_tx_0` to `dmem_read_tx_3`.
unfoldable pub answer_bytes : ℕ → List ℕ
answer_bytes d = d / 2 ^ 8 % 256 ∷ d % 256 ∷ d / 2 ^ 24 % 256 ∷ d / 2 ^ 16 % 256 ∷ []

unfoldable pub answer : Top → Top
unfolding answer_bytes
answer t = record t { sent = t.sent ++ answer_bytes (t.dmem t.dmem_addr_0_r) }

unfoldable pub receive : ℕ → Top → Top
unfolding write_imem_word write_dmem_word answer
receive rx_byte t = elim t.state [
  | s_idle ↦
      if rx_byte == 0xc0
      then record t { state = s_write_imem_addr_0 }
      else if rx_byte == 0xc1
      then record t { state = s_write_dmem_addr_0 }
      else if rx_byte == 0xc4
      then record t { state = s_read_dmem_addr_0 }
      else if rx_byte == 0xc2
      then record t { core_rst_r = true }
      else if rx_byte == 0xc3
      then record t { core_rst_r = false }
      else t
  | s_write_imem_addr_0 ↦ record t { imem_addr_0_r = rx_byte; state = s_write_imem_addr_1 }
  | s_write_imem_addr_1 ↦ record t { imem_addr_1_r = rx_byte; state = s_write_imem_data_0 }
  | s_write_imem_data_0 ↦ record t { imem_word_0_r = rx_byte; state = s_write_imem_data_1 }
  | s_write_imem_data_1 ↦ record t { imem_word_1_r = rx_byte; state = s_write_imem_data_2 }
  | s_write_imem_data_2 ↦ record t { imem_word_2_r = rx_byte; state = s_write_imem_data_3 }
  | s_write_imem_data_3 ↦ record t { imem_word_3_r = rx_byte; state = s_write_imem_data_4 }
  | s_write_imem_data_4 ↦ record t { imem_word_4_r = rx_byte; state = s_write_imem_data_5 }
  | s_write_imem_data_5 ↦ record t { imem_word_5_r = rx_byte; state = s_write_imem_data_6 }
  | s_write_imem_data_6 ↦ record t { imem_word_6_r = rx_byte; state = s_write_imem_data_7 }
  | s_write_imem_data_7 ↦ write_imem_word (record t { imem_word_7_r = rx_byte; state = s_idle })
  | s_write_dmem_addr_0 ↦ record t { dmem_addr_0_r = rx_byte; state = s_write_dmem_addr_1 }
  | s_write_dmem_addr_1 ↦ record t { dmem_addr_1_r = rx_byte; state = s_write_dmem_data_0 }
  | s_write_dmem_data_0 ↦ record t { dmem_byte0_r = rx_byte; state = s_write_dmem_data_1 }
  | s_write_dmem_data_1 ↦ record t { dmem_byte1_r = rx_byte; state = s_write_dmem_data_2 }
  | s_write_dmem_data_2 ↦ record t { dmem_byte2_r = rx_byte; state = s_write_dmem_data_3 }
  | s_write_dmem_data_3 ↦ write_dmem_word (record t { dmem_byte3_r = rx_byte; state = s_idle })
  | s_read_dmem_addr_0 ↦ record t { dmem_addr_0_r = rx_byte; state = s_read_dmem_addr_1 }
  | s_read_dmem_addr_1 ↦ answer (record t { dmem_addr_1_r = rx_byte; state = s_idle })
]

unfoldable pub receive_all : List ℕ → Top → Top
unfolding receive
receive_all [] t = t
receive_all (b ∷ bs) t = receive_all bs (receive b t)

pub receive_all-++ :
    (xs ys : List ℕ) (t : Top) → receive_all (xs ++ ys) t ≡ receive_all ys (receive_all xs t)
unfolding receive_all
receive_all-++ [] ys t = refl
receive_all-++ (x ∷ xs) ys t = receive_all-++ xs ys (receive x t)

-- What a command has done to a receiver that waits for one.
pub record Done (t : Top) (writes : List ImemWrite) (dmem : Memory) (sent : List ℕ) : Type 0 where
  pub idle : t.state ≡ s_idle
  pub imem_written : t.imem_writes ≡ writes
  pub dmem_holds : t.dmem ≡ dmem
  pub has_sent : t.sent ≡ sent
