-- ===== src/Target/Debug/Receiver.antt =====
-- rtl/verilog/soc/wb_debug.v: what the board does with the bytes of the serial line. `receive` is
-- one byte, `rx_en`, in the process that keeps `state`; the bus transfer that the last byte of a
-- command starts is done before the next byte comes, which takes some thousand clock cycles.
use ajardsp.Common.{ℕ, List, [], ◌∷◌, ◌++◌, ◌==◌, if◌then◌else◌, Memory, update}
use ajardsp.Target.Bytes.{word_of, int_bytes}

pub data WbState : Type 0 where
  s_write_addr_0 s_write_addr_1 s_write_addr_2 s_write_addr_3 : WbState
  s_write_data_0 s_write_data_1 s_write_data_2 s_write_data_3 : WbState
  s_read_addr_0 s_read_addr_1 s_read_addr_2 s_read_addr_3 s_idle : WbState

-- `bus` is what the slaves on the bus hold, `sent` what went out on `uart_tx`.
pub record Receiver : Type 0 where
  pub state : WbState
  pub addr_0_r : ℕ
  pub addr_1_r : ℕ
  pub addr_2_r : ℕ
  pub addr_3_r : ℕ
  pub byte0_r : ℕ
  pub byte1_r : ℕ
  pub byte2_r : ℕ
  pub byte3_r : ℕ
  pub bus : Memory
  pub sent : List ℕ

-- `wb_adr_o` and `wb_dat_o`.
abbrev pub wb_adr : Receiver → ℕ
wb_adr r = word_of r.addr_0_r r.addr_1_r r.addr_2_r r.addr_3_r

abbrev pub wb_dat : Receiver → ℕ
wb_dat r = word_of r.byte0_r r.byte1_r r.byte2_r r.byte3_r

-- `WB_WRITE_0` to `WB_WRITE_2`, and `WB_READ_0` to `WB_READ_2` with `TX_0` to `TX_3`.
unfoldable pub bus_write : Receiver → Receiver
unfolding word_of
bus_write r = record r { bus = update r.bus (wb_adr r) (wb_dat r) }

unfoldable pub bus_read : Receiver → Receiver
unfolding word_of int_bytes
bus_read r = record r { sent = r.sent ++ int_bytes (r.bus (wb_adr r)) }

unfoldable pub receive : ℕ → Receiver → Receiver
unfolding bus_write bus_read
receive rx_byte r = elim r.state [
  | s_idle ↦
      if rx_byte == 0xc1
      then record r { state = s_write_addr_0 }
      else if rx_byte == 0xc2
      then record r { state = s_read_addr_0 }
      else r
  | s_write_addr_0 ↦ record r { addr_0_r = rx_byte; state = s_write_addr_1 }
  | s_write_addr_1 ↦ record r { addr_1_r = rx_byte; state = s_write_addr_2 }
  | s_write_addr_2 ↦ record r { addr_2_r = rx_byte; state = s_write_addr_3 }
  | s_write_addr_3 ↦ record r { addr_3_r = rx_byte; state = s_write_data_0 }
  | s_write_data_0 ↦ record r { byte0_r = rx_byte; state = s_write_data_1 }
  | s_write_data_1 ↦ record r { byte1_r = rx_byte; state = s_write_data_2 }
  | s_write_data_2 ↦ record r { byte2_r = rx_byte; state = s_write_data_3 }
  | s_write_data_3 ↦ bus_write (record r { byte3_r = rx_byte; state = s_idle })
  | s_read_addr_0 ↦ record r { addr_0_r = rx_byte; state = s_read_addr_1 }
  | s_read_addr_1 ↦ record r { addr_1_r = rx_byte; state = s_read_addr_2 }
  | s_read_addr_2 ↦ record r { addr_2_r = rx_byte; state = s_read_addr_3 }
  | s_read_addr_3 ↦ bus_read (record r { addr_3_r = rx_byte; state = s_idle })
]

unfoldable pub receive_all : List ℕ → Receiver → Receiver
unfolding receive
receive_all [] r = r
receive_all (b ∷ bs) r = receive_all bs (receive b r)
