-- ===== src/Target/Debug.antt =====
-- sw/tools/target/wb_debug.c: the calls of `wb_debug_w32` and what they write, as a list of bytes
-- for the serial line or as lines for the hex file.
pub mod Receiver
pub mod Delivered
pub mod HexFile
pub mod Sweep
pub mod Swept
pub mod Patterns
pub mod Load
use ajardsp.Common.{ℕ, zero, suc, ◌+◌, ◌*◌, ◌/◌, bit_and, bit_or, u32, shl32, shr}
use ajardsp.Common.{
  List, [], ◌∷◌, ◌++◌, CString, codes, Outcome, good, fault, ◌>>=◌, ltb, ◌^◌, if◌then◌else◌,
}
use ajardsp.Target.Bytes.{int_bytes, hex_byte}

abbrev pub cmd_write : ℕ
cmd_write = 0xc1

abbrev pub cmd_read : ℕ
cmd_read = 0xc2

-- A call of `wb_debug_w32`.
pub record W32 : Type 0 where
  pub addr : ℕ
  pub word : ℕ

abbrev pub w32 : ℕ → ℕ → W32
w32 addr word = record { addr = addr; word = word }

-- `wb_debug_w32` without a hex file: the command, the address and the data.
unfoldable pub wb_debug_w32 : W32 → List ℕ
unfolding int_bytes
wb_debug_w32 w = cmd_write ∷ int_bytes w.addr ++ int_bytes w.word

-- The loop over the four bytes of a number from byte `i` on, with `left` rounds to go.
unfoldable pub hex_bytes : ℕ → ℕ → ℕ → List CString
unfolding hex_byte
hex_bytes zero i x = []
hex_bytes (suc left) i x =
    (hex_byte (bit_and 0xff (shr x (8 * i))) ++ codes "\n") ∷ hex_bytes left (i + 1) x

-- `wb_debug_w32` with a hex file: the lines that it prints.
unfoldable pub wb_debug_w32_hex : W32 → List CString
unfolding hex_byte hex_bytes
wb_debug_w32_hex w =
    (hex_byte cmd_write ++ codes "\n") ∷ hex_bytes 4 0 w.addr ++ hex_bytes 4 0 w.word

-- A sequence of calls.
unfoldable pub serial : List W32 → List ℕ
unfolding wb_debug_w32
serial [] = []
serial (w ∷ ws) = wb_debug_w32 w ++ serial ws

unfoldable pub hex_file : List W32 → List CString
unfolding wb_debug_w32_hex
hex_file [] = []
hex_file (w ∷ ws) = wb_debug_w32_hex w ++ hex_file ws

-- `wb_debug_r32`: what it writes before it reads the four bytes of the answer.
unfoldable pub wb_debug_r32 : ℕ → List ℕ
unfolding int_bytes
wb_debug_r32 addr = cmd_read ∷ int_bytes addr

unfoldable pub vga_from : ℕ → ℕ → List W32
vga_from zero i = []
vga_from (suc left) i = w32 (u32 (0xf0000000 + i)) 0x44444444 ∷ vga_from left (i + 1)

unfoldable pub vga_test : List W32
unfolding vga_from
vga_test = w32 0xf0010004 0x0 ∷ w32 0xf0010000 0x2 ∷ vga_from (320_000 / 4) 0

-- The value that `pat_mem` writes in round `i`: its last four bits eight times over.
unfoldable pub repeated : ℕ → ℕ
repeated nibble =
    bit_or
      (bit_or
        (bit_or
          (bit_or
            (bit_or (bit_or (bit_or (shl32 nibble 28) (shl32 nibble 24)) (shl32 nibble 20))
              (shl32 nibble 16))
            (shl32 nibble 12))
          (shl32 nibble 8))
        (shl32 nibble 4))
      (shl32 nibble 0)

unfoldable pub pattern_word : ℕ → ℕ
unfolding repeated
pattern_word i = repeated (bit_and i 0xf)

-- The loop of `pat_mem` from round `i` on; `4 * i` is an `int`, and a product that does not fit is a
-- fault.
unfoldable pub pat_from : ℕ → ℕ → ℕ → Outcome (List W32)
unfolding pattern_word
pat_from zero i addr = good []
pat_from (suc left) i addr =
    let rest = pat_from left (i + 1) addr in
    if ltb (4 * i) (2 ^ 31)
    then (rest >>= λ calls. good (w32 (u32 (addr + 4 * i)) (pattern_word i) ∷ calls))
    else fault

unfoldable pub pat_mem : ℕ → ℕ → Outcome (List W32)
unfolding pat_from
pat_mem addr len = pat_from (shr len 2) 0 addr

-- The loop of `fill_mem` from round `i` on, with the same product.
unfoldable pub fill_from : ℕ → ℕ → ℕ → ℕ → Outcome (List W32)
fill_from zero i addr value = good []
fill_from (suc left) i addr value =
    let rest = fill_from left (i + 1) addr value in
    if ltb (4 * i) (2 ^ 31)
    then (rest >>= λ calls. good (w32 (u32 (addr + 4 * i)) value ∷ calls))
    else fault

unfoldable pub fill_mem : ℕ → ℕ → ℕ → Outcome (List W32)
unfolding fill_from
fill_mem addr len value = fill_from len 0 addr value

-- The loop of `dump_mem` from offset `i` on, with `left` rounds to go: what it writes. The offset
-- is an `int`, and a sum that does not fit is a fault.
unfoldable pub dump_from : ℕ → ℕ → ℕ → Outcome (List ℕ)
unfolding wb_debug_r32
dump_from zero i addr = good []
dump_from (suc left) i addr =
    let rest = dump_from left (i + 4) addr in
    if ltb (i + 4) (2 ^ 31)
    then (rest >>= λ bytes. good (wb_debug_r32 (u32 (addr + i)) ++ bytes))
    else fault

-- The offset is compared with the length as `unsigned int`; it goes up by 4 from 0, so that there
-- are as many rounds as the length has fours or parts of them, if no sum overflows before.
unfoldable pub dump_mem : ℕ → ℕ → Outcome (List ℕ)
unfolding dump_from
dump_mem addr len = dump_from ((len + 3) / 4) 0 addr
