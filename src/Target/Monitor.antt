-- ===== src/Target/Monitor.antt =====
-- sw/tools/target/targetmon.c: what it writes to the serial line, and the file that
-- `target_read_dmem` makes of the answers. The files are open; a `length` below 0 is 0 here, since
-- the loops compare it with 0 only. `unset` is what `uinteger` holds when no
-- conversion sets it, by the address and the rounds left.
pub mod Receiver
pub mod Reset
pub mod Scans
pub mod Imem
pub mod Dmem
pub mod ReadBack
use ajardsp.Common.{ℕ, zero, suc, ◌+◌, ◌-◌, ◌*◌, ◌/◌, ◌%◌, u16, if◌then◌else◌, ◌==◌}
use ajardsp.Common.{Option, none, some, List, [], ◌∷◌, ◌++◌, CString, codes, length}
use ajardsp.Target.Bytes.{short_bytes, hex_byte}
use ajardsp.Target.Scan.{Stream, set_or, scan_hex}

abbrev pub cmd_write_imem : ℕ
cmd_write_imem = 0xc0

abbrev pub cmd_write_dmem : ℕ
cmd_write_dmem = 0xc1

abbrev pub cmd_reset : ℕ
cmd_reset = 0xc2

abbrev pub cmd_start : ℕ
cmd_start = 0xc3

abbrev pub cmd_read_dmem : ℕ
cmd_read_dmem = 0xc4

-- The loop of `target_reset`.
unfoldable pub resets : ℕ → List ℕ
resets zero = []
resets (suc left) = cmd_reset ∷ resets left

unfoldable pub target_reset : List ℕ
unfolding resets
target_reset = resets 16

unfoldable pub target_start : List ℕ
target_start = cmd_start ∷ []

-- One call of `fscanf` with `count` times `%02x`: the numbers that it sets, up to the first failure.
pub record Numbers : Type 0 where
  pub numbers : List ℕ
  pub stream : Stream

unfoldable pub number_before : Option ℕ → Stream → Numbers → Numbers
number_before none fp rest = record { numbers = []; stream = fp }
number_before (some v) fp rest = record { numbers = v ∷ rest.numbers; stream = rest.stream }

unfoldable pub scan_bytes : ℕ → Stream → Numbers
unfolding scan_hex number_before
scan_bytes zero fp = record { numbers = []; stream = fp }
scan_bytes (suc count) fp =
    let a = scan_hex 2 fp in number_before a.value a.stream (scan_bytes count a.stream)

unfoldable pub as_bytes : List ℕ → List ℕ
as_bytes [] = []
as_bytes (x ∷ xs) = x % 256 ∷ as_bytes xs

-- The loop of `target_write_dmem`, with two words a round.
unfoldable pub write_dmem : ℕ → ℕ → Stream → List ℕ
unfolding scan_bytes as_bytes short_bytes
write_dmem zero addr fp = []
write_dmem (suc left) addr fp =
    let four = scan_bytes 4 fp in
    let rest = write_dmem left (u16 (addr + 2)) four.stream in
    let sent =
      if length four.numbers == 4
      then cmd_write_dmem ∷ short_bytes addr ++ as_bytes four.numbers
      else [] in
    if fp.eof then [] else sent ++ rest

unfoldable pub target_write_dmem : Stream → ℕ → List ℕ
unfolding write_dmem
target_write_dmem fp length = write_dmem ((length + 1) / 2) 0 fp

-- The inner loop of `target_write_imem`.
unfoldable pub imem_bytes : ℕ → (ℕ → ℕ) → Stream → Numbers
unfolding scan_hex
imem_bytes zero unset fp = record { numbers = []; stream = fp }
imem_bytes (suc left) unset fp =
    let a = scan_hex 2 fp in
    let rest = imem_bytes left unset a.stream in
    record { numbers = set_or a.value (unset left) % 256 ∷ rest.numbers; stream = rest.stream }

-- The loop of `target_write_imem`, with one line a round.
unfoldable pub write_imem : ℕ → (ℕ → ℕ → ℕ) → ℕ → Stream → List ℕ
unfolding imem_bytes short_bytes
write_imem zero unset addr fp = []
write_imem (suc left) unset addr fp =
    let line = imem_bytes 8 (unset addr) fp in
    let rest = write_imem left unset (u16 (addr + 1)) line.stream in
    if fp.eof then [] else cmd_write_imem ∷ short_bytes addr ++ line.numbers ++ rest

unfoldable pub target_write_imem : (ℕ → ℕ → ℕ) → Stream → ℕ → List ℕ
unfolding write_imem
target_write_imem unset fp length = write_imem (length / 4) unset 0 fp

-- The first loop of `target_read_dmem`: what it writes, and what it prints of the answers.
unfoldable pub read_dmem : ℕ → ℕ → List ℕ
unfolding short_bytes
read_dmem zero addr = []
read_dmem (suc left) addr = cmd_read_dmem ∷ short_bytes addr ++ read_dmem left (u16 (addr + 2))

unfoldable pub answer_lines : List ℕ → List CString
unfolding hex_byte
answer_lines (a ∷ b ∷ c ∷ d ∷ rest) =
    (hex_byte a ++ hex_byte b ++ codes "\n")
    ∷ (hex_byte c ++ hex_byte d ++ codes "\n")
    ∷ answer_lines rest
answer_lines _ = []

-- The second loop.
unfoldable pub dead_lines : ℕ → List CString
dead_lines zero = []
dead_lines (suc left) = codes "dead\n" ∷ dead_lines left

unfoldable pub target_read_dmem : ℕ → List ℕ
unfolding read_dmem
target_read_dmem read_length = read_dmem (read_length / 2) 0

unfoldable pub target_read_dmem_file : List ℕ → ℕ → ℕ → List CString
unfolding answer_lines dead_lines
target_read_dmem_file answers read_length file_length =
    answer_lines answers ++ dead_lines (file_length - read_length)
