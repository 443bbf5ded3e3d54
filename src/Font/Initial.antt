-- ===== src/Font/Initial.antt =====
-- The lines of genvgafonts.c, read as Verilog reads them, hold the bytes of the file.
use ajardsp.Common.{ℕ, zero, suc, ◌+◌, ◌-◌, ◌*◌, ◌/◌, ◌%◌, ◌≡◌, ltb, if◌then◌else◌}
use ajardsp.Common.{Option, some, List, [], ◌∷◌, length, get_elem?, CString}
use ajardsp.Font.{Read, fread, from_last, init_line}

-- The digit that a character stands for, in lower case.
unfoldable pub digit_value : ℕ → ℕ
digit_value c = if ltb c b'a' then c - b'0' else c - b'a' + 10

-- The number that hexadecimal digits stand for, behind those that have been read.
unfoldable pub hex_value : ℕ → CString → ℕ
unfolding digit_value
hex_value acc [] = acc
hex_value acc (c ∷ digits) = hex_value (acc * 16 + digit_value c) digits

-- The byte `i` of a number: its bits from 8 i on.
unfoldable pub value_byte : ℕ → ℕ → ℕ
value_byte v zero = v % 256
value_byte v (suc i) = value_byte (v / 256) i

-- The line at a position has a number, and its digits have a byte at an offset.
pub HasByte : List CString → ℕ → ℕ → ℕ → ℕ → Type 0
HasByte lines position number offset c =
    (digits : CString) × (get_elem? lines position ≡ some (init_line number digits))
    × (value_byte (hex_value 0 digits) offset ≡ c % 256)

-- A run comes to its end, with a line for every 32 bytes and one more, numbered from `k` on; each
-- byte of the file stands in the line of its row, at its offset in the row.
pub record HoldsBytes (result : Option (List CString)) (k : ℕ) (file : List ℕ) : Type 0 where
  pub lines : List CString
  pub gives : result ≡ some lines
  pub count : length lines ≡ length file / 32 + 1
  pub byte :
      (j : ℕ) {c : ℕ} → get_elem? file j ≡ some c → HasByte lines (j / 32) (k + j / 32) (j % 32) c

module _ (unset : ℕ → ℕ → ℕ) (k : ℕ) (file : List ℕ) where
  abbrev row : Read
  row = fread (unset k) 0 32 file

  abbrev row_line : CString
  row_line = init_line k (from_last row.buf)
