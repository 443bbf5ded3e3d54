-- ===== src/Target/Debug/HexFile.antt =====
-- The hex file of wb_debug.c holds the bytes that go out over the serial line.
use ajardsp.Common.{ℕ, ◌/◌, ◌%◌, ◌^◌, ◌≡◌, refl, ap, ap₂, ◌∙◌, sym, arith, bit_and, shr}
use ajardsp.Common.{List, [], ◌∷◌, ◌++◌, CString, codes}
use ajardsp.Bits.Laws.{bit_and_comm}
use ajardsp.Bits.Masks.{bit_and-low_mask}
use ajardsp.Target.Bytes.{int_bytes, hex_byte}
use ajardsp.Target.Debug.{
  W32, cmd_write, hex_bytes, wb_debug_w32, wb_debug_w32_hex, serial, hex_file,
}

-- Bytes, one on a line.
unfoldable pub byte_lines : List ℕ → List CString
unfolding hex_byte
byte_lines [] = []
byte_lines (b ∷ bs) = (hex_byte b ++ codes "\n") ∷ byte_lines bs

byte_lines-++ : (xs ys : List ℕ) → byte_lines (xs ++ ys) ≡ byte_lines xs ++ byte_lines ys
unfolding byte_lines
byte_lines-++ [] ys = refl
byte_lines-++ (x ∷ xs) ys = ap (λ l. (hex_byte x ++ codes "\n") ∷ l) (byte_lines-++ xs ys)

low_byte : (x : ℕ) → bit_and 0xff x ≡ x % 256
low_byte x = bit_and_comm 0xff x ∙ bit_and-low_mask 8 x

hex_bytes-int_bytes : (x : ℕ) → hex_bytes 4 0 x ≡ byte_lines (int_bytes x)
unfolding hex_bytes byte_lines int_bytes
hex_bytes-int_bytes x =
    let line : ℕ → CString = λ b. hex_byte b ++ codes "\n" in
    let four : ℕ → ℕ → ℕ → ℕ → List CString = λ a b c d. line a ∷ line b ∷ line c ∷ line d ∷ [] in
    ap₂ (λ a b. four a b (bit_and 0xff (shr x 16)) (bit_and 0xff (shr x 24)))
      (low_byte (shr x 0) ∙ omega arith) (low_byte (shr x 8))
    ∙ ap₂ (λ c d. four (x % 256) (x / 2 ^ 8 % 256) c d) (low_byte (shr x 16)) (low_byte (shr x 24))

one_call : (w : W32) → wb_debug_w32_hex w ≡ byte_lines (wb_debug_w32 w)
unfolding wb_debug_w32_hex wb_debug_w32 byte_lines
one_call w =
    ap (λ l. (hex_byte cmd_write ++ codes "\n") ∷ l)
      (ap₂ (λ a b. a ++ b) (hex_bytes-int_bytes w.addr) (hex_bytes-int_bytes w.word)
        ∙ sym (byte_lines-++ (int_bytes w.addr) (int_bytes w.word)))

-- For every sequence of calls of `wb_debug_w32`, the lines that they print into a hex file are
-- the bytes that they write to the serial line without one, in the same order, one on a line.
pub hex_file-serial : (ws : List W32) → hex_file ws ≡ byte_lines (serial ws)
unfolding hex_file serial byte_lines
hex_file-serial [] = refl
hex_file-serial (w ∷ ws) =
    ap₂ (λ a b. a ++ b) (one_call w) (hex_file-serial ws)
    ∙ sym (byte_lines-++ (wb_debug_w32 w) (serial ws))
