-- ===== src/Asm/Output.antt =====
-- The files that `output_hex` of sw/tools/asm/asm.c and `symtab_output_mapfile` of symtab.c print,
-- as lists of lines. A line is the list of its bytes, the newline included.
use ajardsp.Common.{ℕ, zero, suc, ◌+◌, ◌-◌, ◌/◌, ◌%◌, ◌^◌, Bool, ltb, if◌then◌else◌}
use ajardsp.Common.{List, [], ◌∷◌, ◌++◌, CString, codes, Memory}
use ajardsp.Asm.Symtab.{Symtab}
use ajardsp.Asm.Passes.{AsmState}

unfoldable pub hex_digit : ℕ → ℕ
hex_digit n = if ltb n 10 then n + b'0' else n - 10 + b'a'

-- `%04x` of a number that has at most four digits, as all words and addresses do.
unfoldable pub hex_word : ℕ → CString
unfolding hex_digit
hex_word w =
    hex_digit (w / 16 ^ 3 % 16)
    ∷ hex_digit (w / 16 ^ 2 % 16)
    ∷ hex_digit (w / 16 % 16)
    ∷ hex_digit (w % 16)
    ∷ []

-- How many words are printed.
abbrev pub fill : Bool → ℕ → ℕ
fill option_fill_mems addr = if option_fill_mems then 2 ^ 16 else addr

-- The loop over the data memory from `i` on, with `left` rounds to go.
unfoldable pub dmem_lines : ℕ → ℕ → Memory → List CString
unfolding hex_word
dmem_lines zero i dmem = []
dmem_lines (suc left) i dmem = (hex_word (dmem i) ++ codes "\n") ∷ dmem_lines left (i + 1) dmem

-- The loop over the instruction memory, four words a round, the highest address first.
unfoldable pub imem_lines : ℕ → ℕ → Memory → List CString
unfolding hex_word
imem_lines zero i imem = []
imem_lines (suc left) i imem =
    (hex_word (imem (i + 3))
      ++ hex_word (imem (i + 2))
      ++ hex_word (imem (i + 1))
      ++ hex_word (imem (i + 0))
      ++ codes "\n")
    ∷ imem_lines left (i + 4) imem

-- `%-32s`.
unfoldable pub pad_name : ℕ → CString → CString
pad_name zero name = name
pad_name (suc left) [] = b' ' ∷ pad_name left []
pad_name (suc left) (c ∷ name) = c ∷ pad_name left name

unfoldable pub symtab_output_mapfile : Symtab → List CString
unfolding hex_word pad_name
symtab_output_mapfile [] = []
symtab_output_mapfile (node ∷ rest) =
    (pad_name 32 node.name ++ codes " 0x" ++ hex_word node.address ++ codes "\n")
    ∷ symtab_output_mapfile rest

pub record HexFiles : Type 0 where
  pub dmem_file : List CString
  pub imem_file : List CString
  pub map_file : List CString

unfoldable pub output_hex : Bool → AsmState → HexFiles
unfolding dmem_lines imem_lines symtab_output_mapfile
output_hex option_fill_mems st = record {
  dmem_file = dmem_lines (fill option_fill_mems st.dmem_addr) 0 st.dmem;
  imem_file = imem_lines ((fill option_fill_mems st.imem_addr + 3) / 4) 0 st.imem;
  map_file = symtab_output_mapfile st.symtab;
}
