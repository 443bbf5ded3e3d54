-- ===== src/Disasm/Listing.antt =====
-- The loop of `main` in sw/tools/asm/disasm.c over the lines of a hex file.
use ajardsp.Common.{ℕ, zero, suc, ◌+◌, ◌%◌, ◌==◌, Bool, not, none, some, List, [], ◌∷◌}
use ajardsp.Common.{CString, char_at, u32, Memory}
use ajardsp.Disasm.{disasm, str2int}

-- What is printed for one word: its address, the word, the text, and whether ` | ` follows.
pub record Printed : Type 0 where
  pub addr : ℕ
  pub insn_word : ℕ
  pub text : CString
  pub parallel : Bool

-- `fgets` writes a line and its terminator; what lies behind them stays.
unfoldable pub read_line : CString → Memory → Memory
read_line s line i = elim (char_at s i) [ some c ↦ c | none ↦ line i ]

-- The `len` bytes at an offset of the buffer, which `str2int` reads.
unfoldable pub bytes_at : Memory → ℕ → ℕ → List ℕ
bytes_at line off zero = []
bytes_at line off (suc len) = line off ∷ bytes_at line (off + 1) len

-- A word that `disasm` does not know leaves the text of an earlier one in the buffer `distxt`.
unfoldable pub disasm_word : ℕ → ℕ → CString → Printed
unfolding disasm
disasm_word insn_word addr distxt = record {
  addr = addr;
  insn_word = insn_word;
  text = elim (disasm insn_word) [ some mnemonic ↦ mnemonic | none ↦ distxt ];
  parallel = not (insn_word % 2 == 0);
}

unfoldable pub disasm_lines : List CString → Memory → ℕ → CString → List Printed
unfolding read_line bytes_at disasm_word str2int
disasm_lines [] line addr distxt = []
disasm_lines (s ∷ rest) line addr distxt =
    let line' = read_line s line in
    let first = disasm_word (u32 (str2int (bytes_at line' 0 8))) addr distxt in
    let second = disasm_word (u32 (str2int (bytes_at line' 8 8))) (addr + 1) first.text in
    first ∷ second ∷ disasm_lines rest line' (addr + 2) second.text
