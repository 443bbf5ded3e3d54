-- ===== src/Disasm.antt =====
-- `disasm` and `str2int` of sw/tools/asm/disasm.c. The name that `sprintf` leaves in the buffer is
-- the result; `none` is `RES_BAD`.
pub mod Codes
pub mod Scan
pub mod Fields
pub mod Assembled
pub mod Bundles
pub mod Program
pub mod Listing
pub mod Hex
use ajardsp.Common.{
  ℕ, zero, suc, ◌+◌, ◌-◌, ◌*◌, ◌%◌, ◌^◌, bit_and, bit_or, ◌==◌, ltb, if◌then◌else◌,
}
use ajardsp.Common.{Option, none, some, List, [], ◌∷◌, CString, shl32, low_mask, not32}
use ajardsp.Asm.Types.{OperandDef, InstDef, inst_16, inst_32}
use ajardsp.Asm.Bundle.{operand_at}
use ajardsp.Asm.Insns.{ajardsp_insns}

-- The loop that builds the mask of a row's operands, with `left` rounds to go.
unfoldable pub build_mask : InstDef → ℕ → ℕ → ℕ → ℕ
build_mask d zero j mask = mask
build_mask d (suc left) j mask =
    let o = operand_at d j in
    build_mask d left (j + 1) (bit_or mask (shl32 (low_mask o.width) o.offset))

-- `mask` after `mask = ~mask`, and `pattern` with the size bit.
unfoldable pub compare_mask : InstDef → ℕ
unfolding build_mask
compare_mask d = not32 (build_mask d d.nr_operands 0 0)

unfoldable pub compare_pattern : InstDef → ℕ
compare_pattern d = elim d.size [ inst_32 ↦ bit_or d.pattern (shl32 1 1) | inst_16 ↦ d.pattern ]

-- Without the parallel bit, the predicate bits, and the upper half of a 16-bit instruction.
unfoldable pub clean_word : ℕ → ℕ
clean_word insn_word =
    let w = bit_and (bit_and insn_word (not32 (shl32 1 0))) 0x3fffffff in
    if bit_and w (shl32 1 1) == 0 then bit_and w 0x0000ffff else w

unfoldable pub scan_rows : List InstDef → ℕ → Option CString
unfolding compare_mask compare_pattern
scan_rows [] w = none
scan_rows (d ∷ rows) w =
    if bit_and w (compare_mask d) == compare_pattern d then some d.mnemonic else scan_rows rows w

unfoldable pub disasm : ℕ → Option CString
unfolding clean_word scan_rows
disasm insn_word = scan_rows ajardsp_insns (clean_word insn_word)

-- The value of a hexadecimal digit as `str2int` computes it, on an `unsigned char`.
unfoldable pub hex_value : ℕ → ℕ
hex_value c =
    let a = (c + 256 - b'0') % 256 in
    let b = if ltb 9 a then (a + 256 - 7) % 256 else a in
    if ltb 15 b then (b + 256 - 32) % 256 else b

-- The loop over the `len` characters of a string, on an `unsigned long long`.
unfoldable pub str2int_from : ℕ → List ℕ → ℕ
unfolding hex_value
str2int_from result [] = result
str2int_from result (c ∷ s) = str2int_from ((result * 16 + hex_value c) % 2 ^ 64) s

unfoldable pub str2int : List ℕ → ℕ
unfolding str2int_from
str2int s = str2int_from 0 s
