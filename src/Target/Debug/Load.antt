-- ===== src/Target/Debug/Load.antt =====
-- `target_load_imem` and `target_load_dmem` of sw/tools/target/wb_debug.c, once the file is open:
-- the calls of `wb_debug_w32` that they make. `unset` is what a variable holds that no conversion
-- has set, by the address that it is written to. A `length` below 0 is 0 here, since the code
-- compares it with 0 only. The loops run on fuel.
pub mod Ends
pub mod Lines
pub mod Imem
pub mod Dmem
pub mod Board
use ajardsp.Common.{
  ℕ, zero, suc, ◌+◌, ◌-◌, ◌*◌, ◌/◌, bit_or, u32, shl32, leb, ltb, if◌then◌else◌, not, ◌&&◌,
}
use ajardsp.Common.{Option, none, some, List, [], ◌∷◌, ◌++◌}
use ajardsp.Target.Scan.{set_or, Stream, Scanned, scan_hex, Two, scan_two}
use ajardsp.Target.Debug.{W32, w32}

abbrev pub before : List W32 → Option (List W32) → Option (List W32)
before ws none = none
before ws (some rest) = some (ws ++ rest)

-- A round of the loop reads two words, the one for the higher address first, and writes both,
-- unless the length is used up by then.
unfoldable pub load_imem : ℕ → (ℕ → ℕ) → Stream → ℕ → ℕ → Option (List W32)
unfolding scan_two
load_imem zero unset fp address length = none
load_imem (suc fuel) unset fp address length =
    let line = scan_two 8 fp in
    let low = w32 address (set_or line.second (unset address)) in
    let next = u32 (address + 4) in
    let high = w32 next (set_or line.first (unset next)) in
    let rest = load_imem fuel unset line.stream (u32 (next + 4)) (length - 4 - 4) in
    if fp.eof
    then some []
    else if leb (length - 4) 0
    then some (low ∷ [])
    else if leb (length - 4 - 4) 0
    then some (low ∷ high ∷ [])
    else before (low ∷ high ∷ []) rest

unfoldable pub target_load_imem : (ℕ → ℕ) → Stream → ℕ → ℕ → Option (List W32)
unfolding load_imem
target_load_imem unset fp address length = load_imem (length / 8 + 1) unset fp address length

unfoldable pub load_dmem : ℕ → (ℕ → ℕ) → Stream → ℕ → ℕ → Option (List W32)
unfolding scan_hex
load_dmem zero unset fp address length = none
load_dmem (suc fuel) unset fp address length =
    let low = scan_hex 4 fp in
    let high = scan_hex 4 low.stream in
    let complete =
      bit_or (shl32 (set_or high.value (unset (address + 2))) 16)
        (set_or low.value (unset address)) in
    let rest = load_dmem fuel unset high.stream (u32 (address + 4)) (length - 4) in
    if not fp.eof && ltb 0 length then before (w32 address complete ∷ []) rest else some []

unfoldable pub target_load_dmem : (ℕ → ℕ) → Stream → ℕ → ℕ → Option (List W32)
unfolding load_dmem
target_load_dmem unset fp address length = load_dmem ((length + 3) / 4 + 1) unset fp address length
