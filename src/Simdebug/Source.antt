-- ===== src/Simdebug/Source.antt =====
-- `Source_Init` of debug-gui.c: the file of the line numbers, and the lines of the source file with
-- their addresses. `unset` is what `lineno_info` holds where
-- no conversion has set it.
pub mod Listing
use ajardsp.Common.{
  ℕ, zero, suc, ◌+◌, ◌-◌, ◌*◌, ◌==◌, leb, ltb, ◌&&◌, not, if◌then◌else◌, Bool, true, false, Option,
  none, some, List, [], ◌∷◌, ◌++◌, CString, length, Outcome, good, fault, ◌>>=◌,
}
use ajardsp.Disasm.{hex_value}
use ajardsp.Target.Scan.{set_or, is_hex, skip_blanks}
use ajardsp.Simdebug.Breakpoints.{SourceLine, no_address}

-- An entry of `lineno_info`.
pub record LinenoInfo : Type 0 where
  pub addr : ℕ
  pub lineno : ℕ

-- What one call of `fscanf` with "0x%x:%d\n" has set, and the characters that are left.
pub record Scan : Type 0 where
  pub addr : Option ℕ
  pub lineno : Option ℕ
  pub rest : List ℕ

abbrev pub scan : Option ℕ → Option ℕ → List ℕ → Scan
scan addr lineno rest = record { addr = addr; lineno = lineno; rest = rest }

-- The number that digits make, and what follows them.
pub record Digits : Type 0 where
  pub value : ℕ
  pub rest : List ℕ

unfoldable pub hex_digits : ℕ → List ℕ → Digits
unfolding hex_value
hex_digits acc [] = record { value = acc; rest = [] }
hex_digits acc (c ∷ s) =
    let more = hex_digits (acc * 16 + hex_value c) s in
    if is_hex c then more else record { value = acc; rest = c ∷ s }

abbrev pub is_decimal : ℕ → Bool
is_decimal c = leb b'0' c && leb c b'9'

unfoldable pub decimal_digits : ℕ → List ℕ → Digits
decimal_digits acc [] = record { value = acc; rest = [] }
decimal_digits acc (c ∷ s) =
    let more = decimal_digits (acc * 10 + (c - b'0')) s in
    if is_decimal c then more else record { value = acc; rest = c ∷ s }

-- `%d` and the newline of the format, which skips all blanks.
unfoldable pub scan_lineno : ℕ → List ℕ → Scan
unfolding skip_blanks decimal_digits
scan_lineno addr [] = scan (some addr) none []
scan_lineno addr (c ∷ s) =
    let d = decimal_digits 0 (c ∷ s) in
    if is_decimal c
    then scan (some addr) (some d.value) (skip_blanks d.rest)
    else scan (some addr) none (c ∷ s)

unfoldable pub scan_colon : ℕ → List ℕ → Scan
unfolding scan_lineno skip_blanks
scan_colon addr [] = scan (some addr) none []
scan_colon addr (c ∷ s) =
    if c == b':' then scan_lineno addr (skip_blanks s) else scan (some addr) none (c ∷ s)

unfoldable pub scan_addr : List ℕ → Scan
unfolding scan_colon hex_digits
scan_addr [] = scan none none []
scan_addr (c ∷ s) =
    let d = hex_digits 0 (c ∷ s) in
    if is_hex c then scan_colon d.value d.rest else scan none none (c ∷ s)

unfoldable pub scan_x : List ℕ → Scan
unfolding scan_addr skip_blanks
scan_x [] = scan none none []
scan_x (c ∷ s) = if c == b'x' then scan_addr (skip_blanks s) else scan none none (c ∷ s)

unfoldable pub scan_entry : List ℕ → Scan
unfolding scan_x
scan_entry [] = scan none none []
scan_entry (c ∷ s) = if c == b'0' then scan_x s else scan none none (c ∷ s)

-- `feof` after a call: each of its ways to end reads on until a character stops it or the end.
abbrev pub at_end : List ℕ → Bool
at_end [] = true
at_end (c ∷ s) = false

-- A conversion that sets an entry outside of `lineno_info`.
abbrev pub writes_outside : ℕ → Option ℕ → Bool
writes_outside index none = false
writes_outside index (some a) = leb 1024 index

abbrev pub entry_before :
    LinenoInfo → Option (Outcome (List LinenoInfo)) → Option (Outcome (List LinenoInfo))
entry_before info none = none
entry_before info (some o) = some (o >>= λ infos. good (info ∷ infos))

-- The loop, from entry `index` on; nothing when the fuel runs out.
unfoldable pub read_linenos : ℕ → (ℕ → LinenoInfo) → ℕ → List ℕ → Option (Outcome (List LinenoInfo))
unfolding scan_entry
read_linenos zero unset index s = none
read_linenos (suc fuel) unset index s =
    let e = scan_entry s in
    let info : LinenoInfo = record {
      addr = set_or e.addr (unset index).addr;
      lineno = set_or e.lineno (unset index).lineno;
    } in
    let more = read_linenos fuel unset (index + 1) e.rest in
    if writes_outside index e.addr
    then some fault
    else if at_end e.rest
    then some (good (info ∷ []))
    else entry_before info more

-- The loop over `lineno_info` for one line: the last entry of the line counts.
unfoldable pub line_addr : List LinenoInfo → ℕ → ℕ → ℕ
line_addr [] lineno addr = addr
line_addr (info ∷ infos) lineno addr =
    line_addr infos lineno (if info.lineno == lineno then info.addr else addr)

-- The lines of the source file, `left` of them, from line `lineno` on.
unfoldable pub source_lines : ℕ → List LinenoInfo → ℕ → List SourceLine
unfolding line_addr
source_lines zero infos lineno = []
source_lines (suc left) infos lineno =
    record { addr = line_addr infos lineno no_address; bp = false }
    ∷ source_lines left infos (lineno + 1)

-- `SourceFileLines`: its entry 0 is never set.
unfoldable pub source_file_lines : ℕ → List LinenoInfo → List SourceLine
unfolding source_lines
source_file_lines max infos = record { addr = 0; bp = false } ∷ source_lines max infos 1
