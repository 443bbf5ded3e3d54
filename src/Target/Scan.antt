-- ===== src/Target/Scan.antt =====
-- `fscanf` with `%0Nx` on a stream of bytes, as the tools of sw/tools/target use it. The files that
-- are read hold digits and white space only: a sign or a prefix 0x stops a number here.
use ajardsp.Common.{ℕ, zero, suc, ◌+◌, ◌*◌, ◌==◌, leb, Bool, true, false, ◌&&◌, ◌||◌, if◌then◌else◌}
use ajardsp.Common.{Option, none, some, List, [], ◌∷◌}
use ajardsp.Disasm.{hex_value}

-- The bytes that are left, and the indicator that `feof` tells: a read has met the end.
pub record Stream : Type 0 where
  pub rest : List ℕ
  pub eof : Bool

abbrev pub is_blank : ℕ → Bool
is_blank c = c == b' ' || (leb 9 c && leb c 13)

abbrev pub is_hex : ℕ → Bool
is_hex c = (leb b'0' c && leb c b'9') || (leb b'a' c && leb c b'f') || (leb b'A' c && leb c b'F')

unfoldable pub skip_blanks : List ℕ → List ℕ
skip_blanks [] = []
skip_blanks (c ∷ s) = let rest = skip_blanks s in if is_blank c then rest else c ∷ s

-- The result of a conversion: nothing when it fails.
pub record Scanned : Type 0 where
  pub value : Option ℕ
  pub stream : Stream

-- At most `width` more digits.
unfoldable pub scan_digits : ℕ → ℕ → List ℕ → Scanned
unfolding hex_value
scan_digits zero acc s = record { value = some acc; stream = record { rest = s; eof = false } }
scan_digits (suc width) acc [] = record {
  value = some acc;
  stream = record { rest = []; eof = true };
}
scan_digits (suc width) acc (c ∷ s) =
    let more = scan_digits width (acc * 16 + hex_value c) s in
    if is_hex c
    then more
    else record { value = some acc; stream = record { rest = c ∷ s; eof = false } }

-- A number of at most `width` digits, which is not zero, behind white space.
unfoldable pub scan_from : ℕ → List ℕ → Scanned
unfolding scan_digits
scan_from width [] = record { value = none; stream = record { rest = []; eof = true } }
scan_from width (c ∷ s) =
    if is_hex c
    then scan_digits width 0 (c ∷ s)
    else record { value = none; stream = record { rest = c ∷ s; eof = false } }

unfoldable pub scan_hex : ℕ → Stream → Scanned
unfolding scan_from skip_blanks
scan_hex width st = scan_from width (skip_blanks st.rest)

-- Two numbers in one call; the second is not read when the first fails.
pub record Two : Type 0 where
  pub first : Option ℕ
  pub second : Option ℕ
  pub stream : Stream

-- What follows the first conversion.
unfoldable pub scan_second : ℕ → Scanned → Two
unfolding scan_hex
scan_second width a =
    let b = scan_hex width a.stream in
    elim a.value [
      | none ↦ record { first = none; second = none; stream = a.stream }
      | some v ↦ record { first = some v; second = b.value; stream = b.stream }
    ]

unfoldable pub scan_two : ℕ → Stream → Two
unfolding scan_second scan_hex
scan_two width st = scan_second width (scan_hex width st)

-- What a variable holds after a conversion, by what it holds when that fails.
abbrev pub set_or : Option ℕ → ℕ → ℕ
set_or none unset = unset
set_or (some value) unset = value
