-- ===== src/Font.antt =====
-- sw/tools/misc/genvgafonts.c: a font file as the initial values of a block memory, or drawn.
pub mod Initial
pub mod Rows
pub mod Drawn
use ajardsp.Common.{ℕ, zero, suc, ◌+◌, ◌-◌, ◌/◌, ◌%◌, Bool, true, false, ltb, ◌==◌, ◌&&◌, ◌||◌, not}
use ajardsp.Common.{if◌then◌else◌, Option, none, some, List, [], ◌∷◌, ◌++◌, length, CString, codes}
use ajardsp.Common.{Outcome, good, fault, ◌>>=◌, ◌^◌}
use ajardsp.Common.{get_or}
use ajardsp.Target.Bytes.{hex_byte}

-- What a read leaves: the buffer, the bytes that are still to be read, and `feof`.
pub record Read : Type 0 where
  pub buf : List ℕ
  pub rest : List ℕ
  pub eof : Bool

-- `fread` of `n` bytes into a buffer from its position `i` on. The buffer was not set before: where
-- the file is at its end, it holds whatever `unset` says.
unfoldable pub fread : (ℕ → ℕ) → ℕ → ℕ → List ℕ → Read
fread unset i zero file = record { buf = []; rest = file; eof = false }
fread unset i (suc n) [] = record {
  buf = unset i ∷ (fread unset (i + 1) n []).buf;
  rest = [];
  eof = true;
}
fread unset i (suc n) (c ∷ file) =
    let r = fread unset (i + 1) n file in record { buf = c ∷ r.buf; rest = r.rest; eof = r.eof }

-- `%02X` of a number of at most so many digits.
abbrev upper_digit : ℕ → ℕ
upper_digit n = if ltb n 10 then n + b'0' else n - 10 + b'A'

unfoldable pub upper_hex : ℕ → ℕ → CString
upper_hex zero k = []
upper_hex (suc digits) k =
    let high = upper_hex digits (k / 16) in
    if ltb k 256
    then upper_digit (k / 16) ∷ upper_digit (k % 16) ∷ []
    else high ++ (upper_digit (k % 16) ∷ [])

-- The loop that prints the buffer from its last byte to its first.
unfoldable pub from_last : List ℕ → CString
from_last [] = []
from_last (b ∷ buf) = from_last buf ++ hex_byte b

-- The line number `k` with its digits; `k` is an `int`, which has at most eight digits.
unfoldable pub init_line : ℕ → CString → CString
unfolding upper_hex
init_line k digits = codes ".INIT_" ++ upper_hex 8 k ++ codes "(256'h" ++ digits ++ codes "),\n"

unfoldable pub line_before : CString → Option (List CString) → Option (List CString)
line_before line none = none
line_before line (some rest) = some (line ∷ rest)

-- The loop over the rows of 32 bytes. `unset k` is what the buffer holds before the row `k` is
-- read. `none` says that the fuel is used up.
unfoldable pub init_lines : ℕ → (ℕ → ℕ → ℕ) → ℕ → Bool → List ℕ → Option (List CString)
unfolding fread from_last init_line line_before
init_lines zero unset k eof file = none
init_lines (suc fuel) unset k eof file =
    let r = fread (unset k) 0 32 file in
    let rest = init_lines fuel unset (k + 1) r.eof r.rest in
    if eof then some [] else line_before (init_line k (from_last r.buf)) rest

-- `fread` of `n` bytes into a buffer that keeps its bytes where the file is at its end. A byte that
-- is stored behind the buffer is a fault.
unfoldable pub fread_over : ℕ → List ℕ → List ℕ → Outcome Read
fread_over zero file buf = good (record { buf = buf; rest = file; eof = false })
fread_over (suc n) [] buf = good (record { buf = buf; rest = []; eof = true })
fread_over (suc n) (c ∷ file) [] = fault
fread_over (suc n) (c ∷ file) (b ∷ buf) =
    fread_over n file buf >>= λ r. good (record { buf = c ∷ r.buf; rest = r.rest; eof = r.eof })

-- A row of a character, from the highest bit to the lowest.
abbrev pub pixel : ℕ → ℕ → ℕ
pixel row j = if row / 2 ^ (7 - j) % 2 == 1 then b'X' else b' '

unfoldable pub pixels : ℕ → CString
pixels row =
    pixel row 0
    ∷ pixel row 1
    ∷ pixel row 2
    ∷ pixel row 3
    ∷ pixel row 4
    ∷ pixel row 5
    ∷ pixel row 6
    ∷ pixel row 7
    ∷ []

-- The rows of a character; one behind the buffer is a fault.
unfoldable pub drawn : ℕ → List ℕ → Outcome (List CString)
unfolding pixels
drawn zero buf = good []
drawn (suc left) [] = fault
drawn (suc left) (row ∷ buf) = drawn left buf >>= λ rows. good (pixels row ∷ rows)

-- What is printed of a character: its number, itself or a blank, and its rows.
pub record Glyph : Type 0 where
  pub number : ℕ
  pub shown : ℕ
  pub rows : List CString

abbrev pub glyph_before : Glyph → Option (List Glyph) → Option (List Glyph)
glyph_before g none = none
glyph_before g (some rest) = some (g ∷ rest)

-- The loop over the characters; `isprint` is that of the locale. `none` says that the fuel is used
-- up. The variable `l` is 0 throughout and left out.
unfoldable pub glyphs :
    ℕ → (ℕ → Bool) → ℕ → ℕ → Bool → List ℕ → List ℕ → Outcome (Option (List Glyph))
unfolding fread_over drawn
glyphs zero isprint charsize k eof buf file = good none
glyphs (suc fuel) isprint charsize k eof buf file = elim eof [
  | true ↦ good (some [])
  | false ↦ fread_over charsize file buf >>= λ r. drawn charsize r.buf >>= λ rows.
      glyphs fuel isprint charsize (k + 1) r.eof r.buf r.rest >>= λ rest. good (
        glyph_before (record { number = k; shown = if isprint k then k else b' '; rows = rows })
          rest)
]

-- How a run ends: with the usage or the message that the file is no font, which both exit with 1,
-- or with the size of a character and the lines, or without -i the characters.
pub data Run : Type 0 where
  usage : Run
  not_psf1 : Run
  initial : (charsize : ℕ) (lines : Option (List CString)) → Run
  bitmaps : (charsize : ℕ) (drawing : Outcome (Option (List Glyph))) → Run

-- The loop over the arguments: every argument that does not begin with `-` opens the first one,
-- and the option is any that begins with `-i`.
pub record Options : Type 0 where
  pub fp : Option (List ℕ)
  pub opt_init : Bool

unfoldable pub options :
    (fopen : CString → Option (List ℕ)) (first : CString) → List CString → Options → Options
options fopen first [] o = o
options fopen first (arg ∷ args) o = options fopen first args (
    if get_or arg 0 0 == b'-'
    then (if get_or arg 1 0 == b'i' then record { fp = o.fp; opt_init = true } else o)
    else record { fp = fopen first; opt_init = o.opt_init })

-- What the variables of `main` hold before they are set.
pub record Unset : Type 0 where
  pub psf1_h : ℕ → ℕ
  pub buf : ℕ → ℕ → ℕ
  pub character : List ℕ

-- What follows when the header is read into `header`.
unfoldable pub after_header : (ℕ → Bool) → Bool → Unset → Read → Run
unfolding init_lines glyphs
after_header isprint opt_init unset header =
    if not (get_or header.buf 0 0 == 54) || not (get_or header.buf 1 0 == 4)
    then not_psf1
    else (if opt_init
        then initial (get_or header.buf 3 0)
            (init_lines (length header.rest / 32 + 2) unset.buf 0 header.eof header.rest)
        else bitmaps (get_or header.buf 3 0) (
            glyphs (length header.rest + 2) isprint (get_or header.buf 3 0) 0 header.eof
              unset.character header.rest))

unfoldable pub read_font : (ℕ → Bool) → Bool → Unset → Option (List ℕ) → Run
unfolding fread after_header
read_font isprint opt_init unset none = usage
read_font isprint opt_init unset (some file) =
    after_header isprint opt_init unset (fread unset.psf1_h 0 4 file)

unfoldable pub main :
    (isprint : ℕ → Bool) → (CString → Option (List ℕ)) → Unset → List CString → Run
unfolding options read_font
main isprint fopen unset args =
    let o = options fopen (get_or args 0 []) args (record { fp = none; opt_init = false }) in
    read_font isprint o.opt_init unset o.fp
