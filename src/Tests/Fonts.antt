-- ===== src/Tests/Fonts.antt =====
-- The font generator: the theorems at concrete inputs.
use ajardsp.Common.{
  false, zero, suc, Bool, leb, ◌&&◌, ℕ, ◌==◌, ◌≡◌, refl, if◌then◌else◌, Option, some, none, List,
  [], ◌∷◌, CString, codes,
}
use ajardsp.Font.{init_lines, init_line, fread, Unset, usage, options, main}

abbrev any_isprint : ℕ → Bool
any_isprint k = leb 32 k && leb k 126

abbrev zeros : ℕ → List ℕ
zeros zero = []
zeros (suc n) = 0 ∷ zeros n

abbrev nothing_set : Unset
nothing_set = record { psf1_h = λ i. 0; buf = λ k i. 0; character = zeros 128 }

abbrev small_font : List ℕ
small_font = 54 ∷ 4 ∷ 0 ∷ 16 ∷ 165 ∷ 60 ∷ 255 ∷ []

abbrev font_files : CString → Option (List ℕ)
font_files [] = none
font_files (c ∷ name) = if c == b'f' then some small_font else none

-- With the arguments the other way round, the option is opened as the file.
other_order : main any_isprint font_files nothing_set (codes "-i" ∷ codes "font" ∷ []) ≡ usage
unfolding main options
other_order = refl

-- A full row is followed by a line of bytes that no read has set.
full_row_twice :
    init_lines 3 (λ k i. 0) 0 false (zeros 32) ≡ init_lines 3 (λ k i. 0) 0 false (zeros 33)
unfolding init_lines fread init_line
full_row_twice = refl
