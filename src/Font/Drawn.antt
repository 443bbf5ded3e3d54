-- ===== src/Font/Drawn.antt =====
-- The characters that genvgafonts.c draws show the bytes of the file.
use ajardsp.Common.{ℕ, zero, suc, ◌+◌, ◌%◌, ◌<◌, ◌≡◌, refl, Bool, false}
use ajardsp.Common.{Option, none, some, List, length, get_elem?, CString, Outcome, good}
use ajardsp.Font.{Glyph, fread_over, drawn, glyphs}
use ajardsp.Font.Rows.{row_value, drop}

-- The bytes behind the first `g` characters of `n` rows.
unfoldable pub behind : ℕ → ℕ → List ℕ → List ℕ
unfolding drop
behind zero n file = file
behind (suc g) n file = behind g n (drop n file)

-- A character has a number, and one of its rows shows a byte.
pub Shows : List Glyph → ℕ → ℕ → ℕ → ℕ → Type 0
Shows drawing g number i c =
    (glyph : Glyph) × (row : CString) × (get_elem? drawing g ≡ some glyph)
    × (glyph.number ≡ number)
    × (get_elem? glyph.rows i ≡ some row)
    × (row_value 0 row ≡ c % 256)

-- A drawing comes to its end, with `m` characters of `n` rows each, numbered from `k` on, and each
-- byte of the file is shown by its row of its character.
pub record DrawsBytes (result : Outcome (Option (List Glyph))) (m n k : ℕ) (file : List ℕ)
    : Type 0 where
  pub drawing : List Glyph
  pub gives : result ≡ good (some drawing)
  pub count : length drawing ≡ m
  pub sizes :
      (g : ℕ) {glyph : Glyph}
      → get_elem? drawing g ≡ some glyph
      → (glyph.number ≡ k + g) × (length glyph.rows ≡ n)
  pub shows :
      (g i c : ℕ) → i < n → get_elem? (behind g n file) i ≡ some c → Shows drawing g (k + g) i c

-- A font whose characters have no rows is drawn without end, whatever the fuel: no read comes short.
no_rows_forever :
    (fuel : ℕ) (isprint : ℕ → Bool) (k : ℕ) (file buf : List ℕ)
    → glyphs fuel isprint 0 k false buf file ≡ good none
unfolding glyphs fread_over drawn
no_rows_forever zero isprint k file buf = refl
no_rows_forever (suc fuel) isprint k file buf =
    rw (no_rows_forever fuel isprint (k + 1) file buf) refl
