-- ===== src/Target/Debug/Load/Lines.antt =====
-- `fscanf` with `%04x` and `%08x` reads back words that `%04x` has printed.
use ajardsp.Common.{
  Memory, zero, CString, ℕ, suc, ◌+◌, ◌*◌, ◌/◌, ◌%◌, ◌^◌, ◌<◌, ◌≡◌, refl, ap, ◌∙◌, arith,
}
use ajardsp.Common.{true, false, some, List, [], ◌∷◌, ◌++◌}
use ajardsp.Common.{check_below, check_below_sound, not, ◌&&◌, and-split, if◌then◌else◌}
use ajardsp.Asm.Output.{hex_digit, hex_word, imem_lines, dmem_lines}
use ajardsp.Disasm.Hex.{hex_value-hex_digit}
use ajardsp.Target.Scan.{
  Stream, Scanned, is_hex, is_blank, skip_blanks, scan_digits, scan_from, scan_hex,
}

-- A stream with characters left to read.
abbrev pub stream : List ℕ → Stream
stream s = record { rest = s; eof = false }

-- The characters of a file that is printed line by line.
unfoldable pub contents : List CString → List ℕ
contents [] = []
contents (line ∷ rest) = line ++ contents rest

-- A conversion that has succeeded.
abbrev pub scanned : ℕ → List ℕ → Scanned
scanned value s = record { value = some value; stream = stream s }

digits_checked : check_below 16 (λ d. is_hex (hex_digit d) && not (is_blank (hex_digit d))) ≡ true
unfolding check_below hex_digit
digits_checked = refl

pub hex_digit-is_hex : (d : ℕ) → d < 16 → is_hex (hex_digit d) ≡ true
hex_digit-is_hex d h =
    (and-split _ _ (
      check_below_sound 16 (λ d. is_hex (hex_digit d) && not (is_blank (hex_digit d))) d
        digits_checked h)).0

hex_digit-not_blank : (d : ℕ) → d < 16 → is_blank (hex_digit d) ≡ false
hex_digit-not_blank d h =
    let both = and-split (is_hex (hex_digit d)) (not (is_blank (hex_digit d))) (
      check_below_sound 16 (λ d. is_hex (hex_digit d) && not (is_blank (hex_digit d))) d
        digits_checked h) in
    ground (arith, both.1)

pub skip_blanks-hex_digit :
    (d : ℕ) (s : List ℕ) → d < 16 → skip_blanks (hex_digit d ∷ s) ≡ hex_digit d ∷ s
unfolding skip_blanks
skip_blanks-hex_digit d s h =
    ap (λ b. if b then skip_blanks s else hex_digit d ∷ s) (hex_digit-not_blank d h)

pub one_digit :
    (width acc d : ℕ) (s : List ℕ)
    → d < 16
    → scan_digits (suc width) acc (hex_digit d ∷ s) ≡ scan_digits width (acc * 16 + d) s
unfolding scan_digits
one_digit width acc d s h = rw (hex_digit-is_hex d h, hex_value-hex_digit d h)

-- Four digits of at least as many.
scan_digits-hex_word :
    (width acc w : ℕ) (s : List ℕ)
    → w < 2 ^ 16
    → scan_digits (suc (suc (suc (suc width)))) acc (hex_word w ++ s)
      ≡ scan_digits width (acc * 2 ^ 16 + w) s
unfolding hex_word
scan_digits-hex_word width acc w s h =
    let r₁ = acc * 16 + w / 16 ^ 3 % 16 in
    let r₂ = r₁ * 16 + w / 16 ^ 2 % 16 in
    let r₃ = r₂ * 16 + w / 16 % 16 in
    one_digit (suc (suc (suc width))) acc (w / 16 ^ 3 % 16) _ (omega arith)
    ∙ one_digit (suc (suc width)) r₁ (w / 16 ^ 2 % 16) _ (omega arith)
    ∙ one_digit (suc width) r₂ (w / 16 % 16) _ (omega arith)
    ∙ one_digit width r₃ (w % 16) _ (omega arith)
    ∙ ap (λ (t : ℕ). scan_digits width t s) (omega arith)

pub skip_blanks-hex_word : (w : ℕ) (s : List ℕ) → skip_blanks (hex_word w ++ s) ≡ hex_word w ++ s
unfolding hex_word
skip_blanks-hex_word w s = skip_blanks-hex_digit (w / 16 ^ 3 % 16) _ (omega arith)

scan_from-hex_word :
    (width w : ℕ) (s : List ℕ)
    → scan_from width (hex_word w ++ s) ≡ scan_digits width 0 (hex_word w ++ s)
unfolding scan_from hex_word
scan_from-hex_word width w s = rw (hex_digit-is_hex (w / 16 ^ 3 % 16) (omega arith))

-- `%04x` of a word behind blanks.
pub scan_hex-word :
    (fp : Stream) (w : ℕ) (s : List ℕ)
    → skip_blanks fp.rest ≡ hex_word w ++ s
    → w < 2 ^ 16
    → scan_hex 4 fp ≡ scanned w s
unfolding scan_hex
scan_hex-word fp w s starts h =
    ap (scan_from 4) starts
    ∙ scan_from-hex_word 4 w s
    ∙ scan_digits-hex_word 0 0 w s h
    ∙ unfold scan_digits in ap (λ v. scanned v s) (omega arith)

-- `%08x` of two words behind blanks, the upper one first.
pub scan_hex-two_words :
    (fp : Stream) (a b : ℕ) (s : List ℕ)
    → skip_blanks fp.rest ≡ hex_word a ++ (hex_word b ++ s)
    → a < 2 ^ 16
    → b < 2 ^ 16
    → scan_hex 8 fp ≡ scanned (b + 2 ^ 16 * a) s
unfolding scan_hex
scan_hex-two_words fp a b s starts ha hb =
    ap (scan_from 8) starts
    ∙ scan_from-hex_word 8 a (hex_word b ++ s)
    ∙ scan_digits-hex_word 4 0 a (hex_word b ++ s) ha
    ∙ scan_digits-hex_word 0 (0 * 2 ^ 16 + a) b s hb
    ∙ unfold scan_digits in ap (λ v. scanned v s) (omega arith)

-- The files that the assembler prints begin with no blanks.
pub skip_blanks-imem_lines :
    (imem : Memory) (left i : ℕ)
    → skip_blanks (contents (imem_lines left i imem)) ≡ contents (imem_lines left i imem)
unfolding contents imem_lines hex_word
skip_blanks-imem_lines imem zero i = unfold skip_blanks in refl
skip_blanks-imem_lines imem (suc left) i = skip_blanks-hex_word (imem (i + 3)) _

pub skip_blanks-dmem_lines :
    (dmem : Memory) (left i : ℕ)
    → skip_blanks (contents (dmem_lines left i dmem)) ≡ contents (dmem_lines left i dmem)
unfolding contents dmem_lines hex_word
skip_blanks-dmem_lines dmem zero i = unfold skip_blanks in refl
skip_blanks-dmem_lines dmem (suc left) i = skip_blanks-hex_word (dmem i) _
