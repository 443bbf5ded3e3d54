-- ===== src/Target/Monitor/Scans.antt =====
-- `fscanf` with `%02x` reads back the bytes of words that `%04x` has printed.
use ajardsp.Common.{ℕ, suc, ◌+◌, ◌*◌, ◌/◌, ◌%◌, ◌^◌, ◌<◌, ◌≡◌, ap, ap₂, ◌∙◌, arith}
use ajardsp.Common.{List, ◌∷◌, ◌++◌}
use ajardsp.Asm.Output.{hex_digit, hex_word}
use ajardsp.Target.Scan.{Stream, skip_blanks, scan_digits, scan_from, scan_hex}
use ajardsp.Target.Debug.Load.Lines.{
  stream, scanned, hex_digit-is_hex, skip_blanks-hex_digit, one_digit,
}
use ajardsp.Target.Monitor.{Numbers, number_before, scan_bytes, imem_bytes}

scan_hex-digits :
    (fp : Stream) (a b : ℕ) (s : List ℕ)
    → skip_blanks fp.rest ≡ hex_digit a ∷ hex_digit b ∷ s
    → a < 16
    → b < 16
    → scan_hex 2 fp ≡ scanned (a * 16 + b) s
unfolding scan_hex
scan_hex-digits fp a b s starts ha hb =
    let first : scan_from 2 (hex_digit a ∷ hex_digit b ∷ s)
        ≡ scan_digits 2 0 (hex_digit a ∷ hex_digit b ∷ s) =
      unfold scan_from in rw (hex_digit-is_hex a ha) in
    ap (scan_from 2) starts
    ∙ first
    ∙ one_digit 1 0 a (hex_digit b ∷ s) ha
    ∙ one_digit 0 (0 * 16 + a) b s hb
    ∙ unfold scan_digits in ap (λ v. scanned v s) (omega arith)

-- The lower byte of a word, as it is printed.
abbrev low_digits : ℕ → List ℕ → List ℕ
low_digits w s = hex_digit (w / 16 % 16) ∷ hex_digit (w % 16) ∷ s

scan_hex-high :
    (fp : Stream) (w : ℕ) (s : List ℕ)
    → skip_blanks fp.rest ≡ hex_word w ++ s
    → w < 2 ^ 16
    → scan_hex 2 fp ≡ scanned (w / 256) (low_digits w s)
unfolding hex_word
scan_hex-high fp w s starts h =
    scan_hex-digits fp (w / 16 ^ 3 % 16) (w / 16 ^ 2 % 16) (low_digits w s) starts (omega arith)
      (omega arith)
    ∙ ap (λ v. scanned v (low_digits w s)) (omega arith)

scan_hex-low : (w : ℕ) (s : List ℕ) → scan_hex 2 (stream (low_digits w s)) ≡ scanned (w % 256) s
scan_hex-low w s =
    scan_hex-digits (stream (low_digits w s)) (w / 16 % 16) (w % 16) s
      (skip_blanks-hex_digit (w / 16 % 16) (hex_digit (w % 16) ∷ s) (omega arith)) (omega arith)
      (omega arith)
    ∙ ap (λ v. scanned v s) (omega arith)

-- The two bytes of a word before the numbers of the rest.
abbrev pub word_before : ℕ → Numbers → Numbers
word_before w r = record { numbers = w / 256 ∷ w % 256 ∷ r.numbers; stream = r.stream }

pub imem_bytes-word :
    (left : ℕ) (unset : ℕ → ℕ) (fp : Stream) (w : ℕ) (s : List ℕ)
    → skip_blanks fp.rest ≡ hex_word w ++ s
    → w < 2 ^ 16
    → imem_bytes (suc (suc left)) unset fp ≡ word_before w (imem_bytes left unset (stream s))
unfolding imem_bytes
imem_bytes-word left unset fp w s starts h =
    rw (scan_hex-high fp w s starts h, scan_hex-low w s)
      (ap₂
        (λ a b. record {
          numbers = a ∷ b ∷ (imem_bytes left unset (stream s)).numbers;
          stream = (imem_bytes left unset (stream s)).stream;
        })
        (omega arith) (omega arith))

pub scan_bytes-word :
    (count : ℕ) (fp : Stream) (w : ℕ) (s : List ℕ)
    → skip_blanks fp.rest ≡ hex_word w ++ s
    → w < 2 ^ 16
    → scan_bytes (suc (suc count)) fp ≡ word_before w (scan_bytes count (stream s))
unfolding scan_bytes number_before
scan_bytes-word count fp w s starts h = rw (scan_hex-high fp w s starts h, scan_hex-low w s)
