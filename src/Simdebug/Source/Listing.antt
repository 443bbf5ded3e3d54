-- ===== src/Simdebug/Source/Listing.antt =====
-- `Source_Init` on the file that the assembler writes.
use ajardsp.Common.{
  ℕ, ◌+◌, ◌-◌, ◌*◌, ◌/◌, ◌%◌, ◌^◌, ◌<◌, ◌≡◌, refl, ap, ◌∙◌, arith, ◌==◌, zero, suc, true, false,
  if◌then◌else◌, Option, none, some, List, [], ◌∷◌, ◌++◌,
}
use ajardsp.Asm.Output.{hex_digit, hex_word}
use ajardsp.Disasm.{hex_value}
use ajardsp.Target.Scan.{is_blank, skip_blanks}
use ajardsp.Target.Debug.Load.Lines.{hex_digit-is_hex, skip_blanks-hex_word}
use ajardsp.Simdebug.Source.{
  Digits, Scan, scan, writes_outside, LinenoInfo, is_decimal, decimal_digits, scan_lineno,
  scan_colon, scan_addr, scan_x, hex_digits, scan_entry, entry_before, read_linenos,
}

-- A character that starts no entry stays where it is, and the loop with it.
read_linenos-stuck :
    (c : ℕ) (s : List ℕ) (fuel : ℕ) (unset : ℕ → LinenoInfo) (index : ℕ)
    → (c == b'0') ≡ false
    → read_linenos fuel unset index (c ∷ s) ≡ none
unfolding read_linenos scan_entry
read_linenos-stuck c s zero unset index h = refl
read_linenos-stuck c s (suc fuel) unset index h =
    rw (h) (ap (entry_before _) (read_linenos-stuck c s fuel unset (index + 1) h))

-- The decimal digits of a number.
unfoldable pub decimal : List ℕ → List ℕ
decimal [] = []
decimal (d ∷ ds) = (d + b'0') ∷ decimal ds

unfoldable pub AreDigits : List ℕ → Type 0
AreDigits [] = Unit {0}
AreDigits (d ∷ ds) = (d < 10) × AreDigits ds

decimal_digits-decimal :
    (ds : List ℕ) (acc : ℕ) (s : List ℕ)
    → AreDigits ds
    → (decimal_digits acc (decimal ds ++ b'\t' ∷ s)).rest ≡ b'\t' ∷ s
unfolding decimal decimal_digits AreDigits
decimal_digits-decimal [] acc s h = refl
decimal_digits-decimal (d ∷ ds) acc s h =
    let digit : is_decimal (d + b'0') ≡ true = ground (arith, h.0) in
    rw (digit) (decimal_digits-decimal ds (acc * 10 + (d + b'0' - b'0')) s h.1)

one_digit :
    (d acc : ℕ) (s : List ℕ)
    → d < 16
    → hex_digits acc (hex_digit d ∷ s) ≡ hex_digits (acc * 16 + hex_value (hex_digit d)) s
unfolding hex_digits
one_digit d acc s h = rw (hex_digit-is_hex d h)

hex_digits-hex_word :
    (w acc : ℕ) (s : List ℕ) → (hex_digits acc (hex_word w ++ b':' ∷ s)).rest ≡ b':' ∷ s
unfolding hex_word
hex_digits-hex_word w acc s =
    ap (λ (d : Digits). d.rest)
      (one_digit (w / 16 ^ 3 % 16) acc _ (omega arith)
        ∙ one_digit (w / 16 ^ 2 % 16) _ _ (omega arith)
        ∙ one_digit (w / 16 % 16) _ _ (omega arith)
        ∙ one_digit (w % 16) _ _ (omega arith))
    ∙ unfold hex_digits in refl

-- The part of a line of the listing from the number of the line on.
scan_lineno-listing :
    (addr d c : ℕ) (ds s : List ℕ)
    → AreDigits (d ∷ ds)
    → is_blank c ≡ false
    → (scan_lineno addr (decimal (d ∷ ds) ++ b'\t' ∷ c ∷ s)).rest ≡ c ∷ s
unfolding decimal scan_lineno AreDigits
scan_lineno-listing addr d c ds s digits starts =
    let digit : is_decimal (d + b'0') ≡ true = ground (arith, digits.0) in
    rw (digit) (
      ap skip_blanks (decimal_digits-decimal ds _ (c ∷ s) digits.1)
      ∙ unfold skip_blanks in rw (starts))

inside : (a : Option ℕ) → writes_outside 0 a ≡ false
inside none = refl
inside (some a) = refl

-- A first entry within `lineno_info` decides nothing.
first_entry :
    (fuel : ℕ) (unset : ℕ → LinenoInfo) (file : List ℕ) (c : ℕ) (s : List ℕ)
    → (scan_entry file).rest ≡ c ∷ s
    → read_linenos fuel unset 1 (c ∷ s) ≡ none
    → read_linenos (suc fuel) unset 0 file ≡ none
unfolding read_linenos
first_entry fuel unset file c s rest stuck = rw (inside (scan_entry file).addr, rest, stuck)

-- The first line of a listing whose program begins with a bundle.
abbrev pub listing_line : ℕ → List ℕ → ℕ → List ℕ → List ℕ
listing_line addr line_no mnemonic s =
    b'0' ∷ b'x' ∷ (hex_word addr ++ b':' ∷ (decimal line_no ++ b'\t' ∷ mnemonic ∷ s))

scan_addr-hex_word :
    (w : ℕ) (t : List ℕ)
    → scan_addr (hex_word w ++ b':' ∷ t)
      ≡ scan_colon (hex_digits 0 (hex_word w ++ b':' ∷ t)).value (b':' ∷ t)
unfolding scan_addr hex_word
scan_addr-hex_word w t =
    let d = hex_digits 0 (hex_word w ++ b':' ∷ t) in
    ap (λ b. if b then scan_colon d.value d.rest else scan none none (hex_word w ++ b':' ∷ t))
      (hex_digit-is_hex (w / 16 ^ 3 % 16) (omega arith))
    ∙ ap (scan_colon d.value) (hex_digits-hex_word w 0 t)

skip_blanks-decimal : (d : ℕ) (t : List ℕ) → d < 10 → skip_blanks ((d + b'0') ∷ t) ≡ (d + b'0') ∷ t
unfolding skip_blanks
skip_blanks-decimal d t h =
    let no_blank : is_blank (d + b'0') ≡ false = ground arith in rw (no_blank)

scan_entry-listing_line :
    (addr d c : ℕ) (ds s : List ℕ)
    → AreDigits (d ∷ ds)
    → is_blank c ≡ false
    → (scan_entry (listing_line addr (d ∷ ds) c s)).rest ≡ c ∷ s
unfolding scan_entry scan_x
scan_entry-listing_line addr d c ds s digits starts =
    let t = decimal (d ∷ ds) ++ b'\t' ∷ c ∷ s in
    let value = (hex_digits 0 (hex_word addr ++ b':' ∷ t)).value in
    let behind : skip_blanks t ≡ t =
      unfold decimal in skip_blanks-decimal d _ (unfold AreDigits in digits.0) in
    ap (λ u. (scan_addr u).rest) (skip_blanks-hex_word addr (b':' ∷ t))
    ∙ ap (λ (e : Scan). e.rest) (scan_addr-hex_word addr t)
    ∙ unfold scan_colon in
      ap (λ u. (scan_lineno value u).rest) behind ∙ scan_lineno-listing value d c ds s digits starts

-- On the listing of a program that begins with a bundle, the line number of which has one or more
-- decimal digits and the mnemonic of which begins with neither a blank nor the digit 0, and whatever
-- follows, the loop of `Source_Init` that reads the line numbers never comes to its end.
pub read_linenos-listing_line :
    (addr d c : ℕ) (ds s : List ℕ) (unset : ℕ → LinenoInfo) (fuel : ℕ)
    → AreDigits (d ∷ ds)
    → is_blank c ≡ false
    → (c == b'0') ≡ false
    → read_linenos fuel unset 0 (listing_line addr (d ∷ ds) c s) ≡ none
read_linenos-listing_line addr d c ds s unset zero digits no_blank no_zero =
    unfold read_linenos in refl
read_linenos-listing_line addr d c ds s unset (suc fuel) digits no_blank no_zero =
    let rest = scan_entry-listing_line addr d c ds s digits no_blank in
    first_entry fuel unset (listing_line addr (d ∷ ds) c s) c s rest
      (read_linenos-stuck c s fuel unset 1 no_zero)
