-- ===== src/Disasm/Hex.antt =====
-- The disassembler reads back what the assembler printed.
use ajardsp.Common.{ℕ, zero, suc, ◌+◌, ◌*◌, ◌%◌, ◌/◌, ◌^◌, ◌<◌, ◌≡◌, refl, ap, ap₂, ◌∙◌, arith}
use ajardsp.Common.{
  Bool, some, List, [], ◌∷◌, ◌++◌, CString, codes, char_at, get_elem?, u32, Memory,
}
use ajardsp.Asm.Output.{hex_digit, hex_word, fill, imem_lines, output_hex}
use ajardsp.Asm.Passes.{AsmState}
use ajardsp.Disasm.{hex_value, str2int_from, str2int}
use ajardsp.Disasm.Assembled.{word_at}
use ajardsp.Disasm.Listing.{read_line, bytes_at, disasm_word, disasm_lines, Printed}

pub hex_value-hex_digit : (n : ℕ) → n < 16 → hex_value (hex_digit n) ≡ n
unfolding hex_value hex_digit
hex_value-hex_digit n h = ground arith

step :
    (r d : ℕ) (s : List ℕ)
    → r < 2 ^ 60
    → d < 16
    → str2int_from r (hex_digit d ∷ s) ≡ str2int_from (r * 16 + d) s
unfolding str2int_from
step r d s h k = ap (λ (t : ℕ). str2int_from t s) (omega (arith, hex_value-hex_digit d k))

-- Four digits read as the word they print.
str2int_from-hex_word :
    (r w : ℕ) (s : List ℕ)
    → r < 2 ^ 40
    → w < 2 ^ 16
    → str2int_from r (hex_word w ++ s) ≡ str2int_from (r * 2 ^ 16 + w) s
unfolding hex_word
str2int_from-hex_word r w s h k =
    let r₁ = r * 16 + w / 16 ^ 3 % 16 in
    let r₂ = r₁ * 16 + w / 16 ^ 2 % 16 in
    let r₃ = r₂ * 16 + w / 16 % 16 in
    step r (w / 16 ^ 3 % 16) _ (omega arith) (omega arith)
    ∙ step r₁ (w / 16 ^ 2 % 16) _ (omega arith) (omega arith)
    ∙ step r₂ (w / 16 % 16) _ (omega arith) (omega arith)
    ∙ step r₃ (w % 16) _ (omega arith) (omega arith)
    ∙ ap (λ (t : ℕ). str2int_from t s) (omega arith)

-- Two words, the upper one first.
str2int-two :
    (a b : ℕ)
    → a < 2 ^ 16
    → b < 2 ^ 16
    → u32 (str2int (hex_word a ++ hex_word b ++ [])) ≡ b + 2 ^ 16 * a
unfolding str2int hex_word
str2int-two a b h k =
    let whole : str2int_from 0 (hex_word a ++ hex_word b ++ []) ≡ str2int_from (a * 2 ^ 16 + b) [] =
      str2int_from-hex_word 0 a (hex_word b ++ []) (omega arith) h
      ∙ ap (λ (t : ℕ). str2int_from t (hex_word b ++ [])) (omega arith)
      ∙ str2int_from-hex_word a b [] (omega arith) k in
    let value : str2int_from (a * 2 ^ 16 + b) [] ≡ a * 2 ^ 16 + b = unfold str2int_from in refl in
    omega (arith, whole, value)

-- A printed line of four words.
abbrev line_of : ℕ → ℕ → ℕ → ℕ → CString
line_of a b c d = hex_word a ++ hex_word b ++ hex_word c ++ hex_word d ++ codes "\n"

bytes_at-line_of :
    (a b c d : ℕ) (line : Memory)
    → (bytes_at (read_line (line_of a b c d) line) 0 8 ≡ hex_word a ++ hex_word b ++ [])
      × (bytes_at (read_line (line_of a b c d) line) 8 8 ≡ hex_word c ++ hex_word d ++ [])
unfolding bytes_at read_line hex_word char_at
bytes_at-line_of a b c d line = (refl, refl)

-- Where the listing shows the two instruction words of a line of the file.
record Shows (printed : List Printed) (imem : Memory) (i addr k : ℕ) : Type 0 where
  before_first : CString
  before_second : CString
  first :
      get_elem? printed (2 * k)
      ≡ some (disasm_word (word_at imem (i + 4 * k + 2)) (addr + 2 * k) before_first)
  second :
      get_elem? printed (2 * k + 1)
      ≡ some (disasm_word (word_at imem (i + 4 * k)) (addr + 2 * k + 1) before_second)

disasm_lines-line_of :
    (a b c d : ℕ) (rest : List CString) (line : Memory) (addr : ℕ) (distxt : CString)
    → a < 2 ^ 16
    → b < 2 ^ 16
    → c < 2 ^ 16
    → d < 2 ^ 16
    → let first = disasm_word (b + 2 ^ 16 * a) addr distxt in
      let second = disasm_word (d + 2 ^ 16 * c) (addr + 1) first.text in
      disasm_lines (line_of a b c d ∷ rest) line addr distxt
      ≡ first ∷ second ∷ disasm_lines rest (read_line (line_of a b c d) line) (addr + 2) second.text
unfolding disasm_lines
disasm_lines-line_of a b c d rest line addr distxt ha hb hc hd =
    let (upper, lower) = bytes_at-line_of a b c d line in
    let show : ℕ → ℕ → List Printed = λ x y.
      let first = disasm_word x addr distxt in
      let second = disasm_word y (addr + 1) first.text in
      first
      ∷ second
      ∷ disasm_lines rest (read_line (line_of a b c d) line) (addr + 2) second.text in
    ap₂ show (ap (λ s. u32 (str2int s)) upper ∙ str2int-two a b ha hb)
      (ap (λ s. u32 (str2int s)) lower ∙ str2int-two c d hc hd)

imem_lines-suc :
    (left i : ℕ) (imem : Memory)
    → imem_lines (suc left) i imem
      ≡ line_of (imem (i + 3)) (imem (i + 2)) (imem (i + 1)) (imem (i + 0))
        ∷ imem_lines left (i + 4) imem
unfolding imem_lines
imem_lines-suc left i imem = refl

-- One line of the file and what the listing makes of it.
record Cons (imem : Memory) (left i : ℕ) (line : Memory) (addr : ℕ) (distxt : CString)
    : Type 0 where
  before_second : CString
  line_after : Memory
  distxt_after : CString
  listing :
      disasm_lines (imem_lines (suc left) i imem) line addr distxt
      ≡ disasm_word (word_at imem (i + 2)) addr distxt
        ∷ disasm_word (word_at imem i) (addr + 1) before_second
        ∷ disasm_lines (imem_lines left (i + 4) imem) line_after (addr + 2) distxt_after

module _ (imem : Memory) (words : (a : ℕ) → imem a < 2 ^ 16) where
  one_line :
      (left i : ℕ) (line : Memory) (addr : ℕ) (distxt : CString) → Cons imem left i line addr distxt
  one_line left i line addr distxt =
      let show : ℕ → ℕ → List Printed = λ j k.
        let first = disasm_word (imem (i + 2) + 2 ^ 16 * imem j) addr distxt in
        let second = disasm_word (imem k + 2 ^ 16 * imem (i + 1)) (addr + 1) first.text in
        first
        ∷ second
        ∷ disasm_lines (imem_lines left (i + 4) imem)
            (read_line (line_of (imem (i + 3)) (imem (i + 2)) (imem (i + 1)) (imem (i + 0))) line)
            (addr + 2) second.text in
      record {
        before_second = _;
        line_after = _;
        distxt_after = _;
        listing =
            ap (λ f. disasm_lines f line addr distxt) (imem_lines-suc left i imem)
            ∙ disasm_lines-line_of (imem (i + 3)) (imem (i + 2)) (imem (i + 1)) (imem (i + 0)) _
                line addr distxt (words _) (words _) (words _) (words _)
            ∙ ap₂ show (omega arith) (omega arith);
      }

  at_word :
      {x y a b : ℕ}
      → x ≡ y
      → a ≡ b
      → (t : CString)
      → some (disasm_word (word_at imem x) a t) ≡ some (disasm_word (word_at imem y) b t)
  at_word p q t = ap₂ (λ j c. some (disasm_word (word_at imem j) c t)) p q

  lines-Shows :
      (left i addr k : ℕ) (line : Memory) (distxt : CString)
      → k < left
      → Shows (disasm_lines (imem_lines left i imem) line addr distxt) imem i addr k
  lines-Shows zero i addr k line distxt h = absurd (omega arith)
  lines-Shows (suc left) i addr zero line distxt h =
      let c = one_line left i line addr distxt in
      record {
        before_first = distxt;
        before_second = c.before_second;
        first = ap (λ l. get_elem? l 0) c.listing ∙ at_word (omega arith) (omega arith) distxt;
        second =
            ap (λ l. get_elem? l 1) c.listing ∙ at_word (omega arith) (omega arith) c.before_second;
      }
  lines-Shows (suc left) i addr (suc k) line distxt h =
      let c = one_line left i line addr distxt in
      let rest = lines-Shows left (i + 4) (addr + 2) k c.line_after c.distxt_after (omega arith) in
      let next : 2 * suc k ≡ suc (suc (2 * k)) = omega arith in
      let after : 2 * suc k + 1 ≡ suc (suc (2 * k + 1)) = omega arith in
      record {
        before_first = rest.before_first;
        before_second = rest.before_second;
        first =
            ap₂ get_elem? c.listing next
            ∙ rest.first
            ∙ at_word (omega arith) (omega arith) rest.before_first;
        second =
            ap₂ get_elem? c.listing after
            ∙ rest.second
            ∙ at_word (omega arith) (omega arith) rest.before_second;
      }

-- The listing of the hex file of a memory of 16-bit words shows, for each line `k` of the file,
-- first the instruction word that stands at
-- address 4 * k + 2 and then the one at 4 * k, under the addresses 2 * k and 2 * k + 1; each with
-- the text that `disasm` finds for it.
pub disasm_lines-output_hex :
    (option_fill_mems : Bool) (st : AsmState) (k : ℕ) (line : Memory) (distxt : CString)
    → ((a : ℕ) → st.imem a < 2 ^ 16)
    → 4 * k < fill option_fill_mems st.imem_addr
    → let printed = disasm_lines (output_hex option_fill_mems st).imem_file line 0 distxt in
      (before before' : CString) × (get_elem? printed (2 * k)
        ≡ some (disasm_word (word_at st.imem (4 * k + 2)) (2 * k) before))
      × (get_elem? printed (2 * k + 1)
          ≡ some (disasm_word (word_at st.imem (4 * k)) (2 * k + 1) before'))
unfolding output_hex
disasm_lines-output_hex option_fill_mems st k line distxt words h =
    let n = (fill option_fill_mems st.imem_addr + 3) / 4 in
    let s = lines-Shows st.imem words n 0 0 k line distxt (omega arith) in
    (
      s.before_first,
      s.before_second,
      s.first ∙ at_word st.imem words (omega arith) (omega arith) s.before_first,
      s.second ∙ at_word st.imem words (omega arith) (omega arith) s.before_second,
    )
