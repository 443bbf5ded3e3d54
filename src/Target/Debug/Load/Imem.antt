-- ===== src/Target/Debug/Load/Imem.antt =====
-- `target_load_imem` loads what the assembler has put into its file for the instruction memory.
use ajardsp.Common.{
  ℕ, zero, suc, ◌+◌, ◌-◌, ◌*◌, ◌/◌, ◌^◌, ◌<◌, ◌≤◌, ◌≡◌, refl, ap, ap₂, ◌∙◌, arith, u32,
}
use ajardsp.Common.{
  false, some, Option, List, [], ◌∷◌, ◌++◌, codes, Memory, leb, Bool-cases, inl, inr, if◌then◌else◌,
}
use ajardsp.Asm.Output.{hex_word, imem_lines}
use ajardsp.Disasm.Assembled.{word_at}
use ajardsp.Target.Scan.{Stream, Scanned, scan_second, scan_two, skip_blanks}
use ajardsp.Target.Debug.{W32, w32}
use ajardsp.Target.Debug.Sweep.{sweep}
use ajardsp.Target.Debug.Load.{before, load_imem, target_load_imem}
use ajardsp.Target.Debug.Load.Lines.{
  skip_blanks-imem_lines, stream, contents, scan_hex-two_words, skip_blanks-hex_word,
}

-- The two words of a line of the file, with blanks before it.
line_words :
    (fp : Stream) (a b c d : ℕ) (s : List ℕ)
    → skip_blanks fp.rest ≡ hex_word a ++ (hex_word b ++ (hex_word c ++ (hex_word d ++ s)))
    → a < 2 ^ 16
    → b < 2 ^ 16
    → c < 2 ^ 16
    → d < 2 ^ 16
    → scan_two 8 fp
      ≡ record { first = some (b + 2 ^ 16 * a); second = some (d + 2 ^ 16 * c); stream = stream s }
unfolding scan_two scan_second
line_words fp a b c d s starts ha hb hc hd =
    ap (scan_second 8) (scan_hex-two_words fp a b _ starts ha hb)
    ∙ ap
        (λ (r : Scanned). record {
          first = some (b + 2 ^ 16 * a);
          second = r.value;
          stream = r.stream;
        })
        (scan_hex-two_words (stream (hex_word c ++ (hex_word d ++ s))) c d s
          (skip_blanks-hex_word c (hex_word d ++ s)) hc hd)

module _ (unset : ℕ → ℕ) (imem : Memory) (words : (a : ℕ) → imem a < 2 ^ 16) where
  -- The word that `target_load_imem` writes as the `k`-th.
  abbrev value : ℕ → ℕ
  value k = word_at imem (2 * k)

  abbrev low : ℕ → ℕ → W32
  low addr k = w32 (u32 (addr + 4 * k)) (imem (2 * k + 0) + 2 ^ 16 * imem (2 * k + 1))

  abbrev high : ℕ → ℕ → W32
  high addr k = w32 (u32 (u32 (addr + 4 * k) + 4)) (imem (2 * k + 2) + 2 ^ 16 * imem (2 * k + 3))

  low-sweep : (addr k : ℕ) → low addr k ≡ w32 (u32 (addr + 4 * k)) (value k)
  low-sweep addr k =
      ap (λ a. w32 (u32 (addr + 4 * k)) (imem a + 2 ^ 16 * imem (2 * k + 1))) (omega arith)

  high-sweep : (addr k : ℕ) → high addr k ≡ w32 (u32 (addr + 4 * (k + 1))) (value (k + 1))
  high-sweep addr k =
      ap (λ x. w32 x (imem (2 * k + 2) + 2 ^ 16 * imem (2 * k + 3))) (omega arith)
      ∙ ap₂ (λ a b. w32 (u32 (addr + 4 * (k + 1))) (imem a + 2 ^ 16 * imem b)) (omega arith)
          (omega arith)

  after_line : ℕ → ℕ → ℕ → ℕ → Stream → Option (List W32)
  after_line fuel k addr len fp =
      load_imem fuel unset fp (u32 (u32 (u32 (addr + 4 * k) + 4) + 4)) (len - 4 - 4)

  one_line :
      (fuel left k addr len : ℕ) (fp : Stream)
      → fp.eof ≡ false
      → skip_blanks fp.rest ≡ contents (imem_lines (suc left) (2 * k) imem)
      → load_imem (suc fuel) unset fp (u32 (addr + 4 * k)) len ≡ (
          if leb (len - 4) 0
          then some (low addr k ∷ [])
          else if leb (len - 4 - 4) 0
          then some (low addr k ∷ high addr k ∷ [])
          else before (low addr k ∷ high addr k ∷ []) (
              after_line fuel k addr len
                (stream (codes "\n" ++ contents (imem_lines left (2 * k + 4) imem)))))
  unfolding load_imem imem_lines contents hex_word after_line
  one_line fuel left k addr len fp not_eof starts =
      let two =
        line_words fp (imem (2 * k + 3)) (imem (2 * k + 2)) (imem (2 * k + 1)) (imem (2 * k + 0)) _
          starts (words _) (words _) (words _) (words _) in
      rw (not_eof, two)

  two-sweep :
      (n k addr : ℕ)
      → low addr k ∷ high addr k ∷ sweep value n (k + 2) addr ≡ sweep value (suc (suc n)) k addr
  unfolding sweep
  two-sweep n k addr =
      ap₂ (λ a b. a ∷ b ∷ sweep value n (k + 2) addr) (low-sweep addr k) (high-sweep addr k)
      ∙ ap
          (λ j.
            w32 (u32 (addr + 4 * k)) (value k)
            ∷ w32 (u32 (addr + 4 * (k + 1))) (value (k + 1))
            ∷ sweep value n j addr)
          (omega arith)

  one-sweep : (k addr : ℕ) → low addr k ∷ [] ≡ sweep value 1 k addr
  unfolding sweep
  one-sweep k addr = ap (λ a. a ∷ []) (low-sweep addr k)

  counted :
      (k addr : ℕ) {n m : ℕ} {ws : List W32}
      → n ≡ m
      → ws ≡ sweep value n k addr
      → some ws ≡ some (sweep value m k addr)
  counted k addr e s = ap some (s ∙ ap (λ j. sweep value j k addr) e)

  -- The file after a line.
  next_stream : ℕ → ℕ → Stream
  next_stream left k = stream (codes "\n" ++ contents (imem_lines left (2 * k + 4) imem))

  skip_blanks-lines :
      (left k : ℕ)
      → skip_blanks (next_stream left k).rest ≡ contents (imem_lines left (2 * (k + 2)) imem)
  unfolding next_stream skip_blanks
  skip_blanks-lines left k =
      skip_blanks-imem_lines imem left (2 * k + 4)
      ∙ ap (λ i. contents (imem_lines left i imem)) (omega arith)

  after_line-next :
      (fuel left k addr len : ℕ)
      → after_line fuel k addr len (next_stream left k)
        ≡ load_imem fuel unset (next_stream left k) (u32 (addr + 4 * (k + 2))) (len - 4 - 4)
  unfolding after_line
  after_line-next fuel left k addr len =
      ap (λ a. load_imem fuel unset (next_stream left k) a (len - 4 - 4)) (omega arith)

  -- The lines from word `k` on, with blanks before them, for as many bytes as they hold at most.
  load_imem-lines :
      (fuel left k addr len : ℕ) (fp : Stream)
      → fp.eof ≡ false
      → skip_blanks fp.rest ≡ contents (imem_lines left (2 * k) imem)
      → 0 < len
      → len ≤ 8 * left
      → len ≤ 8 * fuel
      → load_imem fuel unset fp (u32 (addr + 4 * k)) len ≡ some (sweep value ((len + 3) / 4) k addr)
  unfolding next_stream
  load_imem-lines fuel zero k addr len fp not_eof starts some_left inside fuelled =
      absurd (omega arith)
  load_imem-lines zero (suc left) k addr len fp not_eof starts some_left inside fuelled =
      absurd (omega arith)
  load_imem-lines (suc fuel) (suc left) k addr len fp not_eof starts some_left inside fuelled =
      one_line fuel left k addr len fp not_eof starts ∙ elim (Bool-cases (leb (len - 4) 0)) [
        | inl one ↦
            let is_one : 1 ≡ (len + 3) / 4 = ground arith in
            rw (one) (counted k addr is_one (one-sweep k addr))
        | inr not_one ↦ elim (Bool-cases (leb (len - 4 - 4) 0)) [
          | inl two ↦
              let is_two : 2 ≡ (len + 3) / 4 = ground arith in
              rw (not_one, two) (counted k addr is_two (unfold sweep in two-sweep 0 k addr))
          | inr not_two ↦
              let more : suc (suc ((len - 4 - 4 + 3) / 4)) ≡ (len + 3) / 4 = ground arith in
              rw (not_one, not_two)
                (ap (before (low addr k ∷ high addr k ∷ [])) (
                    after_line-next fuel left k addr len
                    ∙ load_imem-lines fuel left (k + 2) addr (len - 4 - 4) (next_stream left k) refl
                        (skip_blanks-lines left k) (ground arith) (ground arith) (ground arith))
                  ∙ counted k addr more (two-sweep ((len - 4 - 4 + 3) / 4) k addr))
        ]
      ]

  pub target_load_imem-lines :
      (left address len : ℕ)
      → address < 2 ^ 32
      → 0 < len
      → len ≤ 8 * left
      → target_load_imem unset (stream (contents (imem_lines left 0 imem))) address len
        ≡ some (sweep (λ k. word_at imem (2 * k)) ((len + 3) / 4) 0 address)
  unfolding target_load_imem
  target_load_imem-lines left address len word some_left inside =
      ap (λ a. load_imem (len / 8 + 1) unset (stream (contents (imem_lines left 0 imem))) a len)
        (omega arith)
      ∙ load_imem-lines (len / 8 + 1) left 0 address len _ refl (skip_blanks-imem_lines imem left 0)
          some_left inside (omega arith)
