-- ===== src/Target/Debug/Load/Dmem.antt =====
-- `target_load_dmem` loads what the assembler has put into its file for the data memory.
use ajardsp.Common.{
  ℕ, zero, suc, ◌+◌, ◌-◌, ◌*◌, ◌/◌, ◌^◌, ◌<◌, ◌≤◌, ◌≡◌, refl, ap, ◌∙◌, arith, u32, shl32, bit_or,
}
use ajardsp.Common.{false, some, List, [], ◌∷◌, ◌++◌, codes, Memory, lt→ltb}
use ajardsp.Bits.Laws.{bit_or-shifted}
use ajardsp.Asm.Output.{hex_word, dmem_lines}
use ajardsp.Disasm.Assembled.{word_at}
use ajardsp.Target.Scan.{Stream, Scanned, scan_hex, skip_blanks}
use ajardsp.Target.Debug.{w32}
use ajardsp.Target.Debug.Sweep.{sweep}
use ajardsp.Target.Debug.Load.{before, load_dmem, target_load_dmem}
use ajardsp.Target.Debug.Load.Lines.{skip_blanks-dmem_lines, stream, contents, scan_hex-word}

module _ (unset : ℕ → ℕ) (dmem : Memory) (words : (a : ℕ) → dmem a < 2 ^ 16) where
  -- The word that `target_load_dmem` writes as the `k`-th: the lower address is the lower half.
  abbrev value : ℕ → ℕ
  value k = word_at dmem (2 * k)

  complete-word_at : (i : ℕ) → bit_or (shl32 (dmem (i + 1)) 16) (dmem i) ≡ word_at dmem i
  complete-word_at i =
      let low = words i in
      let high = words (i + 1) in
      ap (λ h. bit_or h (dmem i)) (omega (arith, high))
      ∙ bit_or-shifted 16 (dmem (i + 1)) (dmem i) low
      ∙ omega arith

  -- The file from the word at `i` on.
  file : ℕ → ℕ → List ℕ
  file left i = contents (dmem_lines left i dmem)

  skip_blanks-file : (left i : ℕ) → skip_blanks (file left i) ≡ file left i
  unfolding file
  skip_blanks-file left i = skip_blanks-dmem_lines dmem left i

  -- The newline of a line that is read up to it, and the lines that follow.
  behind : ℕ → ℕ → Stream
  behind left i = stream (codes "\n" ++ file left i)

  skip_blanks-behind : (left i : ℕ) → skip_blanks (behind left i).rest ≡ file left i
  unfolding behind skip_blanks
  skip_blanks-behind left i = skip_blanks-file left i

  one_word :
      (left i : ℕ) (fp : Stream)
      → skip_blanks fp.rest ≡ file (suc left) i
      → scan_hex 4 fp ≡ record { value = some (dmem i); stream = behind left (i + 1) }
  unfolding file contents dmem_lines hex_word behind
  one_word left i fp starts = scan_hex-word fp (dmem i) _ starts (words i)

  two_words :
      (left i : ℕ) (fp : Stream)
      → skip_blanks fp.rest ≡ file (suc (suc left)) i
      → scan_hex 4 (scan_hex 4 fp).stream
        ≡ record { value = some (dmem (i + 1)); stream = behind left (i + 1 + 1) }
  two_words left i fp starts =
      ap (λ (r : Scanned). scan_hex 4 r.stream) (one_word (suc left) i fp starts)
      ∙ one_word left (i + 1) (behind (suc left) (i + 1)) (skip_blanks-behind (suc left) (i + 1))

  one_round :
      (fuel left i a len : ℕ) (fp : Stream)
      → fp.eof ≡ false
      → skip_blanks fp.rest ≡ file (suc (suc left)) i
      → 0 < len
      → load_dmem (suc fuel) unset fp a len
        ≡ before
            (w32 a (word_at dmem i) ∷ [])
            (load_dmem fuel unset (behind left (i + 1 + 1)) (u32 (a + 4)) (len - 4))
  unfolding load_dmem
  one_round fuel left i a len fp not_eof starts some_left =
      let first = one_word (suc left) i fp starts in
      let second = two_words left i fp starts in
      rw (not_eof, second, first, complete-word_at i, lt→ltb 0 len some_left)

  -- The pairs of words from word `k` on, with blanks before them, for as many bytes as they hold
  -- at most.
  load_dmem-lines :
      (fuel lines k addr len : ℕ) (fp : Stream)
      → fp.eof ≡ false
      → skip_blanks fp.rest ≡ file lines (2 * k)
      → len ≤ 4 * (lines / 2)
      → len + 3 < 4 * fuel
      → load_dmem fuel unset fp (u32 (addr + 4 * k)) len ≡ some (sweep value ((len + 3) / 4) k addr)
  unfolding behind
  load_dmem-lines zero lines k addr len fp not_eof starts inside fuelled = absurd (omega arith)
  load_dmem-lines (suc fuel) lines k addr zero fp not_eof starts inside fuelled =
      unfold sweep load_dmem in rw (not_eof)
  load_dmem-lines (suc fuel) lines k addr (suc len) fp not_eof starts inside fuelled =
      let left = lines - 2 in
      let pairs : lines ≡ suc (suc left) = omega arith in
      let rest =
        load_dmem-lines fuel left (k + 1) addr (suc len - 4) (behind left (2 * k + 1 + 1)) refl
          (skip_blanks-behind left (2 * k + 1 + 1) ∙ ap (file left) (omega arith)) (omega arith)
          (omega arith) in
      let counted : suc ((suc len - 4 + 3) / 4) ≡ (suc len + 3) / 4 = omega arith in
      one_round fuel left (2 * k) (u32 (addr + 4 * k)) (suc len) fp not_eof
        (starts ∙ ap (λ n. file n (2 * k)) pairs) (omega arith)
      ∙ ap (before (w32 (u32 (addr + 4 * k)) (value k) ∷ [])) (
          ap (λ a. load_dmem fuel unset (behind left (2 * k + 1 + 1)) a (suc len - 4)) (omega arith)
          ∙ rest)
      ∙ unfold sweep in ap (λ n. some (sweep value n k addr)) counted

  pub target_load_dmem-lines :
      (lines address len : ℕ)
      → address < 2 ^ 32
      → len ≤ 4 * (lines / 2)
      → target_load_dmem unset (stream (contents (dmem_lines lines 0 dmem))) address len
        ≡ some (sweep (λ k. word_at dmem (2 * k)) ((len + 3) / 4) 0 address)
  unfolding target_load_dmem file
  target_load_dmem-lines lines address len word inside =
      ap (λ a. load_dmem ((len + 3) / 4 + 1) unset (stream (file lines 0)) a len) (omega arith)
      ∙ load_dmem-lines ((len + 3) / 4 + 1) lines 0 address len _ refl (skip_blanks-file lines 0)
          inside (omega arith)
