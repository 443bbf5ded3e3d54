-- ===== src/Target/Monitor/Imem.antt =====
-- `target_write_imem` of targetmon.c writes what the assembler has put into its file.
pub mod Kept
use ajardsp.Common.{
  ℕ, zero, suc, ◌+◌, ◌*◌, ◌/◌, ◌%◌, ◌^◌, ◌<◌, ◌≤◌, ◌≡◌, ◌≢◌, refl, ap, ap₂, ◌∙◌, sym, subst, arith,
  u16,
}
use ajardsp.Common.{
  List, [], ◌∷◌, ◌++◌, codes, Memory, update, update_self, update_other, false, Bool-cases, inl,
  inr, ◌==◌, ==_iff,
}
use ajardsp.Common.{Option, some, none, if◌then◌else◌, true}
use mathlib.Core.List.{append-nil, append_assoc}
use ajardsp.Disasm.Assembled.{word_at}
use ajardsp.Asm.Output.{hex_word, imem_lines}
use ajardsp.Target.Bytes.{short_bytes}
use ajardsp.Target.Scan.{Stream, skip_blanks}
use ajardsp.Target.Debug.Load.Lines.{skip_blanks-imem_lines, stream, contents, skip_blanks-hex_word}
use ajardsp.Target.Monitor.{Numbers, cmd_write_imem, imem_bytes, write_imem, target_write_imem}
use ajardsp.Target.Monitor.Receiver.{
  ImemWrite, imem_write, Done, receive_all-++, Top, s_idle, receive, receive_all, write_imem_word,
}
use ajardsp.Target.Monitor.Scans.{word_before, imem_bytes-word}

-- The eight bytes of a line, with blanks before it.
line_bytes :
    (unset : ℕ → ℕ) (fp : Stream) (a b c d : ℕ) (s : List ℕ)
    → skip_blanks fp.rest ≡ hex_word a ++ (hex_word b ++ (hex_word c ++ (hex_word d ++ s)))
    → a < 2 ^ 16
    → b < 2 ^ 16
    → c < 2 ^ 16
    → d < 2 ^ 16
    → imem_bytes 8 unset fp
      ≡ word_before a (
          word_before b
            (word_before c (word_before d (record { numbers = []; stream = stream s }))))
line_bytes unset fp a b c d s starts ha hb hc hd =
    imem_bytes-word 6 unset fp a _ starts ha
    ∙ ap (word_before a) (
        imem_bytes-word 4 unset (stream (hex_word b ++ (hex_word c ++ (hex_word d ++ s)))) b _
          (skip_blanks-hex_word b _) hb
        ∙ ap (word_before b) (
            imem_bytes-word 2 unset (stream (hex_word c ++ (hex_word d ++ s))) c _
              (skip_blanks-hex_word c _) hc
            ∙ ap (word_before c) (
                imem_bytes-word 0 unset (stream (hex_word d ++ s)) d _ (skip_blanks-hex_word d _) hd
                ∙ unfold imem_bytes in refl)))

-- Four words next to each other.
abbrev four_words : ℕ → ℕ → ℕ → ℕ → ℕ
four_words a b c d = 2 ^ 48 * a + 2 ^ 32 * b + 2 ^ 16 * c + d

abbrev line_command : ℕ → ℕ → ℕ → ℕ → ℕ → List ℕ
line_command addr a b c d =
    cmd_write_imem
    ∷ addr % 256
    ∷ addr / 2 ^ 8 % 256
    ∷ a / 256
    ∷ a % 256
    ∷ b / 256
    ∷ b % 256
    ∷ c / 256
    ∷ c % 256
    ∷ d / 256
    ∷ d % 256
    ∷ []

command_received :
    (addr a b c d : ℕ) (t : Top)
    → t.state ≡ s_idle
    → addr < 2 ^ 16
    → Done
        (receive_all (line_command addr a b c d) t)
        (t.imem_writes ++ imem_write addr (four_words a b c d) ∷ [])
        t.dmem
        t.sent
unfolding receive_all receive write_imem_word
command_received addr a b c d t is_idle h =
    subst
      (λ b'.
        Done (receive_all (line_command addr a b c d) b')
          (b'.imem_writes ++ imem_write addr (four_words a b c d) ∷ []) b'.dmem b'.sent)
      (ap (λ s. record t { state = s }) (sym is_idle))
      (record {
        idle = refl;
        imem_written =
            ap₂ (λ x y. t.imem_writes ++ imem_write x y ∷ []) (omega arith) (omega arith);
        dmem_holds = refl;
        has_sent = refl;
      })

-- The write that the memory gets for line `k`: the two words of the lowest addresses of the line,
-- into the half that bit 1 of `k` names, at `k` without its lowest two bits.
abbrev pub line_write : Memory → ℕ → ImemWrite
line_write source k = record { high = k / 2 % 2 == 1; addrb = k / 4; dib = word_at source (4 * k) }

-- Those of `n` lines from line `k` on.
unfoldable pub line_writes : Memory → ℕ → ℕ → List ImemWrite
line_writes source zero k = []
line_writes source (suc n) k = line_write source k ∷ line_writes source n (k + 1)

-- What the receiver has of the first `n` lines from line `k` on.
pub record LinesWritten (source : Memory) (n k : ℕ) (t after : Top) : Type 0 where
  pub idle : after.state ≡ s_idle
  pub written : after.imem_writes ≡ t.imem_writes ++ line_writes source n k
  pub same_dmem : after.dmem ≡ t.dmem
  pub same_sent : after.sent ≡ t.sent

module _ (unset : ℕ → ℕ → ℕ) (source : Memory) (words : (a : ℕ) → source a < 2 ^ 16) where
  abbrev line_value : ℕ → ℕ
  line_value k =
      four_words (source (4 * k + 3)) (source (4 * k + 2)) (source (4 * k + 1)) (source (4 * k + 0))

  -- The file after a line.
  next_stream : ℕ → ℕ → Stream
  next_stream lines k = stream (codes "\n" ++ contents (imem_lines lines (4 * k + 4) source))

  skip_blanks-next_stream :
      (lines k : ℕ)
      → skip_blanks (next_stream lines k).rest ≡ contents (imem_lines lines (4 * (k + 1)) source)
  unfolding next_stream skip_blanks
  skip_blanks-next_stream lines k =
      skip_blanks-imem_lines source lines (4 * k + 4)
      ∙ ap (λ i. contents (imem_lines lines i source)) (omega arith)

  one_line :
      (left lines k : ℕ) (fp : Stream)
      → fp.eof ≡ false
      → skip_blanks fp.rest ≡ contents (imem_lines (suc lines) (4 * k) source)
      → write_imem (suc left) unset (u16 k) fp
        ≡ line_command
            (u16 k)
            (source (4 * k + 3))
            (source (4 * k + 2))
            (source (4 * k + 1))
            (source (4 * k + 0))
          ++ write_imem left unset (u16 (u16 k + 1)) (next_stream lines k)
  unfolding write_imem short_bytes next_stream contents imem_lines hex_word
  one_line left lines k fp not_eof starts = rw (not_eof) (
      ap
        (λ (r : Numbers).
          cmd_write_imem ∷ short_bytes (u16 k)
          ++ r.numbers
          ++ write_imem left unset (u16 (u16 k + 1)) r.stream)
        (line_bytes (unset (u16 k)) fp (source (4 * k + 3)) (source (4 * k + 2))
          (source (4 * k + 1)) (source (4 * k + 0)) _ starts (words _) (words _) (words _)
          (words _)))

  written_line : (k : ℕ) → k < 2 ^ 16 → imem_write (u16 k) (line_value k) ≡ line_write source k
  unfolding imem_write
  written_line k h =
      let same : u16 k ≡ k = omega arith in
      let first : source (4 * k + 0) ≡ source (4 * k) = ap source (omega arith) in
      let low : line_value k % 2 ^ 32 ≡ word_at source (4 * k) =
        omega (arith, words (4 * k + 0), words (4 * k + 1), first) in
      rw (same, low) refl

  -- A line, and what the receiver has of those that follow.
  one_more :
      (left k : ℕ) (t t' after : Top)
      → k < 2 ^ 16
      → Done t' (t.imem_writes ++ imem_write (u16 k) (line_value k) ∷ []) t.dmem t.sent
      → LinesWritten source left (k + 1) t' after
      → LinesWritten source (suc left) k t after
  unfolding line_writes
  one_more left k t t' after fits done rest = record {
    idle = rest.idle;
    written =
        rest.written
        ∙ ap (λ l. l ++ line_writes source left (k + 1)) done.imem_written
        ∙ append_assoc t.imem_writes (imem_write (u16 k) (line_value k) ∷ []) _
        ∙ ap (λ w. t.imem_writes ++ w ∷ line_writes source left (k + 1)) (written_line k fits);
    same_dmem = rest.same_dmem ∙ done.dmem_holds;
    same_sent = rest.same_sent ∙ done.has_sent;
  }

  pub write_imem-LinesWritten :
      (left lines k : ℕ) (fp : Stream) (t : Top)
      → fp.eof ≡ false
      → skip_blanks fp.rest ≡ contents (imem_lines lines (4 * k) source)
      → left ≤ lines
      → k + left ≤ 2 ^ 16
      → t.state ≡ s_idle
      → LinesWritten source left k t (receive_all (write_imem left unset (u16 k) fp) t)
  write_imem-LinesWritten zero lines k fp t not_eof starts inside fits is_idle =
      unfold write_imem receive_all in
      record {
        idle = is_idle;
        written = unfold line_writes in sym (append-nil t.imem_writes);
        same_dmem = refl;
        same_sent = refl;
      }
  write_imem-LinesWritten (suc left) zero k fp t not_eof starts inside fits is_idle =
      absurd (omega arith)
  write_imem-LinesWritten (suc left) (suc lines) k fp t not_eof starts inside fits is_idle =
      let a = source (4 * k + 3) in
      let b = source (4 * k + 2) in
      let c = source (4 * k + 1) in
      let d = source (4 * k + 0) in
      let command = line_command (u16 k) a b c d in
      let t' = receive_all command t in
      let done = command_received (u16 k) a b c d t is_idle (omega arith) in
      let rest =
        write_imem-LinesWritten left lines (k + 1) (next_stream lines k) t'
          (unfold next_stream in refl) (skip_blanks-next_stream lines k) (omega arith) (omega arith)
          done.idle in
      let sent : write_imem (suc left) unset (u16 k) fp
          ≡ command ++ write_imem left unset (u16 (k + 1)) (next_stream lines k) =
        one_line left lines k fp not_eof starts
        ∙ ap (λ x. command ++ write_imem left unset x (next_stream lines k)) (omega arith) in
      subst (LinesWritten source (suc left) k t)
        (sym (ap (λ l. receive_all l t) sent ∙ receive_all-++ command _ t))
        (one_more left k t t' _ (omega arith) done rest)
