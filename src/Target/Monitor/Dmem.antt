-- ===== src/Target/Monitor/Dmem.antt =====
-- `target_write_dmem` of targetmon.c writes what the assembler has put into its file, and
-- `target_read_dmem` prints it again.
use ajardsp.Common.{
  ℕ, zero, suc, ◌+◌, ◌*◌, ◌/◌, ◌%◌, ◌^◌, ◌<◌, ◌≤◌, ◌≡◌, ◌≢◌, refl, ap, ap₂, ◌∙◌, sym, subst, arith,
  u16, length,
}
use ajardsp.Common.{
  List, [], ◌∷◌, ◌++◌, codes, Memory, update, update_self, update_other, false, Bool-cases, inl,
  inr, ◌==◌, ==_iff, if◌then◌else◌, ◌-◌,
}
use ajardsp.Asm.Output.{hex_word, dmem_lines}
use ajardsp.Disasm.Assembled.{word_at}
use ajardsp.Target.Bytes.{short_bytes}
use ajardsp.Target.Scan.{Stream, skip_blanks}
use ajardsp.Target.Debug.Load.Lines.{stream, contents, skip_blanks-dmem_lines}
use ajardsp.Target.Monitor.{
  Numbers, cmd_write_dmem, as_bytes, scan_bytes, write_dmem, target_write_dmem,
}
use ajardsp.Target.Monitor.Receiver.{
  Top, s_idle, receive, receive_all, receive_all-++, write_dmem_word, Done,
}
use ajardsp.Target.Monitor.Scans.{word_before, scan_bytes-word}

abbrev pair_command : ℕ → ℕ → ℕ → List ℕ
pair_command addr a b =
    cmd_write_dmem
    ∷ addr % 256
    ∷ addr / 2 ^ 8 % 256
    ∷ a / 256 % 256
    ∷ a % 256 % 256
    ∷ b / 256 % 256
    ∷ b % 256 % 256
    ∷ []

command_received :
    (addr a b : ℕ) (t : Top)
    → t.state ≡ s_idle
    → addr < 2 ^ 8
    → a < 2 ^ 16
    → b < 2 ^ 16
    → Done
        (receive_all (pair_command addr a b) t)
        t.imem_writes
        (update t.dmem addr (a + 2 ^ 16 * b))
        t.sent
unfolding receive_all receive write_dmem_word
command_received addr a b t is_idle h ha hb =
    subst
      (λ c.
        Done (receive_all (pair_command addr a b) c) c.imem_writes
          (update c.dmem addr (a + 2 ^ 16 * b)) c.sent)
      (ap (λ s. record t { state = s }) (sym is_idle))
      (record {
        idle = refl;
        imem_written = refl;
        dmem_holds = ap₂ (update t.dmem) (omega arith) (omega arith);
        has_sent = refl;
      })

-- What the receiver has of the first `n` pairs of words from pair `k` on.
pub record PairsWritten (value : ℕ → ℕ) (n k : ℕ) (t after : Top) : Type 0 where
  pub idle : after.state ≡ s_idle
  pub inside : (j : ℕ) → k ≤ j → j < k + n → after.dmem (2 * j) ≡ value j
  pub outside : (a : ℕ) → ((j : ℕ) → k ≤ j → j < k + n → a ≢ 2 * j) → after.dmem a ≡ t.dmem a
  pub same_imem : after.imem_writes ≡ t.imem_writes
  pub same_sent : after.sent ≡ t.sent

module _ (source : Memory) (words : (a : ℕ) → source a < 2 ^ 16) where
  abbrev pair_value : ℕ → ℕ
  pair_value k = word_at source (2 * k)

  -- The file behind a word whose line is read up to the newline.
  behind : ℕ → ℕ → Stream
  behind lines i = stream (codes "\n" ++ contents (dmem_lines lines i source))

  skip_blanks-behind :
      (lines i : ℕ) → skip_blanks (behind lines i).rest ≡ contents (dmem_lines lines i source)
  unfolding behind skip_blanks
  skip_blanks-behind lines i = skip_blanks-dmem_lines source lines i

  one_word :
      (count lines i : ℕ) (fp : Stream)
      → skip_blanks fp.rest ≡ contents (dmem_lines (suc lines) i source)
      → scan_bytes (suc (suc count)) fp
        ≡ word_before (source i) (scan_bytes count (behind lines (i + 1)))
  unfolding behind contents dmem_lines hex_word
  one_word count lines i fp starts = scan_bytes-word count fp (source i) _ starts (words i)

  two_words :
      (lines i : ℕ) (fp : Stream)
      → skip_blanks fp.rest ≡ contents (dmem_lines (suc (suc lines)) i source)
      → scan_bytes 4 fp
        ≡ word_before (source i) (
            word_before
              (source (i + 1))
              (record { numbers = []; stream = behind lines (i + 1 + 1) }))
  two_words lines i fp starts =
      one_word 2 (suc lines) i fp starts
      ∙ ap (word_before (source i)) (
          one_word 0 lines (i + 1) (behind (suc lines) (i + 1))
            (skip_blanks-behind (suc lines) (i + 1))
          ∙ unfold scan_bytes in refl)

  one_pair :
      (left lines k : ℕ) (fp : Stream)
      → fp.eof ≡ false
      → skip_blanks fp.rest ≡ contents (dmem_lines (suc (suc lines)) (2 * k) source)
      → write_dmem (suc left) (u16 (2 * k)) fp
        ≡ pair_command (u16 (2 * k)) (source (2 * k)) (source (2 * k + 1))
          ++ write_dmem left (u16 (u16 (2 * k) + 2)) (behind lines (2 * k + 1 + 1))
  unfolding write_dmem short_bytes as_bytes
  one_pair left lines k fp not_eof starts = rw (not_eof) (
      ap
        (λ (r : Numbers).
          (if length r.numbers == 4
            then cmd_write_dmem ∷ short_bytes (u16 (2 * k)) ++ as_bytes r.numbers
            else [])
          ++ write_dmem left (u16 (u16 (2 * k) + 2)) r.stream)
        (two_words lines (2 * k) fp starts))

  one_more :
      (left k : ℕ) (t t' after : Top)
      → Done t' t.imem_writes (update t.dmem (2 * k) (pair_value k)) t.sent
      → PairsWritten pair_value left (k + 1) t' after
      → PairsWritten pair_value (suc left) k t after
  one_more left k t t' after done rest =
      let at : (a : ℕ) → t'.dmem a ≡ update t.dmem (2 * k) (pair_value k) a =
        λ a. ap (λ m. m a) done.dmem_holds in
      record {
        idle = rest.idle;
        inside = λ j low high. elim (Bool-cases (j == k)) [
          | inl same ↦
              let j_is = (==_iff j k).0 same in
              rest.outside (2 * j) (λ i above below. omega (arith, j_is))
              ∙ at (2 * j)
              ∙ ap (λ x. update t.dmem (2 * k) (pair_value k) (2 * x)) j_is
              ∙ update_self t.dmem (2 * k) (pair_value k)
              ∙ ap pair_value (sym j_is)
          | inr other ↦ rest.inside j (ground arith) (omega arith)
        ];
        outside = λ a h.
            rest.outside a (λ j above below. h j (omega arith) (omega arith))
            ∙ at a
            ∙ update_other t.dmem (2 * k) (pair_value k) a (h k (omega arith) (omega arith));
        same_imem = rest.same_imem ∙ done.imem_written;
        same_sent = rest.same_sent ∙ done.has_sent;
      }

  write_dmem-PairsWritten :
      (left lines k : ℕ) (fp : Stream) (t : Top)
      → fp.eof ≡ false
      → skip_blanks fp.rest ≡ contents (dmem_lines lines (2 * k) source)
      → 2 * left ≤ lines
      → k + left ≤ 2 ^ 7
      → t.state ≡ s_idle
      → PairsWritten pair_value left k t (receive_all (write_dmem left (u16 (2 * k)) fp) t)
  write_dmem-PairsWritten zero lines k fp t not_eof starts inside fits is_idle =
      unfold write_dmem receive_all in
      record {
        idle = is_idle;
        inside = λ j low high. absurd (omega arith);
        outside = λ a h. refl;
        same_imem = refl;
        same_sent = refl;
      }
  write_dmem-PairsWritten (suc left) lines k fp t not_eof starts inside fits is_idle =
      let a = source (2 * k) in
      let b = source (2 * k + 1) in
      let others = lines - 2 in
      let two : lines ≡ suc (suc others) = omega arith in
      let command = pair_command (u16 (2 * k)) a b in
      let t' = receive_all command t in
      let done = command_received (u16 (2 * k)) a b t is_idle (omega arith) (words _) (words _) in
      let rest =
        write_dmem-PairsWritten left others (k + 1) (behind others (2 * k + 1 + 1)) t'
          (unfold behind in refl)
          (skip_blanks-behind others (2 * k + 1 + 1)
            ∙ ap (λ i. contents (dmem_lines others i source)) (omega arith))
          (omega arith) (omega arith) done.idle in
      let sent : write_dmem (suc left) (u16 (2 * k)) fp
          ≡ command ++ write_dmem left (u16 (2 * (k + 1))) (behind others (2 * k + 1 + 1)) =
        one_pair left others k fp not_eof
          (starts ∙ ap (λ n. contents (dmem_lines n (2 * k) source)) two)
        ∙ ap (λ x. command ++ write_dmem left x (behind others (2 * k + 1 + 1))) (omega arith) in
      let there : Done t' t.imem_writes (update t.dmem (2 * k) (pair_value k)) t.sent = record {
        idle = done.idle;
        imem_written = done.imem_written;
        dmem_holds = done.dmem_holds ∙ ap (λ x. update t.dmem x (pair_value k)) (omega arith);
        has_sent = done.has_sent;
      } in
      subst (PairsWritten pair_value (suc left) k t)
        (sym (ap (λ l. receive_all l t) sent ∙ receive_all-++ command _ t))
        (one_more left k t t' _ there rest)

-- The file of a data memory of 16-bit words: `target_write_dmem` of it, with a length of no more
-- words than it has in pairs and at most 256, sent to a receiver that waits for a command, leaves
-- it waiting, with the pairs of words at the even addresses of the data memory of the board, the
-- first one of a pair in the lower half, and all else in its memories as it was.
pub target_write_dmem-PairsWritten :
    (source : Memory) (lines length : ℕ) (t : Top)
    → ((a : ℕ) → source a < 2 ^ 16)
    → 2 * ((length + 1) / 2) ≤ lines
    → length ≤ 256
    → t.state ≡ s_idle
    → PairsWritten
        (λ k. word_at source (2 * k))
        ((length + 1) / 2)
        0
        t
        (receive_all (target_write_dmem (stream (contents (dmem_lines lines 0 source))) length) t)
unfolding target_write_dmem
target_write_dmem-PairsWritten source lines length t words inside fits is_idle =
    write_dmem-PairsWritten source words ((length + 1) / 2) lines 0
      (stream (contents (dmem_lines lines 0 source))) t refl (skip_blanks-dmem_lines source lines 0)
      inside (omega arith) is_idle
