-- ===== src/Target/Monitor/ReadBack.antt =====
-- `target_read_dmem` of targetmon.c prints what the data memory of the board holds.
use mathlib.Core.List.{append-nil, append_assoc}
use ajardsp.Common.{
  ℕ, zero, suc, ◌+◌, ◌-◌, ◌*◌, ◌/◌, ◌%◌, ◌^◌, ◌<◌, ◌≤◌, ◌≡◌, refl, ap, ap₂, ◌∙◌, sym, subst, arith,
  u16,
}
use ajardsp.Common.{List, [], ◌∷◌, ◌++◌, CString, codes, Memory}
use ajardsp.Asm.Output.{hex_digit, hex_word, dmem_lines}
use ajardsp.Disasm.Assembled.{word_at}
use ajardsp.Target.Bytes.{short_bytes, hex_byte}
use ajardsp.Target.Debug.Load.Lines.{stream, contents}
use ajardsp.Target.Monitor.{
  cmd_read_dmem, read_dmem, answer_lines, dead_lines, target_read_dmem, target_read_dmem_file,
  target_write_dmem,
}
use ajardsp.Target.Monitor.Receiver.{
  Top, s_idle, receive, receive_all, receive_all-++, answer_bytes, answer, Done,
}
use ajardsp.Target.Monitor.Dmem.{target_write_dmem-PairsWritten}

abbrev read_command : ℕ → List ℕ
read_command addr = cmd_read_dmem ∷ addr % 256 ∷ addr / 2 ^ 8 % 256 ∷ []

command_received :
    (addr : ℕ) (t : Top)
    → t.state ≡ s_idle
    → addr < 2 ^ 8
    → Done
        (receive_all (read_command addr) t)
        t.imem_writes
        t.dmem
        (t.sent ++ answer_bytes (t.dmem addr))
unfolding receive_all receive answer
command_received addr t is_idle h =
    subst
      (λ c.
        Done (receive_all (read_command addr) c) c.imem_writes c.dmem
          (c.sent ++ answer_bytes (c.dmem addr)))
      (ap (λ s. record t { state = s }) (sym is_idle))
      (record {
        idle = refl;
        imem_written = refl;
        dmem_holds = refl;
        has_sent = ap (λ a. t.sent ++ answer_bytes (t.dmem a)) (omega arith);
      })

-- The answers for the pairs from pair `k` on.
unfoldable pub answers : ℕ → ℕ → Memory → List ℕ
unfolding answer_bytes
answers zero k dmem = []
answers (suc left) k dmem = answer_bytes (dmem (2 * k)) ++ answers left (k + 1) dmem

read_dmem-answers :
    (left k : ℕ) (t : Top)
    → t.state ≡ s_idle
    → k + left ≤ 2 ^ 7
    → Done
        (receive_all (read_dmem left (u16 (2 * k))) t)
        t.imem_writes
        t.dmem
        (t.sent ++ answers left k t.dmem)
unfolding read_dmem answers
read_dmem-answers zero k t is_idle fits =
    unfold receive_all in
    record {
      idle = is_idle;
      imem_written = refl;
      dmem_holds = refl;
      has_sent = sym (append-nil t.sent);
    }
read_dmem-answers (suc left) k t is_idle fits =
    let command = read_command (u16 (2 * k)) in
    let t' = receive_all command t in
    let done = command_received (u16 (2 * k)) t is_idle (omega arith) in
    let rest = read_dmem-answers left (k + 1) t' done.idle (omega arith) in
    let first : answer_bytes (t.dmem (u16 (2 * k))) ≡ answer_bytes (t.dmem (2 * k)) =
      ap (λ a. answer_bytes (t.dmem a)) (omega arith) in
    let whole : receive_all (read_dmem (suc left) (u16 (2 * k))) t
        ≡ receive_all (read_dmem left (u16 (2 * (k + 1)))) t' =
      unfold short_bytes in
      receive_all-++ command (read_dmem left (u16 (u16 (2 * k) + 2))) t
      ∙ ap (λ a. receive_all (read_dmem left a) t') (omega arith) in
    record {
      idle = ap (λ c. c.state) whole ∙ rest.idle;
      imem_written = ap (λ c. c.imem_writes) whole ∙ rest.imem_written ∙ done.imem_written;
      dmem_holds = ap (λ c. c.dmem) whole ∙ rest.dmem_holds ∙ done.dmem_holds;
      has_sent =
          ap (λ c. c.sent) whole
          ∙ rest.has_sent
          ∙ ap₂ (λ s d. s ++ answers left (k + 1) d) done.has_sent done.dmem_holds
          ∙ ap (λ s. t.sent ++ s ++ answers left (k + 1) t.dmem) first
          ∙ append_assoc t.sent (answer_bytes (t.dmem (2 * k))) (answers left (k + 1) t.dmem);
    }

-- The two lines of an answer.
low_line : (d : ℕ) → hex_byte (d / 2 ^ 8 % 256) ++ hex_byte (d % 256) ≡ hex_word (d % 2 ^ 16)
unfolding hex_byte hex_word
low_line d =
    let four : ℕ → ℕ → ℕ → ℕ → CString =
      λ a b c e. hex_digit a ∷ hex_digit b ∷ hex_digit c ∷ hex_digit e ∷ [] in
    ap₂ (λ a b. four a b (d % 256 / 16 % 16) (d % 256 % 16)) (omega arith) (omega arith)
    ∙ ap₂ (four (d % 2 ^ 16 / 16 ^ 3 % 16) (d % 2 ^ 16 / 16 ^ 2 % 16)) (omega arith) (omega arith)

high_line :
    (d : ℕ)
    → hex_byte (d / 2 ^ 24 % 256) ++ hex_byte (d / 2 ^ 16 % 256) ≡ hex_word (d / 2 ^ 16 % 2 ^ 16)
high_line d =
    ap (λ x. hex_byte x ++ hex_byte (d / 2 ^ 16 % 256)) (omega arith) ∙ low_line (d / 2 ^ 16)

module _ (source : Memory) (words : (a : ℕ) → source a < 2 ^ 16) where
  answer_lines-dmem_lines :
      (left k : ℕ) (dmem : Memory)
      → ((j : ℕ) → k ≤ j → j < k + left → dmem (2 * j) ≡ word_at source (2 * j))
      → answer_lines (answers left k dmem) ≡ dmem_lines (2 * left) (2 * k) source
  unfolding answer_lines answers answer_bytes dmem_lines
  answer_lines-dmem_lines zero k dmem holds = refl
  answer_lines-dmem_lines (suc left) k dmem holds =
      let d = dmem (2 * k) in
      let is_d = holds k (omega arith) (omega arith) in
      let low : d % 2 ^ 16 ≡ source (2 * k) = omega (arith, is_d, words (2 * k)) in
      let high : d / 2 ^ 16 % 2 ^ 16 ≡ source (2 * k + 1) =
        omega (arith, is_d, words (2 * k), words (2 * k + 1)) in
      let rest =
        answer_lines-dmem_lines left (k + 1) dmem
          (λ j above below. holds j (omega arith) (omega arith)) in
      let lines : CString → CString → List CString → List CString =
        λ x y l. (x ++ codes "\n") ∷ (y ++ codes "\n") ∷ l in
      let two : suc (suc (2 * left)) ≡ 2 * suc left = omega arith in
      ap₂ (λ x y. lines x y (answer_lines (answers left (k + 1) dmem)))
        (low_line d ∙ ap hex_word low) (high_line d ∙ ap hex_word high)
      ∙ ap (lines (hex_word (source (2 * k))) (hex_word (source (2 * k + 1))))
          (rest ∙ ap (λ i. dmem_lines (2 * left) i source) (omega arith))
      ∙ ap (λ n. dmem_lines n (2 * k) source) two

-- Written and read back, the file of a data memory of 16-bit words: when `target_write_dmem` of it
-- is sent to a receiver that waits for a command, and then `target_read_dmem`, both for the same
-- length of at most 256 words and no more than the file has in pairs, the receiver has sent answers
-- of which `target_read_dmem` prints the first lines of the file again, as many as the length, or
-- one less when that is odd, and then a line `dead` for each number from the length to
-- `file_length`.
pub target_read_dmem-target_write_dmem :
    (source : Memory) (lines length file_length : ℕ) (t : Top)
    → ((a : ℕ) → source a < 2 ^ 16)
    → 2 * ((length + 1) / 2) ≤ lines
    → length ≤ 256
    → t.state ≡ s_idle
    → let t' =
        receive_all (target_write_dmem (stream (contents (dmem_lines lines 0 source))) length) t in
      (bytes : List ℕ) × ((receive_all (target_read_dmem length) t').sent ≡ t'.sent ++ bytes)
      × (target_read_dmem_file bytes length file_length
          ≡ dmem_lines (2 * (length / 2)) 0 source ++ dead_lines (file_length - length))
unfolding target_read_dmem target_read_dmem_file
target_read_dmem-target_write_dmem source lines length file_length t words inside fits is_idle =
    let t' =
      receive_all (target_write_dmem (stream (contents (dmem_lines lines 0 source))) length) t in
    let written = target_write_dmem-PairsWritten source lines length t words inside fits is_idle in
    let got = read_dmem-answers (length / 2) 0 t' written.idle (omega arith) in
    (
      answers (length / 2) 0 t'.dmem,
      got.has_sent,
      ap (λ l. l ++ dead_lines (file_length - length))
          (answer_lines-dmem_lines source words (length / 2) 0 t'.dmem
            (λ j low high. written.inside j low (omega arith))),
    )
