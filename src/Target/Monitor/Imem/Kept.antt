-- ===== src/Target/Monitor/Imem/Kept.antt =====
-- What `target_write_imem` of targetmon.c leaves in the instruction memory of the board.
use ajardsp.Common.{
  ℕ, zero, suc, ◌+◌, ◌*◌, ◌/◌, ◌^◌, ◌<◌, ◌≤◌, ◌≡◌, refl, ap, ◌∙◌, arith, Option, some, none, true,
  false, if◌then◌else◌, Bool-cases, inl, inr, ◌==◌, ==_iff, List, [], ◌∷◌, ◌++◌, Memory,
}
use ajardsp.Asm.Output.{imem_lines}
use ajardsp.Disasm.Assembled.{word_at}
use ajardsp.Target.Debug.Load.Lines.{skip_blanks-imem_lines, stream, contents}
use ajardsp.Target.Monitor.{target_write_imem}
use ajardsp.Target.Monitor.Receiver.{ImemWrite, Top, s_idle, receive_all}
use ajardsp.Target.Monitor.Imem.{line_write, line_writes, LinesWritten, write_imem-LinesWritten}

-- A 32-bit half of the memory, the low one and the high one of each address in turn, and what
-- stands in it after writes, if any of them went there: the last of them.
abbrev slot : ImemWrite → ℕ
slot w = if w.high then 2 * w.addrb + 1 else 2 * w.addrb

abbrev or_before : Option ℕ → Option ℕ → Option ℕ
or_before none before = before
or_before (some d) before = some d

unfoldable pub last_written : List ImemWrite → ℕ → Option ℕ
last_written [] a = none
last_written (w ∷ ws) a = or_before (last_written ws a) (if slot w == a then some w.dib else none)

last_written-append :
    (xs ys : List ImemWrite) (a d : ℕ)
    → last_written ys a ≡ some d
    → last_written (xs ++ ys) a ≡ some d
unfolding last_written
last_written-append [] ys a d h = h
last_written-append (x ∷ xs) ys a d h = rw (last_written-append xs ys a d h) refl

slot-line_write : (source : Memory) (k : ℕ) → slot (line_write source k) ≡ k / 2
slot-line_write source k = ground arith

last_written-none :
    (source : Memory) (n k a : ℕ) → 2 * a + 2 ≤ k → last_written (line_writes source n k) a ≡ none
unfolding last_written line_writes
last_written-none source zero k a h = refl
last_written-none source (suc n) k a h =
    let other : (slot (line_write source k) == a) ≡ false =
      rw (slot-line_write source k) (ground arith) in
    rw (last_written-none source n (k + 1) a (omega arith), other) refl

last_written-line :
    (source : Memory) (n k a : ℕ)
    → k ≤ 2 * a + 1
    → 2 * a + 1 < k + n
    → last_written (line_writes source n k) a ≡ some (word_at source (4 * (2 * a + 1)))
unfolding last_written line_writes
last_written-line source zero k a low high = absurd (omega arith)
last_written-line source (suc n) k a low high = elim (Bool-cases (k == 2 * a + 1)) [
  | inl last ↦
      let is : k ≡ 2 * a + 1 = (==_iff k (2 * a + 1)).0 last in
      let there : (slot (line_write source k) == a) ≡ true =
        rw (slot-line_write source k) (ground (arith, is)) in
      rw (last_written-none source n (k + 1) a (omega (arith, is)), there)
        (ap (λ i. some (word_at source (4 * i))) is)
  | inr more ↦
      let left : k + 1 ≤ 2 * a + 1 = ground arith in
      rw (last_written-line source n (k + 1) a left (omega arith)) refl
]

-- All lines are written, and what the last write to a half has.
pub record Loaded (source : Memory) (n : ℕ) (t after : Top) : Type 0 where
  pub lines : LinesWritten source n 0 t after
  pub kept :
      (a : ℕ) → 2 * a + 1 < n → last_written after.imem_writes a ≡ some (word_at source (8 * a + 4))

-- The file of an instruction memory of 16-bit words: `target_write_imem` of it, with a length of at
-- most four words for each line and at most 2 ^ 16 lines, sent to a receiver that waits for a
-- command, leaves it waiting, with all else as it was, after one write to the instruction memory for
-- each line, in order: of line `k` the two words from `4 * k` on, to the half that bit 1 of `k`
-- names, at `k / 4`. So the last write to half `a` of the memory, the low one and the high one of
-- each address in turn, has the two words from `8 * a + 4` on, if line `2 * a + 1` is among the
-- lines. No value is one that no conversion has set.
pub target_write_imem-Loaded :
    (unset : ℕ → ℕ → ℕ) (source : Memory) (lines length : ℕ) (t : Top)
    → ((i : ℕ) → source i < 2 ^ 16)
    → length / 4 ≤ lines
    → length / 4 ≤ 2 ^ 16
    → t.state ≡ s_idle
    → Loaded source (length / 4) t (
        receive_all
          (target_write_imem unset (stream (contents (imem_lines lines 0 source))) length)
          t)
unfolding target_write_imem
target_write_imem-Loaded unset source lines length t words inside fits is_idle =
    let all =
      write_imem-LinesWritten unset source words (length / 4) lines 0
        (stream (contents (imem_lines lines 0 source))) t refl
        (skip_blanks-imem_lines source lines 0) inside (omega arith) is_idle in
    record {
      lines = all;
      kept = λ a among.
          ap (λ w. last_written w a) all.written
          ∙ last_written-append t.imem_writes _ a _
              (last_written-line source (length / 4) 0 a (omega arith) (omega arith))
          ∙ ap (λ i. some (word_at source i)) (omega arith);
    }
