-- ===== src/Target/Debug/Patterns.antt =====
-- What `fill_mem` and `pat_mem` of wb_debug.c leave in the memory of the board.
use ajardsp.Common.{
  ℕ, zero, suc, ◌+◌, ◌*◌, ◌/◌, ◌%◌, ◌^◌, ◌<◌, ◌≤◌, ◌≡◌, refl, ap, ◌∙◌, arith, u32, bit_and,
}
use ajardsp.Common.{
  List, [], ◌∷◌, Bool, true, false, Bool-cases, inl, inr, ltb, leb, if◌then◌else◌, Outcome, good,
  fault, ◌>>=◌, ◌==◌, ==_iff, check_below, check_below_sound,
}
use ajardsp.Bits.Masks.{bit_and-low_mask}
use ajardsp.Target.Debug.{
  W32, w32, fill_from, fill_mem, repeated, pattern_word, pat_from, pat_mem, serial,
}
use ajardsp.Target.Debug.Receiver.{Receiver, receive_all, s_idle}
use ajardsp.Target.Debug.Sweep.{sweep}
use ajardsp.Target.Debug.Swept.{Swept, sweep-Swept}

-- A call before those of a loop that may end in a fault.
call_before :
    (b : Bool) (w : W32) (ws : List W32)
    → ((if b then good ws else fault) >>= λ calls. good (w ∷ calls))
      ≡ (if b then good (w ∷ ws) else fault)
call_before true w ws = refl
call_before false w ws = refl

-- A loop that makes a call in each round ends in a fault just if a product overflows.
module _ (value : ℕ → ℕ) (addr : ℕ) (loop : ℕ → ℕ → Outcome (List W32))
    (ends : (i : ℕ) → loop zero i ≡ good [])
    (round : (left i : ℕ)
      → loop (suc left) i ≡ (
          if ltb (4 * i) (2 ^ 31)
          then (loop left (i + 1) >>= λ calls. good (w32 (u32 (addr + 4 * i)) (value i) ∷ calls))
          else fault)) where
  loop-sweep :
      (left i : ℕ)
      → i ≤ 2 ^ 29
      → loop left i ≡ (if leb (i + left) (2 ^ 29) then good (sweep value left i addr) else fault)
  unfolding sweep
  loop-sweep zero i h =
      let fits : leb (i + 0) (2 ^ 29) ≡ true = ground arith in rw (ends i, fits) refl
  loop-sweep (suc left) i h = elim (Bool-cases (ltb (4 * i) (2 ^ 31))) [
    | inl fits ↦
        let next : i + 1 + left ≡ i + suc left = omega arith in
        rw (round left i, fits, loop-sweep left (i + 1) (ground arith), next)
          (call_before (leb (i + suc left) (2 ^ 29)) (w32 (u32 (addr + 4 * i)) (value i))
            (sweep value left (i + 1) addr))
    | inr over ↦
        let never : leb (i + suc left) (2 ^ 29) ≡ false = ground arith in
        rw (round left i, over, never) refl
  ]

-- The eight digits of the pattern.
abbrev pub eight_digits : ℕ → ℕ
eight_digits n = n * 0x11111111

patterns_checked : check_below 16 (λ n. repeated n == eight_digits n) ≡ true
unfolding check_below repeated
patterns_checked = refl

pub pattern_word-eight_digits : (i : ℕ) → pattern_word i ≡ eight_digits (i % 16)
unfolding pattern_word
pattern_word-eight_digits i =
    let nibble : bit_and i 0xf ≡ i % 16 = bit_and-low_mask 4 i in
    (==_iff _ _).0 (
      check_below_sound 16 (λ n. repeated n == eight_digits n) (bit_and i 0xf) patterns_checked
        (omega (arith, nibble)))
    ∙ ap eight_digits nibble

-- `fill_mem` overflows just for more than 2 ^ 29 words. Otherwise a board that waits for a command
-- and gets the bytes of its calls, for a 32-bit value and a range of `len` words that does not wrap,
-- waits for a command again, holds the value at every word of the range, and holds what it held at
-- every other address.
fill_mem-Swept :
    (addr len value : ℕ) (r : Receiver)
    → r.state ≡ s_idle
    → addr + 4 * len ≤ 2 ^ 32
    → value < 2 ^ 32
    → (calls : List W32) × (fill_mem addr len value
        ≡ (if leb len (2 ^ 29) then good calls else fault))
      × Swept (λ k. value) addr len r.bus (receive_all (serial calls) r)
unfolding fill_mem fill_from
fill_mem-Swept addr len value r is_idle fits word =
    let calls = sweep (λ k. value) len 0 addr in
    let all : 0 + len ≡ len = omega arith in
    (
      calls,
      loop-sweep (λ k. value) addr (λ left i. fill_from left i addr value) (λ i. refl)
            (λ left i. refl) len 0 (omega arith)
          ∙ ap (λ n. if leb n (2 ^ 29) then good calls else fault) all,
      sweep-Swept (λ k. value) addr len r is_idle fits (λ k. word),
    )

-- `pat_mem` overflows just for more than 2 ^ 29 words. Otherwise a board that waits for a command
-- and gets the bytes of its calls, for a range of `len` bytes that does not wrap, waits for a
-- command again, holds at word `k` of the range the eight-digit number of which each digit is `k`
-- modulo 16, and holds what it held at every other address.
pub pat_mem-Swept :
    (addr len : ℕ) (r : Receiver)
    → r.state ≡ s_idle
    → addr + 4 * (len / 4) ≤ 2 ^ 32
    → (calls : List W32) × (pat_mem addr len
        ≡ (if leb (len / 4) (2 ^ 29) then good calls else fault))
      × Swept (λ k. eight_digits (k % 16)) addr (len / 4) r.bus (receive_all (serial calls) r)
unfolding pat_mem pat_from
pat_mem-Swept addr len r is_idle fits =
    let n = len / 4 in
    let calls = sweep pattern_word n 0 addr in
    let all : 0 + n ≡ n = omega arith in
    let s =
      sweep-Swept pattern_word addr n r is_idle fits
        (λ k. omega (arith, pattern_word-eight_digits k)) in
    (
      calls,
      loop-sweep pattern_word addr (λ left i. pat_from left i addr) (λ i. refl) (λ left i. refl) n 0
            (omega arith)
          ∙ ap (λ m. if leb m (2 ^ 29) then good calls else fault) all,
      record {
        idle = s.idle;
        inside = λ k h. s.inside k h ∙ pattern_word-eight_digits k;
        outside = s.outside;
      },
    )
