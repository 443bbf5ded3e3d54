-- ===== src/Asm/Passes/Align.antt =====
-- `.align`: both passes move to the same address, which is the next multiple of a power of two.
use native.Mathlib.Nat.{pow-le-pow_right, one-le-pow}
use ajardsp.Common.{
  ℕ, zero, suc, ◌+◌, ◌-◌, ◌%◌, ◌^◌, ◌<◌, ◌≤◌, bit_and, ◌≡◌, refl, sym, ap, ap₂, ◌∙◌, arith, tests,
  Bool-cases, inl, inr,
}
use ajardsp.Common.{ℤ, pos, ltb}
use ajardsp.Bits.Laws.{bit_and-le}
use ajardsp.Bits.Masks.{bit_and_complement, bit_and-low_mask, bit_and-mod}
use ajardsp.Asm.Passes.{AsmState, align_16, align_32, put_code, put_nops, pad_code}

-- A positive `align` for which the sum of the address stays an `int`.
abbrev pub IsAlign : ℕ → Type 0
IsAlign n = (0 < n) × (n ≤ 2 ^ 30)

-- The address as an `int` is the sum with the low bits cleared.
pub align_32_lem :
    (n addr : ℕ)
    → n < 2 ^ 30
    → addr < 2 ^ 16
    → align_32 (pos (suc n)) addr ≡ bit_and (addr + n) (2 ^ 32 - 1 - n)
unfolding align_32
align_32_lem n addr h k =
    let sum : (addr + n % 2 ^ 32) % 2 ^ 32 ≡ addr + n = omega arith in
    let mask : 2 ^ 32 - suc (n % 2 ^ 32) ≡ 2 ^ 32 - 1 - n = omega arith in ap₂ bit_and sum mask

-- The first pass computes the same address in 16 bits.
pub align_agree :
    (n addr : ℕ)
    → IsAlign n
    → addr < 2 ^ 16
    → (align_16 (pos n) addr ≡ align_32 (pos n) addr % 2 ^ 16) × (addr ≤ align_32 (pos n) addr)
align_agree zero addr h k = absurd (omega arith)
align_agree (suc n) addr h k =
    let x = addr + n in
    let m = 2 ^ 32 - 1 - n in
    let sum : (addr + n % 2 ^ 16) % 2 ^ 16 ≡ x % 2 ^ 16 = omega arith in
    let mask : 2 ^ 16 - suc (n % 2 ^ 16) ≡ m % 2 ^ 16 = omega arith in
    let same : align_16 (pos (suc n)) addr ≡ bit_and (x % 2 ^ 16) (m % 2 ^ 16) =
      unfold align_16 in ap₂ bit_and sum mask in
    let whole = align_32_lem n addr (omega arith) k in
    (
      same ∙ bit_and-mod 16 x m ∙ ap (λ (t : ℕ). t % 2 ^ 16) (sym whole),
      omega (arith, whole, bit_and_complement 32 x n (omega arith) (omega arith), bit_and-le x n),
    )

put_nops_addr :
    (n : ℕ) (st : AsmState)
    → st.imem_addr < 2 ^ 16
    → (put_nops n st).imem_addr ≡ (st.imem_addr + n) % 2 ^ 16
unfolding put_nops
put_nops_addr zero st h = omega arith
put_nops_addr (suc n) st h = omega (arith, put_nops_addr n (put_code 0x0001 st) (omega arith))

-- Padding by an operand from 1 to 2 ^ 30 moves the second pass from a 16-bit address to where the
-- first pass moves from it.
pub pad_code_agree :
    (n : ℕ) (st : AsmState)
    → IsAlign n
    → st.imem_addr < 2 ^ 16
    → (pad_code (pos n) st).imem_addr ≡ align_16 (pos n) st.imem_addr
unfolding pad_code
pad_code_agree n st h k =
    let (low, over) = align_agree n st.imem_addr h k in
    elim (Bool-cases (ltb st.imem_addr (align_32 (pos n) st.imem_addr))) [
      | inl more ↦
          let rest = align_32 (pos n) st.imem_addr - st.imem_addr - 1 in
          rw more (omega (tests, low, put_nops_addr rest st k, more))
      | inr done ↦
          let equal : align_32 (pos n) st.imem_addr ≡ st.imem_addr = ground arith in
          rw done (omega (arith, low, equal))
    ]

put_nops_symtab : (n : ℕ) (st : AsmState) → (put_nops n st).symtab ≡ st.symtab
unfolding put_nops
put_nops_symtab zero st = refl
put_nops_symtab (suc n) st = put_nops_symtab n (put_code 0x0001 st)

pub pad_code_symtab : (align : ℤ) (st : AsmState) → (pad_code align st).symtab ≡ st.symtab
unfolding pad_code
pad_code_symtab align st =
    ground (arith, put_nops_symtab (align_32 align st.imem_addr - st.imem_addr - 1) st)

multiple_below : (x t : ℕ) → 0 < t → (x - x % t) % t ≡ 0
multiple_below x t h = grind arith

pow_bounds : (k : ℕ) → k ≤ 15 → (0 < 2 ^ k) × (2 ^ k ≤ 2 ^ 15)
pow_bounds k h = (one-le-pow k 2 (omega arith), pow-le-pow_right {n = 2} (omega arith) h)

align_32_pow :
    (k addr : ℕ)
    → k ≤ 15
    → addr < 2 ^ 16
    → let x = addr + (2 ^ k - 1) in align_32 (pos (2 ^ k)) addr ≡ x - x % 2 ^ k
align_32_pow k addr h below =
    let n = 2 ^ k - 1 in
    let x = addr + n in
    let e : 2 ^ k ≡ suc n = omega (arith, pow_bounds k h) in
    ap (λ (t : ℕ). align_32 (pos t) addr) e
    ∙ align_32_lem n addr (omega (arith, pow_bounds k h)) below
    ∙ omega (
      arith,
      pow_bounds k h,
      bit_and_complement 32 x n (omega (arith, pow_bounds k h)) (omega (arith, pow_bounds k h)),
      bit_and-low_mask k x,
    )

-- Padding from a 16-bit address to a power of two up to 2 ^ 15 stops at the next multiple of it,
-- less than one step away; the address wraps at 2 ^ 16.
pub pad_code_pow :
    (k : ℕ) (st : AsmState)
    → k ≤ 15
    → st.imem_addr < 2 ^ 16
    → (target : ℕ) × (target % 2 ^ k ≡ 0)
      × (st.imem_addr ≤ target)
      × (target < st.imem_addr + 2 ^ k)
      × ((pad_code (pos (2 ^ k)) st).imem_addr ≡ target % 2 ^ 16)
pad_code_pow k st h below =
    let (positive, small) = pow_bounds k h in
    let addr = st.imem_addr in
    let x = addr + (2 ^ k - 1) in
    let whole = align_32_pow k addr h below in
    let n_fits : IsAlign (2 ^ k) = (positive, omega arith) in
    let (low, over) = align_agree (2 ^ k) addr n_fits below in
    (
      align_32 (pos (2 ^ k)) addr,
      rw whole (multiple_below x (2 ^ k) positive),
      over,
      omega (arith, whole),
      pad_code_agree (2 ^ k) st n_fits below ∙ low,
    )
