-- ===== src/Target/Debug/Sweep.antt =====
-- Calls of `wb_debug_w32` at every fourth address, which is how wb_debug.c writes all it writes.
use ajardsp.Common.{ℕ, zero, suc, ◌+◌, ◌*◌, ◌^◌, ◌<◌, ◌≤◌, ◌≡◌, ◌≢◌, refl, ap, ◌∙◌, sym, arith, u32}
use ajardsp.Common.{
  List, [], ◌∷◌, Memory, update, update_self, update_other, ◌==◌, ==_iff, Bool-cases, inl, inr,
}
use ajardsp.Target.Debug.{W32, w32}
use ajardsp.Target.Debug.Delivered.{perform, AreWords}

-- The word `value k` at `addr + 4 * k`, for `left` numbers `k` from `i` on.
unfoldable pub sweep : (ℕ → ℕ) → ℕ → ℕ → ℕ → List W32
sweep value zero i addr = []
sweep value (suc left) i addr = w32 (u32 (addr + 4 * i)) (value i) ∷ sweep value left (i + 1) addr

pub sweep-AreWords :
    (value : ℕ → ℕ) (left i addr : ℕ)
    → ((k : ℕ) → value k < 2 ^ 32)
    → AreWords (sweep value left i addr)
unfolding sweep AreWords
sweep-AreWords value zero i addr h = tt
sweep-AreWords value (suc left) i addr h =
    (omega arith, h i, sweep-AreWords value left (i + 1) addr h)

-- An address that none of the calls has.
pub perform-sweep_outside :
    (value : ℕ → ℕ) (left i addr : ℕ) (bus : Memory) (a : ℕ)
    → ((k : ℕ) → i ≤ k → k < i + left → a ≢ u32 (addr + 4 * k))
    → perform (sweep value left i addr) bus a ≡ bus a
unfolding sweep perform
perform-sweep_outside value zero i addr bus a h = refl
perform-sweep_outside value (suc left) i addr bus a h =
    perform-sweep_outside value left (i + 1) addr (update bus (u32 (addr + 4 * i)) (value i)) a
      (λ k low high. h k (omega arith) (omega arith))
    ∙ update_other bus (u32 (addr + 4 * i)) (value i) a (h i (omega arith) (omega arith))

-- An address that one of them has.
pub perform-sweep :
    (value : ℕ → ℕ) (left i addr : ℕ) (bus : Memory) (k : ℕ)
    → addr + 4 * (i + left) ≤ 2 ^ 32
    → i ≤ k
    → k < i + left
    → perform (sweep value left i addr) bus (addr + 4 * k) ≡ value k
unfolding sweep perform
perform-sweep value zero i addr bus k fits low high = absurd (omega arith)
perform-sweep value (suc left) i addr bus k fits low high =
    let bus' = update bus (u32 (addr + 4 * i)) (value i) in
    let at : u32 (addr + 4 * i) ≡ addr + 4 * i = omega arith in
    elim (Bool-cases (k == i)) [
      | inl same ↦
          let k_is = (==_iff k i).0 same in
          perform-sweep_outside value left (i + 1) addr bus' (addr + 4 * k)
            (λ j above below. ground arith)
          ∙ ap (λ x. bus' (addr + 4 * x)) k_is
          ∙ ap bus' (sym at)
          ∙ update_self bus (u32 (addr + 4 * i)) (value i)
          ∙ ap value (sym k_is)
      | inr other ↦
          perform-sweep value left (i + 1) addr bus' k (omega arith) (ground arith) (omega arith)
    ]
