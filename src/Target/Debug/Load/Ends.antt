-- ===== src/Target/Debug/Load/Ends.antt =====
-- The loops of `target_load_imem` and `target_load_dmem` end.
use ajardsp.Common.{
  ℕ, zero, suc, ◌+◌, ◌-◌, ◌*◌, ◌/◌, ◌<◌, ◌≤◌, ◌≡◌, refl, ap, arith, leb, ltb, Bool-cases, inl, inr,
}
use ajardsp.Common.{
  Option, some, List, [], ◌∷◌, ◌++◌, length, length-append, Bool, true, false, if◌then◌else◌, not,
  ◌&&◌,
}
use ajardsp.Target.Scan.{Stream}
use ajardsp.Target.Debug.{W32}
use ajardsp.Target.Debug.Load.{before, load_imem, target_load_imem, load_dmem, target_load_dmem}

-- The loop has come to its end, with no more than so many calls made.
pub record Ended (result : Option (List W32)) (most : ℕ) : Type 0 where
  pub calls : List W32
  pub gives : result ≡ some calls
  pub bounded : length calls ≤ most

before-Ended :
    (ws : List W32) (result : Option (List W32)) (most : ℕ)
    → Ended result most
    → Ended (before ws result) (length ws + most)
before-Ended ws result most e = record {
  calls = ws ++ e.calls;
  gives = ap (before ws) e.gives;
  bounded = omega (arith, e.bounded, length-append ws e.calls);
}

more : {result : Option (List W32)} {a b : ℕ} → Ended result a → a ≤ b → Ended result b
more e h = record { calls = e.calls; gives = e.gives; bounded = omega (arith, e.bounded) }

if-Ended :
    (b : Bool) {x y : Option (List W32)} (most : ℕ)
    → (b ≡ true → Ended x most)
    → (b ≡ false → Ended y most)
    → Ended (if b then x else y) most
if-Ended true most x y = x refl
if-Ended false most x y = y refl

load_imem-Ended :
    (fuel : ℕ) (unset : ℕ → ℕ) (fp : Stream) (address len : ℕ)
    → len < 8 * fuel
    → Ended (load_imem fuel unset fp address len) ((len - 1) / 4 + 1)
unfolding load_imem
load_imem-Ended zero unset fp address len h = absurd (omega arith)
load_imem-Ended (suc fuel) unset fp address len h =
    if-Ended fp.eof _ (λ done. record { calls = []; gives = refl; bounded = omega arith })
      (λ more_to_read.
        if-Ended (leb (len - 4) 0) _
          (λ used_up. record { calls = _; gives = refl; bounded = omega arith })
          (λ left.
            if-Ended (leb (len - 4 - 4) 0) _
              (λ used_up. record { calls = _; gives = refl; bounded = ground arith })
              (λ still_left.
                let rest = load_imem-Ended fuel unset _ _ (len - 4 - 4) (ground arith) in
                more (before-Ended (_ ∷ _ ∷ []) _ _ rest) (ground arith))))

load_dmem-Ended :
    (fuel : ℕ) (unset : ℕ → ℕ) (fp : Stream) (address len : ℕ)
    → len + 3 < 4 * fuel
    → Ended (load_dmem fuel unset fp address len) ((len + 3) / 4)
unfolding load_dmem
load_dmem-Ended zero unset fp address len h = absurd (omega arith)
load_dmem-Ended (suc fuel) unset fp address len h =
    if-Ended (not fp.eof && ltb 0 len) _
      (λ left. elim (Bool-cases (ltb 0 len)) [
        | inl some_left ↦
            let rest = load_dmem-Ended fuel unset _ _ (len - 4) (ground arith) in
            more (before-Ended (_ ∷ []) _ _ rest) (ground arith)
        | inr none_left ↦ absurd (ground arith)
      ])
      (λ done. record { calls = []; gives = refl; bounded = omega arith })

-- Whatever the file holds, both loads come to their end: `target_load_imem` with at most one call
-- for each four bytes of the length or part of them, and at most one when the length is 0, and
-- `target_load_dmem` with at most one call for each four bytes of the length or part of them.
pub target_load-Ended :
    (unset : ℕ → ℕ) (fp : Stream) (address len : ℕ)
    → Ended (target_load_imem unset fp address len) ((len - 1) / 4 + 1)
      × Ended (target_load_dmem unset fp address len) ((len + 3) / 4)
unfolding target_load_imem target_load_dmem
target_load-Ended unset fp address len = (
  load_imem-Ended (len / 8 + 1) unset fp address len (omega arith),
  load_dmem-Ended ((len + 3) / 4 + 1) unset fp address len (omega arith),
)
