-- ===== src/Disasm/Scan.antt =====
-- The scan of the table finds the row of a word's code, or one that shows the same mnemonic.
use ajardsp.Common.{ℕ, bit_and, ◌==◌, ==_iff, true, and-split, Bool-cases, inl, inr}
use ajardsp.Common.{some, List, [], ◌∷◌, str_eq-eq, ◌≡◌, sym, ap, ◌∙◌}
use ajardsp.Bits.Laws.{bit_and_assoc, bit_and_comm}
use ajardsp.Asm.Types.{InstDef}
use ajardsp.Disasm.{compare_mask, compare_pattern, scan_rows}
use ajardsp.Disasm.Codes.{shown, compatible, first_compatible}

-- Masks can be taken in either order.
pub and_swap : (w m n : ℕ) → bit_and (bit_and w m) n ≡ bit_and (bit_and w n) m
and_swap w m n = bit_and_assoc w m n ∙ ap (bit_and w) (bit_and_comm m n) ∙ sym (bit_and_assoc w n m)

-- A word that has the fixed bits of two rows makes them compatible.
both-compatible :
    (w : ℕ) (r d : InstDef)
    → bit_and w (compare_mask r) ≡ compare_pattern r
    → bit_and w (compare_mask d) ≡ compare_pattern d
    → compatible r d ≡ true
unfolding compatible
both-compatible w r d p q = (==_iff _ _).1 (
    ap (λ (t : ℕ). bit_and t (compare_mask r)) (sym q)
    ∙ and_swap w (compare_mask d) (compare_mask r)
    ∙ ap (λ (t : ℕ). bit_and t (compare_mask d)) p)

pub scan_rows-shown :
    (rows : List InstDef) (d : InstDef) (w : ℕ)
    → first_compatible rows d ≡ true
    → bit_and w (compare_mask d) ≡ compare_pattern d
    → scan_rows rows w ≡ some (shown d.mnemonic)
unfolding first_compatible scan_rows
scan_rows-shown [] d w h q = cc
scan_rows-shown (r ∷ rows) d w h q = elim (Bool-cases (compatible r d)) [
  | inl yes_both ↦
      let (codes_eq, name) = and-split _ _ (rw yes_both at h) in
      let (mask, pattern) = and-split _ _ codes_eq in
      let hit : bit_and w (compare_mask r) ≡ compare_pattern r =
        ap (bit_and w) ((==_iff _ _).0 mask) ∙ q ∙ sym ((==_iff _ _).0 pattern) in
      rw ((==_iff _ _).1 hit) (ap some (str_eq-eq r.mnemonic (shown d.mnemonic) name))
  | inr apart ↦ elim (Bool-cases (bit_and w (compare_mask r) == compare_pattern r)) [
    | inl hit ↦ cc (both-compatible w r d ((==_iff _ _).0 hit) q, apart)
    | inr miss ↦ rw miss (scan_rows-shown rows d w (rw apart at h) q)
  ]
]
