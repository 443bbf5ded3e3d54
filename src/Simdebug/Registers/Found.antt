-- ===== src/Simdebug/Registers/Found.antt =====
-- The objects that `StartOfSimulationCallBack` has found for the registers.
use ajardsp.Common.{
  ℕ, zero, suc, ◌≡◌, refl, ap, ◌∙◌, sym, subst, arith, Outcome, good, bad, exits, fault,
  >>=-eq-good, true, false, some, List, [], ◌∷◌, get_elem?,
}
use mathlib.Core.Option.{some-injective}
use ajardsp.Simdebug.Vpi.{Vpi}
use ajardsp.Simdebug.Registers.Table.{RegRow}
use ajardsp.Simdebug.Registers.{Reg, find_reg, find_regs, sim_read_out_registers}

pub good-injective : {A : Type 0} {x y : A} → Outcome.good x ≡ good y → x ≡ y
good-injective {x = x} h = ap (λ o. elim o [ good z ↦ z | bad ↦ x | exits ↦ x | fault ↦ x ]) h

module _ (vpi : Vpi) where
  -- Every register has a row of the table, and its object is the one that the row names.
  unfoldable pub AreFound : List RegRow → List (Reg vpi) → Type 0
  AreFound [] [] = Unit {0}
  AreFound [] (r ∷ regs) = true ≡ false
  AreFound (row ∷ rows) [] = true ≡ false
  AreFound (row ∷ rows) (r ∷ regs) =
      (r.row ≡ row) × (find_reg vpi row ≡ good r.obj) × AreFound rows regs

  pub find_regs-AreFound :
      (rows : List RegRow) (regs : List (Reg vpi))
      → find_regs vpi rows ≡ good regs
      → AreFound rows regs
  unfolding find_regs AreFound
  find_regs-AreFound [] regs h = subst (AreFound []) (good-injective h) tt
  find_regs-AreFound (row ∷ rows) regs h =
      let (obj, is_obj, next) = >>=-eq-good (find_reg vpi row) _ h in
      let (rest, found, last) = >>=-eq-good (find_regs vpi rows) _ next in
      subst (AreFound (row ∷ rows)) (good-injective last)
        (refl, is_obj, find_regs-AreFound rows rest found)

  pub AreFound-get :
      (rows : List RegRow) (regs : List (Reg vpi)) (i : ℕ) (r : Reg vpi)
      → AreFound rows regs
      → get_elem? regs i ≡ some r
      → (get_elem? rows i ≡ some r.row) × (find_reg vpi r.row ≡ good r.obj)
  unfolding AreFound
  AreFound-get rows [] i r h at = absurd (ground arith)
  AreFound-get [] (y ∷ regs) i r h at = absurd (ground arith)
  AreFound-get (row ∷ rows) (y ∷ regs) zero r (same, obj, rest) at =
      subst (λ (z : Reg vpi). (some row ≡ some z.row) × (find_reg vpi z.row ≡ good z.obj))
        (some-injective _ _ at) (ap some (sym same), ap (find_reg vpi) same ∙ obj)
  AreFound-get (row ∷ rows) (y ∷ regs) (suc i) r (same, obj, rest) at =
      AreFound-get rows regs i r rest at

  pub sim_read_out_registers-AreFound :
      (d : vpi.Design) (rows : List RegRow) (regs : List (Reg vpi))
      → AreFound rows regs
      → AreFound rows (sim_read_out_registers vpi d regs)
  unfolding AreFound sim_read_out_registers
  sim_read_out_registers-AreFound d [] [] h = h
  sim_read_out_registers-AreFound d [] (r ∷ regs) h = h
  sim_read_out_registers-AreFound d (row ∷ rows) [] h = h
  sim_read_out_registers-AreFound d (row ∷ rows) (r ∷ regs) (same, obj, rest) =
      (same, obj, sim_read_out_registers-AreFound d rows regs rest)
