-- ===== src/Simdebug/Registers/Edited.antt =====
-- An edit of a register.
use ajardsp.Common.{
  ℕ, zero, suc, ◌≡◌, refl, ap, ◌∙◌, sym, subst, arith, good, >>=-eq-good, str_eq_refl,
  if◌then◌else◌, not, ◌&&◌, and-split, Bool, true, false, some, List, [], ◌∷◌, CString, str_eq,
  get_elem?,
}
use mathlib.Core.Option.{some-injective}
use ajardsp.Simdebug.Registers.Found.{
  good-injective, AreFound, find_regs-AreFound, AreFound-get, sim_read_out_registers-AreFound,
}
use ajardsp.Simdebug.Vpi.{Vpi}
use ajardsp.Simdebug.Registers.Table.{RegRow, regs_of_interest}
use ajardsp.Simdebug.Registers.{
  Reg, find_reg, find_regs, sim_read_out_registers, reg_update_value_in_design,
}

-- The names of a list are different.
unfoldable differs : CString → List CString → Bool
unfolding str_eq
differs x [] = true
differs x (y ∷ ys) = not (str_eq x y) && not (str_eq y x) && differs x ys

unfoldable all_differ : List CString → Bool
unfolding differs
all_differ [] = true
all_differ (x ∷ xs) = differs x xs && all_differ xs

unfoldable row_names : List RegRow → List CString
row_names [] = []
row_names (row ∷ rows) = row.name ∷ row_names rows

names_differ : all_differ (row_names regs_of_interest) ≡ true
unfolding all_differ row_names regs_of_interest str_eq
names_differ = refl

module _ (vpi : Vpi) where
  abbrev names : List (Reg vpi) → List CString
  names [] = []
  names (r ∷ regs) = r.row.name ∷ names regs

  -- No register of the name.
  update_none :
      (regs : List (Reg vpi)) (name : CString) (v : ℕ) (d : vpi.Design)
      → differs name (names regs) ≡ true
      → reg_update_value_in_design vpi regs name v d ≡ d
  unfolding differs reg_update_value_in_design
  update_none [] name v d h = refl
  update_none (r ∷ regs) name v d h =
      let (both, rest) = and-split _ _ h in
      let first =
        (and-split (not (str_eq name r.row.name)) (not (str_eq r.row.name name)) both).0 in
      let no : str_eq name r.row.name ≡ false = ground (arith, first) in
      rw (no) (update_none regs name v d rest)

  differs-at :
      (regs : List (Reg vpi)) (x : CString) (i : ℕ) (r : Reg vpi)
      → differs x (names regs) ≡ true
      → get_elem? regs i ≡ some r
      → str_eq r.row.name x ≡ false
  unfolding differs
  differs-at [] x i r h at = absurd (ground arith)
  differs-at (y ∷ regs) x zero r h at =
      let both = (and-split _ (differs x (names regs)) h).0 in
      let second = (and-split (not (str_eq x y.row.name)) (not (str_eq y.row.name x)) both).1 in
      ap (λ (z : Reg vpi). str_eq z.row.name x) (sym (some-injective _ _ at))
      ∙ ground (arith, second)
  differs-at (y ∷ regs) x (suc i) r h at = differs-at regs x i r (and-split _ _ h).1 at

  -- The register of the name, and no other one, is written.
  update_one :
      (regs : List (Reg vpi)) (i : ℕ) (r : Reg vpi) (v : ℕ) (d : vpi.Design)
      → all_differ (names regs) ≡ true
      → get_elem? regs i ≡ some r
      → reg_update_value_in_design vpi regs r.row.name v d ≡ vpi.vpi_put_value d r.obj v
  unfolding all_differ reg_update_value_in_design
  update_one [] i r v d h at = absurd (ground arith)
  update_one (y ∷ regs) zero r v d h at =
      let same : y ≡ r = some-injective _ _ at in
      let written : Reg vpi → Type 0 = λ z.
        reg_update_value_in_design vpi regs z.row.name v
          (if str_eq z.row.name y.row.name then vpi.vpi_put_value d y.obj v else d)
        ≡ vpi.vpi_put_value d z.obj v in
      subst written same (
        rw (str_eq_refl y.row.name)
          (update_none regs y.row.name v (vpi.vpi_put_value d y.obj v) (and-split _ _ h).0))
  update_one (y ∷ regs) (suc i) r v d h at =
      let (first, rest) = and-split _ _ h in
      rw (differs-at regs y.row.name i r first at) (update_one regs i r v d rest at)

  find_regs-names :
      (rows : List RegRow) (regs : List (Reg vpi))
      → find_regs vpi rows ≡ good regs
      → names regs ≡ row_names rows
  unfolding find_regs row_names
  find_regs-names [] regs h = ap names (sym (good-injective h))
  find_regs-names (row ∷ rows) regs h =
      let (obj, _, next) = >>=-eq-good (find_reg vpi row) _ h in
      let (rest, found, last) = >>=-eq-good (find_regs vpi rows) _ next in
      ap names (sym (good-injective last))
      ∙ ap (λ n. row.name ∷ n) (find_regs-names rows rest found)

  -- A register that is read out.
  abbrev pub as_read : vpi.Design → Reg vpi → Reg vpi
  as_read d r = record r {
    prev_value = r.curr_value;
    curr_value = vpi.vpi_get_value d r.obj;
    shown = vpi.vpi_get_value d r.obj;
  }

  sim_read_out_registers-get :
      (d : vpi.Design) (regs : List (Reg vpi)) (i : ℕ) (r : Reg vpi)
      → get_elem? regs i ≡ some r
      → get_elem? (sim_read_out_registers vpi d regs) i ≡ some (as_read d r)
  unfolding sim_read_out_registers
  sim_read_out_registers-get d [] i r h = absurd (ground arith)
  sim_read_out_registers-get d (y ∷ regs) zero r h =
      ap (λ z. some (as_read d z)) (some-injective y r h)
  sim_read_out_registers-get d (y ∷ regs) (suc i) r h = sim_read_out_registers-get d regs i r h

  sim_read_out_registers-names :
      (d : vpi.Design) (regs : List (Reg vpi))
      → names (sim_read_out_registers vpi d regs) ≡ names regs
  unfolding sim_read_out_registers
  sim_read_out_registers-names d [] = refl
  sim_read_out_registers-names d (r ∷ regs) =
      ap (λ n. r.row.name ∷ n) (sim_read_out_registers-names d regs)

  -- The registers after a readout of each of several designs.
  unfoldable pub read_outs : List vpi.Design → List (Reg vpi) → List (Reg vpi)
  unfolding sim_read_out_registers
  read_outs [] regs = regs
  read_outs (d ∷ ds) regs = read_outs ds (sim_read_out_registers vpi d regs)

  read_outs-names :
      (ds : List vpi.Design) (regs : List (Reg vpi)) → names (read_outs ds regs) ≡ names regs
  unfolding read_outs
  read_outs-names [] regs = refl
  read_outs-names (d ∷ ds) regs =
      read_outs-names ds (sim_read_out_registers vpi d regs) ∙ sim_read_out_registers-names d regs

  read_outs-AreFound :
      (ds : List vpi.Design) (rows : List RegRow) (regs : List (Reg vpi))
      → AreFound vpi rows regs
      → AreFound vpi rows (read_outs ds regs)
  unfolding read_outs
  read_outs-AreFound [] rows regs h = h
  read_outs-AreFound (d ∷ ds) rows regs h =
      read_outs-AreFound ds rows (sim_read_out_registers vpi d regs)
        (sim_read_out_registers-AreFound vpi d rows regs h)

  -- What the window has of a register after a readout.
  abbrev pub showing : Reg vpi → ℕ → Reg vpi
  showing r value = record r { prev_value = r.curr_value; curr_value = value; shown = value }

  -- With the registers that the start of the simulation has found, after any readouts: an edit of
  -- register `i` puts the value into the object that the row `i` of the table names, once, and puts
  -- no other value; and a readout, of whatever the design is by then, shows for register `i` the
  -- value of that same object, and keeps the value it had shown before for comparison.
  pub reg_update_value_in_design-shown :
      (start regs : List (Reg vpi)) (ds : List vpi.Design) (d later : vpi.Design) (i : ℕ) (v : ℕ)
      (r : Reg vpi)
      → find_regs vpi regs_of_interest ≡ good start
      → regs ≡ read_outs ds start
      → get_elem? regs i ≡ some r
      → (get_elem? regs_of_interest i ≡ some r.row)
        × (find_reg vpi r.row ≡ good r.obj)
        × (reg_update_value_in_design vpi regs r.row.name v d ≡ vpi.vpi_put_value d r.obj v)
        × (get_elem? (sim_read_out_registers vpi later regs) i
            ≡ some (showing r (vpi.vpi_get_value later r.obj)))
  reg_update_value_in_design-shown start regs ds d later i v r found outs at =
      let named : names regs ≡ row_names regs_of_interest =
        ap names outs ∙ read_outs-names ds start ∙ find_regs-names regs_of_interest start found in
      let (in_table, named_object) =
        AreFound-get vpi regs_of_interest (read_outs ds start) i r
          (read_outs-AreFound ds regs_of_interest start
            (find_regs-AreFound vpi regs_of_interest start found))
          (subst (λ l. get_elem? l i ≡ some r) outs at) in
      (
        in_table,
        named_object,
        update_one regs i r v d (ap all_differ named ∙ names_differ) at,
        sim_read_out_registers-get later regs i r at,
      )
