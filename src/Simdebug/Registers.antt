-- ===== src/Simdebug/Registers.antt =====
-- The registers in debug-pli.c: `StartOfSimulationCallBack` finds them, `SimReadOutRegisters` reads
-- them, `RegUpdateValueInDesign` writes one, and `UpdateMemoryInDesign` a word of the memory.
pub mod Table
pub mod Found
pub mod Edited
use ajardsp.Common.{
  ℕ, zero, suc, if◌then◌else◌, Bool, Option, none, some, List, [], ◌∷◌, CString, str_eq, Outcome,
  good, exits, fault, ◌>>=◌,
}
use ajardsp.Simdebug.Vpi.{Vpi}
use ajardsp.Simdebug.Registers.Table.{RegRow}

-- What follows a handle that is looked for, by what the code does when there is none.
abbrev pub handle_or : {H : Type 0} → Outcome H → Option H → Outcome H
handle_or none_found none = none_found
handle_or none_found (some h) = good h

module _ (vpi : Vpi) where
  -- A `Reg_t` with its `obj`; `shown` is the cell of the register window.
  pub record Reg : Type 0 where
    pub row : RegRow
    pub obj : vpi.Handle
    pub curr_value : ℕ
    pub prev_value : ℕ
    pub shown : ℕ

  abbrev indexed : Option ℕ → vpi.Handle → Outcome vpi.Handle
  indexed none h = good h
  indexed (some i) h = handle_or exits (vpi.vpi_handle_by_index h i)

  unfoldable pub find_reg : RegRow → Outcome vpi.Handle
  find_reg row = do h ← handle_or exits (vpi.vpi_handle_by_name row.path); indexed row.index h

  -- The loop of `StartOfSimulationCallBack`.
  unfoldable pub find_regs : List RegRow → Outcome (List Reg)
  unfolding find_reg
  find_regs [] = good []
  find_regs (row ∷ rows) = do
    h ← find_reg row
    rest ← find_regs rows
    good (record { row = row; obj = h; curr_value = 0; prev_value = 0; shown = 0 } ∷ rest)

  -- The loop of `SimReadOutRegisters`, with `RegisterGuiUpdate`.
  unfoldable pub sim_read_out_registers : vpi.Design → List Reg → List Reg
  sim_read_out_registers d [] = []
  sim_read_out_registers d (r ∷ regs) =
      let value = vpi.vpi_get_value d r.obj in
      record r { prev_value = r.curr_value; curr_value = value; shown = value }
      ∷ sim_read_out_registers d regs

  -- The loop of `RegUpdateValueInDesign`.
  unfoldable pub reg_update_value_in_design : List Reg → CString → ℕ → vpi.Design → vpi.Design
  unfolding str_eq
  reg_update_value_in_design [] reg_name new_value d = d
  reg_update_value_in_design (r ∷ regs) reg_name new_value d =
      reg_update_value_in_design regs reg_name new_value
        (if str_eq reg_name r.row.name then vpi.vpi_put_value d r.obj new_value else d)

  -- `UpdateMemoryInDesign` for the memory `mem`; a word that is not there is a null pointer.
  unfoldable pub update_memory_in_design : vpi.Handle → ℕ → ℕ → vpi.Design → Outcome vpi.Design
  update_memory_in_design mem address new_value d = do
    h ← handle_or fault (vpi.vpi_handle_by_index mem address)
    good (vpi.vpi_put_value d h new_value)
