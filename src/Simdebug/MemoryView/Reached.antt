-- ===== src/Simdebug/MemoryView/Reached.antt =====
-- The memory window over a whole session: words are read out at every stop, and edited in between.
use ajardsp.Common.{
  ℕ, ◌+◌, ◌-◌, ◌*◌, ◌/◌, ◌%◌, ◌<◌, ◌≤◌, ◌≡◌, inl, inr, ap, ap₂, ◌∙◌, sym, arith, Memory, update,
  ◌==◌, not,
}
use ajardsp.Simdebug.MemoryView.{
  ldm_size, MemView, set_cell, sim_read_out_memory, mem_value_edited, Drawn, memory_data_func,
}
use ajardsp.Simdebug.MemoryView.Shown.{cell, IsShown, Shows, read_out_from-Shows}

-- A readout, or an edit of one of the eight cells of a row.
pub data Step (v : MemView) : MemView → Type 0 where
  reads_out : (value : Memory) → Step v (sim_read_out_memory value v)
  edits :
      (row column new_value : ℕ)
      → 1 ≤ column
      → column ≤ 8
      → Step v (mem_value_edited (8 * row) column new_value v)

-- The views that a debugger comes to which starts with every age 0.
pub data Reached : MemView → Type 0 where
  starts : (v : MemView) → ((a : ℕ) → v.age a ≡ 0) → Reached v
  steps : {v v' : MemView} → Reached v → Step v v' → Reached v'

mem_value_edited-IsShown :
    (row column new_value : ℕ) (v : MemView) (a : ℕ)
    → 1 ≤ column
    → column ≤ 8
    → IsShown v a
    → IsShown (mem_value_edited (8 * row) column new_value v) a
unfolding mem_value_edited set_cell update IsShown
mem_value_edited-IsShown row column new_value v a low high shown = ground arith

sim_read_out_memory-Shows :
    (value : Memory) (v : MemView) (a : ℕ)
    → a < ldm_size
    → IsShown v a
    → Shows v (sim_read_out_memory value v) a (value a)
unfolding sim_read_out_memory
sim_read_out_memory-Shows value v a inside shown =
    read_out_from-Shows ldm_size 0 value v a (omega arith) (omega arith) shown

Step-IsShown : {v v' : MemView} (a : ℕ) → a < ldm_size → Step v v' → IsShown v a → IsShown v' a
Step-IsShown a inside (reads_out value) shown =
    let s = sim_read_out_memory-Shows value _ a inside shown in
    unfold IsShown in inl (s.in_cell ∙ sym s.is_current)
Step-IsShown a inside (edits row column new_value low high) shown =
    mem_value_edited-IsShown row column new_value _ a low high shown

Reached-IsShown : {v : MemView} (a : ℕ) → a < ldm_size → Reached v → IsShown v a
Reached-IsShown a inside (starts v young) = unfold IsShown in inr (young a)
Reached-IsShown a inside (steps before step) =
    Step-IsShown a inside step (Reached-IsShown a inside before)

-- However often the memory has been read out and its cells edited before, `SimReadOutMemory` leaves
-- the window showing, for each word of the memory, what the design holds: the cell has that number,
-- and the number that `Memory_DataFunc` prints there is that number, in red exactly when the word
-- was another one before.
pub sim_read_out_memory-window :
    {v : MemView} (value : Memory) (a : ℕ)
    → Reached v
    → a < ldm_size
    → let v' = sim_read_out_memory value v in
      (cell v' a ≡ value a)
      × (memory_data_func (8 * (a / 8)) (1 + a % 8) v'
          ≡ record { number = value a; red = not (value a == v.curr a) })
unfolding memory_data_func
sim_read_out_memory-window {v = v} value a reached inside =
    let s = sim_read_out_memory-Shows value v a inside (Reached-IsShown a inside reached) in
    let v' = sim_read_out_memory value v in
    let address : 8 * (a / 8) + (1 + a % 8 - 1) ≡ a = omega arith in
    let draw : ℕ → Drawn = λ b. record { number = v'.curr b; red = not (v'.curr b == v'.prev b) } in
    let number : ℕ → ℕ → Drawn = λ c p. record { number = c; red = not (c == p) } in
    (s.in_cell, ap draw address ∙ ap₂ number s.is_current s.was_current)
