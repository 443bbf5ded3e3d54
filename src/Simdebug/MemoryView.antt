-- ===== src/Simdebug/MemoryView.antt =====
-- The data memory in debug-pli.c (`SimReadOutMemory`, `UpdateMemoryInDesign`) and its window in
-- debug-gui.c (`MemInitializeMemory`, `MemoryGuiUpdate`, `MemValueEdited`, `Memory_DataFunc`).
pub mod Shown
pub mod Reached
use ajardsp.Common.{
  ℕ, zero, suc, ◌+◌, ◌-◌, ◌*◌, ◌/◌, Bool, not, ltb, ◌==◌, if◌then◌else◌, Memory, update,
}
use ajardsp.Common.{List, [], ◌∷◌}

abbrev pub ldm_size : ℕ
ldm_size = 0x10000 / 16

-- `MemoryCurr`, `MemoryPrev`, `MemoryAge`, and the cells of the list store by row and column.
pub record MemView : Type 0 where
  pub curr : Memory
  pub prev : Memory
  pub age : Memory
  pub cells : ℕ → Memory

-- `gtk_list_store_set` of one cell.
unfoldable pub set_cell : (ℕ → Memory) → ℕ → ℕ → ℕ → ℕ → Memory
unfolding update
set_cell cells row column value r = if r == row then update (cells r) column value else cells r

unfoldable pub memory_gui_update : ℕ → ℕ → MemView → MemView
unfolding set_cell
memory_gui_update address value v =
    let row_address = address / 8 in
    let col_address = address - row_address * 8 in
    record v { cells = set_cell v.cells row_address (1 + col_address) value }

-- The inner loop of `MemInitializeMemory` over the columns of row `i / 8`, from column `j` on.
unfoldable pub init_columns : ℕ → ℕ → ℕ → (ℕ → Memory) → ℕ → Memory
unfolding set_cell
init_columns zero j i cells = cells
init_columns (suc left) j i cells =
    init_columns left (j + 1) i (set_cell cells (i / 8) (1 + j) (i + j))

unfoldable pub init_rows : ℕ → ℕ → (ℕ → Memory) → ℕ → Memory
unfolding init_columns set_cell
init_rows zero i cells = cells
init_rows (suc left) i cells =
    init_rows left (i + 8) (init_columns 8 0 i (set_cell cells (i / 8) 0 i))

unfoldable pub mem_initialize_memory : ℕ → (ℕ → Memory) → ℕ → Memory
unfolding init_rows
mem_initialize_memory mem_length cells = init_rows ((mem_length + 7) / 8) 0 cells

-- `MemoryAge[i]` after the comparison of the new value with the old one.
unfoldable pub new_age : ℕ → ℕ → MemView → ℕ
new_age i val v = if val == v.curr i then v.age i + 1 else 0

-- One round of the loop of `SimReadOutMemory`, for the value that the design has at `i`.
unfoldable pub read_out_word : ℕ → ℕ → MemView → MemView
unfolding new_age memory_gui_update update
read_out_word i val v =
    let v' = record v {
      prev = update v.prev i (v.curr i);
      curr = update v.curr i val;
      age = update v.age i (new_age i val v);
    } in
    if ltb (new_age i val v) 2 then memory_gui_update i val v' else v'

-- The loop from `i` on, with `left` rounds to go; `value` is what the design holds.
unfoldable pub read_out_from : ℕ → ℕ → Memory → MemView → MemView
unfolding read_out_word
read_out_from zero i value v = v
read_out_from (suc left) i value v = read_out_from left (i + 1) value (read_out_word i (value i) v)

unfoldable pub sim_read_out_memory : Memory → MemView → MemView
unfolding read_out_from
sim_read_out_memory value v = read_out_from ldm_size 0 value v

-- `MemValueEdited` with `UpdateMemoryInDesign`, for a cell of the row with address `row_address`:
-- what is left of the view.
unfoldable pub mem_value_edited : ℕ → ℕ → ℕ → MemView → MemView
unfolding update set_cell
mem_value_edited row_address column new_value v =
    let address = row_address + (column - 1) in
    record v {
      cells = set_cell v.cells (row_address / 8) column new_value;
      curr = update v.curr address new_value;
    }

-- `Memory_DataFunc` for a word: the number that it prints, and whether in red.
pub record Drawn : Type 0 where
  pub number : ℕ
  pub red : Bool

unfoldable pub memory_data_func : ℕ → ℕ → MemView → Drawn
memory_data_func row_address column v =
    let address = row_address + (column - 1) in
    record { number = v.curr address; red = not (v.curr address == v.prev address) }
