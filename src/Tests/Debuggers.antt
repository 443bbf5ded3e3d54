-- ===== src/Tests/Debuggers.antt =====
-- The debugger of the simulator: small runs.
use ajardsp.Common.{
  ℕ, zero, suc, ◌+◌, ◌*◌, ◌/◌, ◌%◌, ◌^◌, ◌≡◌, refl, arith, not, ◌==◌, ltb, Bool, true, false,
  if◌then◌else◌, Option, none, some, List, [], ◌∷◌, ◌++◌, get_elem?, CString, codes, Memory, update,
  Outcome, good,
}
use ajardsp.Simdebug.Vpi.{Vpi}
use ajardsp.Simdebug.Lists.{ListLibrary, without}
use ajardsp.Simdebug.MemoryView.{MemView, sim_read_out_memory, mem_value_edited, memory_data_func}
use ajardsp.Simdebug.MemoryView.Shown.{cell}
use ajardsp.Simdebug.MemoryView.Reached.{
  Reached, starts, steps, edits, reads_out, sim_read_out_memory-window,
}
use ajardsp.Simdebug.Source.{LinenoInfo, source_file_lines, read_linenos}
use ajardsp.Simdebug.Source.Listing.{listing_line, read_linenos-listing_line, AreDigits}
use ajardsp.Simdebug.Breakpoints.{no_address, break_point_hit}
use ajardsp.Simdebug.Breakpoints.Counted.{marked, rows_activated, break_point_hit-marked}
use ajardsp.Simdebug.Sync.{
  Sync, sync_mode_step, sync_mode_stop, edges, run_button_call_back, step_button_call_back,
  stop_button_call_back,
}
use ajardsp.Simdebug.Sync.Stops.{
  Ran, run_of, run_button_call_back-run_of, run_button_call_back-exactly, step_and_stop_buttons,
  stopped_edge,
}
use ajardsp.Simdebug.Registers.{
  find_reg, find_regs, sim_read_out_registers, reg_update_value_in_design, Reg,
}
use ajardsp.Simdebug.Registers.Table.{regs_of_interest}
use ajardsp.Simdebug.Registers.Edited.{read_outs, showing, reg_update_value_in_design-shown}

abbrev lists : ListLibrary
lists = record {
  g_list_append = λ l x. l ++ x ∷ [];
  g_list_delete_link = without;
  appends = λ l x. refl;
  deletes = λ l i. refl;
}

-- A simulator whose objects are numbers and have 16 bits.
abbrev simulator : Vpi
simulator = record {
  Design = Memory;
  Handle = ℕ;
  vpi_handle_by_name = λ name. some 0;
  vpi_handle_by_index = λ h i. some (suc i);
  vpi_size = λ h. 16;
  vpi_get_value = λ d h. d h;
  vpi_put_value = λ d h v. update d h (v % 2 ^ 16);
}

abbrev empty_view : MemView
empty_view = record { curr = λ a. 0; prev = λ a. 0; age = λ a. 0; cells = λ r c. 0 }

edited_view : Reached (mem_value_edited (8 * 2) 3 0xbeef (sim_read_out_memory (λ a. a) empty_view))
edited_view =
    steps (steps (starts empty_view (λ a. refl)) (reads_out (λ a. a)))
      (edits 2 3 0xbeef (omega arith) (omega arith))

sim_read_out_memory-window_example :
    let v = mem_value_edited (8 * 2) 3 0xbeef (sim_read_out_memory (λ a. a) empty_view) in
    let v' = sim_read_out_memory (λ a. 7) v in
    (cell v' 18 ≡ 7)
    × (memory_data_func (8 * (18 / 8)) (1 + 18 % 8) v'
        ≡ record { number = 7; red = not (7 == v.curr 18) })
sim_read_out_memory-window_example =
    sim_read_out_memory-window (λ a. 7) 18 edited_view (omega arith)

abbrev three_lines : List LinenoInfo
three_lines = record { addr = 0; lineno = 1 } ∷ record { addr = 2; lineno = 3 } ∷ []

break_point_hit-marked_example :
    let after =
      rows_activated lists
        (3 ∷ 1 ∷ 2 ∷ 1 ∷ [])
        (record { lines = source_file_lines 3 three_lines; list = [] }) in
    (break_point_hit after 2 ≡ ltb 0 (marked after.lines 2)) × (marked after.lines no_address ≡ 0)
break_point_hit-marked_example = break_point_hit-marked lists (3 ∷ 1 ∷ 2 ∷ 1 ∷ []) 3 three_lines 2

breakpoint_left :
    let after =
      rows_activated lists
        (3 ∷ 1 ∷ 2 ∷ 1 ∷ [])
        (record { lines = source_file_lines 3 three_lines; list = [] }) in
    (after.list ≡ 2 ∷ []) × (break_point_hit after 2 ≡ true) × (break_point_hit after 0 ≡ false)
unfolding rows_activated source_file_lines break_point_hit without
breakpoint_left = (refl, refl, refl)

abbrev paused : Sync
paused = record {
  mode = sync_mode_step;
  cycles_left = 0;
  current_cycles = 5;
  label = 4;
  redraws = 5;
  waiting = true;
}

run_button_call_back-run_of_example :
    Ran paused
      (run_of 3 (false ∷ true ∷ false ∷ []))
      (edges (false ∷ true ∷ false ∷ []) (some (run_button_call_back (some 3) paused)))
run_button_call_back-run_of_example =
    run_button_call_back-run_of (some 3) (false ∷ true ∷ false ∷ []) paused (omega arith)
      (omega arith)

no_hit : (i : ℕ) (b : Bool) → get_elem? (false ∷ false ∷ false ∷ []) i ≡ some b → b ≡ false
no_hit zero b h = ground arith
no_hit (suc zero) b h = ground arith
no_hit (suc (suc zero)) b h = ground arith
no_hit (suc (suc (suc i))) b h = absurd (ground arith)

run_button_call_back-exactly_example :
    Ran paused
      (record { taken = 2; stopped = true })
      (edges (false ∷ false ∷ false ∷ []) (some (run_button_call_back (some 2) paused)))
run_button_call_back-exactly_example =
    run_button_call_back-exactly 2 (false ∷ false ∷ false ∷ []) paused (omega arith) (omega arith)
      (omega arith) (omega arith) no_hit

step_and_stop_buttons_example :
    (edges (true ∷ []) (some (step_button_call_back paused))
      ≡ some (stopped_edge sync_mode_step paused))
    × (edges (true ∷ []) (some (stop_button_call_back paused))
        ≡ some (if true then stop_button_call_back paused else stopped_edge sync_mode_stop paused))
step_and_stop_buttons_example = step_and_stop_buttons true [] paused

regs_of : Outcome (List (Reg simulator)) → List (Reg simulator)
regs_of (good regs) = regs
regs_of _ = []

found_regs : List (Reg simulator)
unfolding find_regs regs_of_interest regs_of
found_regs = regs_of (find_regs simulator regs_of_interest)

abbrev reg : CString → CString → Option ℕ → ℕ → Reg simulator
reg path name index obj = record {
  row = record { path = path; name = name; index = index };
  obj = obj;
  curr_value = 0;
  prev_value = 0;
  shown = 0;
}

abbrev the_pc : Reg simulator
the_pc = reg (codes "testbench.ajardsp_0.pcu_0.pc_i") (codes "pc") none 0

abbrev the_ptr1 : Reg simulator
the_ptr1 = reg (codes "testbench.ajardsp_0.ptrrf_0.ptr_regs") (codes "$ptr1") (some 1) 2

regs_found :
    (find_regs simulator regs_of_interest ≡ good found_regs)
    × (get_elem? found_regs 15 ≡ some the_ptr1)
    × (get_elem? found_regs 0 ≡ some the_pc)
unfolding found_regs
regs_found = (refl, refl, refl)

reg_update_value_in_design-shown_example :
    (get_elem? regs_of_interest 15 ≡ some the_ptr1.row)
    × (find_reg simulator the_ptr1.row ≡ good 2)
    × (reg_update_value_in_design simulator found_regs (codes "$ptr1") 0x12345 (λ h. 9)
        ≡ update (λ h. 9) 2 (0x12345 % 2 ^ 16))
    × (get_elem? (sim_read_out_registers simulator (λ h. h + 5) found_regs) 15
        ≡ some (showing simulator the_ptr1 7))
unfolding read_outs
reg_update_value_in_design-shown_example =
    reg_update_value_in_design-shown simulator found_regs found_regs [] (λ h. 9) (λ h. h + 5) 15
      0x12345 the_ptr1 regs_found.0 refl regs_found.1

read_linenos-listing_line_example :
    read_linenos 2000
      (λ i. record { addr = 0; lineno = 0 })
      0
      (listing_line 0 (1 ∷ 2 ∷ []) b'n' (codes "op\n"))
    ≡ none
unfolding AreDigits
read_linenos-listing_line_example =
    read_linenos-listing_line 0 1 b'n' (2 ∷ []) (codes "op\n")
      (λ i. record { addr = 0; lineno = 0 }) 2000 (omega arith, (omega arith, tt)) refl refl
