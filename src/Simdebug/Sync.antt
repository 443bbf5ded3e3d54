-- ===== src/Simdebug/Sync.antt =====
-- When the simulation waits and when it goes on: `WaitForGUI` and the buttons of debug-gui.c, and
-- `ClkNegEdgeCallBack` of debug-pli.c. The two threads take turns: a button, or an edge of the
-- clock while the simulation does not wait. That is what `pthread_cond_wait` and
-- `pthread_cond_signal` are for: a signal ends a wait, and is lost when there is none.
pub mod Stops
use ajardsp.Common.{
  ℕ, zero, suc, ◌+◌, ◌-◌, ◌^◌, ◌==◌, ◌&&◌, ◌||◌, u32, if◌then◌else◌, Bool, true, false, Option,
  none, some, List, [], ◌∷◌,
}

pub data SyncMode : Type 0 where
  sync_mode_step sync_mode_run sync_mode_stop sync_mode_quit : SyncMode

-- `SimSyncMode`, `SimCyclesLeftToRun` as 32 bits, `CurrentCycles`, the number in the label of the
-- cycles, how often the windows have been redrawn, and whether the simulation waits.
pub record Sync : Type 0 where
  pub mode : SyncMode
  pub cycles_left : ℕ
  pub current_cycles : ℕ
  pub label : ℕ
  pub redraws : ℕ
  pub waiting : Bool

-- The windows are redrawn from the design, and the simulation waits.
abbrev pub redraw_and_wait : Sync → Sync
redraw_and_wait s = record s { redraws = s.redraws + 1; waiting = true }

-- `--SimCyclesLeftToRun` on an `int`.
abbrev pub minus_one : ℕ → ℕ
minus_one n = u32 (n + (2 ^ 32 - 1))

-- `hit` is what `BreakPoint_Hit` returns; nothing when the program ends.
unfoldable pub wait_for_gui : Bool → Sync → Option Sync
wait_for_gui hit s = elim s.mode [
  | sync_mode_stop ↦ some (redraw_and_wait s)
  | sync_mode_step ↦ some (redraw_and_wait s)
  | sync_mode_run ↦
      let s' = record s { cycles_left = minus_one s.cycles_left } in
      some (if s'.cycles_left == 0 || hit then redraw_and_wait s' else s')
  | sync_mode_quit ↦ none
]

-- `clk` and `rst` are the scalars that the simulator gives, or nothing when it gives another format.
abbrev is_zero : Option ℕ → Bool
is_zero none = false
is_zero (some v) = v == 0

unfoldable pub clk_neg_edge_call_back : Option ℕ → Option ℕ → Bool → Sync → Option Sync
unfolding wait_for_gui
clk_neg_edge_call_back rst clk hit s =
    if is_zero rst && is_zero clk
    then wait_for_gui hit
        (record s { label = s.current_cycles; current_cycles = s.current_cycles + 1 })
    else some s

unfoldable pub step_button_call_back : Sync → Sync
step_button_call_back s = record s { mode = sync_mode_step; waiting = false }

unfoldable pub stop_button_call_back : Sync → Sync
stop_button_call_back s = record s { mode = sync_mode_stop }

-- The number of the spin button, or nothing for the button that runs on.
abbrev pub cycles_of : Option ℕ → ℕ
cycles_of none = 0
cycles_of (some n) = n

unfoldable pub run_button_call_back : Option ℕ → Sync → Sync
run_button_call_back cycle_spin s = record s {
  cycles_left = cycles_of cycle_spin;
  mode = sync_mode_run;
  waiting = false;
}

-- Falling edges of the clock out of reset, with what `BreakPoint_Hit` returns at each; none comes
-- while the simulation waits.
unfoldable pub edges : List Bool → Option Sync → Option Sync
unfolding clk_neg_edge_call_back
edges [] s = s
edges (hit ∷ hits) none = none
edges (hit ∷ hits) (some s) =
    let rest = edges hits (clk_neg_edge_call_back (some 0) (some 0) hit s) in
    if s.waiting then some s else rest
