-- ===== src/Simdebug/Sync/Stops.antt =====
-- Where a run stops.
use ajardsp.Common.{
  ℕ, suc, ◌+◌, ◌-◌, ◌^◌, ◌<◌, ◌≤◌, ◌≡◌, refl, ap, ◌∙◌, subst, arith, ◌==◌, ◌||◌, if◌then◌else◌,
  Bool, true, false, Bool-cases, inl, inr, ◌⊎◌, length, get_elem?, Option, some, List, [], ◌∷◌,
}
use ajardsp.Simdebug.Sync.{
  SyncMode, sync_mode_run, Sync, redraw_and_wait, minus_one, edges, clk_neg_edge_call_back,
  wait_for_gui, run_button_call_back, step_button_call_back, stop_button_call_back, sync_mode_step,
  sync_mode_stop, cycles_of,
}

-- A run of at most `left` cycles over clock edges with and without a breakpoint: the edges that it
-- takes, and whether it has stopped then.
pub record Run : Type 0 where
  pub taken : ℕ
  pub stopped : Bool

unfoldable pub run_of : ℕ → List Bool → Run
run_of left [] = record { taken = 0; stopped = false }
run_of left (hit ∷ hits) =
    let rest = run_of (left - 1) hits in
    if left == 1 || hit
    then record { taken = 1; stopped = true }
    else record { taken = rest.taken + 1; stopped = rest.stopped }

-- What a run leaves.
pub record Ran (s : Sync) (run : Run) (result : Option Sync) : Type 0 where
  pub after : Sync
  pub gives : result ≡ some after
  pub mode_kept : after.mode ≡ sync_mode_run
  pub waits : after.waiting ≡ run.stopped
  pub cycles : after.current_cycles ≡ s.current_cycles + run.taken
  pub redrawn : after.redraws ≡ s.redraws + (if run.stopped then 1 else 0)

-- A waiting simulation sees no edge.
edges_waiting : (hits : List Bool) (s : Sync) → s.waiting ≡ true → edges hits (some s) ≡ some s
unfolding edges
edges_waiting [] s h = refl
edges_waiting (hit ∷ hits) s h = rw (h)

-- The counter of the code for a counter of the run, which is 0 when the run goes on; with so many
-- edges to come.
abbrev Counts : ℕ → ℕ → ℕ → Type 0
Counts left cycles_left to_come =
    (cycles_left < 2 ^ 32)
    × (((1 ≤ left) × (cycles_left ≡ left))
        ⊎ ((left ≡ 0) × ((cycles_left ≡ 0) ⊎ (to_come < cycles_left))))

Counts-next :
    (left c to_come : ℕ)
    → suc to_come < 2 ^ 32
    → Counts left c (suc to_come)
    → (left == 1) ≡ false
    → Counts (left - 1) (minus_one c) to_come
Counts-next left c to_come small count more = ground arith

Counts-stop :
    (left c to_come : ℕ)
    → suc to_come < 2 ^ 32
    → Counts left c (suc to_come)
    → (minus_one c == 0) ≡ (left == 1)
Counts-stop left c to_come small count = ground arith

-- The state after an edge of a run, before the decision to wait.
abbrev next : Sync → Sync
next s = record s {
  cycles_left = minus_one s.cycles_left;
  label = s.current_cycles;
  current_cycles = s.current_cycles + 1;
}

one_edge :
    (hit : Bool) (hits : List Bool) (s : Sync) (stop : Bool)
    → s.mode ≡ sync_mode_run
    → s.waiting ≡ false
    → (minus_one s.cycles_left == 0) ≡ stop
    → edges (hit ∷ hits) (some s)
      ≡ edges hits (some (if stop || hit then redraw_and_wait (next s) else next s))
unfolding edges clk_neg_edge_call_back wait_for_gui
one_edge hit hits s stop run awake stops = simp (awake, run, stops)

edges_run :
    (hits : List Bool) (s : Sync) (left : ℕ)
    → s.mode ≡ sync_mode_run
    → s.waiting ≡ false
    → length hits < 2 ^ 32
    → Counts left s.cycles_left (length hits)
    → Ran s (run_of left hits) (edges hits (some s))
unfolding run_of
edges_run [] s left run awake few count =
    unfold edges in
    record {
      after = s;
      gives = refl;
      mode_kept = run;
      waits = awake;
      cycles = omega arith;
      redrawn = omega arith;
    }
edges_run (hit ∷ hits) s left run awake few count =
    let stop = Counts-stop left s.cycles_left (length hits) few count in
    let edge = one_edge hit hits s (left == 1) run awake stop in
    elim (Bool-cases (left == 1 || hit)) [
      | inl stops ↦
          let s' = redraw_and_wait (next s) in
          rw (stops) (record {
            after = s';
            gives =
                edge
                ∙ ap (λ b. edges hits (some (if b then redraw_and_wait (next s) else next s))) stops
                ∙ edges_waiting hits s' refl;
            mode_kept = run;
            waits = refl;
            cycles = refl;
            redrawn = refl;
          })
      | inr goes_on ↦
          let more : (left == 1) ≡ false = ground arith in
          let rest =
            edges_run hits (next s) (left - 1) run awake (omega arith)
              (Counts-next left s.cycles_left (length hits) few count more) in
          rw (goes_on) (record {
            after = rest.after;
            gives =
                edge
                ∙ ap (λ b. edges hits (some (if b then redraw_and_wait (next s) else next s)))
                    goes_on
                ∙ rest.gives;
            mode_kept = rest.mode_kept;
            waits = rest.waits;
            cycles = omega (arith, rest.cycles);
            redrawn = rest.redrawn;
          })
    ]

-- After the button that runs for a number of cycles from 1 to 1000000, or the one that runs on, and
-- fewer than 2 ^ 32 clock edges to come, the simulation takes as many edges as up to the first one
-- at which a breakpoint is hit or the number of cycles is used up (for the button that runs on, the
-- first at which a breakpoint is hit), waits there with the windows redrawn once, and otherwise
-- takes them all without waiting.
pub run_button_call_back-run_of :
    (cycle_spin : Option ℕ) (hits : List Bool) (s : Sync)
    → cycles_of cycle_spin ≤ 1_000_000
    → length hits < 2 ^ 32
    → Ran s
        (run_of (cycles_of cycle_spin) hits)
        (edges hits (some (run_button_call_back cycle_spin s)))
unfolding run_button_call_back
run_button_call_back-run_of cycle_spin hits s inside few =
    let left = cycles_of cycle_spin in
    let ran =
      edges_run hits (run_button_call_back cycle_spin s) left refl refl few
        (omega arith, ground arith) in
    record {
      after = ran.after;
      gives = ran.gives;
      mode_kept = ran.mode_kept;
      waits = ran.waits;
      cycles = ran.cycles;
      redrawn = ran.redrawn;
    }

run_of-no_hit :
    (n : ℕ) (hits : List Bool)
    → 1 ≤ n
    → n ≤ length hits
    → ((i : ℕ) (b : Bool) → get_elem? hits i ≡ some b → b ≡ false)
    → run_of n hits ≡ record { taken = n; stopped = true }
unfolding run_of
run_of-no_hit n [] some_left enough none_hit = absurd (omega arith)
run_of-no_hit n (hit ∷ hits) some_left enough none_hit =
    let no_hit = none_hit 0 hit refl in
    elim (Bool-cases (n == 1)) [
      | inl one ↦ rw (one) (ap (λ k. record { taken = k; stopped = true }) (ground arith))
      | inr more ↦
          let rest =
            run_of-no_hit (n - 1) hits (ground arith) (omega arith)
              (λ i b e. none_hit (suc i) b e) in
          rw (more, no_hit, rest) (ap (λ k. record { taken = k; stopped = true }) (ground arith))
    ]

-- After the button that runs for `n` cycles, with `n` from 1 to 1000000, and with no breakpoint hit
-- at any of the clock edges to come, of which there are at least `n` and fewer than 2 ^ 32, the
-- simulation takes exactly `n` edges, and waits there with the windows redrawn once.
pub run_button_call_back-exactly :
    (n : ℕ) (hits : List Bool) (s : Sync)
    → 1 ≤ n
    → n ≤ 1_000_000
    → n ≤ length hits
    → length hits < 2 ^ 32
    → ((i : ℕ) (b : Bool) → get_elem? hits i ≡ some b → b ≡ false)
    → Ran s
        (record { taken = n; stopped = true })
        (edges hits (some (run_button_call_back (some n) s)))
run_button_call_back-exactly n hits s some_left inside enough few none_hit =
    subst (λ run. Ran s run (edges hits (some (run_button_call_back (some n) s))))
      (run_of-no_hit n hits some_left enough none_hit)
      (run_button_call_back-run_of (some n) hits s inside few)

-- A clock edge that stops.
abbrev pub stopped_edge : SyncMode → Sync → Sync
stopped_edge mode s = record {
  mode = mode;
  cycles_left = s.cycles_left;
  current_cycles = s.current_cycles + 1;
  label = s.current_cycles;
  redraws = s.redraws + 1;
  waiting = true;
}

-- After the button for a step the simulation takes one clock edge and waits, with the windows
-- redrawn once, from every state and wherever the breakpoints are. After the button that stops, a
-- simulation that does not wait does the same, and one that waits goes on waiting.
pub step_and_stop_buttons :
    (hit : Bool) (hits : List Bool) (s : Sync)
    → (edges (hit ∷ hits) (some (step_button_call_back s)) ≡ some (stopped_edge sync_mode_step s))
      × (edges (hit ∷ hits) (some (stop_button_call_back s))
          ≡ some (if s.waiting then stop_button_call_back s else stopped_edge sync_mode_stop s))
unfolding edges clk_neg_edge_call_back wait_for_gui step_button_call_back stop_button_call_back
step_and_stop_buttons hit hits s = (
  edges_waiting hits (stopped_edge sync_mode_step s) refl,
  elim (Bool-cases s.waiting) [
    | inl asleep ↦ rw (asleep)
    | inr awake ↦ rw (awake) (edges_waiting hits (stopped_edge sync_mode_stop s) refl)
  ],
)
