-- ===== src/Simdebug/Breakpoints.antt =====
-- The breakpoints of debug-gui.c: `BreakPoint_Hit` and `Source_RowActivated`. An `int` address is
-- the 32-bit number that it is compared as.
pub mod Counted
use ajardsp.Common.{
  ℕ, zero, suc, ◌+◌, ◌==◌, if◌then◌else◌, Bool, true, false, Option, none, some, List, [], ◌∷◌,
  get_elem?,
}
use ajardsp.Simdebug.Lists.{ListLibrary}

-- The address -1 of a line without code.
abbrev pub no_address : ℕ
no_address = 0xffffffff

-- `SourceFileLine_t` without the text and the row of the window.
pub record SourceLine : Type 0 where
  pub addr : ℕ
  pub bp : Bool

-- `SourceFileLines` and `BreakPoint_List_p`.
pub record Breakpoints : Type 0 where
  pub lines : List SourceLine
  pub list : List ℕ

-- The loop of `BreakPoint_Hit`; `pc` is what `SimReadReg` reads.
unfoldable pub hit_in : List ℕ → ℕ → Bool
hit_in [] pc = false
hit_in (addr ∷ rest) pc = let later = hit_in rest pc in if addr == pc then true else later

unfoldable pub break_point_hit : Breakpoints → ℕ → Bool
unfolding hit_in
break_point_hit b pc = hit_in b.list pc

-- `SourceFileLines[LineNo].bp = ...`.
unfoldable pub set_bp : List SourceLine → ℕ → Bool → List SourceLine
set_bp [] i bp = []
set_bp (l ∷ lines) zero bp = record l { bp = bp } ∷ lines
set_bp (l ∷ lines) (suc i) bp = l ∷ set_bp lines i bp

-- The loop that looks for the breakpoint at an address, from position `i` on.
unfoldable pub link_from : List ℕ → ℕ → ℕ → Option ℕ
link_from [] addr i = none
link_from (x ∷ rest) addr i =
    let later = link_from rest addr (i + 1) in if x == addr then some i else later

module _ (glib : ListLibrary) where
  abbrev pub set_breakpoint : Breakpoints → ℕ → ℕ → Breakpoints
  set_breakpoint b line_no addr =
      if addr == no_address
      then b
      else record { lines = set_bp b.lines line_no true; list = glib.g_list_append b.list addr }

  unfoldable pub remove_breakpoint : Breakpoints → ℕ → ℕ → Breakpoints
  unfolding set_bp link_from
  remove_breakpoint b line_no addr = record {
    lines = set_bp b.lines line_no false;
    list = elim (link_from b.list addr 0) [
      | none ↦ b.list
      | some link ↦ glib.g_list_delete_link b.list link
    ];
  }

  -- What follows when the row is a line of the file.
  unfoldable pub line_activated : Option SourceLine → ℕ → Breakpoints → Breakpoints
  unfolding set_bp remove_breakpoint
  line_activated none line_no b = b
  line_activated (some line) line_no b =
      if line.bp then remove_breakpoint b line_no line.addr else set_breakpoint b line_no line.addr

  unfoldable pub source_row_activated : ℕ → Breakpoints → Breakpoints
  unfolding line_activated
  source_row_activated line_no b = line_activated (get_elem? b.lines line_no) line_no b
