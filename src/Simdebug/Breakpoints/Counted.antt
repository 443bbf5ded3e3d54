-- ===== src/Simdebug/Breakpoints/Counted.antt =====
-- The list of breakpoints is the list of the marked lines.
use ajardsp.Common.{
  ℕ, zero, suc, ◌+◌, ◌-◌, ◌≤◌, ◌≡◌, ◌≢◌, refl, ap, ◌∙◌, sym, subst, arith, ◌==◌, ==_iff,
  if◌then◌else◌, Bool, true, false, Bool-cases, inl, inr, Option-cases, none, some, List, [], ◌∷◌,
  ◌++◌, get_elem?, ◌&&◌, ltb,
}
use ajardsp.Simdebug.Lists.{ListLibrary, without}
use ajardsp.Simdebug.Source.{LinenoInfo, source_lines, source_file_lines}
use ajardsp.Simdebug.Breakpoints.{
  no_address, SourceLine, Breakpoints, hit_in, break_point_hit, set_bp, link_from,
  source_row_activated, line_activated, remove_breakpoint,
}

-- How often an address is in the list, and how many marked lines have it.
unfoldable pub in_list : List ℕ → ℕ → ℕ
in_list [] a = 0
in_list (x ∷ xs) a = (if x == a then 1 else 0) + in_list xs a

abbrev one_if : Bool → ℕ
one_if b = if b then 1 else 0

unfoldable pub marked : List SourceLine → ℕ → ℕ
marked [] a = 0
marked (l ∷ lines) a = one_if (l.bp && l.addr == a) + marked lines a

in_list-append : (l : List ℕ) (x a : ℕ) → in_list (l ++ x ∷ []) a ≡ in_list l a + one_if (x == a)
unfolding in_list
in_list-append [] x a = omega arith
in_list-append (y ∷ l) x a = omega (arith, in_list-append l x a)

some-inj {ℓ} : {A : Type ℓ} {x y : A} → some x ≡ some y → x ≡ y
some-inj {x = x} e = ap (λ o. elim o [ none ↦ x | some z ↦ z ]) e

-- Setting a mark that was not set, and taking one off.
marked-set_bp :
    (lines : List SourceLine) (i : ℕ) (line : SourceLine) (bp : Bool) (a : ℕ)
    → get_elem? lines i ≡ some line
    → marked (set_bp lines i bp) a + one_if (line.bp && line.addr == a)
      ≡ marked lines a + one_if (bp && line.addr == a)
unfolding marked set_bp
marked-set_bp [] i line bp a h = absurd (ground arith)
marked-set_bp (l ∷ lines) zero line bp a h =
    let p : SourceLine → SourceLine → Type 0 = λ x y.
      one_if (bp && x.addr == a) + marked lines a + one_if (y.bp && y.addr == a)
      ≡ one_if (x.bp && x.addr == a) + marked lines a + one_if (bp && y.addr == a) in
    subst (p l) (some-inj h) (omega arith)
marked-set_bp (l ∷ lines) (suc i) line bp a h = omega (arith, marked-set_bp lines i line bp a h)

-- The link that the loop finds is the first one with the address.
link_from-found :
    (l : List ℕ) (addr i link : ℕ) (a : ℕ)
    → link_from l addr i ≡ some link
    → (i ≤ link) × (in_list (without l (link - i)) a + one_if (addr == a) ≡ in_list l a)
unfolding link_from without in_list
link_from-found [] addr i link a h = absurd (ground arith)
link_from-found (x ∷ l) addr i link a h = elim (Bool-cases (x == addr)) [
  | inl here ↦
      let at : i ≡ link = some-inj (rw (here) at h) in
      let first : link - i ≡ 0 = omega (arith, at) in
      (
        omega (arith, at),
        ap (λ n. in_list (without (x ∷ l) n) a + one_if (addr == a)) first
            ∙ ap (λ y. in_list l a + one_if (y == a)) (sym ((==_iff x addr).0 here))
            ∙ omega arith,
      )
  | inr not_here ↦
      let (low, count) = link_from-found l addr (i + 1) link a (rw (not_here) at h) in
      let next : link - i ≡ suc (link - (i + 1)) = omega (arith, low) in
      (
        omega (arith, low),
        ap (λ n. in_list (without (x ∷ l) n) a + one_if (addr == a)) next ∙ omega (arith, count),
      )
]

link_from-none : (l : List ℕ) (addr i : ℕ) → link_from l addr i ≡ none → in_list l addr ≡ 0
unfolding link_from in_list
link_from-none [] addr i h = refl
link_from-none (x ∷ l) addr i h = elim (Bool-cases (x == addr)) [
  | inl here ↦ absurd (ground arith)
  | inr not_here ↦ rw (not_here) (omega (arith, link_from-none l addr (i + 1) (rw (not_here) at h)))
]

hit_in-in_list : (l : List ℕ) (pc : ℕ) → hit_in l pc ≡ ltb 0 (in_list l pc)
unfolding hit_in in_list
hit_in-in_list [] pc = refl
hit_in-in_list (x ∷ l) pc = elim (Bool-cases (x == pc)) [
  | inl here ↦ rw (here) (ground arith)
  | inr not_here ↦ rw (not_here) (hit_in-in_list l pc ∙ ap (ltb 0) (omega arith))
]

-- The list has each address as often as there are marked lines with it, and no marked line is
-- without code.
pub record IsConsistent (b : Breakpoints) : Type 0 where
  pub same : (a : ℕ) → in_list b.list a ≡ marked b.lines a
  pub code_only : marked b.lines no_address ≡ 0

source_lines-unmarked :
    (left : ℕ) (infos : List LinenoInfo) (lineno a : ℕ)
    → marked (source_lines left infos lineno) a ≡ 0
unfolding source_lines marked
source_lines-unmarked zero infos lineno a = refl
source_lines-unmarked (suc left) infos lineno a =
    omega (arith, source_lines-unmarked left infos (lineno + 1) a)

source_file_lines-unmarked :
    (max : ℕ) (infos : List LinenoInfo) (a : ℕ) → marked (source_file_lines max infos) a ≡ 0
unfolding source_file_lines marked
source_file_lines-unmarked max infos a = omega (arith, source_lines-unmarked max infos 1 a)

module _ (glib : ListLibrary) where
  set-IsConsistent :
      (b : Breakpoints) (line_no : ℕ) (line : SourceLine)
      → IsConsistent b
      → get_elem? b.lines line_no ≡ some line
      → line.bp ≡ false
      → line.addr ≢ no_address
      → IsConsistent (record {
        lines = set_bp b.lines line_no true;
        list = glib.g_list_append b.list line.addr;
      })
  set-IsConsistent b line_no line c at unmarked code =
      let set : (a : ℕ)
          → marked (set_bp b.lines line_no true) a ≡ marked b.lines a + one_if (line.addr == a) =
        λ a.
          let m = marked-set_bp b.lines line_no line true a at in
          let n = rw (unmarked) at m in omega (arith, n) in
      record {
        same = λ a.
            ap (λ l. in_list l a) (glib.appends b.list line.addr)
            ∙ in_list-append b.list line.addr a
            ∙ ap (λ n. n + one_if (line.addr == a)) (c.same a)
            ∙ sym (set a);
        code_only = set no_address ∙ ground (arith, c.code_only);
      }

  remove-IsConsistent :
      (b : Breakpoints) (line_no : ℕ) (line : SourceLine)
      → IsConsistent b
      → get_elem? b.lines line_no ≡ some line
      → line.bp ≡ true
      → IsConsistent (remove_breakpoint glib b line_no line.addr)
  unfolding remove_breakpoint
  remove-IsConsistent b line_no line c at is_marked =
      let cleared : (a : ℕ)
          → marked (set_bp b.lines line_no false) a + one_if (line.addr == a) ≡ marked b.lines a =
        λ a.
          let m = marked-set_bp b.lines line_no line false a at in
          let n = rw (is_marked) at m in omega (arith, n) in
      elim (Option-cases (link_from b.list line.addr 0)) [
        | inl none_found ↦
            let self : one_if (line.addr == line.addr) ≡ 1 = ground arith in
            absurd (
              omega (
                arith,
                link_from-none b.list line.addr 0 none_found,
                c.same line.addr,
                cleared line.addr,
                self,
              ))
        | inr (link, found) ↦ rw (found) (record {
          same = λ a.
              let (low, count) = link_from-found b.list line.addr 0 link a found in
              let position : link ≡ link - 0 = omega arith in
              ap (λ l. in_list l a) (glib.deletes b.list link)
              ∙ ap (λ n. in_list (without b.list n) a) position
              ∙ omega (arith, count, c.same a, cleared a);
          code_only = omega (arith, cleared no_address, c.code_only);
        })
      ]

  source_row_activated-IsConsistent :
      (line_no : ℕ) (b : Breakpoints)
      → IsConsistent b
      → IsConsistent (source_row_activated glib line_no b)
  unfolding source_row_activated line_activated
  source_row_activated-IsConsistent line_no b c = elim (Option-cases (get_elem? b.lines line_no)) [
    | inl outside ↦ rw (outside) c
    | inr (line, at) ↦ elim (Bool-cases line.bp) [
      | inl is_marked ↦ rw (at, is_marked) (remove-IsConsistent b line_no line c at is_marked)
      | inr unmarked ↦ elim (Bool-cases (line.addr == no_address)) [
        | inl no_code ↦ rw (at, unmarked, no_code) c
        | inr code ↦
            rw (at, unmarked, code) (set-IsConsistent b line_no line c at unmarked (ground arith))
      ]
    ]
  ]

  -- Rows activated one after the other.
  unfoldable pub rows_activated : List ℕ → Breakpoints → Breakpoints
  unfolding source_row_activated
  rows_activated [] b = b
  rows_activated (line_no ∷ rest) b = rows_activated rest (source_row_activated glib line_no b)

  rows_activated-IsConsistent :
      (rows : List ℕ) (b : Breakpoints) → IsConsistent b → IsConsistent (rows_activated rows b)
  unfolding rows_activated
  rows_activated-IsConsistent [] b c = c
  rows_activated-IsConsistent (line_no ∷ rest) b c =
      rows_activated-IsConsistent rest (source_row_activated glib line_no b)
        (source_row_activated-IsConsistent line_no b c)

  -- However the rows of the source window have been activated since `Source_Init` has filled in the
  -- lines of a file, with list functions that append and delete as GLib's do, `BreakPoint_Hit` is
  -- true exactly when the program counter is at the address of a marked line, and no line without
  -- code is marked.
  pub break_point_hit-marked :
      (rows : List ℕ) (max : ℕ) (infos : List LinenoInfo) (pc : ℕ)
      → let after =
          rows_activated rows (record { lines = source_file_lines max infos; list = [] }) in
        (break_point_hit after pc ≡ ltb 0 (marked after.lines pc))
        × (marked after.lines no_address ≡ 0)
  unfolding break_point_hit
  break_point_hit-marked rows max infos pc =
      let start : Breakpoints = record { lines = source_file_lines max infos; list = [] } in
      let c = rows_activated-IsConsistent rows start (record {
        same = λ a. unfold in_list in sym (source_file_lines-unmarked max infos a);
        code_only = source_file_lines-unmarked max infos no_address;
      }) in
      let after = rows_activated rows start in
      (hit_in-in_list after.list pc ∙ ap (ltb 0) (c.same pc), c.code_only)
