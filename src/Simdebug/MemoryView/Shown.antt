-- ===== src/Simdebug/MemoryView/Shown.antt =====
-- The memory window shows the memory.
use ajardsp.Common.{
  ℕ, zero, suc, ◌+◌, ◌-◌, ◌*◌, ◌/◌, ◌<◌, ◌≤◌, ◌≡◌, ◌≢◌, ◌⊎◌, inl, inr, refl, ap, ◌∙◌, sym, subst,
  arith, Bool-cases, Memory, update, update_self, update_other, ◌==◌, ==_iff, ltb,
}
use ajardsp.Simdebug.MemoryView.{
  MemView, set_cell, memory_gui_update, new_age, read_out_word, read_out_from,
}

-- The cell of an address.
abbrev pub cell : MemView → ℕ → ℕ
cell v a = v.cells (a / 8) (1 + (a - a / 8 * 8))

-- A cell shows its word, or the word has not been read out yet.
unfoldable pub IsShown : MemView → ℕ → Type 0
IsShown v a = (cell v a ≡ v.curr a) ⊎ (v.age a ≡ 0)

set_cell-cell :
    (v : MemView) (i a value : ℕ) → cell (memory_gui_update i value v) a ≡ update (cell v) i value a
unfolding memory_gui_update set_cell update
set_cell-cell v i a value = ground arith

-- What a round does to the view: the cell is set, or the word and its cell are the old ones.
read_out_word-cells :
    (i val : ℕ) (v : MemView)
    → let v' = read_out_word i val v in
      ((a : ℕ) → cell v' a ≡ update (cell v) i val a)
      ⊎ ((2 ≤ new_age i val v) × (v'.cells ≡ v.cells))
unfolding read_out_word memory_gui_update
read_out_word-cells i val v = elim (Bool-cases (ltb (new_age i val v) 2)) [
  | inl young ↦ rw (young) (inl (λ a. set_cell-cell v i a val))
  | inr old ↦ rw (old) (inr (ground arith, refl))
]

read_out_word-rest :
    (i val : ℕ) (v : MemView)
    → let v' = read_out_word i val v in
      (v'.curr ≡ update v.curr i val)
      × (v'.prev ≡ update v.prev i (v.curr i))
      × (v'.age ≡ update v.age i (new_age i val v))
unfolding read_out_word memory_gui_update
read_out_word-rest i val v = elim (Bool-cases (ltb (new_age i val v) 2)) [
  | inl young ↦ rw (young) (refl, refl, refl)
  | inr old ↦ rw (old) (refl, refl, refl)
]

-- A word that is read out is shown.
pub record Shows (v v' : MemView) (a val : ℕ) : Type 0 where
  pub in_cell : cell v' a ≡ val
  pub is_current : v'.curr a ≡ val
  pub was_current : v'.prev a ≡ v.curr a

read_out_word-Shows :
    (i val : ℕ) (v : MemView) → IsShown v i → Shows v (read_out_word i val v) i val
unfolding IsShown
read_out_word-Shows i val v shown =
    let (curr, prev, age) = read_out_word-rest i val v in
    record {
      in_cell = elim (read_out_word-cells i val v) [
        | inl set ↦ set i ∙ update_self (cell v) i val
        | inr (old, kept) ↦
            let at : cell (read_out_word i val v) i ≡ cell v i =
              ap (λ c. c (i / 8) (1 + (i - i / 8 * 8))) kept in
            elim (Bool-cases (val == v.curr i)) [
              | inl same ↦
                  unfold new_age in ground (arith, at, shown, (==_iff val (v.curr i)).0 same)
              | inr new ↦ unfold new_age in absurd (ground arith)
            ]
      ];
      is_current = ap (λ m. m i) curr ∙ update_self v.curr i val;
      was_current = ap (λ m. m i) prev ∙ update_self v.prev i (v.curr i);
    }

-- All of another word is left alone.
record Same (v v' : MemView) (a : ℕ) : Type 0 where
  cell_same : cell v' a ≡ cell v a
  curr_same : v'.curr a ≡ v.curr a
  prev_same : v'.prev a ≡ v.prev a
  age_same : v'.age a ≡ v.age a

Same-trans : {v v' v'' : MemView} (a : ℕ) → Same v v' a → Same v' v'' a → Same v v'' a
Same-trans a s t = record {
  cell_same = t.cell_same ∙ s.cell_same;
  curr_same = t.curr_same ∙ s.curr_same;
  prev_same = t.prev_same ∙ s.prev_same;
  age_same = t.age_same ∙ s.age_same;
}

read_out_word-Same : (i val : ℕ) (v : MemView) (a : ℕ) → a ≢ i → Same v (read_out_word i val v) a
read_out_word-Same i val v a h =
    let (curr, prev, age) = read_out_word-rest i val v in
    record {
      cell_same = elim (read_out_word-cells i val v) [
        | inl set ↦ set a ∙ update_other (cell v) i val a h
        | inr (old, kept) ↦ ap (λ c. c (a / 8) (1 + (a - a / 8 * 8))) kept
      ];
      curr_same = ap (λ m. m a) curr ∙ update_other v.curr i val a h;
      prev_same = ap (λ m. m a) prev ∙ update_other v.prev i (v.curr i) a h;
      age_same = ap (λ m. m a) age ∙ update_other v.age i (new_age i val v) a h;
    }

Same-IsShown : {v v' : MemView} (a : ℕ) → Same v v' a → IsShown v a → IsShown v' a
unfolding IsShown
Same-IsShown a s (inl e) = inl (s.cell_same ∙ e ∙ sym s.curr_same)
Same-IsShown a s (inr e) = inr (s.age_same ∙ e)

read_out_from-Same :
    (left i : ℕ) (value : Memory) (v : MemView) (a : ℕ)
    → a < i
    → Same v (read_out_from left i value v) a
unfolding read_out_from
read_out_from-Same zero i value v a h = record {
  cell_same = refl;
  curr_same = refl;
  prev_same = refl;
  age_same = refl;
}
read_out_from-Same (suc left) i value v a h =
    Same-trans a (read_out_word-Same i (value i) v a (omega arith))
      (read_out_from-Same left (i + 1) value (read_out_word i (value i) v) a (omega arith))

Shows-Same : {v v' v'' : MemView} (a val : ℕ) → Shows v v' a val → Same v' v'' a → Shows v v'' a val
Shows-Same a val s t = record {
  in_cell = t.cell_same ∙ s.in_cell;
  is_current = t.curr_same ∙ s.is_current;
  was_current = t.prev_same ∙ s.was_current;
}

Same-Shows : {v v' v'' : MemView} (a val : ℕ) → Same v v' a → Shows v' v'' a val → Shows v v'' a val
Same-Shows a val s t = record {
  in_cell = t.in_cell;
  is_current = t.is_current;
  was_current = t.was_current ∙ s.curr_same;
}

pub read_out_from-Shows :
    (left i : ℕ) (value : Memory) (v : MemView) (a : ℕ)
    → i ≤ a
    → a < i + left
    → IsShown v a
    → Shows v (read_out_from left i value v) a (value a)
unfolding read_out_from
read_out_from-Shows zero i value v a low high shown = absurd (omega arith)
read_out_from-Shows (suc left) i value v a low high shown =
    let v' = read_out_word i (value i) v in
    elim (Bool-cases (a == i)) [
      | inl first ↦
          let a_is = (==_iff a i).0 first in
          Shows-Same a (value a)
            (subst (λ j. Shows v (read_out_word j (value j) v) a (value a)) a_is
              (read_out_word-Shows a (value a) v shown))
            (read_out_from-Same left (i + 1) value v' a (omega (arith, a_is)))
      | inr later ↦
          let same = read_out_word-Same i (value i) v a (ground arith) in
          Same-Shows a (value a) same (
            read_out_from-Shows left (i + 1) value v' a (ground arith) (omega arith)
              (Same-IsShown a same shown))
    ]
