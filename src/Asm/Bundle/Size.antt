-- ===== src/Asm/Bundle/Size.antt =====
-- How many words a bundle takes, where they go, and that both passes agree on it.
use ajardsp.Common.{ℕ, ◌+◌, ◌%◌, ◌^◌, ◌<◌, ◌≤◌, ◌≡◌, ◌≢◌, refl, sym, ap, ◌∙◌, Bool, true, false}
use ajardsp.Common.{List, [], ◌∷◌, inl, inr, if◌then◌else◌, update}
use ajardsp.Common.{Memory, good, >>=-eq-good, arith}
use ajardsp.Asm.Types.{Instruction}
use ajardsp.Asm.Encode.{Context}
use ajardsp.Asm.Insns.{ajardsp_insns}
use ajardsp.Asm.Bundle.{
  is_long, Emit, emit, try_rows, assemble_insts, try_assemble_inst_bundle, follows,
}
use ajardsp.Asm.Bundle.Once.{EmittedBy, try_rows_once}

-- From `e` to `e'` the next words of the instruction memory, wrapping at its end, were written:
-- `total_size` says how many, `imem_addr` moved by as many, and no other word changed.
pub record IsGrown (e e' : Emit) : Type 0 where
  pub words : ℕ
  pub total : e'.total_size ≡ e.total_size + words
  pub moved : e'.imem_addr ≡ (e.imem_addr + words) % 2 ^ 16
  pub frame :
      (a : ℕ) → ((k : ℕ) → k < words → a ≢ (e.imem_addr + k) % 2 ^ 16) → e'.imem a ≡ e.imem a

-- The words of one instruction.
abbrev pub word_count : Bool → ℕ
word_count long = if long then 2 else 1

module _ (pattern : ℕ) (e : Emit) {e' : Emit} (start : e.imem_addr < 2 ^ 16) where
  pub emit-words :
      (long : Bool)
      → emit long pattern e ≡ good e'
      → (e'.total_size ≡ e.total_size + word_count long)
        × (e'.imem_addr ≡ (e.imem_addr + word_count long) % 2 ^ 16)
        × (e'.inst_properly_encoded ≡ true)
  unfolding emit
  emit-words long h = ground arith

  emit-frame :
      (long : Bool) (a : ℕ)
      → emit long pattern e ≡ good e'
      → ((k : ℕ) → k < word_count long → a ≢ (e.imem_addr + k) % 2 ^ 16)
      → e'.imem a ≡ e.imem a
  unfolding emit update
  emit-frame true a h away = ground (arith, away 0, away 1)
  emit-frame false a h away = ground (arith, away 0)

IsGrown-refl : (e : Emit) → e.imem_addr < 2 ^ 16 → IsGrown e e
IsGrown-refl e start = record {
  words = 0;
  total = omega arith;
  moved = omega arith;
  frame = λ a away. refl;
}

IsGrown-trans : (e f g : Emit) → IsGrown e f → IsGrown f g → IsGrown e g
IsGrown-trans e f g x y = record {
  words = x.words + y.words;
  total = omega (arith, x.total, y.total);
  moved = omega (arith, x.moved, y.moved);
  frame = λ a away.
      y.frame a (λ k below same. away (x.words + k) (omega arith) (omega (arith, x.moved)))
      ∙ x.frame a (λ k below. away k (omega arith));
}

-- The flag is reset before each instruction.
abbrev pub cleared : Emit → Emit
cleared e = record e { inst_properly_encoded = false }

-- What one instruction of a bundle did.
pub record Assembled (ctx : Context) (inst : Instruction) (more : Bool) (e e' : Emit) : Type 0 where
  pub by : EmittedBy ctx inst more ajardsp_insns (cleared e) e'
  pub fits : e'.total_size ≤ 4

pub encoded_inst :
    (ctx : Context) (inst : Instruction) (more : Bool) (e e' : Emit)
    → try_rows ctx inst more ajardsp_insns (cleared e) ≡ good e'
    → e'.inst_properly_encoded ≡ true
    → EmittedBy ctx inst more ajardsp_insns (cleared e) e'
encoded_inst ctx inst more e e' h t = elim (try_rows_once ctx inst more (cleared e) e' h) [
  | inl same ↦ cc (sym (ap (λ (x : Emit). x.inst_properly_encoded) same) ∙ t)
  | inr by ↦ by
]

-- The first instruction of a bundle that assembles, and the rest.
pub assemble_insts-cons :
    (ctx : Context) (inst : Instruction) (rest : List Instruction) (e : Emit) {e' : Emit}
    → assemble_insts ctx (inst ∷ rest) e ≡ good e'
    → (e₁ : Emit) × Assembled ctx inst (follows rest) e e₁ × (assemble_insts ctx rest e₁ ≡ good e')
unfolding assemble_insts
assemble_insts-cons ctx inst rest e {e' = e'} h =
    let (e₁, tried, later) =
      >>=-eq-good (try_rows ctx inst (follows rest) ajardsp_insns (cleared e)) _ h in
    let done : e₁.inst_properly_encoded ≡ true = ground arith in
    let fits : e₁.total_size ≤ 4 = ground arith in
    let rest_good : assemble_insts ctx rest e₁ ≡ good e' = ground arith in
    (
      e₁,
      record { by = encoded_inst ctx inst (follows rest) e e₁ tried done; fits = fits },
      rest_good,
    )

Assembled-IsGrown :
    (ctx : Context) (inst : Instruction) (more : Bool) (e e' : Emit)
    → e.imem_addr < 2 ^ 16
    → Assembled ctx inst more e e'
    → IsGrown e e'
Assembled-IsGrown ctx inst more e e' start x =
    let by = x.by in
    let (total, moved, _) =
      emit-words by.pattern (cleared e) start (is_long inst by.row) by.emitted in
    record {
      words = word_count (is_long inst by.row);
      total = total;
      moved = moved;
      frame = λ a. emit-frame by.pattern (cleared e) start (is_long inst by.row) a by.emitted;
    }

pub assemble_insts-IsGrown :
    (ctx : Context) (insts : List Instruction) (e : Emit) {e' : Emit}
    → e.imem_addr < 2 ^ 16
    → e.total_size ≤ 4
    → assemble_insts ctx insts e ≡ good e'
    → IsGrown e e' × (e'.total_size ≤ 4)
assemble_insts-IsGrown ctx [] e {e' = e'} start fits h =
    let same : e ≡ e' = unfold assemble_insts in ground arith in
    rw (← same) (IsGrown-refl e start, fits)
assemble_insts-IsGrown ctx (inst ∷ rest) e {e' = e'} start fits h =
    let (e₁, x, later) = assemble_insts-cons ctx inst rest e h in
    let g = Assembled-IsGrown ctx inst (follows rest) e e₁ start x in
    let inside : e₁.imem_addr < 2 ^ 16 = omega (arith, g.moved) in
    let (grown, total) = assemble_insts-IsGrown ctx rest e₁ inside x.fits later in
    (IsGrown-trans e e₁ e' g grown, total)

module _ (ctx : Context) (insts : List Instruction) (imem : Memory) (imem_addr : ℕ) (e : Emit)
    (start : imem_addr < 2 ^ 16)
    (assembled : try_assemble_inst_bundle ctx insts imem imem_addr ≡ good e) where
  bundle-IsGrown :
      IsGrown
        (record {
          imem = imem;
          imem_addr = imem_addr;
          total_size = 0;
          inst_properly_encoded = false;
        })
        e
      × (e.total_size ≤ 4)
  unfolding try_assemble_inst_bundle
  bundle-IsGrown = assemble_insts-IsGrown ctx insts _ start (omega arith) assembled

  -- A bundle that assembles, from a 16-bit address, takes at most four words, and the address
  -- moves on by as many, wrapping at 2 ^ 16.
  pub try_assemble_inst_bundle_size :
      (e.total_size ≤ 4) × (e.imem_addr ≡ (imem_addr + e.total_size) % 2 ^ 16)
  try_assemble_inst_bundle_size =
      let (g, fits) = bundle-IsGrown in (fits, omega (arith, g.total, g.moved))

  -- A bundle that assembles, from a 16-bit address, changes no word of the instruction memory but
  -- those of the bundle, the `total_size` words from its address on, wrapping at 2 ^ 16.
  pub try_assemble_inst_bundle_frame :
      (a : ℕ) → ((k : ℕ) → k < e.total_size → a ≢ (imem_addr + k) % 2 ^ 16) → e.imem a ≡ imem a
  try_assemble_inst_bundle_frame a away =
      let (g, fits) = bundle-IsGrown in
      g.frame a (λ k below. away k (omega (arith, g.total, below)))
