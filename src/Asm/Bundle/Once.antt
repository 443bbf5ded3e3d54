-- ===== src/Asm/Bundle/Once.antt =====
-- The loop over the table has no `break`, and still emits an instruction at most once.
use ajardsp.Common.{ℕ, zero, suc, ◌≡◌, refl, sym, ap, ◌∙◌, Bool, true, Bool-cases, and-split}
use ajardsp.Common.{some, List, [], ◌∷◌, get_elem?, ◌⊎◌, inl, inr, if◌then◌else◌}
use ajardsp.Common.{
  Outcome, good, bad, exits, fault, ◌>>=◌, >>=-eq-good, if_bad, arith, all, all_sound, str_eq,
}
use ajardsp.Asm.Types.{Instruction, InstDef}
use ajardsp.Asm.Encode.{Context}
use ajardsp.Asm.Insns.{ajardsp_insns}
use ajardsp.Asm.Insns.Checks.{row_sound, rows_apart, all_pairs, rows_sound, rows_pairwise_apart}
use ajardsp.Asm.Bundle.{
  operand_match, encode_operands, encode_inst, is_long, Emit, emit, try_row, try_rows,
}
use ajardsp.Asm.Bundle.Unique.{Encodes, rows_apart_sound}

-- The pattern that a row gives an instruction; `bad` if the row is passed over.
unfoldable pub row_pattern : Context → Instruction → Bool → InstDef → Outcome ℕ
row_pattern ctx inst more d =
    if str_eq d.mnemonic inst.mnemonic
    then (operand_match d inst >>= λ _. encode_inst ctx inst more d)
    else bad

pub row_pattern-Encodes :
    (ctx : Context) (inst : Instruction) (more : Bool) (d : InstDef) {p : ℕ}
    → row_pattern ctx inst more d ≡ good p
    → Encodes ctx inst d
unfolding row_pattern encode_inst
row_pattern-Encodes ctx inst more d h = elim (Bool-cases (str_eq d.mnemonic inst.mnemonic)) [
  | inl same ↦
      let (_, matched, h₁) = >>=-eq-good (operand_match d inst) _ (rw same at h) in
      let (q, encoded, _) = >>=-eq-good (encode_operands ctx d 0 inst.ops _) _ h₁ in
      record { start = _; result = q; same_mnemonic = same; matched = matched; encoded = encoded }
  | inr differ ↦ cc (rw differ at h)
]

try_row_lem :
    (ctx : Context) (inst : Instruction) (more : Bool) (d : InstDef) (e : Emit)
    → try_row ctx inst more d e
      ≡ if_bad (row_pattern ctx inst more d) e (λ p. emit (is_long inst d) p e)
unfolding try_row row_pattern
try_row_lem ctx inst more d e = ground arith

-- No row of a list encodes the instruction.
abbrev Refused : Context → Instruction → List InstDef → Type 0
Refused ctx inst rows = (i : ℕ) (d : InstDef) → get_elem? rows i ≡ some d → Encodes ctx inst d → ⊥

-- What a round of the loop did.
try_row_cases :
    (ctx : Context) (inst : Instruction) (more : Bool) (d : InstDef) (e : Emit) {e' : Emit}
    → try_row ctx inst more d e ≡ good e'
    → (e' ≡ e)
      ⊎ ((p : ℕ) × (row_pattern ctx inst more d ≡ good p) × (emit (is_long inst d) p e ≡ good e'))
try_row_cases ctx inst more d e {e' = e'} h =
    go (row_pattern ctx inst more d) refl (sym (try_row_lem ctx inst more d e) ∙ h)
  where
    go :
        (r : Outcome ℕ)
        → row_pattern ctx inst more d ≡ r
        → if_bad r e (λ p. emit (is_long inst d) p e) ≡ good e'
        → (e' ≡ e)
          ⊎ ((p : ℕ) × (row_pattern ctx inst more d ≡ good p)
              × (emit (is_long inst d) p e ≡ good e'))
    go (good p) q k = inr (p, q, k)
    go bad q k = inl (ground arith)
    go exits q k = cc
    go fault q k = cc

try_rows-Refused :
    (ctx : Context) (inst : Instruction) (more : Bool) (rows : List InstDef) (e : Emit) {e' : Emit}
    → Refused ctx inst rows
    → try_rows ctx inst more rows e ≡ good e'
    → e' ≡ e
unfolding try_rows
try_rows-Refused ctx inst more [] e none_does h = ground arith
try_rows-Refused ctx inst more (d ∷ rows) e none_does h =
    let (e₁, first, later) = >>=-eq-good (try_row ctx inst more d e) _ h in
    elim (try_row_cases ctx inst more d e first) [
      | inl same ↦
          try_rows-Refused ctx inst more rows e₁ (λ i d'. none_does (suc i) d') later ∙ same
      | inr (p, encoded, _) ↦
          absurd (none_does 0 d refl (row_pattern-Encodes ctx inst more d encoded))
    ]

-- A list of rows that are sound and pairwise told apart.
abbrev pub Distinct : List InstDef → Type 0
Distinct rows = (all row_sound rows ≡ true) × (all_pairs rows_apart rows ≡ true)

Distinct-tail :
    (d : InstDef) (rows : List InstDef)
    → Distinct (d ∷ rows)
    → (row_sound d ≡ true) × (all (rows_apart d) rows ≡ true) × Distinct rows
unfolding all_pairs all
Distinct-tail d rows (s, a) =
    let (sd, sr) = and-split _ _ s in let (ad, ar) = and-split _ _ a in (sd, ad, (sr, ar))

-- After a row that encodes the instruction, no later row does, in whatever context.
Distinct-Refused :
    (ctx ctx' : Context) (inst : Instruction) (d : InstDef) (rows : List InstDef)
    → Distinct (d ∷ rows)
    → Encodes ctx inst d
    → Refused ctx' inst rows
Distinct-Refused ctx ctx' inst d rows w x i e g y =
    let (sd, ad, (sr, ar)) = Distinct-tail d rows w in
    rows_apart_sound ctx ctx' inst d e sd (all_sound row_sound rows i sr g)
      (all_sound (rows_apart d) rows i ad g) x y

-- The row that emitted an instruction, with its pattern.
pub record EmittedBy (ctx : Context) (inst : Instruction) (more : Bool) (rows : List InstDef)
    (e e' : Emit) : Type 0 where
  pub index : ℕ
  pub row : InstDef
  pub pattern : ℕ
  pub at_index : get_elem? rows index ≡ some row
  pub gives : row_pattern ctx inst more row ≡ good pattern
  pub emitted : emit (is_long inst row) pattern e ≡ good e'

rows_once :
    (ctx : Context) (inst : Instruction) (more : Bool) (rows : List InstDef) (e : Emit) {e' : Emit}
    → Distinct rows
    → try_rows ctx inst more rows e ≡ good e'
    → (e' ≡ e) ⊎ EmittedBy ctx inst more rows e e'
unfolding try_rows
rows_once ctx inst more [] e w h = inl (ground arith)
rows_once ctx inst more (d ∷ rows) e {e' = e'} w h =
    let (e₁, first, later) = >>=-eq-good (try_row ctx inst more d e) _ h in
    elim (try_row_cases ctx inst more d e first) [
      | inl same ↦
          skip (rows_once ctx inst more rows e (Distinct-tail d rows w).2 (rw (same) at later))
      | inr (p, encoded, out) ↦
          let none_later =
            Distinct-Refused ctx ctx inst d rows w (row_pattern-Encodes ctx inst more d encoded) in
          inr (record {
            index = 0;
            row = d;
            pattern = p;
            at_index = refl;
            gives = encoded;
            emitted = out ∙ ap good (sym (try_rows-Refused ctx inst more rows e₁ none_later later));
          })
    ]
  where
    skip :
        (e' ≡ e) ⊎ EmittedBy ctx inst more rows e e'
        → (e' ≡ e) ⊎ EmittedBy ctx inst more (d ∷ rows) e e'
    skip (inl same) = inl same
    skip (inr by) = inr (record {
      index = suc by.index;
      row = by.row;
      pattern = by.pattern;
      at_index = by.at_index;
      gives = by.gives;
      emitted = by.emitted;
    })

-- At most one row of the table encodes an instruction: two rows that do, be it in different
-- passes, are one.
pub row_unique :
    (ctx ctx' : Context) (inst : Instruction) (more more' : Bool) (i j : ℕ) (d e : InstDef)
    (p q : ℕ)
    → get_elem? ajardsp_insns i ≡ some d
    → get_elem? ajardsp_insns j ≡ some e
    → row_pattern ctx inst more d ≡ good p
    → row_pattern ctx' inst more' e ≡ good q
    → i ≡ j
row_unique ctx ctx' inst more more' i j d e p q gi gj hp hq =
    one ajardsp_insns i j (rows_sound, rows_pairwise_apart) gi gj
  where
    x : Encodes ctx inst d
    x = row_pattern-Encodes ctx inst more d hp

    y : Encodes ctx' inst e
    y = row_pattern-Encodes ctx' inst more' e hq

    one :
        (rows : List InstDef) (i j : ℕ)
        → Distinct rows
        → get_elem? rows i ≡ some d
        → get_elem? rows j ≡ some e
        → i ≡ j
    one [] i j w gi gj = cc
    one (r ∷ rows) zero zero w gi gj = refl
    one (r ∷ rows) (suc i) (suc j) w gi gj = ap suc (one rows i j (Distinct-tail r rows w).2 gi gj)
    one (r ∷ rows) zero (suc j) w gi gj =
        let same : r ≡ d = ground arith in
        absurd (Distinct-Refused ctx ctx' inst r rows w (rw same x) j e gj y)
    one (r ∷ rows) (suc i) zero w gi gj =
        let same : r ≡ e = ground arith in
        absurd (Distinct-Refused ctx' ctx inst r rows w (rw same y) i d gi x)

-- The loop over the table changes nothing, or ends as after the one row that encodes the
-- instruction.
pub try_rows_once :
    (ctx : Context) (inst : Instruction) (more : Bool) (e e' : Emit)
    → try_rows ctx inst more ajardsp_insns e ≡ good e'
    → (e' ≡ e) ⊎ EmittedBy ctx inst more ajardsp_insns e e'
try_rows_once ctx inst more e e' h =
    rows_once ctx inst more ajardsp_insns e (rows_sound, rows_pairwise_apart) h
