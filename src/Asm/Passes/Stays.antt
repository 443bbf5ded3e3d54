-- ===== src/Asm/Passes/Stays.antt =====
-- The second pass goes upwards: it leaves alone the words below the address at which it stands.
use ajardsp.Common.{
  ℕ, zero, suc, ◌+◌, ◌-◌, ◌^◌, ◌<◌, ◌≤◌, ◌≡◌, refl, ap, ◌∙◌, arith, ltb→lt, Bool-cases,
  Option-cases, inl, inr,
}
use ajardsp.Common.{
  true, none, some, List, [], ◌∷◌, ℤ, pos, negsuc, is_nonzero, ltb, update_other, if◌then◌else◌,
}
use ajardsp.Common.{
  good, >>=-eq-good, ◌>>=◌, rounds, Ensures, Ensures-if, Ensures-bind, Ensures-good,
}
use ajardsp.Asm.Passes.{put_data, skip_data, data_word, pass_1_data_element, pass_1_data}
use ajardsp.Asm.Types.{DataElement}
use ajardsp.Bits.Laws.{bit_and-le, bit_and_comm}
use ajardsp.Asm.Types.{Instruction, InstBundle}
use ajardsp.Asm.Bundle.Size.{try_assemble_inst_bundle_size, try_assemble_inst_bundle_frame}
use ajardsp.Asm.Passes.{AsmState, context, align_32, assemble_bundle, put_code, put_nops, pad_code}
use ajardsp.Asm.Passes.{pass_1_insts, pass_1_bundle, pass_1_code}
use ajardsp.Asm.Passes.Align.{align_32_lem}
use ajardsp.Asm.Passes.Agree.{assemble_bundle-Placed, AlignFits, CodeFits}
use ajardsp.Asm.Passes.Labels.{pass_1_insts-good}

-- At most so many words: a label takes none, padding fewer than its operand, instructions four.
abbrev align_room : ℤ → ℕ
align_room (pos n) = n
align_room (negsuc n) = 0

abbrev pub bundle_room : InstBundle → ℕ
bundle_room ib = elim ib.label [
  | some label ↦ 0
  | none ↦ if is_nonzero ib.align then align_room ib.align else 4
]

abbrev pub code_room : List InstBundle → ℕ
code_room [] = 0
code_room (ib ∷ ibs) = bundle_room ib + code_room ibs

-- From one state to another at most `room` words were written, from the address of the first on.
pub record Stays (st st' : AsmState) (room : ℕ) : Type 0 where
  pub below : (a : ℕ) → a < st.imem_addr → st'.imem a ≡ st.imem a
  pub onward : st.imem_addr ≤ st'.imem_addr
  pub limit : st'.imem_addr ≤ st.imem_addr + room

Stays-refl : (st : AsmState) (room : ℕ) → Stays st st room
Stays-refl st room = record { below = λ a h. refl; onward = omega arith; limit = omega arith }

Stays-trans : (st su sv : AsmState) (m n : ℕ) → Stays st su m → Stays su sv n → Stays st sv (m + n)
Stays-trans st su sv m n x y = record {
  below = λ a h. y.below a (omega (arith, x.onward)) ∙ x.below a h;
  onward = omega (arith, x.onward, y.onward);
  limit = omega (arith, x.limit, y.limit);
}

Stays-more : (st su : AsmState) (m n : ℕ) → m ≤ n → Stays st su m → Stays st su n
Stays-more st su m n h x = record {
  below = x.below;
  onward = x.onward;
  limit = omega (arith, x.limit);
}

put_code-Stays : (w : ℕ) (st : AsmState) → st.imem_addr + 1 < 2 ^ 16 → Stays st (put_code w st) 1
unfolding put_code
put_code-Stays w st h = record {
  below = λ a k. update_other st.imem st.imem_addr w a (λ same. omega arith);
  onward = omega arith;
  limit = omega arith;
}

put_nops-Stays : (n : ℕ) (st : AsmState) → st.imem_addr + n < 2 ^ 16 → Stays st (put_nops n st) n
unfolding put_nops
put_nops-Stays zero st h = Stays-refl st 0
put_nops-Stays (suc n) st h =
    let x = put_code-Stays 0x0001 st (omega arith) in
    Stays-more _ _ (1 + n) (suc n) (omega arith)
      (Stays-trans st (put_code 0x0001 st) _ 1 n x (put_nops-Stays n _ (omega (arith, x.limit))))

align_32-le : (n addr : ℕ) → n < 2 ^ 30 → addr < 2 ^ 16 → align_32 (pos (suc n)) addr ≤ addr + n
align_32-le n addr h k =
    let x = addr + n in
    let m = 2 ^ 32 - 1 - n in
    omega (arith, align_32_lem n addr h k, bit_and_comm x m, bit_and-le m x)

pad_code-Stays :
    (align : ℤ) (st : AsmState)
    → AlignFits align
    → is_nonzero align ≡ true
    → st.imem_addr + align_room align < 2 ^ 16
    → Stays st (pad_code align st) (align_room align)
unfolding pad_code
pad_code-Stays (negsuc n) st fits z h = absurd fits
pad_code-Stays (pos zero) st fits z h = cc
pad_code-Stays (pos (suc n)) st fits z h =
    let aligned = align_32 (pos (suc n)) st.imem_addr in
    let count = aligned - st.imem_addr - 1 in
    let near = align_32-le n st.imem_addr (omega arith) (omega arith) in
    elim (Bool-cases (ltb st.imem_addr aligned)) [
      | inl more ↦
          let above : st.imem_addr < aligned = ltb→lt st.imem_addr aligned more in
          let x = put_nops-Stays count st (omega (arith, near, above)) in
          let y = put_code-Stays 0x0000 (put_nops count st) (omega (arith, x.limit, near, above)) in
          rw more (
            Stays-more _ _ (count + 1) (suc n) (omega (arith, near, above))
              (Stays-trans st (put_nops count st) _ count 1 x y))
      | inr done ↦ rw done (Stays-refl st (suc n))
    ]

assemble_bundle-Stays :
    (insts : List Instruction) (st : AsmState) {st' : AsmState}
    → st.imem_addr + 4 < 2 ^ 16
    → assemble_bundle insts st ≡ good st'
    → Stays st st' 4
assemble_bundle-Stays insts st h assembled =
    let x = assemble_bundle-Placed insts st assembled in
    let (fits, moved) =
      try_assemble_inst_bundle_size (context st) insts st.imem st.imem_addr x.emitted (omega arith)
        x.assembled in
    record {
      below = λ a k.
          ap (λ m. m a) x.imem_after
          ∙ try_assemble_inst_bundle_frame (context st) insts st.imem st.imem_addr x.emitted
              (omega arith) x.assembled a (λ j more. omega (arith, fits));
      onward = omega (arith, x.addr, fits, moved);
      limit = omega (arith, x.addr, fits, moved);
    }

pub pass_1_bundle-Stays :
    (ib : InstBundle) (st : AsmState) {st' : AsmState}
    → AlignFits ib.align
    → st.imem_addr + bundle_room ib < 2 ^ 16
    → pass_1_bundle ib st ≡ good st'
    → Stays st st' (bundle_room ib)
unfolding pass_1_bundle
pass_1_bundle-Stays ib st {st' = st'} fits room h = elim (Option-cases ib.label) [
  | inr (name, is_label) ↦
      let stays : st ≡ st' = ground arith in rw (← stays) (Stays-refl st (bundle_room ib))
  | inl no_label ↦ elim (Bool-cases (is_nonzero ib.align)) [
    | inl aligns ↦
        let e : pad_code ib.align st ≡ st' = ground arith in
        rw (no_label, aligns, ← e)
          (pad_code-Stays ib.align st fits aligns (rw (no_label, aligns) at room))
    | inr plain ↦
        let k : pass_1_insts ib.insts st ≡ good st' = ground arith in
        rw (no_label, plain)
          (assemble_bundle-Stays ib.insts st (rw (no_label, plain) at room)
            (pass_1_insts-good ib.insts st k))
  ]
]

pub pass_1_code-Stays :
    (ibs : List InstBundle) (st : AsmState) {st' : AsmState}
    → CodeFits ibs
    → st.imem_addr + code_room ibs < 2 ^ 16
    → pass_1_code ibs st ≡ good st'
    → Stays st st' (code_room ibs)
unfolding pass_1_code
pass_1_code-Stays [] st {st' = st'} fits room h =
    let e : st ≡ st' = ground arith in rw (← e) (Stays-refl st 0)
pass_1_code-Stays (ib ∷ ibs) st {st' = st'} (fit, fits) room h =
    let (su, h₁, h₂) = >>=-eq-good (pass_1_bundle ib st) _ h in
    let x = pass_1_bundle-Stays ib st fit (omega arith) h₁ in
    Stays-trans st su st' (bundle_room ib) (code_room ibs) x
      (pass_1_code-Stays ibs su fits (omega (arith, x.limit)) h₂)

-- The data section does not move the code.
skip_data-imem_addr : (n : ℕ) (st : AsmState) → (skip_data n st).imem_addr ≡ st.imem_addr
unfolding skip_data put_data
skip_data-imem_addr zero st = refl
skip_data-imem_addr (suc n) st = skip_data-imem_addr n (put_data 0xdead st)

pass_1_data_element-imem_addr :
    (x : DataElement) (st : AsmState)
    → Ensures (λ (st' : AsmState). st'.imem_addr ≡ st.imem_addr) (pass_1_data_element x st)
unfolding pass_1_data_element put_data
pass_1_data_element-imem_addr x st =
    let Kept : AsmState → Type 0 = λ st'. st'.imem_addr ≡ st.imem_addr in
    elim x.label
      as (λ o. Ensures Kept (elim o [
        | some label ↦ good st
        | none ↦
            if is_nonzero x.skip_length
            then good (skip_data (rounds x.skip_length) st)
            else (data_word x st >>= λ value. good (put_data value st))
      ])) [
        | some label ↦ refl
        | none ↦
            Ensures-if Kept (is_nonzero x.skip_length) _ _
              (skip_data-imem_addr (rounds x.skip_length) st)
              (Ensures-bind Kept (data_word x st) _ λ value. refl)
      ]

pub pass_1_data-imem_addr :
    (xs : List DataElement) (st : AsmState) {st' : AsmState}
    → pass_1_data xs st ≡ good st'
    → st'.imem_addr ≡ st.imem_addr
unfolding pass_1_data
pass_1_data-imem_addr [] st h = ground arith
pass_1_data-imem_addr (x ∷ xs) st h =
    let (su, h₁, h₂) = >>=-eq-good (pass_1_data_element x st) _ h in
    pass_1_data-imem_addr xs su h₂
    ∙ Ensures-good (λ (st' : AsmState). st'.imem_addr ≡ st.imem_addr) _
        (pass_1_data_element-imem_addr x st) h₁
