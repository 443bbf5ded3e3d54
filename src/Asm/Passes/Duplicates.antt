-- ===== src/Asm/Passes/Duplicates.antt =====
-- The first pass of sw/tools/asm/asm.c refuses a program that has one label twice.
use ajardsp.Common.{
  ℕ, zero, suc, ◌≡◌, refl, sym, ap, ◌∙◌, arith, Bool-cases, Option-cases, inl, inr,
}
use ajardsp.Common.{false, none, some, List, [], ◌∷◌, ◌++◌, CString, Option, get_elem?}
use ajardsp.Common.{is_nonzero, good, >>=-eq-good, str_eq, str_eq_refl}
use ajardsp.Asm.Types.{InstBundle, DataElement}
use ajardsp.Asm.Symtab.{Symtab, symtab_add, symtab_lookup}
use ajardsp.Asm.Passes.{AsmState, define_label, align_16, assemble_bundle}
use ajardsp.Asm.Passes.{pass_0_data_element, pass_0_data, pass_0_bundle, pass_0_code, asm_do_pass_0}
use ajardsp.Asm.Passes.Agree.{define_label_new, assemble_bundle-Placed}

-- A label in front of the labels that follow.
abbrev with_label : Option CString → List CString → List CString
with_label none names = names
with_label (some name) names = name ∷ names

abbrev code_names : List InstBundle → List CString
code_names [] = []
code_names (ib ∷ ibs) = with_label ib.label (code_names ibs)

abbrev data_names : List DataElement → List CString
data_names [] = []
data_names (x ∷ xs) = with_label x.label (data_names xs)

-- Each name is new to the table when it is entered.
abbrev Enters : Symtab → List CString → Symtab → Type 0
Enters s [] t = s ≡ t
Enters s (name ∷ names) t =
    (symtab_lookup s name ≡ none) × (address : ℕ) × Enters (symtab_add s name address) names t

Enters-append :
    (names more : List CString) (s t u : Symtab)
    → Enters s names t
    → Enters t more u
    → Enters s (names ++ more) u
Enters-append [] more s t u e f = rw e f
Enters-append (name ∷ names) more s t u (new, a, e) f =
    (new, a, Enters-append names more (symtab_add s name a) t u e f)

-- One element of a list and those after it.
with_label-Enters :
    (label : Option CString) (names : List CString) (s t u : Symtab)
    → Enters s (with_label label []) t
    → Enters t names u
    → Enters s (with_label label names) u
with_label-Enters none names s t u e f = rw e f
with_label-Enters (some name) names s t u (new, a, e) f = (new, a, rw e f)

pass_0_bundle-Enters :
    (ib : InstBundle) (st : AsmState) {st' : AsmState}
    → pass_0_bundle ib st ≡ good st'
    → Enters st.symtab (with_label ib.label []) st'.symtab
unfolding pass_0_bundle
pass_0_bundle-Enters ib st {st' = st'} h = elim (Option-cases ib.label) [
  | inr (name, is_label) ↦
      let defined : define_label name st.imem_addr st ≡ good st' = ground arith in
      let (new, e) = define_label_new name st.imem_addr st defined in
      rw is_label (new, st.imem_addr, ap (λ (x : AsmState). x.symtab) e)
  | inl no_label ↦ elim (Bool-cases (is_nonzero ib.align)) [
    | inl aligns ↦
        let e : record st { imem_addr = align_16 ib.align st.imem_addr } ≡ st' = ground arith in
        rw no_label (ap (λ (x : AsmState). x.symtab) e)
    | inr plain ↦
        let placed : assemble_bundle ib.insts st ≡ good st' = ground arith in
        rw no_label (sym (assemble_bundle-Placed ib.insts st placed).symtab_kept)
  ]
]

pass_0_data_element-Enters :
    (x : DataElement) (st : AsmState) {st' : AsmState}
    → pass_0_data_element x st ≡ good st'
    → Enters st.symtab (with_label x.label []) st'.symtab
unfolding pass_0_data_element
pass_0_data_element-Enters x st {st' = st'} h = elim (Option-cases x.label) [
  | inr (name, is_label) ↦
      let defined : define_label name st.dmem_addr st ≡ good st' = ground arith in
      let (new, e) = define_label_new name st.dmem_addr st defined in
      rw is_label (new, st.dmem_addr, ap (λ (x : AsmState). x.symtab) e)
  | inl no_label ↦ let kept : st.symtab ≡ st'.symtab = ground arith in rw no_label kept
]

pass_0_code-Enters :
    (ibs : List InstBundle) (st : AsmState) {st' : AsmState}
    → pass_0_code ibs st ≡ good st'
    → Enters st.symtab (code_names ibs) st'.symtab
unfolding pass_0_code
pass_0_code-Enters [] st h = ground arith
pass_0_code-Enters (ib ∷ ibs) st h =
    let (st₁, h₁, h₂) = >>=-eq-good (pass_0_bundle ib st) _ h in
    with_label-Enters ib.label (code_names ibs) _ _ _ (pass_0_bundle-Enters ib st h₁)
      (pass_0_code-Enters ibs st₁ h₂)

pass_0_data-Enters :
    (xs : List DataElement) (st : AsmState) {st' : AsmState}
    → pass_0_data xs st ≡ good st'
    → Enters st.symtab (data_names xs) st'.symtab
unfolding pass_0_data
pass_0_data-Enters [] st h = ground arith
pass_0_data-Enters (x ∷ xs) st h =
    let (st₁, h₁, h₂) = >>=-eq-good (pass_0_data_element x st) _ h in
    with_label-Enters x.label (data_names xs) _ _ _ (pass_0_data_element-Enters x st h₁)
      (pass_0_data-Enters xs st₁ h₂)

-- A name that is not in the grown table was not in the old one, and is another name.
symtab_add-none :
    (s : Symtab) (name other : CString) (address : ℕ)
    → symtab_lookup (symtab_add s name address) other ≡ none
    → (symtab_lookup s other ≡ none) × (str_eq name other ≡ false)
unfolding symtab_add symtab_lookup
symtab_add-none s name other address h = ground arith

Enters-new :
    (names : List CString) (s t : Symtab) (i : ℕ) {name : CString}
    → Enters s names t
    → get_elem? names i ≡ some name
    → symtab_lookup s name ≡ none
Enters-new [] s t i e at = cc
Enters-new (first ∷ names) s t zero {name = name} (new, a, e) at =
    let same : first ≡ name = ground arith in rw (← same) new
Enters-new (first ∷ names) s t (suc i) {name = name} (new, a, e) at =
    (symtab_add-none s first name a (Enters-new names (symtab_add s first a) t i e at)).0

not_again :
    (s : Symtab) (first name : CString) (address : ℕ)
    → first ≡ name
    → symtab_lookup (symtab_add s first address) name ≡ none
    → ⊥
not_again s first name address same h =
    let (_, other) = symtab_add-none s first name address h in
    cc (sym (str_eq_refl first) ∙ ap (str_eq first) same ∙ other)

once :
    (names : List CString) (s t : Symtab) (i j : ℕ) {name : CString}
    → Enters s names t
    → get_elem? names i ≡ some name
    → get_elem? names j ≡ some name
    → i ≡ j
once [] s t i j e p q = cc
once (first ∷ names) s t zero zero e p q = refl
once (first ∷ names) s t (suc i) (suc j) (new, a, e) p q =
    ap suc (once names (symtab_add s first a) t i j e p q)
once (first ∷ names) s t zero (suc j) {name = name} (new, a, e) p q =
    let same : first ≡ name = ground arith in
    absurd (not_again s first name a same (Enters-new names (symtab_add s first a) t j e q))
once (first ∷ names) s t (suc i) zero {name = name} (new, a, e) p q =
    let same : first ≡ name = ground arith in
    absurd (not_again s first name a same (Enters-new names (symtab_add s first a) t i e p))

-- A program that passes the first pass has no label twice: two positions in the list of its
-- labels, those of the data section first, that hold the same name are the same.
pub asm_do_pass_0_once :
    (ibs : List InstBundle) (xs : List DataElement) (st st' : AsmState) (i j : ℕ) (name : CString)
    → asm_do_pass_0 ibs xs st ≡ good st'
    → get_elem? (data_names xs ++ code_names ibs) i ≡ some name
    → get_elem? (data_names xs ++ code_names ibs) j ≡ some name
    → i ≡ j
unfolding asm_do_pass_0
asm_do_pass_0_once ibs xs st st' i j name h p q =
    let (mid, h₁, h₂) = >>=-eq-good (pass_0_data xs st) _ h in
    once (data_names xs ++ code_names ibs) st.symtab st'.symtab i j
      (Enters-append (data_names xs) (code_names ibs) st.symtab mid.symtab st'.symtab
        (pass_0_data-Enters xs st h₁) (pass_0_code-Enters ibs mid h₂))
      p q
