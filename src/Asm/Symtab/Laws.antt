-- ===== src/Asm/Symtab/Laws.antt =====
-- The symbol table as a map from names to addresses.
use ajardsp.Common.{ℕ, ◌≡◌, ◌≢◌, some, CString}
use ajardsp.Common.{str_eq, str_eq_refl, str_eq-eq, Bool-cases}
use ajardsp.Common.{inl, inr}
use ajardsp.Asm.Symtab.{Symtab, symtab_add, symtab_lookup}

-- A lookup after `symtab_add` gives the new address for the new name and the old answer for any
-- other.
pub symtab_lookup-symtab_add :
    (symtab : Symtab) (name other : CString) (address : ℕ)
    → (symtab_lookup (symtab_add symtab name address) name ≡ some address)
      × (name ≢ other
          → symtab_lookup (symtab_add symtab name address) other ≡ symtab_lookup symtab other)
unfolding symtab_add symtab_lookup
symtab_lookup-symtab_add symtab name other address = (
  rw (str_eq_refl name),
  λ ne. elim (Bool-cases (str_eq name other)) [
    | inl same ↦ absurd (ne (str_eq-eq name other same))
    | inr differ ↦ rw differ
  ],
)
