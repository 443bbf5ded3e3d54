-- ===== src/Asm/Symtab.antt =====
-- sw/tools/asm/symtab.c. The static list `symtab_p` is an argument, newest entry first.
pub mod Laws
use ajardsp.Common.{ℕ, Option, none, some, List, [], ◌∷◌, CString, str_eq, if◌then◌else◌}

pub record SymtabEntry : Type 0 where
  pub name : CString
  pub address : ℕ

abbrev pub Symtab : Type 0
Symtab = List SymtabEntry

unfoldable pub symtab_add : Symtab → CString → ℕ → Symtab
symtab_add symtab name address = record { name = name; address = address } ∷ symtab

-- `none` is `RES_BAD`, after which `*address_p` is 0.
unfoldable pub symtab_lookup : Symtab → CString → Option ℕ
symtab_lookup [] name = none
symtab_lookup (node ∷ rest) name =
    if str_eq node.name name then some node.address else symtab_lookup rest name
