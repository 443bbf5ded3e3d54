-- ===== src/Asm/Insns/Checks.antt =====
-- What the rows of `ajardsp_insns` have in common, checked row by row and pair by pair.
use ajardsp.Common.{ℕ, ◌^◌, bit_and, bit_or, Bool, true, false, ◌&&◌, ◌||◌, ◌==◌, ltb}
use ajardsp.Common.{List, [], ◌∷◌, length, all, ◌≡◌, refl, str_eq, not}
use ajardsp.Asm.Types.{OperandDef, InstDef, inst_16, inst_32, type_eq}
use ajardsp.Asm.Encode.Exclusive.{apart}
use ajardsp.Asm.Encode.Fields.{field_mask, field_fits}
use ajardsp.Asm.Insns.{ajardsp_insns}

-- The bits of all fields of a row.
unfoldable pub operand_mask : List OperandDef → ℕ
unfolding field_mask
operand_mask [] = 0
operand_mask (o ∷ os) = bit_or (field_mask o) (operand_mask os)

-- The bits that belong to the operands: below the size, predicate and negation bits.
abbrev pub field_bits : InstDef → ℕ
field_bits d = elim d.size [ inst_16 ↦ 0x0000fffc | inst_32 ↦ 0x0ffffffc ]

-- Every operand is in its own bits, and the bits of the row's own pattern are clear there.
unfoldable pub fields_disjoint : List OperandDef → Bool
unfolding operand_mask
fields_disjoint [] = true
fields_disjoint (o ∷ os) = bit_and (field_mask o) (operand_mask os) == 0 && fields_disjoint os

unfoldable pub row_sound : InstDef → Bool
unfolding operand_mask fields_disjoint field_fits
row_sound d =
    d.nr_operands == length d.operands
    && all field_fits d.operands
    && fields_disjoint d.operands
    && (bit_and (operand_mask d.operands) (field_bits d) == operand_mask d.operands)
    && (bit_and d.pattern (operand_mask d.operands) == 0)
    && ltb d.pattern (2 ^ 30)

pub rows_sound : all row_sound ajardsp_insns ≡ true
unfolding all row_sound ajardsp_insns
rows_sound = refl

-- Some position where the operand types differ or the encoders accept no common operand.
unfoldable pub some_apart : List OperandDef → List OperandDef → Bool
some_apart [] [] = false
some_apart [] (o ∷ os) = true
some_apart (p ∷ ps) [] = true
some_apart (p ∷ ps) (o ∷ os) =
    not (type_eq p.type o.type) || apart p.encode o.encode || some_apart ps os

unfoldable pub rows_apart : InstDef → InstDef → Bool
unfolding some_apart
rows_apart d e = not (str_eq d.mnemonic e.mnemonic) || some_apart d.operands e.operands

-- A test of each element against every later one.
unfoldable pub all_pairs {ℓ} : {A : Type ℓ} → (A → A → Bool) → List A → Bool
unfolding all
all_pairs p [] = true
all_pairs p (x ∷ xs) = all (p x) xs && all_pairs p xs

pub rows_pairwise_apart : all_pairs rows_apart ajardsp_insns ≡ true
unfolding all_pairs rows_apart ajardsp_insns str_eq
rows_pairwise_apart = refl
