-- ===== src/Common/Text.antt =====
-- C strings as the lists of their bytes, without the terminating zero.
use Prim.Native.Nat.{ℕ, zero, suc}
use Prim.Native.Char.{code}
use Prim.Native.String.{String}
use mathlib.Core.Path.{◌≡◌, refl, ap₂}
use mathlib.Core.Bool.{Bool, true, false, ◌&&◌}
use mathlib.Core.Option.{Option, none, some}
use mathlib.Core.List.{List, [], ◌∷◌}
use native.Mathlib.Omega.{arith}
use ajardsp.Common.Tests.{◌==◌, ==_iff, and-split}

abbrev pub CString : Type 0
CString = List ℕ

abbrev pub codes : String → CString
codes String.[] = []
codes (String.◌∷◌ c s) = code c ∷ codes s

-- `0 == strcmp(s, t)`.
unfoldable pub str_eq : CString → CString → Bool
str_eq [] [] = true
str_eq [] (d ∷ t) = false
str_eq (c ∷ s) [] = false
str_eq (c ∷ s) (d ∷ t) = c == d && str_eq s t

-- `0 == strncmp(s, p, strlen(p))`: `p` is a prefix of `s`.
unfoldable pub has_prefix : CString → CString → Bool
has_prefix s [] = true
has_prefix [] (d ∷ p) = false
has_prefix (c ∷ s) (d ∷ p) = c == d && has_prefix s p

-- `s[i]`: a byte, the terminator at the end, and nothing readable behind it.
unfoldable pub char_at : CString → ℕ → Option ℕ
char_at [] zero = some 0
char_at [] (suc i) = none
char_at (c ∷ s) zero = some c
char_at (c ∷ s) (suc i) = char_at s i

pub str_eq-eq : (s t : CString) → str_eq s t ≡ true → s ≡ t
unfolding str_eq
str_eq-eq [] [] h = refl
str_eq-eq [] (d ∷ t) h = cc
str_eq-eq (c ∷ s) [] h = cc
str_eq-eq (c ∷ s) (d ∷ t) h =
    let (p, q) = and-split (c == d) (str_eq s t) h in ap₂ ◌∷◌ ((==_iff c d).0 p) (str_eq-eq s t q)

pub str_eq_refl : (s : CString) → str_eq s s ≡ true
unfolding str_eq
str_eq_refl [] = refl
str_eq_refl (c ∷ s) = ground (arith, str_eq_refl s)
