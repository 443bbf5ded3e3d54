-- ===== src/Common/Lists.antt =====
-- Lists measured and indexed by native numbers, under the library's names.
use Prim.Native.Nat.{ℕ, zero, suc, ◌+◌, ◌<◌}
use mathlib.Core.Path.{◌≡◌, refl}
use mathlib.Core.Bool.{Bool, true, ◌&&◌}
use mathlib.Core.List.{List, [], ◌∷◌, ◌++◌}
use mathlib.Core.Option.{Option, none, some}
use native.Mathlib.Omega.{arith}
use ajardsp.Common.Tests.{and-split}

module _ {ℓ} {A : Type ℓ} where
  abbrev pub length : List A → ℕ
  length [] = 0
  length (x ∷ xs) = suc (length xs)

  abbrev pub get_elem? : List A → ℕ → Option A
  get_elem? [] i = none
  get_elem? (x ∷ xs) zero = some x
  get_elem? (x ∷ xs) (suc i) = get_elem? xs i

  abbrev pub get_or : List A → ℕ → A → A
  get_or [] i d = d
  get_or (x ∷ xs) zero d = x
  get_or (x ∷ xs) (suc i) d = get_or xs i d

  pub length-append : (xs ys : List A) → length (xs ++ ys) ≡ length xs + length ys
  length-append [] ys = omega arith
  length-append (x ∷ xs) ys = omega (arith, length-append xs ys)

  -- A test that every element passes, and what it says of each position.
  unfoldable pub all : (A → Bool) → List A → Bool
  all p [] = true
  all p (x ∷ xs) = p x && all p xs

  pub all_sound :
      (p : A → Bool) (xs : List A) (i : ℕ) {x : A}
      → all p xs ≡ true
      → get_elem? xs i ≡ some x
      → p x ≡ true
  unfolding all
  all_sound p [] i h e = cc
  all_sound p (y ∷ ys) zero h e = ground (arith, and-split (p y) (all p ys))
  all_sound p (y ∷ ys) (suc i) h e = all_sound p ys i (and-split (p y) (all p ys) h).1 e

  pub get_or-get_elem? :
      (xs : List A) (k : ℕ) (d : A) {x : A} → get_elem? xs k ≡ some x → get_or xs k d ≡ x
  get_or-get_elem? [] k d h = cc
  get_or-get_elem? (y ∷ ys) zero d h = ground arith
  get_or-get_elem? (y ∷ ys) (suc k) d h = get_or-get_elem? ys k d h

-- Lists of one length have elements at the same positions.
pub get_elem?-same_length {ℓ κ} :
    {A : Type ℓ} {B : Type κ} (xs : List A) (ys : List B) (k : ℕ) {x : A}
    → length xs ≡ length ys
    → get_elem? xs k ≡ some x
    → (y : B) × (get_elem? ys k ≡ some y)
get_elem?-same_length [] ys k e h = cc
get_elem?-same_length (x ∷ xs) [] k e h = absurd (omega arith)
get_elem?-same_length (x ∷ xs) (y ∷ ys) zero e h = (y, refl)
get_elem?-same_length (x ∷ xs) (y ∷ ys) (suc k) e h = get_elem?-same_length xs ys k (omega arith) h

pub get_elem?-lt {ℓ} :
    {A : Type ℓ} (xs : List A) (k : ℕ) → k < length xs → (x : A) × (get_elem? xs k ≡ some x)
get_elem?-lt [] k h = absurd (omega arith)
get_elem?-lt (x ∷ xs) zero h = (x, refl)
get_elem?-lt (x ∷ xs) (suc k) h = get_elem?-lt xs k (omega arith)
