-- ===== src/Common/Outcomes.antt =====
-- What a C function of the assembler ends with: `RES_GOOD` with what it wrote through its
-- pointers, `RES_BAD`, a call of `exit(1)`, or a fault, which is a step that C leaves undefined (a
-- read or write outside an object, a null pointer) or a failed `assert`.
use mathlib.Core.Path.{◌≡◌, refl, subst}
use mathlib.Core.Bool.{Bool, true, false}
use native.Mathlib.Omega.{arith}
use mathlib.Core.Option.{Option, none, some}
use ajardsp.Common.Tests.{if◌then◌else◌}

pub data Outcome {ℓ} (A : Type ℓ) : Type ℓ where
  good : A → Outcome A
  bad exits fault : Outcome A

infixl 5 ◌>>=◌
abbrev pub ◌>>=◌ {ℓ κ} : {A : Type ℓ} {B : Type κ} → Outcome A → (A → Outcome B) → Outcome B
good a >>= f = f a
bad >>= f = bad
exits >>= f = exits
fault >>= f = fault

-- A read that may fall outside its object.
abbrev pub readable {ℓ} : {A : Type ℓ} → Option A → Outcome A
readable none = fault
readable (some a) = good a

-- A failure that the caller answers with a value of its own; anything worse goes on.
abbrev pub if_bad {ℓ κ} : {A : Type ℓ} {B : Type κ} → Outcome A → B → (A → Outcome B) → Outcome B
if_bad (good a) b f = f a
if_bad bad b f = good b
if_bad exits b f = exits
if_bad fault b f = fault

-- Inversion of a successful sequence.
pub >>=-eq-good {ℓ κ} :
    {A : Type ℓ} {B : Type κ} (m : Outcome A) (f : A → Outcome B) {b : B}
    → (m >>= f) ≡ good b
    → (a : A) × (m ≡ good a) × (f a ≡ good b)
>>=-eq-good (good a) f h = (a, refl, h)
>>=-eq-good bad f h = cc
>>=-eq-good exits f h = cc
>>=-eq-good fault f h = cc

pub readable-good {ℓ} : {A : Type ℓ} {o : Option A} {a : A} → readable o ≡ good a → o ≡ some a
readable-good {o = none} h = cc
readable-good {o = some b} h = ground arith

-- A property of the value of every good end.
abbrev pub Ensures {ℓ} : {A : Type ℓ} → (A → Type 0) → Outcome A → Type 0
Ensures P (good a) = P a
Ensures P bad = Unit {0}
Ensures P exits = Unit {0}
Ensures P fault = Unit {0}

module _ {ℓ} {A : Type ℓ} (P : A → Type 0) where
  pub Ensures-bind {κ} :
      {B : Type κ} (m : Outcome B) (f : B → Outcome A)
      → ((b : B) → Ensures P (f b))
      → Ensures P (m >>= f)
  Ensures-bind (good b) f h = h b
  Ensures-bind bad f h = tt
  Ensures-bind exits f h = tt
  Ensures-bind fault f h = tt

  pub Ensures-then {κ} :
      {B : Type κ} (Q : B → Type 0) (m : Outcome B) (f : B → Outcome A)
      → Ensures Q m
      → ((b : B) → Q b → Ensures P (f b))
      → Ensures P (m >>= f)
  Ensures-then Q (good b) f q h = h b q
  Ensures-then Q bad f q h = tt
  Ensures-then Q exits f q h = tt
  Ensures-then Q fault f q h = tt

  pub Ensures-if :
      (b : Bool) (x y : Outcome A) → Ensures P x → Ensures P y → Ensures P (if b then x else y)
  Ensures-if true x y p q = p
  Ensures-if false x y p q = q

  pub Ensures-good : (m : Outcome A) {a : A} → Ensures P m → m ≡ good a → P a
  Ensures-good (good a) h e = subst P (ground arith) h
  Ensures-good bad h e = cc
  Ensures-good exits h e = cc
  Ensures-good fault h e = cc
