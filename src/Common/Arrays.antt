-- ===== src/Common/Arrays.antt =====
-- A static array of words as a function of the index.
use Prim.Native.Nat.{ℕ}
use mathlib.Core.Path.{◌≡◌}
use mathlib.Core.Logic.{◌≢◌}
use native.Mathlib.Omega.{arith}
use ajardsp.Common.Tests.{◌==◌, if◌then◌else◌}

abbrev pub Memory : Type 0
Memory = ℕ → ℕ

unfoldable pub update : Memory → ℕ → ℕ → Memory
update m a v i = if i == a then v else m i

pub update_self : (m : Memory) (a v : ℕ) → update m a v a ≡ v
unfolding update
update_self m a v = ground arith

pub update_other : (m : Memory) (a v i : ℕ) → i ≢ a → update m a v i ≡ m i
unfolding update
update_other m a v i h = ground arith
