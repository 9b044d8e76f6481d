-- ===== src/Prelude/Int.antt =====
-- Python's unbounded signed integers, where a column may hold a negative number.
use Prim.Native.Nat.{ℕ}
use mathlib.Core.Bool.{Bool, true}
use native.Mathlib.Decide.{ℕ_discrete}
use uk_jamaat_directory.Prelude.Tests.{ltb}
use uk_jamaat_directory.Prelude.Equality.{Eq, discrete_eq}

-- `negsuc n` is -(n + 1).
pub data ℤ : Type 0 where
  pos : ℕ → ℤ
  negsuc : ℕ → ℤ

unfoldable pub ℤ-discrete : Discrete ℤ
unfolding ℕ_discrete
ℤ-discrete = hlevel ℕ_discrete

instance abbrev pub int_eq : Eq ℤ
int_eq = discrete_eq ℤ-discrete

-- `k < 1`.
abbrev pub below_one : ℤ → Bool
below_one (pos n) = ltb n 1
below_one (negsuc n) = true
