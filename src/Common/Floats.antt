-- ===== src/Common/Floats.antt =====
-- `double` and `float`: a value is its bit pattern, and the operations of the floating-point unit,
-- of <cmath> and of the output streams are parameters.
use Prim.Native.Nat.{ℕ}
use mathlib.Core.Bool.{Bool}
use poorguy_mem.Common.Texts.{Text}

pub record Double : Type 0 where
  pub bits : ℕ

pub record Fpu : Type 0 where
  pub add : Double → Double → Double
  pub sub : Double → Double → Double
  pub mul : Double → Double → Double
  pub div : Double → Double → Double
  pub lt : Double → Double → Bool
  pub le : Double → Double → Bool
  pub eq : Double → Double → Bool
  -- static_cast<double> of an integer
  pub of_ℕ : ℕ → Double
  -- the literal m / 10^k
  pub literal : ℕ → ℕ → Double
  pub neg : Double → Double
  pub log : Double → Double
  pub log1p : Double → Double
  pub sqrt : Double → Double
  -- static_cast<uint64_t>(std::ceil(x))
  pub ceil : Double → ℕ
  -- std::numeric_limits::epsilon()
  pub epsilon : Double
  -- what `std::ostream` writes
  pub print : Double → Text
