-- ===== src/Real.antt =====
-- `double`: a type with the operations that the sources use. Nothing is assumed of them here.
use transport_system.Prelude.{Bool, ℕ, ℤ, pos}

pub record Real : Type 1 where
  pub Carrier : Type 0
  -- A literal, or a conversion from an integer
  pub of_int : ℤ → Carrier
  pub add : Carrier → Carrier → Carrier
  pub sub : Carrier → Carrier → Carrier
  pub mul : Carrier → Carrier → Carrier
  pub div : Carrier → Carrier → Carrier
  pub eq : Carrier → Carrier → Bool
  pub lt : Carrier → Carrier → Bool
  -- `std::abs(value) < EPSILON`
  pub is_zero : Carrier → Bool

abbrev pub of_nat : (R : Real) → ℕ → R.Carrier
of_nat R n = R.of_int (pos n)
