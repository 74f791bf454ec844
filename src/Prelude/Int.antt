-- ===== src/Prelude/Int.antt =====
-- `int`: `negsuc n` is -(n + 1).
use Prim.Native.Nat.{ℕ, suc, ◌<◌}

pub data ℤ : Type 0 where
  pos : ℕ → ℤ
  negsuc : ℕ → ℤ

-- `std::abs`
abbrev pub abs : ℤ → ℕ
abs (pos n) = n
abs (negsuc n) = suc n

-- An `int` of 32 bits
abbrev pub IsInt : ℤ → Type 0
IsInt (pos n) = n < 2147483648
IsInt (negsuc n) = n < 2147483648
