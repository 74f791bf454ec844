-- ===== src/Weight.antt =====
-- The template parameter `Weight` of TransportSystem/graph.h and TransportSystem/router.h: a type
-- with `Weight{}`, `+` and `<`. The program instantiates it with `double`.
pub mod Extended
use transport_system.Prelude.{Bool, true, false, ◌≡◌}

pub record Weight : Type 1 where
  pub Carrier : Type 0
  pub zero_weight : Carrier
  pub plus : Carrier → Carrier → Carrier
  pub lt : Carrier → Carrier → Bool

-- `!(b < a)`
abbrev pub Le : (W : Weight) → W.Carrier → W.Carrier → Type 0
Le W a b = W.lt b a ≡ false

-- What shortest paths need of the arithmetic: an ordered monoid. Sums of doubles obey it as far as
-- they are exact.
pub record IsOrdered (W : Weight) : Type 0 where
  pub lt_asym : (a b : W.Carrier) → W.lt a b ≡ true → W.lt b a ≡ false
  pub le_trans : (a b c : W.Carrier) → Le W a b → Le W b c → Le W a c
  pub le_antisym : (a b : W.Carrier) → Le W a b → Le W b a → a ≡ b
  pub plus_assoc : (a b c : W.Carrier) → W.plus (W.plus a b) c ≡ W.plus a (W.plus b c)
  pub zero-plus : (a : W.Carrier) → W.plus W.zero_weight a ≡ a
  pub plus-zero : (a : W.Carrier) → W.plus a W.zero_weight ≡ a
  pub plus_mono : (a b c d : W.Carrier) → Le W a b → Le W c d → Le W (W.plus a c) (W.plus b d)
  pub plus_lt_mono : (a b c : W.Carrier) → W.lt a b ≡ true → W.lt (W.plus a c) (W.plus b c) ≡ true
