-- ===== src/Weight/Extended.antt =====
-- Weights with a value above all others, `none`: the weight of a route that does not exist.
use transport_system.Prelude.{
  Bool, true, false, ◌≡◌, refl, Option, none, some, inl, inr, Bool-cases,
}
use transport_system.Weight.{Weight, Le, IsOrdered}

module _ (W : Weight) where
  open W use {Carrier, zero_weight, plus, lt}

  abbrev pub add : Option Carrier → Option Carrier → Option Carrier
  add none b = none
  add (some a) none = none
  add (some a) (some b) = some (plus a b)

  -- `candidate < current`, where `current` may be absent.
  abbrev pub improves : Option Carrier → Option Carrier → Bool
  improves none b = false
  improves (some a) none = true
  improves (some a) (some b) = lt a b

  abbrev pub AtMost : Option Carrier → Option Carrier → Type 0
  AtMost a b = improves b a ≡ false

module _ (W : Weight) (O : IsOrdered W) where
  open W use {Carrier, zero_weight, plus, lt}
  open O use {
    lt_asym, le_trans, le_antisym, plus_assoc, zero-plus, plus-zero, plus_mono, plus_lt_mono,
  }

  pub lt_irrefl : (a : Carrier) → Le W a a
  lt_irrefl a = elim (Bool-cases (lt a a)) [ inl h ↦ lt_asym a a h | inr h ↦ h ]

  pub AtMost-refl : (a : Option Carrier) → AtMost W a a
  AtMost-refl none = refl
  AtMost-refl (some a) = lt_irrefl a

  pub AtMost-trans : (a b c : Option Carrier) → AtMost W a b → AtMost W b c → AtMost W a c
  AtMost-trans none none c h k = k
  AtMost-trans none (some b) none h k = refl
  AtMost-trans none (some b) (some c) h k = cc
  AtMost-trans (some a) none none h k = refl
  AtMost-trans (some a) none (some c) h k = cc
  AtMost-trans (some a) (some b) none h k = refl
  AtMost-trans (some a) (some b) (some c) h k = le_trans a b c h k

  pub AtMost-antisym : (a b : Option Carrier) → AtMost W a b → AtMost W b a → a ≡ b
  AtMost-antisym none none h k = refl
  AtMost-antisym none (some b) h k = cc
  AtMost-antisym (some a) none h k = cc
  AtMost-antisym (some a) (some b) h k = cc (le_antisym a b h k)

  pub improves→AtMost : (a b : Option Carrier) → improves W a b ≡ true → AtMost W a b
  improves→AtMost none b h = cc
  improves→AtMost (some a) none h = refl
  improves→AtMost (some a) (some b) h = lt_asym a b h

  -- A strict step after a weak one.
  pub improves_of_AtMost :
      (a b c : Option Carrier) → AtMost W a b → improves W b c ≡ true → improves W a c ≡ true
  improves_of_AtMost a b c h k = elim (Bool-cases (improves W a c)) [
    | inl e ↦ e
    | inr e ↦ cc (AtMost-trans c a b e h)
  ]

  pub improves_then_AtMost :
      (a b c : Option Carrier) → improves W a b ≡ true → AtMost W b c → improves W a c ≡ true
  improves_then_AtMost a b c h k = elim (Bool-cases (improves W a c)) [
    | inl e ↦ e
    | inr e ↦ cc (AtMost-trans b c a k e)
  ]

  pub add_assoc : (a b c : Option Carrier) → add W (add W a b) c ≡ add W a (add W b c)
  add_assoc none b c = refl
  add_assoc (some a) none c = refl
  add_assoc (some a) (some b) none = refl
  add_assoc (some a) (some b) (some c) = cc (plus_assoc a b c)

  pub zero-add : (a : Option Carrier) → add W (some zero_weight) a ≡ a
  zero-add none = refl
  zero-add (some a) = cc (zero-plus a)

  pub add-zero : (a : Option Carrier) → add W a (some zero_weight) ≡ a
  add-zero none = refl
  add-zero (some a) = cc (plus-zero a)

  pub AtMost-none : (a : Option Carrier) → AtMost W a none
  AtMost-none a = refl

  pub add_mono :
      (a b c d : Option Carrier) → AtMost W a b → AtMost W c d → AtMost W (add W a c) (add W b d)
  add_mono a none c d h k = refl
  add_mono a (some b) c none h k = refl
  add_mono none (some b) c (some d) h k = cc
  add_mono (some a) (some b) none (some d) h k = cc
  add_mono (some a) (some b) (some c) (some d) h k = plus_mono a b c d h k

  pub add_left_mono : (a c d : Option Carrier) → AtMost W c d → AtMost W (add W a c) (add W a d)
  add_left_mono a c d = add_mono a a c d (AtMost-refl a)

  pub add_right_mono : (a b c : Option Carrier) → AtMost W a b → AtMost W (add W a c) (add W b c)
  add_right_mono a b c h = add_mono a b c c h (AtMost-refl c)

  pub add_improves :
      (a b : Option Carrier) (c : Carrier)
      → improves W a b ≡ true
      → improves W (add W a (some c)) (add W b (some c)) ≡ true
  add_improves none b c h = cc
  add_improves (some a) none c h = refl
  add_improves (some a) (some b) c h = plus_lt_mono a b c h

  -- Adding something that is not negative does not lower a weight.
  pub add_nonneg : (a b : Option Carrier) → AtMost W (some zero_weight) b → AtMost W a (add W a b)
  add_nonneg a b h = rw (add-zero a) at (add_left_mono a (some zero_weight) b h)

  pub nonneg_add : (a b : Option Carrier) → AtMost W (some zero_weight) b → AtMost W a (add W b a)
  nonneg_add a b h = rw (zero-add a) at (add_right_mono (some zero_weight) b a h)
