-- ===== src/Router/Detour.antt =====
-- One cell of a phase: the route through a vertex against the route so far.
use transport_system.Prelude.{
  ℕ, ◌≡◌, refl, Bool, true, false, Option, some, inl, inr, Bool-cases, Option-cases, arith,
  if◌then◌else◌,
}
use transport_system.Weight.{Weight}
use transport_system.Weight.Extended.{add, improves}
use transport_system.Router.{RouteInternalData}
use transport_system.Router.Walks.{weight_of, is_better-improves}
use transport_system.Router.Phase.{Cells, joined, relaxed}

module _ (W : Weight) where
  open W use {Carrier, zero_weight, plus, lt}

  abbrev pub weights : Cells W → ℕ → ℕ → Option Carrier
  weights c i j = weight_of W (c i j)

  -- The weight of the route through `k`.
  abbrev pub detour : ℕ → Cells W → ℕ → ℕ → Option Carrier
  detour k c i j = add W (weights c i k) (weights c k j)

  abbrev pub shortens : ℕ → Cells W → ℕ → ℕ → Bool
  shortens k c i j = improves W (detour k c i j) (weights c i j)

  pub record IsShortened (k : ℕ) (c : Cells W) (i j : ℕ) : Type 0 where
    pub first : RouteInternalData W
    pub second : RouteInternalData W
    pub to_k : c i k ≡ some first
    pub from_k : c k j ≡ some second
    pub result : relaxed W k c i j ≡ some (joined W first second)

  pub relaxed-shorter :
      (k : ℕ) (c : Cells W) (i j : ℕ) → shortens k c i j ≡ true → IsShortened k c i j
  relaxed-shorter k c i j h = elim (Option-cases (c i k)) [
    | inl e ↦ absurd (ground arith)
    | inr (f, e) ↦ elim (Option-cases (c k j)) [
      | inl e' ↦ absurd (ground arith)
      | inr (r, e') ↦ record {
        first = f;
        second = r;
        to_k = e;
        from_k = e';
        result = ground (arith, is_better-improves W (plus f.weight r.weight) (c i j));
      }
    ]
  ]

  pub relaxed-kept :
      (k : ℕ) (c : Cells W) (i j : ℕ) → shortens k c i j ≡ false → relaxed W k c i j ≡ c i j
  relaxed-kept k c i j h = elim (Option-cases (c i k)) [
    | inl e ↦ rw e refl
    | inr (f, e) ↦ elim (Option-cases (c k j)) [
      | inl e' ↦ ground arith
      | inr (r, e') ↦ ground (arith, is_better-improves W (plus f.weight r.weight) (c i j))
    ]
  ]

  pub weights-relaxed :
      (k : ℕ) (c : Cells W) (i j : ℕ)
      → weights (relaxed W k c) i j ≡ (if shortens k c i j then detour k c i j else weights c i j)
  weights-relaxed k c i j = elim (Bool-cases (shortens k c i j)) [
    | inl h ↦ let s = relaxed-shorter k c i j h in rw (h, s.result, s.to_k, s.from_k) refl
    | inr h ↦ rw (h, relaxed-kept k c i j h) refl
  ]
