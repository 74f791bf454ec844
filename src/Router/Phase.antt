-- ===== src/Router/Phase.antt =====
-- `RelaxRoutesInternalDataThroughVertex` of TransportSystem/router.h changes the table in place,
-- while it reads the row and the column of the vertex. Neither changes during the call, so each
-- cell of the result is computed from three cells of the table as it was.
use transport_system.Prelude.{
  ℕ, zero, suc, ◌+◌, ◌≤◌, ◌<◌, ◌≡◌, refl, subst, Option, none, some, inl, inr, Bool-cases,
  Option-cases, ◌&&◌, ◌||◌, arith, ltb, ◌==◌, if◌then◌else◌,
}
use transport_system.Weight.{Weight, IsOrdered}
use transport_system.Weight.Extended.{lt_irrefl}
use transport_system.Router.{
  RouteInternalData, Table, cell, is_better, last_edge, no_edges, relax_route, relax_target,
  relax_targets, relax_source, relax_sources, relax_through,
}
use transport_system.Router.Table.{
  IsSquare, set_cell-IsSquare, cell-set_cell, cell-none_column, cell-none_row,
}

module _ (W : Weight) where
  open W use {Carrier, zero_weight, plus, lt}

  abbrev pub Cells : Type 0
  Cells = ℕ → ℕ → Option (RouteInternalData W)

  abbrev pub joined : RouteInternalData W → RouteInternalData W → RouteInternalData W
  joined f t = record { weight = plus f.weight t.weight; prev_edge = last_edge W f t }

  -- The better of a route, and two routes one after the other.
  abbrev pub improve_by :
      Option (RouteInternalData W)
      → Option (RouteInternalData W)
      → Option (RouteInternalData W)
      → Option (RouteInternalData W)
  improve_by none t current = current
  improve_by (some f) none current = current
  improve_by (some f) (some t) current =
      if is_better W (plus f.weight t.weight) current then some (joined f t) else current

  abbrev pub relaxed : ℕ → Cells → Cells
  relaxed k cells i j = improve_by (cells i k) (cells k j) (cells i j)

  relax_target-IsSquare :
      (n k a b : ℕ) (t : Table W) → a < n → IsSquare W n t → IsSquare W n (relax_target W k a b t)
  unfolding relax_target relax_route
  relax_target-IsSquare n k a b t ha s = elim (Option-cases (cell W t k b)) [
    | inl e ↦ ground arith
    | inr (r, e) ↦ elim (Option-cases (cell W t a k)) [
      | inl e' ↦ ground arith
      | inr (f, e') ↦ ground (arith, set_cell-IsSquare W n t a b (some (joined f r)) ha s)
    ]
  ]

  cell-relax_target :
      (n k a b : ℕ) (t : Table W) (i j : ℕ)
      → a < n
      → b < n
      → IsSquare W n t
      → cell W (relax_target W k a b t) i j ≡ (
          if a == i && b == j
          then improve_by (cell W t a k) (cell W t k b) (cell W t a b)
          else cell W t i j)
  unfolding relax_target relax_route
  cell-relax_target n k a b t i j ha hb s = elim (Option-cases (cell W t k b)) [
    | inl e ↦ ground arith
    | inr (r, e) ↦ elim (Option-cases (cell W t a k)) [
      | inl e' ↦ ground arith
      | inr (f, e') ↦ ground (arith, cell-set_cell W n t a b (some (joined f r)) i j ha hb s)
    ]
  ]

module _ (W : Weight) (O : IsOrdered W) (n k : ℕ) (k_lt : k < n) (t₀ : Table W)
    (s₀ : IsSquare W n t₀) (diagonal : cell W t₀ k k ≡ some (no_edges W)) where
  open W use {Carrier, zero_weight, plus, lt}

  abbrev before : Cells W
  before = cell W t₀

  abbrev after : Cells W
  after = relaxed W k before

  after_column : (i : ℕ) → after i k ≡ before i k
  after_column i = elim (Option-cases (before i k)) [
    | inl e ↦ rw e refl
    | inr (f, e) ↦ ground (arith, O.plus-zero f.weight, lt_irrefl W O f.weight)
  ]

  after_row : (j : ℕ) → after k j ≡ before k j
  after_row j = elim (Option-cases (before k j)) [
    | inl e ↦ ground arith
    | inr (f, e) ↦ ground (arith, O.zero-plus f.weight, lt_irrefl W O f.weight)
  ]

  -- The cells of the rows above `a`, and of row `a` left of `b`, are relaxed.
  record IsPartial (a b : ℕ) (t : Table W) : Type 0 where
    square : IsSquare W n t
    cells :
        (i j : ℕ) → cell W t i j ≡ (if ltb i a || i == a && ltb j b then after i j else before i j)

  relax_target-IsPartial :
      (a b : ℕ) (t : Table W)
      → a < n
      → b < n
      → IsPartial a b t
      → IsPartial a (suc b) (relax_target W k a b t)
  relax_target-IsPartial a b t ha hb p = record {
    square = relax_target-IsSquare W n k a b t ha p.square;
    cells = λ i j. ground (
      arith,
      cell-relax_target W n k a b t i j ha hb p.square,
      p.cells i j,
      p.cells a k,
      p.cells k b,
      p.cells a b,
      after_column a,
      after_row b,
    );
  }

  relax_targets-IsPartial :
      (a rounds b : ℕ) (t : Table W)
      → a < n
      → rounds + b ≡ n
      → IsPartial a b t
      → IsPartial a n (relax_targets W k a rounds b t)
  unfolding relax_targets
  relax_targets-IsPartial a zero b t ha e p =
      let done : b ≡ n = omega arith in subst (λ x. IsPartial a x t) done p
  relax_targets-IsPartial a (suc rounds) b t ha e p =
      relax_targets-IsPartial a rounds (suc b) (relax_target W k a b t) ha (omega arith)
        (relax_target-IsPartial a b t ha (omega arith) p)

  record IsRelaxedAbove (a : ℕ) (t : Table W) : Type 0 where
    square : IsSquare W n t
    cells : (i j : ℕ) → cell W t i j ≡ (if ltb i a then after i j else before i j)

  row_end : (a j : ℕ) → n ≤ j → after a j ≡ before a j
  row_end a j h = elim (Option-cases (before a k)) [
    | inl e ↦ rw e refl
    | inr (f, e) ↦ ground (arith, cell-none_column W n t₀ k j s₀ h)
  ]

  relax_source-IsRelaxedAbove :
      (a : ℕ) (t : Table W)
      → a < n
      → IsRelaxedAbove a t
      → IsRelaxedAbove (suc a) (relax_source W n k a t)
  unfolding relax_source
  relax_source-IsRelaxedAbove a t ha p = elim (Option-cases (cell W t a k)) [
    | inl e ↦
        rw (e, relax_source)
          (record { square = p.square; cells = λ i j. ground (arith, p.cells i j, p.cells a k, e) })
    | inr (f, e) ↦
        rw (e, relax_source)
          (let row =
              relax_targets-IsPartial a n 0 t ha (omega arith)
                (record { square = p.square; cells = λ i j. ground (arith, p.cells i j) }) in
            record {
              square = row.square;
              cells = λ i j. ground (arith, row.cells i j, row_end a j);
            })
  ]

  relax_sources-IsRelaxedAbove :
      (rounds a : ℕ) (t : Table W)
      → rounds + a ≡ n
      → IsRelaxedAbove a t
      → IsRelaxedAbove n (relax_sources W n k rounds a t)
  unfolding relax_sources
  relax_sources-IsRelaxedAbove zero a t e p =
      let done : a ≡ n = omega arith in subst (λ x. IsRelaxedAbove x t) done p
  relax_sources-IsRelaxedAbove (suc rounds) a t e p =
      relax_sources-IsRelaxedAbove rounds (suc a) (relax_source W n k a t) (omega arith)
        (relax_source-IsRelaxedAbove a t (omega arith) p)

  all_relaxed : IsRelaxedAbove n (relax_through W n k t₀)
  unfolding relax_through
  all_relaxed =
      relax_sources-IsRelaxedAbove n 0 t₀ (omega arith)
        (record { square = s₀; cells = λ i j. ground arith })

  pub relax_through-IsSquare : IsSquare W n (relax_through W n k t₀)
  relax_through-IsSquare = all_relaxed.square

  -- In place or not, the call computes each cell from the table as it was.
  pub cell-relax_through :
      (i j : ℕ) → cell W (relax_through W n k t₀) i j ≡ relaxed W k (cell W t₀) i j
  cell-relax_through i j = elim (Bool-cases (ltb i n)) [
    | inl inside ↦ ground (arith, all_relaxed.cells i j)
    | inr outside ↦ ground (arith, all_relaxed.cells i j, cell-none_row W n t₀ i k s₀)
  ]
