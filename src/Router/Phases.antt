-- ===== src/Router/Phases.antt =====
-- The invariant of the routes and all phases of the constructor of TransportSystem/router.h.
use transport_system.Prelude.{
  ℕ, zero, suc, ◌+◌, ◌<◌, ◌≡◌, refl, subst, Option, none, some, List, [], ◌∷◌, inl, inr,
  Option-cases, arith, ok, >>=-eq-ok,
}
use transport_system.Weight.{Weight, IsOrdered}
use transport_system.Weight.Extended.{AtMost, lt_irrefl}
use transport_system.Graph.{DirectedWeightedGraph, get_vertex_count}
use transport_system.Graph.WellFormed.{IsWellFormed}
use transport_system.Router.{
  RouteInternalData, Table, cell, no_edges, blank_table, initialize_from, relax_through, relax_all,
  make_router,
}
use transport_system.Router.Table.{IsSquare, blank_table-IsSquare, cell-blank_table}
use transport_system.Router.Walks.{Walk, here, step}
use transport_system.Router.Initial.{empty, single, IsInitialBelow, initialize_from_lem}
use transport_system.Router.Phase.{Cells, relaxed, relax_through-IsSquare, cell-relax_through}
use transport_system.Router.Detour.{weights}
use transport_system.Router.Invariant.{IsLast, Inv}
use transport_system.Router.Preservation.{relaxed-Inv, rank'}

-- `b` doubled `r` times: the bound on the length of a route after `r` phases.
unfoldable pub doubled : ℕ → ℕ → ℕ
doubled zero b = b
doubled (suc r) b = doubled r (b + b)

module _ (W : Weight) (O : IsOrdered W) (g : DirectedWeightedGraph W) (wf : IsWellFormed W g) where
  open W use {Carrier, zero_weight, plus, lt}

  abbrev n : ℕ
  n = get_vertex_count W g

  abbrev edge_count_of : Option (RouteInternalData W) → ℕ
  edge_count_of none = 0
  edge_count_of (some d) = elim d.prev_edge [ none ↦ 0 | some _ ↦ 1 ]

  module _ (t : Table W) (p : IsInitialBelow W O g wf n t) where
    abbrev c : Cells W
    c = cell W t

    abbrev first_rank : ℕ → ℕ → ℕ
    first_rank i j = edge_count_of (c i j)

    initial-nonneg : (i j : ℕ) → AtMost W (some zero_weight) (weights W c i j)
    initial-nonneg i j = elim (Option-cases (c i j)) [
      | inl e ↦ rw e refl
      | inr (d, e) ↦ rw e (elim (p.origins i j d e) [
        | empty _ q ↦ rw q (lt_irrefl W O zero_weight)
        | single id x found from to nonneg q ↦ rw q nonneg
      ])
    ]

    initial-walks :
        (i j : ℕ) (d : RouteInternalData W)
        → c i j ≡ some d
        → (ids : List ℕ) × Walk W g i ids j d.weight
    initial-walks i j d e = elim (p.origins i j d e) [
      | empty same q ↦ ([], rw (q, ← same) here)
      | single id x found from to nonneg q ↦
          let whole : Walk W g i (id ∷ []) x.to (plus zero_weight x.weight) =
            step here id x found from in
          (id ∷ [], rw (q, ← to, ← O.zero-plus x.weight) whole)
    ]

    initial-no_last :
        (i j : ℕ) (d : RouteInternalData W) → c i j ≡ some d → d.prev_edge ≡ none → i ≡ j
    initial-no_last i j d e none_last = elim (p.origins i j d e) [
      | empty same q ↦ same
      | single id x found from to nonneg q ↦ cc
    ]

    initial-IsLast :
        (i j id : ℕ) (d : RouteInternalData W)
        → c i j ≡ some d
        → d.prev_edge ≡ some id
        → IsLast W O g wf 0 c first_rank i j id
    initial-IsLast i j id d e some_last = elim (p.origins i j d e) [
      | empty same q ↦ cc
      | single id' x found from to nonneg q ↦
          let same : id' ≡ id = cc in
          let i_lt : i < n = subst (λ v. v < n) from (wf.from_in_range id' x found) in
          let diagonal : c i i ≡ some (no_edges W) = (p.entered i i_lt).diagonal in
          record {
            edge = x;
            found = cc;
            ends = to;
            weight = rw (e, q, from, diagonal, O.zero-plus x.weight) (lt_irrefl W O x.weight);
            interior = inl from;
            falls = rw (from, diagonal, e, q) (omega arith);
          }
    ]

    initial-bounded : (i j : ℕ) → first_rank i j < 2
    initial-bounded i j = ground arith

    initial-Inv : Inv W O g wf 0 2 c first_rank
    initial-Inv = record {
      diagonal = λ v h. (p.entered v h).diagonal;
      nonneg = initial-nonneg;
      walks = initial-walks;
      edges = λ id e found. (p.entered e.from (wf.from_in_range id e found)).covers id e found refl;
      closed = λ m i j h. elim h [ ];
      no_last = initial-no_last;
      last = initial-IsLast;
      bounded = initial-bounded;
    }

  -- The invariant of a table, with some ranks.
  abbrev pub IsRouted : ℕ → ℕ → Table W → Type 0
  IsRouted k bound t = IsSquare W n t × (rank : ℕ → ℕ → ℕ) × Inv W O g wf k bound (cell W t) rank

  relax_through-IsRouted :
      (k bound : ℕ) (t : Table W)
      → k < n
      → IsRouted k bound t
      → IsRouted (suc k) (bound + bound) (relax_through W n k t)
  relax_through-IsRouted k bound t h (square, rank, inv) =
      let cells : cell W (relax_through W n k t) ≡ relaxed W k (cell W t) =
        λ z i j. cell-relax_through W O n k h t square (inv.diagonal k h) i j z in
      (
        relax_through-IsSquare W O n k h t square (inv.diagonal k h),
        rank' W O g wf k bound (cell W t) rank inv h,
        rw cells (relaxed-Inv W O g wf k bound (cell W t) rank inv h),
      )

  relax_all-IsRouted :
      (rounds k bound : ℕ) (t : Table W)
      → rounds + k ≡ n
      → IsRouted k bound t
      → IsRouted n (doubled rounds bound) (relax_all W n rounds k t)
  unfolding relax_all doubled
  relax_all-IsRouted zero k bound t e h =
      let done : k ≡ n = omega arith in subst (λ x. IsRouted x bound t) done h
  relax_all-IsRouted (suc rounds) k bound t e h =
      relax_all-IsRouted rounds (suc k) (bound + bound) (relax_through W n k t) (omega arith)
        (relax_through-IsRouted k bound t (omega arith) h)

  pub make_router-IsRouted : (t : Table W) → make_router W g ≡ ok t → IsRouted n (doubled n 2) t
  unfolding make_router
  make_router-IsRouted t h =
      let (t₀, initial, rest) =
        >>=-eq-ok (initialize_from W g n 0 (blank_table W n)) (λ u. ok (relax_all W n n 0 u)) h in
      let p =
        initialize_from_lem W O g wf n 0 (blank_table W n) t₀ (omega arith)
          (record {
            square = blank_table-IsSquare W n;
            origins = λ i j d q. cc (cell-blank_table W n i j, q);
            entered = λ i lt. elim lt [ ];
          })
          initial in
      let out : relax_all W n n 0 t₀ ≡ t = ground arith in
      subst (IsRouted n (doubled n 2)) out
        (relax_all-IsRouted n 0 2 t₀ (omega arith) (p.square, first_rank t₀ p, initial-Inv t₀ p))
