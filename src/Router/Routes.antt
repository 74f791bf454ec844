-- ===== src/Router/Routes.antt =====
-- `BuildRoute` of TransportSystem/router.h on the table that the constructor makes.
use mathlib.Core.List.{reverse-cons}
use transport_system.Prelude.{
  ℕ, zero, suc, ◌≤◌, ◌<◌, ◌≡◌, refl, subst, ap, ◌∙◌, none, some, List, [], ◌∷◌, ◌++◌, inl, inr,
  Option-cases, arith, reverse, append_assoc, append-nil, get_elem?, get_or, get_elem?_of_lt, ok,
  ◌>>=◌,
}
use transport_system.Weight.{Weight, IsOrdered}
use transport_system.Weight.Extended.{
  add, AtMost, AtMost-refl, AtMost-trans, add_left_mono, add_right_mono,
}
use transport_system.Graph.{Edge, DirectedWeightedGraph, get_vertex_count}
use transport_system.Graph.WellFormed.{IsWellFormed, get_edge_found}
use transport_system.Router.{
  RouteInternalData, RouteInfo, Table, cell, no_edges, collect_edges, build_route,
}
use transport_system.Router.Table.{IsSquare}
use transport_system.Router.Walks.{Walk, here, step, dist}
use transport_system.Router.Invariant.{IsLast, Inv}

module _ (W : Weight) (O : IsOrdered W) (g : DirectedWeightedGraph W) (wf : IsWellFormed W g) where
  open W use {Carrier, zero_weight, plus, lt}

  abbrev n : ℕ
  n = get_vertex_count W g

  module _ (bound : ℕ) (t : Table W) (square : IsSquare W n t) (rank : ℕ → ℕ → ℕ)
      (inv : Inv W O g wf n bound (cell W t) rank) where
    -- No walk is lighter than the table says.
    pub dist-AtMost :
        (i : ℕ) {ids : List ℕ} {j : ℕ} {x : Carrier}
        → i < n
        → Walk W g i ids j x
        → AtMost W (dist W t i j) (some x)
    dist-AtMost i h here = rw (inv.diagonal i h) (AtMost-refl W O (some zero_weight))
    dist-AtMost i h (step {u = u} {x = x} walk id e found from) =
        let edge : AtMost W (dist W t u e.to) (some e.weight) =
          subst (λ v. AtMost W (dist W t v e.to) (some e.weight)) from (inv.edges id e found) in
        let u_lt : u < n = subst (λ v. v < n) from (wf.from_in_range id e found) in
        AtMost-trans W O (dist W t i e.to) (add W (dist W t i u) (dist W t u e.to))
          (some (plus x e.weight)) (inv.closed u i e.to u_lt)
          (AtMost-trans W O (add W (dist W t i u) (dist W t u e.to))
            (add W (some x) (dist W t u e.to)) (some (plus x e.weight))
            (add_right_mono W O (dist W t i u) (some x) (dist W t u e.to) (dist-AtMost i h walk))
            (add_left_mono W O (some x) (dist W t u e.to) (some e.weight) edge))

    -- The route before the last edge is in the table, and its weight and the edge's add up.
    before_last :
        (i j id : ℕ) (d : RouteInternalData W) (l : IsLast W O g wf n (cell W t) rank i j id)
        → cell W t i j ≡ some d
        → (p : RouteInternalData W) × (cell W t i l.edge.from ≡ some p)
          × (plus p.weight l.edge.weight ≡ d.weight)
    before_last i j id d l e = elim (Option-cases (cell W t i u)) [
      | inl absent ↦ absurd (ground (arith, l.weight))
      | inr (p, present) ↦
          let upper : AtMost W (add W (some p.weight) (some l.edge.weight)) (some d.weight) =
            rw (present, e) at l.weight in
          let lower : AtMost W (dist W t i j) (add W (dist W t i u) (some l.edge.weight)) =
            AtMost-trans W O (dist W t i j) (add W (dist W t i u) (dist W t u j))
              (add W (dist W t i u) (some l.edge.weight))
              (inv.closed u i j (wf.from_in_range id l.edge l.found))
              (add_left_mono W O (dist W t i u) (dist W t u j) (some l.edge.weight) (
                subst (λ v. AtMost W (dist W t u v) (some l.edge.weight)) l.ends
                  (inv.edges id l.edge l.found))) in
          (
            p,
            present,
            O.le_antisym (plus p.weight l.edge.weight) d.weight upper (rw (present, e) at lower),
          )
    ]
      where
        u : ℕ
        u = l.edge.from

    -- The loop adds the edges of a walk, last edge first.
    abbrev Collects : ℕ → ℕ → ℕ → RouteInternalData W → List ℕ → Type 0
    Collects i j fuel d acc =
        (ids : List ℕ) × (collect_edges W g t i fuel d.prev_edge acc ≡ ok (acc ++ ids))
        × Walk W g i (reverse ids) j d.weight

    collect_nothing :
        (fuel i j : ℕ) (d : RouteInternalData W) (acc : List ℕ)
        → i < n
        → cell W t i j ≡ some d
        → d.prev_edge ≡ none
        → Collects i j fuel d acc
    unfolding collect_edges
    collect_nothing fuel i j d acc h e ended =
        let same : i ≡ j = inv.no_last i j d e ended in
        let start : d ≡ no_edges W = cc (e, inv.diagonal i h, same) in
        ([], rw (ended, append-nil) (ground arith), rw (start, ← same) here)

    collect_edge :
        (fuel i j id : ℕ) (d p : RouteInternalData W) (e : Edge W) (acc : List ℕ)
        → d.prev_edge ≡ some id
        → get_elem? g.edges id ≡ some e
        → cell W t i e.from ≡ some p
        → collect_edges W g t i (suc fuel) d.prev_edge acc
          ≡ collect_edges W g t i fuel p.prev_edge (acc ++ id ∷ [])
    unfolding collect_edges
    collect_edge fuel i j id d p e acc last found present =
        rw (last, get_edge_found W g id e found, present) refl

    collect_edges-Walk :
        (fuel i j : ℕ) (d : RouteInternalData W) (acc : List ℕ)
        → i < n
        → cell W t i j ≡ some d
        → rank i j ≤ fuel
        → Collects i j fuel d acc
    collect_edges-Walk zero i j d acc h e enough = elim (Option-cases d.prev_edge) [
      | inl ended ↦ collect_nothing zero i j d acc h e ended
      | inr (id, last) ↦ absurd (omega (arith, (inv.last i j id d e last).falls))
    ]
    collect_edges-Walk (suc fuel) i j d acc h e enough = elim (Option-cases d.prev_edge) [
      | inl ended ↦ collect_nothing (suc fuel) i j d acc h e ended
      | inr (id, last) ↦
          let l = inv.last i j id d e last in
          let (p, present, sum) = before_last i j id d l e in
          let (ids, rest, walk) =
            collect_edges-Walk fuel i l.edge.from p (acc ++ id ∷ []) h present
              (omega (arith, l.falls)) in
          let whole : Walk W g i (reverse ids ++ id ∷ []) l.edge.to (plus p.weight l.edge.weight) =
            step walk id l.edge l.found refl in
          (
            id ∷ ids,
            collect_edge fuel i j id d p l.edge acc last l.found present
                ∙ rest
                ∙ ap ok (append_assoc acc (id ∷ []) ids),
            rw (reverse-cons id ids, ← sum, ← l.ends) whole,
          )
    ]

    -- `at` finds each cell of the table.
    pub build_route-cell :
        (fuel i j : ℕ)
        → i < n
        → j < n
        → build_route W g t fuel i j ≡ elim (cell W t i j) [
          | none ↦ ok none
          | some d ↦ collect_edges W g t i fuel d.prev_edge [] >>= λ edges.
              ok (some (record { weight = d.weight; edges = reverse edges }))
        ]
    unfolding build_route
    build_route-cell fuel i j hi hj =
        rw
          (
            get_elem?_of_lt t i [] (rw square.rows hi),
            get_elem?_of_lt (get_or t i []) j none (rw (square.columns i hi) hj),
          )
          refl

    pub build_route_found :
        (fuel i j : ℕ) (d : RouteInternalData W)
        → i < n
        → j < n
        → bound ≤ fuel
        → cell W t i j ≡ some d
        → (r : RouteInfo W) × (build_route W g t fuel i j ≡ ok (some r))
          × (r.weight ≡ d.weight)
          × Walk W g i r.edges j r.weight
    build_route_found fuel i j d hi hj enough e =
        let (ids, run, walk) =
          collect_edges-Walk fuel i j d [] hi e (omega (arith, inv.bounded i j)) in
        (
          record { weight = d.weight; edges = reverse ids },
          build_route-cell fuel i j hi hj ∙ rw (e, run) refl,
          refl,
          walk,
        )
