-- ===== src/Router/Shortest.antt =====
-- The class `Router` of TransportSystem/router.h from outside: `BuildRoute` on what the
-- constructor made.
use transport_system.Prelude.{
  ℕ, ◌≤◌, ◌<◌, ◌≡◌, ◌∙◌, refl, none, some, List, ◌⊎◌, inl, inr, Option-cases, ok,
}
use transport_system.Weight.{Weight, Le, IsOrdered}
use transport_system.Graph.{DirectedWeightedGraph, get_vertex_count}
use transport_system.Graph.WellFormed.{IsWellFormed}
use transport_system.Router.{RouteInfo, Table, cell, make_router, build_route}
use transport_system.Router.Walks.{Walk}
use transport_system.Router.Phases.{doubled, make_router-IsRouted}
use transport_system.Router.Routes.{dist-AtMost, build_route-cell, build_route_found}

-- Rounds of the loop of `BuildRoute` that are enough in a graph of `n` vertices.
unfoldable pub route_fuel : ℕ → ℕ
unfolding doubled
route_fuel n = doubled n 2

module _ (W : Weight) (O : IsOrdered W) (g : DirectedWeightedGraph W) (wf : IsWellFormed W g)
    (t : Table W) (made : make_router W g ≡ ok t) (fuel : ℕ)
    (enough : route_fuel (get_vertex_count W g) ≤ fuel) (from to : ℕ)
    (from_lt : from < get_vertex_count W g) (to_lt : to < get_vertex_count W g) where
  -- Between two vertices of a well-formed graph BuildRoute ends without an exception: it returns
  -- a route whose edges are a walk from the one to the other with the weight that it states, or
  -- nothing, and then there is no walk.
  pub build_route_decides :
      ((r : RouteInfo W) × (build_route W g t fuel from to ≡ ok (some r))
        × Walk W g from r.edges to r.weight)
      ⊎ (build_route W g t fuel from to ≡ ok none)
        × ¬ ((ids : List ℕ) × (x : W.Carrier) × Walk W g from ids to x)
  unfolding route_fuel
  build_route_decides =
      let (square, rank, inv) = make_router-IsRouted W O g wf t made in
      elim (Option-cases (cell W t from to)) [
        | inl absent ↦ inr (
          build_route-cell W O g wf _ t square rank inv fuel from to from_lt to_lt ∙ rw absent refl,
          λ (ids, x, walk). cc (dist-AtMost W O g wf _ t square rank inv from from_lt walk, absent),
        )
        | inr (d, present) ↦
            let (r, run, _, walk) =
              build_route_found W O g wf _ t square rank inv fuel from to d from_lt to_lt enough
                present in
            inl (r, run, walk)
      ]

  -- If any walk leads from the one vertex to the other, BuildRoute returns a route along a walk,
  -- and its weight is at most the weight of the given walk: the route is a shortest one.
  pub build_route_shortest :
      {ids : List ℕ} {x : W.Carrier}
      → Walk W g from ids to x
      → (r : RouteInfo W) × (build_route W g t fuel from to ≡ ok (some r))
        × Walk W g from r.edges to r.weight
        × Le W r.weight x
  unfolding route_fuel
  build_route_shortest {x = x} walk =
      let (square, rank, inv) = make_router-IsRouted W O g wf t made in
      let at_most = dist-AtMost W O g wf _ t square rank inv from from_lt walk in
      elim (Option-cases (cell W t from to)) [
        | inl absent ↦ cc (at_most, absent)
        | inr (d, present) ↦
            let (r, run, same, route) =
              build_route_found W O g wf _ t square rank inv fuel from to d from_lt to_lt enough
                present in
            (r, run, route, rw (← same) at (rw present at at_most))
      ]
