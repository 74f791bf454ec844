-- ===== src/TransportRouter/Saving/Routes.antt =====
-- Routes on the graph and the table that TransportSystem/transport_router.cpp reads back.
use transport_system.Prelude.{
  ℕ, zero, suc, ◌≡◌, refl, ap, none, some, Option, Option-cases, List, [], ◌∷◌, ◌++◌, map, inl, inr,
  get_elem?, get_elem?-map-none, get_elem?-map-some, Result, ok, reverse, or_throw, out_of_range,
  undefined, ◌>>=◌,
}
use transport_system.Weight.{Weight}
use transport_system.Graph.{DirectedWeightedGraph, get_edge}
use transport_system.Router.{Table, cell, collect_edges, build_route}
use transport_system.TransportRouter.Proto.{save_graph, load_graph, save_router, load_router}
use transport_system.TransportRouter.Saving.{
  RowsAreUint32, TableFits, FromsFit, collapse, load_graph-save_graph, load_router-save_router,
}

module _ (W : Weight) where
  abbrev collapsed : DirectedWeightedGraph W → DirectedWeightedGraph W
  collapsed g = record { edges = map (collapse W) g.edges; incidence_lists = g.incidence_lists }

  -- The loop of `BuildRoute` reads of an edge only where it starts.
  collect_edges-collapsed :
      (g : DirectedWeightedGraph W) (t : Table W) (from fuel : ℕ) (last : Option ℕ) (edges : List ℕ)
      → collect_edges W (collapsed g) t from fuel last edges
        ≡ collect_edges W g t from fuel last edges
  unfolding collect_edges get_edge
  collect_edges-collapsed g t from fuel none edges = refl
  collect_edges-collapsed g t from zero (some id) edges = refl
  collect_edges-collapsed g t from (suc fuel) (some id) edges =
      elim (Option-cases (get_elem? g.edges id)) [
        | inl absent ↦ rw (absent, get_elem?-map-none (collapse W) g.edges id absent) refl
        | inr (e, found) ↦
            rw (found, get_elem?-map-some (collapse W) g.edges id found)
              (ap (λ next. or_throw undefined (cell W t from e.from) >>= next)
                (λ i route.
                  collect_edges-collapsed g t from fuel route.prev_edge (edges ++ id ∷ []) i))
      ]

  build_route-collapsed :
      (g : DirectedWeightedGraph W) (t : Table W) (fuel from to : ℕ)
      → build_route W (collapsed g) t fuel from to ≡ build_route W g t fuel from to
  unfolding build_route
  build_route-collapsed g t fuel from to =
      ap
        (λ (f : Option ℕ → Result (List ℕ)). or_throw out_of_range (get_elem? t from) >>= λ row.
          or_throw out_of_range (get_elem? row to) >>= λ route. elim route [
            | none ↦ ok none
            | some d ↦ f d.prev_edge >>= λ edges.
                ok (some (record { weight = d.weight; edges = reverse edges }))
          ])
        (λ i last. collect_edges-collapsed g t from fuel last [] i)

  -- BuildRoute gives the same on the graph and the table that are read back as on those that were
  -- saved, if their numbers fit 32 bits.
  pub build_route-load :
      (g : DirectedWeightedGraph W) (t : Table W) (fuel from to : ℕ)
      → FromsFit W g.edges
      → RowsAreUint32 g.incidence_lists
      → TableFits W t
      → build_route W (load_graph W (save_graph W g)) (load_router W (save_router W t)) fuel from to
        ≡ build_route W g t fuel from to
  build_route-load g t fuel from to edges rows table =
      rw (load_graph-save_graph W g edges rows, load_router-save_router W t table)
        (build_route-collapsed g t fuel from to)
