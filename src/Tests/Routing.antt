-- ===== src/Tests/Routing.antt =====
-- Graphs and routes (TransportSystem/graph.h, TransportSystem/router.h) with natural weights.
use transport_system.Prelude.{
  ℕ, ◌+◌, ◌<◌, ◌≡◌, refl, Option, none, some, List, [], ◌∷◌, ◌⊎◌, arith, ltb, ok, throw,
  domain_error, out_of_range,
}
use transport_system.Weight.{Weight, Le, IsOrdered}
use transport_system.Graph.{
  Edge, DirectedWeightedGraph, get_vertex_count, get_edge_count, get_edge, get_incident_edges,
  add_edge, with_vertex_count,
}
use transport_system.Graph.WellFormed.{IsWellFormed}
use transport_system.Graph.Building.{
  with_vertex_count-IsWellFormed, add_edge-IsWellFormed, add_edge_out_of_range,
}
use transport_system.Router.{
  RouteInfo, RouteInternalData, Table, make_router, build_route, initialize_from, initialize_vertex,
  initialize_edges, initialize_edge, set_cell, blank_table, collect_edges, relax_all, relax_through,
  relax_sources, relax_source, relax_targets, relax_target, relax_route,
}
use transport_system.Router.Walks.{Walk, here, step}
use transport_system.Router.Negative.{IsNonnegative, HasNegative, make_router_decides}
use transport_system.Router.Shortest.{route_fuel, build_route_decides, build_route_shortest}

abbrev natural : Weight
natural = record { Carrier = ℕ; zero_weight = 0; plus = ◌+◌; lt = ltb }

natural-IsOrdered : IsOrdered natural
natural-IsOrdered = record {
  lt_asym = λ a b h. ground arith;
  le_trans = λ a b c h k. ground arith;
  le_antisym = λ a b h k. ground arith;
  plus_assoc = λ a b c. omega arith;
  zero-plus = λ a. omega arith;
  plus-zero = λ a. omega arith;
  plus_mono = λ a b c d h k. ground arith;
  plus_lt_mono = λ a b c h. ground arith;
}

-- 0 → 1 by an edge of 5, 0 → 2 by 1, 2 → 1 by 2, and a loop at 1
abbrev edge : ℕ → ℕ → ℕ → Edge natural
edge u v x = record { from = u; to = v; weight = x }

abbrev sample : DirectedWeightedGraph natural
sample = record {
  edges = edge 0 1 5 ∷ edge 0 2 1 ∷ edge 2 1 2 ∷ edge 1 1 0 ∷ [];
  incidence_lists = (0 ∷ 1 ∷ []) ∷ (3 ∷ []) ∷ (2 ∷ []) ∷ [];
}

sample_edges_built :
    (add_edge natural
      (edge 1 1 0)
      (add_edge natural
        (edge 2 1 2)
        (add_edge natural
          (edge 0 2 1)
          (add_edge natural (edge 0 1 5) (with_vertex_count natural 3)).0).0).0).0
    ≡ sample
unfolding add_edge with_vertex_count
sample_edges_built = refl

abbrev IsGrown : DirectedWeightedGraph natural → Type 0
IsGrown g = IsWellFormed natural g × (get_vertex_count natural g ≡ 3)

grow :
    (u v x : ℕ) (g : DirectedWeightedGraph natural)
    → u < 3
    → v < 3
    → IsGrown g
    → IsGrown (add_edge natural (edge u v x) g).0
grow u v x g hu hv (wf, count) =
    let (wf', count', _, _, _) =
      add_edge-IsWellFormed natural (edge u v x) g wf (omega arith) (omega arith) in
    (wf', cc (count, count'))

sample-IsWellFormed : IsWellFormed natural sample
sample-IsWellFormed =
    let (count, wf) = with_vertex_count-IsWellFormed natural 3 in
    let (wf', _) = grow 1 1 0 _ (omega arith) (omega arith) (
      grow 2 1 2 _ (omega arith) (omega arith) (
        grow 0 2 1 _ (omega arith) (omega arith)
          (grow 0 1 5 _ (omega arith) (omega arith) (wf, count)))) in
    rw (← sample_edges_built) wf'

abbrev route : ℕ → Option ℕ → Option (RouteInternalData natural)
route x e = some (record { weight = x; prev_edge = e })

abbrev table : Table natural
table =
    (route 0 none ∷ route 3 (some 2) ∷ route 1 (some 1) ∷ [])
    ∷ (none ∷ route 0 none ∷ none ∷ [])
    ∷ (none ∷ route 2 (some 2) ∷ route 0 none ∷ [])
    ∷ []

made : make_router natural sample ≡ ok table
unfolding make_router get_vertex_count initialize_from initialize_vertex initialize_edges
    initialize_edge set_cell blank_table get_edge get_incident_edges relax_all relax_through
    relax_sources relax_source relax_targets relax_target relax_route
made = refl

build_route-sample :
    build_route natural sample table 16 0 1 ≡ ok (some (record { weight = 3; edges = 1 ∷ 2 ∷ [] }))
unfolding build_route collect_edges get_edge
build_route-sample = refl

add_edge-IsWellFormed_example :
    let (g', r) = add_edge natural (edge 2 0 4) sample in
    IsWellFormed natural g'
    × (get_vertex_count natural g' ≡ get_vertex_count natural sample)
    × (id : ℕ) × (r ≡ ok id)
    × (get_edge natural g' id ≡ ok (edge 2 0 4))
unfolding get_vertex_count
add_edge-IsWellFormed_example =
    add_edge-IsWellFormed natural (edge 2 0 4) sample sample-IsWellFormed (omega arith)
      (omega arith)

add_edge_out_of_range_example :
    let (g', r) = add_edge natural (edge 3 0 4) sample in
    (r ≡ throw out_of_range)
    × (get_edge natural g' (get_edge_count natural sample) ≡ ok (edge 3 0 4))
    × ¬ IsWellFormed natural g'
unfolding get_vertex_count
add_edge_out_of_range_example = add_edge_out_of_range natural (edge 3 0 4) sample (omega arith)

make_router_decides_example :
    ((t : Table natural) × (make_router natural sample ≡ ok t) × IsNonnegative natural sample)
    ⊎ (make_router natural sample ≡ throw domain_error) × HasNegative natural sample
make_router_decides_example = make_router_decides natural sample sample-IsWellFormed

build_route_decides_example :
    ((r : RouteInfo natural) × (build_route natural sample table 16 1 0 ≡ ok (some r))
      × Walk natural sample 1 r.edges 0 r.weight)
    ⊎ (build_route natural sample table 16 1 0 ≡ ok none)
      × ¬ ((ids : List ℕ) × (x : ℕ) × Walk natural sample 1 ids 0 x)
unfolding get_vertex_count route_fuel
build_route_decides_example =
    build_route_decides natural natural-IsOrdered sample sample-IsWellFormed table made 16
      (omega arith) 1 0 (omega arith) (omega arith)

-- The direct edge is a walk of weight 5.
direct : Walk natural sample 0 (0 ∷ []) 1 5
direct = step here 0 (edge 0 1 5) refl refl

build_route_shortest_example :
    (r : RouteInfo natural) × (build_route natural sample table 16 0 1 ≡ ok (some r))
    × Walk natural sample 0 r.edges 1 r.weight
    × Le natural r.weight 5
unfolding get_vertex_count route_fuel
build_route_shortest_example =
    build_route_shortest natural natural-IsOrdered sample sample-IsWellFormed table made 16
      (omega arith) 0 1 (omega arith) (omega arith) direct
