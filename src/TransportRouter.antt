-- ===== src/TransportRouter.antt =====
-- TransportSystem/transport_router.h, TransportSystem/transport_router.cpp: the graph of the stops,
-- and the routes that are read from it.
pub mod Proto
pub mod Saving
pub mod Sound
pub mod Message
pub mod Steps
pub mod Trips
pub mod Quickest
pub mod Known
use transport_system.Prelude.{
  ℕ, zero, suc, ◌+◌, Bool, true, false, Option, none, some, List, [], ◌∷◌, ◌++◌, reverse, Str,
  Result, ok, throw, out_of_range, logic_error, or_throw, ◌>>=◌, if◌then◌else◌, ◌==◌, length,
}
use transport_system.Real.{Real, of_nat}
use transport_system.Weight.{Weight}
use transport_system.Graph.{
  Edge, DirectedWeightedGraph, with_vertex_count, get_edge_count, add_edge,
}
use transport_system.Router.{Table, make_router, build_route}
use transport_system.Domain.{Stop, Bus, deref_all}
use transport_system.Catalogue.{TransportCatalogue, lookup, assign}
use transport_system.Catalogue.Info.{get_length_between_stops}

-- `double` as the template argument of the graph and of the router
abbrev pub real_weight : Real → Weight
real_weight R = record { Carrier = R.Carrier; zero_weight = of_nat R 0; plus = R.add; lt = R.lt }

pub record ComponentTrip (D : Type 0) : Type 0 where
  pub name : Str
  pub weight : D
  pub span_count : Option ℕ

-- `RouteInfo`
pub record Trip (D : Type 0) : Type 0 where
  pub items : List (ComponentTrip D)
  pub total_time : D

pub record RoutingSettings : Type 0 where
  pub bus_wait_time : ℕ
  pub bus_velocity : ℕ

pub record VertexId : Type 0 where
  pub inner : ℕ
  pub outer : ℕ

-- `info_about_edge`: its `find`, and its `emplace`, which keeps an entry that is there.
module _ {A : Type 0} where
  unfoldable pub find_info : ℕ → List (ℕ × A) → Option A
  find_info k [] = none
  find_info k ((j, a) ∷ xs) = if k == j then some a else find_info k xs

  unfoldable pub emplace_info : ℕ → A → List (ℕ × A) → List (ℕ × A)
  emplace_info k a [] = (k, a) ∷ []
  emplace_info k a ((j, b) ∷ xs) = if k == j then (j, b) ∷ xs else (j, b) ∷ emplace_info k a xs

module _ (R : Real) where
  -- The members that `CreateGraph` fills.
  pub record StopGraph : Type 0 where
    pub total_vertex : ℕ
    pub graph_of_stops : DirectedWeightedGraph (real_weight R)
    pub stop_vertexs : List (Str × VertexId)
    pub info_about_edge : List (ℕ × ComponentTrip R.Carrier)

  -- `info_about_edge.emplace(graph_of_stops.AddEdge(edge), trip)`
  unfoldable pub add_trip :
      Edge (real_weight R) → ComponentTrip R.Carrier → StopGraph → Result StopGraph
  unfolding add_edge emplace_info
  add_trip edge trip s =
      let (graph, added) = add_edge (real_weight R) edge s.graph_of_stops in
      added >>= λ id. ok (record s {
        graph_of_stops = graph;
        info_about_edge = emplace_info id trip s.info_about_edge;
      })

  unfoldable pub create_vertex : RoutingSettings → Stop R.Carrier → StopGraph → Result StopGraph
  unfolding add_trip assign
  create_vertex settings stop s =
      let in_id = s.total_vertex in
      let out_id = suc s.total_vertex in
      let wait = of_nat R settings.bus_wait_time in
      add_trip (record { from = in_id; to = out_id; weight = wait })
        (record { name = stop.name; weight = wait; span_count = none })
        (record s {
          total_vertex = suc (suc s.total_vertex);
          stop_vertexs = assign stop.name (record { inner = in_id; outer = out_id }) s.stop_vertexs;
        })

  unfoldable pub vertex_at : StopGraph → Str → Result VertexId
  unfolding lookup
  vertex_at s name = or_throw out_of_range (lookup name s.stop_vertexs)

  -- `CalculateTimeBetweenStations`
  unfoldable pub calculate_time :
      RoutingSettings → TransportCatalogue R.Carrier → Str → Str → Result R.Carrier
  unfolding get_length_between_stops
  calculate_time settings db first second = get_length_between_stops db first second >>= λ n. ok (
      R.mul (R.div (of_nat R n) (R.mul (of_nat R 1000) (of_nat R settings.bus_velocity)))
        (of_nat R 60))

  -- The inner loop of `CreateEdge`: rides from `first_id` that pass `prev` with this time and count.
  unfoldable pub create_rides :
      RoutingSettings
      → TransportCatalogue R.Carrier
      → Str
      → ℕ
      → R.Carrier
      → ℕ
      → Str
      → List Str
      → StopGraph
      → Result StopGraph
  unfolding vertex_at calculate_time add_trip
  create_rides settings db bus first_id time count prev [] s = ok s
  create_rides settings db bus first_id time count prev (to ∷ rest) s = do
    second ← vertex_at s to
    span ← calculate_time settings db prev to
    let time_to_road = R.add time span
    next ←
        add_trip (record { from = first_id; to = second.inner; weight = time_to_road })
          (record { name = bus; weight = time_to_road; span_count = some (suc count) }) s
    create_rides settings db bus first_id time_to_road (suc count) to rest next

  -- The outer loop of `CreateEdge`, along the stops in one direction.
  unfoldable pub create_direction :
      RoutingSettings → TransportCatalogue R.Carrier → Str → List Str → StopGraph → Result StopGraph
  unfolding vertex_at create_rides
  create_direction settings db bus [] s = ok s
  create_direction settings db bus (from ∷ rest) s = do
    first ← vertex_at s from
    next ← create_rides settings db bus first.outer (of_nat R 0) 0 from rest s
    create_direction settings db bus rest next

  abbrev pub names : List (Stop R.Carrier) → List Str
  names [] = []
  names (stop ∷ stops) = stop.name ∷ names stops

  unfoldable pub create_edge :
      RoutingSettings → TransportCatalogue R.Carrier → Bus → StopGraph → Result StopGraph
  unfolding deref_all create_direction
  create_edge settings db bus s = do
    stops ← deref_all db.all_stops bus.stops
    there ← create_direction settings db bus.name (names stops) s
    if bus.is_loop_trip
        then ok there
        else create_direction settings db bus.name (reverse (names stops)) there

  unfoldable pub create_vertices :
      RoutingSettings → List (Stop R.Carrier) → StopGraph → Result StopGraph
  unfolding create_vertex
  create_vertices settings [] s = ok s
  create_vertices settings (stop ∷ stops) s =
      create_vertex settings stop s >>= create_vertices settings stops

  unfoldable pub create_edges :
      RoutingSettings → TransportCatalogue R.Carrier → List Bus → StopGraph → Result StopGraph
  unfolding create_edge
  create_edges settings db [] s = ok s
  create_edges settings db (bus ∷ buses) s =
      create_edge settings db bus s >>= create_edges settings db buses

  -- `CreateGraph` on the members as the constructor sets them.
  unfoldable pub create_graph : RoutingSettings → TransportCatalogue R.Carrier → Result StopGraph
  unfolding with_vertex_count create_vertices create_edges
  create_graph settings db =
      create_vertices settings db.all_stops (record {
        total_vertex = 0;
        graph_of_stops =
            with_vertex_count (real_weight R) (length db.all_stops + length db.all_stops);
        stop_vertexs = [];
        info_about_edge = [];
      })
      >>= create_edges settings db db.all_buses

  -- The constructor: the graph with the table of its routes.
  unfoldable pub make_transport_router :
      RoutingSettings → TransportCatalogue R.Carrier → Result (StopGraph × Table (real_weight R))
  unfolding create_graph make_router
  make_transport_router settings db = do
    s ← create_graph settings db
    table ← make_router (real_weight R) s.graph_of_stops
    ok (s, table)

  -- The loop of `GetRouteInfo`: `AddRideItem` or `AddWaitItem`, and `AdditionTotalTime`.
  unfoldable pub add_items :
      List (ℕ × ComponentTrip R.Carrier) → List ℕ → Trip R.Carrier → Result (Trip R.Carrier)
  unfolding find_info
  add_items info [] trip = ok trip
  add_items info (id ∷ ids) trip = do
    item ← or_throw out_of_range (find_info id info)
    add_items info ids
        (record { items = trip.items ++ item ∷ []; total_time = R.add trip.total_time item.weight })

  -- `GetRouteInfo`; the fuel is that of the router's `build_route`.
  unfoldable pub get_route_info :
      StopGraph → Table (real_weight R) → ℕ → Str → Str → Result (Option (Trip R.Carrier))
  unfolding lookup build_route add_items
  get_route_info s table fuel from to =
      let no_trip : Trip R.Carrier = record { items = []; total_time = of_nat R 0 } in
      or_throw logic_error (lookup from s.stop_vertexs) >>= λ start.
      or_throw out_of_range (lookup to s.stop_vertexs) >>= λ end.
      build_route (real_weight R) s.graph_of_stops table fuel start.inner end.inner >>= λ route.
      elim route [
        | none ↦ ok none
        | some info ↦ add_items s.info_about_edge info.edges no_trip >>= λ trip. ok (some trip)
      ]
