-- ===== src/TransportRouter/Proto.antt =====
-- How TransportSystem/transport_router.cpp saves the graph and the table of routes and reads them
-- back. The messages are those of TransportSystem/transport_router.proto; their classes are
-- generated, and a message is the record of its fields. A `uint32` field keeps 32 bits.
use transport_system.Prelude.{
  ℕ, ◌%◌, Bool, true, false, Option, none, some, List, [], ◌∷◌, map, if◌then◌else◌,
}
use transport_system.Weight.{Weight}
use transport_system.Graph.{Edge, DirectedWeightedGraph}
use transport_system.Router.{RouteInternalData, Table}

abbrev pub uint32 : ℕ → ℕ
uint32 n = n % 4294967296

pub record ProtoEdge (D : Type 0) : Type 0 where
  pub from : ℕ
  pub to : ℕ
  pub weight : D

pub record ProtoGraph (D : Type 0) : Type 0 where
  pub edges : List (ProtoEdge D)
  pub incidence_lists : List (List ℕ)

pub record ProtoRouteData (D : Type 0) : Type 0 where
  pub is_initialisation : Bool
  pub weight : D
  pub prev_edge : Option ℕ

module _ (W : Weight) where
  -- The target of the saved edge is set to the vertex that the edge leaves.
  unfoldable pub save_edge : Edge W → ProtoEdge W.Carrier
  save_edge edge = record { from = uint32 edge.from; to = uint32 edge.from; weight = edge.weight }

  unfoldable pub save_edges : List (Edge W) → List (ProtoEdge W.Carrier)
  unfolding save_edge
  save_edges [] = []
  save_edges (edge ∷ edges) = save_edge edge ∷ save_edges edges

  unfoldable pub save_lists : List (List ℕ) → List (List ℕ)
  save_lists [] = []
  save_lists (ids ∷ lists) = map uint32 ids ∷ save_lists lists

  -- `SaveGraphToProto`
  unfoldable pub save_graph : DirectedWeightedGraph W → ProtoGraph W.Carrier
  unfolding save_edges save_lists
  save_graph g = record {
    edges = save_edges g.edges;
    incidence_lists = save_lists g.incidence_lists;
  }

  -- A message that is not initialised keeps the weight 0 that protobuf gives it.
  unfoldable pub save_data : Option (RouteInternalData W) → ProtoRouteData W.Carrier
  save_data none = record { is_initialisation = false; weight = W.zero_weight; prev_edge = none }
  save_data (some d) = record {
    is_initialisation = true;
    weight = d.weight;
    prev_edge = elim d.prev_edge [ none ↦ none | some id ↦ some (uint32 id) ];
  }

  unfoldable pub save_row : List (Option (RouteInternalData W)) → List (ProtoRouteData W.Carrier)
  unfolding save_data
  save_row [] = []
  save_row (d ∷ row) = save_data d ∷ save_row row

  -- `SaveRouterToProto`
  unfoldable pub save_router : Table W → List (List (ProtoRouteData W.Carrier))
  unfolding save_row
  save_router [] = []
  save_router (row ∷ table) = save_row row ∷ save_router table

  unfoldable pub load_edges : List (ProtoEdge W.Carrier) → List (Edge W)
  load_edges [] = []
  load_edges (edge ∷ edges) =
      record { from = edge.from; to = edge.to; weight = edge.weight } ∷ load_edges edges

  -- The graph that `DeserializeTransportRouter` reads.
  unfoldable pub load_graph : ProtoGraph W.Carrier → DirectedWeightedGraph W
  unfolding load_edges
  load_graph p = record { edges = load_edges p.edges; incidence_lists = p.incidence_lists }

  unfoldable pub load_data : ProtoRouteData W.Carrier → Option (RouteInternalData W)
  load_data p =
      if p.is_initialisation
      then some (record { weight = p.weight; prev_edge = p.prev_edge })
      else none

  unfoldable pub load_row : List (ProtoRouteData W.Carrier) → List (Option (RouteInternalData W))
  unfolding load_data
  load_row [] = []
  load_row (p ∷ row) = load_data p ∷ load_row row

  -- The table that `DeserializeTransportRouter` reads. Each row starts from the vector that was
  -- moved from, which is taken to be empty.
  unfoldable pub load_router : List (List (ProtoRouteData W.Carrier)) → Table W
  unfolding load_row
  load_router [] = []
  load_router (row ∷ table) = load_row row ∷ load_router table
