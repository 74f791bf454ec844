-- ===== src/Router.antt =====
-- TransportSystem/router.h: all shortest routes by relaxing through each vertex in turn, and the
-- edges of a route read back along `prev_edge`. The member `routes_internal_data_` is a `Table`,
-- the member `graph_` an argument. `a > b` on weights is written `b < a`.
pub mod Table
pub mod Walks
pub mod Initial
pub mod Phase
pub mod Detour
pub mod Invariant
pub mod Preservation
pub mod Phases
pub mod Routes
pub mod Shortest
pub mod Negative
use transport_system.Prelude.{
  ℕ, zero, suc, ◌+◌, Bool, true, false, Option, none, some, List, [], ◌∷◌, ◌++◌, reverse, get_elem?,
  get_or, set, replicate, Result, ok, throw, ◌>>=◌, or_throw, out_of_range, domain_error, undefined,
  out_of_fuel, if◌then◌else◌,
}
use transport_system.Weight.{Weight}
use transport_system.Graph.{DirectedWeightedGraph, get_vertex_count, get_edge, get_incident_edges}

module _ (W : Weight) where
  open W use {Carrier, zero_weight, plus, lt}

  pub record RouteInternalData : Type 0 where
    pub weight : Carrier
    pub prev_edge : Option ℕ

  pub record RouteInfo : Type 0 where
    pub weight : Carrier
    pub edges : List ℕ

  abbrev pub Table : Type 0
  Table = List (List (Option RouteInternalData))

  -- `routes_internal_data_[i][j]`. Outside of the table the operator is undefined; a read is then
  -- `none` here, and a write does nothing.
  abbrev pub cell : Table → ℕ → ℕ → Option RouteInternalData
  cell t i j = get_or (get_or t i []) j none

  unfoldable pub set_cell : Table → ℕ → ℕ → Option RouteInternalData → Table
  set_cell t i j d = set t i (set (get_or t i []) j d)

  -- `!current || candidate < current->weight`
  abbrev pub is_better : Carrier → Option RouteInternalData → Bool
  is_better candidate none = true
  is_better candidate (some d) = lt candidate d.weight

  -- The body of the loop over the edges that leave `vertex`.
  unfoldable pub initialize_edge : DirectedWeightedGraph W → ℕ → ℕ → Table → Result Table
  unfolding get_edge set_cell
  initialize_edge g vertex edge_id t = do
    edge ← get_edge W g edge_id
    if lt edge.weight zero_weight
        then throw domain_error
        else ok (
            if is_better edge.weight (cell t vertex edge.to)
            then set_cell t vertex edge.to
                (some (record { weight = edge.weight; prev_edge = some edge_id }))
            else t)

  unfoldable pub initialize_edges : DirectedWeightedGraph W → ℕ → List ℕ → Table → Result Table
  initialize_edges g vertex [] t = ok t
  initialize_edges g vertex (id ∷ ids) t =
      initialize_edge g vertex id t >>= initialize_edges g vertex ids

  abbrev pub no_edges : RouteInternalData
  no_edges = record { weight = zero_weight; prev_edge = none }

  unfoldable pub initialize_vertex : DirectedWeightedGraph W → ℕ → Table → Result Table
  unfolding get_incident_edges
  initialize_vertex g vertex t = do
    let t' = set_cell t vertex vertex (some no_edges)
    ids ← get_incident_edges W g vertex
    initialize_edges g vertex ids t'

  -- `InitializeRoutesInternalData`, with the rounds left and the vertex of the next one.
  unfoldable pub initialize_from : DirectedWeightedGraph W → ℕ → ℕ → Table → Result Table
  initialize_from g zero vertex t = ok t
  initialize_from g (suc rounds) vertex t =
      initialize_vertex g vertex t >>= initialize_from g rounds (suc vertex)

  -- `route_to.prev_edge ? route_to.prev_edge : route_from.prev_edge`
  abbrev pub last_edge : RouteInternalData → RouteInternalData → Option ℕ
  last_edge route_from route_to = elim route_to.prev_edge [
    | none ↦ route_from.prev_edge
    | some e ↦ some e
  ]

  unfoldable pub relax_route : ℕ → ℕ → RouteInternalData → RouteInternalData → Table → Table
  relax_route vertex_from vertex_to route_from route_to t =
      let candidate = plus route_from.weight route_to.weight in
      if is_better candidate (cell t vertex_from vertex_to)
      then set_cell t vertex_from vertex_to
          (some (record { weight = candidate; prev_edge = last_edge route_from route_to }))
      else t

  -- One round over `vertex_to`. Both routes are references into the table, so they are read anew.
  unfoldable pub relax_target : ℕ → ℕ → ℕ → Table → Table
  relax_target through vertex_from vertex_to t = elim (cell t through vertex_to) [
    | none ↦ t
    | some route_to ↦ elim (cell t vertex_from through) [
      | none ↦ t
      | some route_from ↦ relax_route vertex_from vertex_to route_from route_to t
    ]
  ]

  unfoldable pub relax_targets : ℕ → ℕ → ℕ → ℕ → Table → Table
  relax_targets through vertex_from zero vertex_to t = t
  relax_targets through vertex_from (suc rounds) vertex_to t =
      relax_targets through vertex_from rounds (suc vertex_to)
        (relax_target through vertex_from vertex_to t)

  unfoldable pub relax_source : ℕ → ℕ → ℕ → Table → Table
  relax_source vertex_count through vertex_from t = elim (cell t vertex_from through) [
    | none ↦ t
    | some _ ↦ relax_targets through vertex_from vertex_count 0 t
  ]

  -- `RelaxRoutesInternalDataThroughVertex`, with the rounds left and the source of the next one.
  unfoldable pub relax_sources : ℕ → ℕ → ℕ → ℕ → Table → Table
  relax_sources vertex_count through zero vertex_from t = t
  relax_sources vertex_count through (suc rounds) vertex_from t =
      relax_sources vertex_count through rounds (suc vertex_from)
        (relax_source vertex_count through vertex_from t)

  unfoldable pub relax_through : ℕ → ℕ → Table → Table
  relax_through vertex_count through t = relax_sources vertex_count through vertex_count 0 t

  unfoldable pub relax_all : ℕ → ℕ → ℕ → Table → Table
  relax_all vertex_count zero through t = t
  relax_all vertex_count (suc rounds) through t =
      relax_all vertex_count rounds (suc through) (relax_through vertex_count through t)

  unfoldable pub blank_table : ℕ → Table
  blank_table n = replicate n (replicate n none)

  -- The constructor: the table, or the exception that it throws.
  unfoldable pub make_router : DirectedWeightedGraph W → Result Table
  unfolding get_vertex_count blank_table
  make_router g = do
    let n = get_vertex_count W g
    t ← initialize_from g n 0 (blank_table n)
    ok (relax_all n n 0 t)

  -- The loop of `BuildRoute`: the edges are pushed last edge first.
  unfoldable pub collect_edges :
      DirectedWeightedGraph W → Table → ℕ → ℕ → Option ℕ → List ℕ → Result (List ℕ)
  collect_edges g t from fuel none edges = ok edges
  collect_edges g t from zero (some id) edges = throw out_of_fuel
  collect_edges g t from (suc fuel) (some id) edges = do
    edge ← get_edge W g id
    route ← or_throw undefined (cell t from edge.from)
    collect_edges g t from fuel route.prev_edge (edges ++ id ∷ [])

  -- `BuildRoute`; `none` is `std::nullopt`.
  unfoldable pub build_route :
      DirectedWeightedGraph W → Table → ℕ → ℕ → ℕ → Result (Option RouteInfo)
  unfolding collect_edges
  build_route g t fuel from to = do
    row ← or_throw out_of_range (get_elem? t from)
    route ← or_throw out_of_range (get_elem? row to)
    elim route [
      | none ↦ ok none
      | some d ↦ collect_edges g t from fuel d.prev_edge [] >>= λ edges.
          ok (some (record { weight = d.weight; edges = reverse edges }))
    ]
