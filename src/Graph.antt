-- ===== src/Graph.antt =====
-- TransportSystem/graph.h: a directed graph with numbered edges. Vertices and edges are `size_t`
-- numbers; `edges_` and `incidence_lists_` are lists.
pub mod WellFormed
pub mod Building
use transport_system.Prelude.{
  ℕ, ◌-◌, Option, List, [], ◌∷◌, ◌++◌, length, get_elem?, get_or, set, replicate, Result, ok, throw,
  out_of_range, or_throw, ltb, if◌then◌else◌,
}
use transport_system.Weight.{Weight}

module _ (W : Weight) where
  pub record Edge : Type 0 where
    pub from : ℕ
    pub to : ℕ
    pub weight : W.Carrier

  pub record DirectedWeightedGraph : Type 0 where
    pub edges : List Edge
    pub incidence_lists : List (List ℕ)

  -- The constructor from a number of vertices.
  unfoldable pub with_vertex_count : ℕ → DirectedWeightedGraph
  with_vertex_count vertex_count = record {
    edges = [];
    incidence_lists = replicate vertex_count [];
  }

  unfoldable pub get_vertex_count : DirectedWeightedGraph → ℕ
  get_vertex_count g = length g.incidence_lists

  unfoldable pub get_edge_count : DirectedWeightedGraph → ℕ
  get_edge_count g = length g.edges

  -- The edge is pushed before `incidence_lists_.at(edge.from)` may throw, so it stays after a throw.
  unfoldable pub add_edge : Edge → DirectedWeightedGraph → DirectedWeightedGraph × Result ℕ
  add_edge edge g =
      let edges' = g.edges ++ edge ∷ [] in
      let id = length edges' - 1 in
      let lists = g.incidence_lists in
      if ltb edge.from (length lists)
      then (
        record {
          edges = edges';
          incidence_lists = set lists edge.from (get_or lists edge.from [] ++ id ∷ []);
        },
        ok id,
      )
      else (record { edges = edges'; incidence_lists = lists }, throw out_of_range)

  unfoldable pub get_edge : DirectedWeightedGraph → ℕ → Result Edge
  get_edge g edge_id = or_throw out_of_range (get_elem? g.edges edge_id)

  unfoldable pub get_incident_edges : DirectedWeightedGraph → ℕ → Result (List ℕ)
  get_incident_edges g vertex = or_throw out_of_range (get_elem? g.incidence_lists vertex)
