-- ===== src/Graph/WellFormed.antt =====
-- Which graphs `AddEdge` builds.
use transport_system.Prelude.{
  ℕ, ◌<◌, ◌≡◌, refl, Option, none, some, List, [], get_elem?, get_or, ok, or_throw, out_of_range,
  get_or_of_get_elem?, get_elem?_of_lt,
}
use mathlib.Core.List.{Memᴰ}
use transport_system.Weight.{Weight}
use transport_system.Graph.{
  Edge, DirectedWeightedGraph, get_vertex_count, get_edge, get_incident_edges,
}

module _ (W : Weight) where
  -- Each edge joins two vertices and is listed at the vertex that it leaves, and nowhere else.
  pub record IsWellFormed (g : DirectedWeightedGraph W) : Type 0 where
    pub from_in_range :
        (id : ℕ) (e : Edge W) → get_elem? g.edges id ≡ some e → e.from < get_vertex_count W g
    pub to_in_range :
        (id : ℕ) (e : Edge W) → get_elem? g.edges id ≡ some e → e.to < get_vertex_count W g
    pub listed :
        (id : ℕ) (e : Edge W)
        → get_elem? g.edges id ≡ some e
        → Memᴰ id (get_or g.incidence_lists e.from [])
    pub leaves :
        (id v : ℕ)
        → Memᴰ id (get_or g.incidence_lists v [])
        → (e : Edge W) × (get_elem? g.edges id ≡ some e) × (e.from ≡ v)

  pub get_incident_edges_row :
      (g : DirectedWeightedGraph W) (v : ℕ) (ids : List ℕ)
      → get_incident_edges W g v ≡ ok ids
      → get_or g.incidence_lists v [] ≡ ids
  unfolding get_incident_edges
  get_incident_edges_row g v ids h =
      get_or_of_get_elem? g.incidence_lists v [] (found (get_elem? g.incidence_lists v) h)
    where
      found : (o : Option (List ℕ)) → or_throw out_of_range o ≡ ok ids → o ≡ some ids
      found none e = cc
      found (some x) e = cc

  pub get_edge_found :
      (g : DirectedWeightedGraph W) (id : ℕ) (e : Edge W)
      → get_elem? g.edges id ≡ some e
      → get_edge W g id ≡ ok e
  unfolding get_edge
  get_edge_found g id e h = rw h refl

  pub get_incident_edges_in_range :
      (g : DirectedWeightedGraph W) (v : ℕ)
      → v < get_vertex_count W g
      → get_incident_edges W g v ≡ ok (get_or g.incidence_lists v [])
  unfolding get_incident_edges get_vertex_count
  get_incident_edges_in_range g v h = rw (get_elem?_of_lt g.incidence_lists v [] h) refl
