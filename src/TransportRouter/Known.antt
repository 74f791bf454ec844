-- ===== src/TransportRouter/Known.antt =====
-- The stops that `CreateGraph` of TransportSystem/transport_router.cpp gives vertices.
use transport_system.Prelude.{
  ℕ, zero, suc, ◌≡◌, ◌≢◌, ◌+◌, ◌*◌, ◌<◌, refl, ap, sym, subst, ◌∙◌, Bool-cases, some, List, [], ◌∷◌,
  ◌++◌, inl, inr, get_elem?, false, arith, length, length-append, get_elem?-append_left,
  get_elem?-concat, get_elem?-lt_length, str_eq→eq, Str, str_eq, str_eq_refl, ok, >>=-eq-ok,
  ok_same,
}
use transport_system.Real.{Real, of_nat}
use transport_system.Graph.{Edge, add_edge, get_vertex_count}
use transport_system.Domain.{Stop}
use transport_system.Catalogue.{TransportCatalogue, lookup, assign}
use transport_system.Catalogue.Maps.{lookup-assign}
use transport_system.TransportRouter.{
  real_weight, ComponentTrip, RoutingSettings, VertexId, StopGraph, add_trip, create_vertex,
  create_vertices, create_graph,
}
use transport_system.Catalogue.Saving.{AreUnique, AreUnique-tail}
use transport_system.TransportRouter.Sound.{create_graph-IsWellFormed}
use transport_system.TransportRouter.Trips.{add_edge-eq-ok}
use transport_system.TransportRouter.Steps.{create_edges-keeps}

module _ (R : Real) where
  pub add_trip-vertexs :
      (edge : Edge (real_weight R)) (trip : ComponentTrip R.Carrier) (s d : StopGraph R)
      → add_trip R edge trip s ≡ ok d
      → s.stop_vertexs ≡ d.stop_vertexs
  unfolding add_trip
  add_trip-vertexs edge trip s d e =
      let (id, added, made) = >>=-eq-ok (add_edge (real_weight R) edge s.graph_of_stops).1 _ e in
      ap (λ x. x.stop_vertexs) (ok_same {r = ok _} refl made)

  pub create_vertex-vertexs :
      (settings : RoutingSettings) (stop : Stop R.Carrier) (s d : StopGraph R)
      → create_vertex R settings stop s ≡ ok d
      → (v : VertexId) × (assign stop.name v s.stop_vertexs ≡ d.stop_vertexs)
  unfolding create_vertex
  create_vertex-vertexs settings stop s d e = (_, add_trip-vertexs _ _ _ d e)

  add_trip-edges :
      (edge : Edge (real_weight R)) (trip : ComponentTrip R.Carrier) (s d : StopGraph R)
      → add_trip R edge trip s ≡ ok d
      → (d.graph_of_stops.edges ≡ s.graph_of_stops.edges ++ edge ∷ [])
        × (d.total_vertex ≡ s.total_vertex)
  unfolding add_trip
  add_trip-edges edge trip s d e =
      let (id, added, made) = >>=-eq-ok (add_edge (real_weight R) edge s.graph_of_stops).1 _ e in
      let same = ok_same {r = ok _} refl made in
      let (_, grown) = add_edge-eq-ok R edge s.graph_of_stops id added in
      (sym (ap (λ x. x.graph_of_stops.edges) same) ∙ grown, sym (ap (λ x. x.total_vertex) same))

  -- The vertices of the stop of a place, and the edge on which a passenger waits there.
  abbrev pub vertices_of : ℕ → VertexId
  vertices_of k = record { inner = 2 * k; outer = suc (2 * k) }

  abbrev pub waiting : RoutingSettings → ℕ → Edge (real_weight R)
  waiting settings k = record {
    from = 2 * k;
    to = suc (2 * k);
    weight = of_nat R settings.bus_wait_time;
  }

  -- The name leads to the vertices of the place, and the edge of the place joins them.
  abbrev pub HasVertices : RoutingSettings → Str → ℕ → StopGraph R → Type 0
  HasVertices settings name k s =
      (lookup name s.stop_vertexs ≡ some (vertices_of k))
      × (get_elem? s.graph_of_stops.edges k ≡ some (waiting settings k))

  -- As many stops have their vertices.
  abbrev HasMade : ℕ → StopGraph R → Type 0
  HasMade n s = (s.total_vertex ≡ 2 * n) × (length s.graph_of_stops.edges ≡ n)

  create_vertex-made :
      (settings : RoutingSettings) (stop : Stop R.Carrier) (n : ℕ) (s d : StopGraph R)
      → HasMade n s
      → create_vertex R settings stop s ≡ ok d
      → HasMade (suc n) d
        × (assign stop.name (vertices_of n) s.stop_vertexs ≡ d.stop_vertexs)
        × (d.graph_of_stops.edges ≡ s.graph_of_stops.edges ++ waiting settings n ∷ [])
  unfolding create_vertex
  create_vertex-made settings stop n s d (total, count) e =
      let (grown, kept) = add_trip-edges _ _ _ d e in
      let numbered : assign stop.name (vertices_of n) s.stop_vertexs ≡ d.stop_vertexs =
        rw total at (add_trip-vertexs _ _ _ d e) in
      let joined : d.graph_of_stops.edges ≡ s.graph_of_stops.edges ++ waiting settings n ∷ [] =
        rw total at grown in
      let longer = length-append s.graph_of_stops.edges (waiting settings n ∷ []) in
      (
        (
          omega (arith, kept, total),
          ap length joined ∙ longer ∙ ap (λ x. x + 1) count ∙ (omega arith),
        ),
        numbered,
        joined,
      )

  create_vertices-keeps :
      (settings : RoutingSettings) (name : Str) (k n : ℕ) (stops : List (Stop R.Carrier))
      (s d : StopGraph R)
      → ((j : ℕ) (t : Stop R.Carrier) → get_elem? stops j ≡ some t → name ≢ t.name)
      → HasMade n s
      → HasVertices settings name k s
      → create_vertices R settings stops s ≡ ok d
      → HasVertices settings name k d
  unfolding create_vertices
  create_vertices-keeps settings name k n [] s d apart made known e =
      subst (HasVertices settings name k) (ok_same {r = ok s} refl e) known
  create_vertices-keeps settings name k n (stop ∷ stops) s d apart made (found, there) e =
      let (next, run, e1) = >>=-eq-ok (create_vertex R settings stop s) _ e in
      let (made', named, grown) = create_vertex-made settings stop n s next made run in
      let other : str_eq name stop.name ≡ false = elim (Bool-cases (str_eq name stop.name)) [
        | inl same ↦ absurd (apart 0 stop refl (str_eq→eq name stop.name same))
        | inr differs ↦ differs
      ] in
      let still : lookup name (assign stop.name (vertices_of n) s.stop_vertexs)
          ≡ some (vertices_of k) =
        lookup-assign name stop.name (vertices_of n) s.stop_vertexs ∙ rw other found in
      create_vertices-keeps settings name k (suc n) stops next d (λ j. apart (suc j)) made'
        (
          subst (λ x. lookup name x ≡ some (vertices_of k)) named still,
          rw grown (get_elem?-append_left s.graph_of_stops.edges _ k there),
        )
        e1

  create_vertices-HasVertices :
      (settings : RoutingSettings) (stops : List (Stop R.Carrier)) (i n k : ℕ)
      (stop : Stop R.Carrier) (s d : StopGraph R)
      → AreUnique stops
      → HasMade n s
      → get_elem? stops i ≡ some stop
      → n + i ≡ k
      → create_vertices R settings stops s ≡ ok d
      → HasVertices settings stop.name k d
  unfolding create_vertices
  create_vertices-HasVertices settings [] i n k stop s d unique made at place e = absurd (cc at)
  create_vertices-HasVertices settings (first ∷ stops) zero n k stop s d unique made at place e =
      let (next, run, e1) = >>=-eq-ok (create_vertex R settings first s) _ e in
      let (made', named, grown) = create_vertex-made settings first n s next made run in
      let equal : first ≡ stop = cc at in
      let same_place : n ≡ k = omega (arith, place) in
      let known : HasVertices settings first.name n next = (
        subst (λ x. lookup first.name x ≡ some (vertices_of n)) named
            (lookup-assign first.name first.name (vertices_of n) s.stop_vertexs
              ∙ rw (str_eq_refl first.name) refl),
        rw grown (
            subst
              (λ x.
                get_elem? (s.graph_of_stops.edges ++ waiting settings n ∷ []) x
                ≡ some (waiting settings n))
              made.1 (get_elem?-concat s.graph_of_stops.edges (waiting settings n))),
      ) in
      let apart : (j : ℕ) (t : Stop R.Carrier) → get_elem? stops j ≡ some t → first.name ≢ t.name =
        λ j t at_j same.
          let wrong : 0 ≡ suc j = unique 0 (suc j) first t refl at_j same in absurd (omega arith) in
      let done =
        create_vertices-keeps settings first.name n (suc n) stops next d apart made' known e1 in
      subst (λ x. HasVertices settings x.name k d) equal
        (subst (λ x. HasVertices settings first.name x d) same_place done)
  create_vertices-HasVertices settings (first ∷ stops) (suc i) n k stop s d unique made at place e =
      let (next, run, e1) = >>=-eq-ok (create_vertex R settings first s) _ e in
      let (made', _, _) = create_vertex-made settings first n s next made run in
      create_vertices-HasVertices settings stops i (suc n) k stop next d
        (AreUnique-tail first stops unique) made' at (omega (arith, place)) e1

  -- If no two stops of the catalogue have the same name, the stop of each place `i` has the vertices
  -- `2 * i` and `2 * i + 1` of the graph that `CreateGraph` returns, under its name, and the edge `i`
  -- leads from the one to the other and takes the waiting time.
  pub create_graph-HasVertices :
      (settings : RoutingSettings) (db : TransportCatalogue R.Carrier) (s : StopGraph R) (i : ℕ)
      (stop : Stop R.Carrier)
      → AreUnique db.all_stops
      → create_graph R settings db ≡ ok s
      → get_elem? db.all_stops i ≡ some stop
      → HasVertices settings stop.name i s
        × (suc (2 * i) < get_vertex_count (real_weight R) s.graph_of_stops)
  unfolding create_graph
  create_graph-HasVertices settings db s i stop unique e at =
      let (mid, made, e1) = >>=-eq-ok (create_vertices R settings db.all_stops _) _ e in
      let known =
        create_vertices-HasVertices settings db.all_stops i 0 i stop _ mid unique (refl, refl) at
          (omega arith) made in
      let kept =
        create_edges-keeps R (HasVertices settings stop.name i) (λ _. Unit) (λ _. Unit)
          (λ edge trip a b _ _ (found, there) added.
            let (grown, _) = add_trip-edges edge trip a b added in
            (
              subst (λ x. lookup stop.name x ≡ some (vertices_of i))
                  (add_trip-vertexs edge trip a b added) found,
              rw grown (get_elem?-append_left a.graph_of_stops.edges _ i there),
            ))
          settings db db.all_buses mid s (λ _ _ _. tt) known e1 in
      let (_, count) = create_graph-IsWellFormed R settings db s e in
      let inside = get_elem?-lt_length db.all_stops i at in (kept, rw count (omega (arith, inside)))
