-- ===== src/TransportRouter/Steps.antt =====
-- `CreateGraph` of TransportSystem/transport_router.cpp changes its members in two ways: it names
-- vertices, and it adds an edge with its trip. What both keep, the whole keeps.
use transport_system.Prelude.{
  ℕ, suc, ◌+◌, ◌≡◌, refl, subst, Bool-cases, none, some, List, [], ◌∷◌, reverse, inl, inr, Str,
  length, get_elem?, ok, >>=-eq-ok, ok_same,
}
use transport_system.Real.{Real}
use transport_system.Graph.{Edge, with_vertex_count}
use transport_system.Domain.{Stop, Bus, deref_all}
use transport_system.Catalogue.{TransportCatalogue}
use transport_system.TransportRouter.{
  real_weight, ComponentTrip, RoutingSettings, VertexId, StopGraph, add_trip, create_vertex,
  create_vertices, vertex_at, calculate_time, create_rides, create_direction, names, create_edge,
  create_edges, create_graph,
}

-- What is known of the name of a part of a trip: that of a stop, or of a bus.
abbrev pub IsNamed : {D : Type 0} → (Str → Type 0) → (Str → Type 0) → ComponentTrip D → Type 0
IsNamed IsStop IsBus trip = elim trip.span_count [
  | none ↦ IsStop trip.name
  | some _ ↦ IsBus trip.name
]

module _ (R : Real) (P : StopGraph R → Type 0) (IsStop IsBus : Str → Type 0)
    (step : (edge : Edge (real_weight R)) (trip : ComponentTrip R.Carrier) (s d : StopGraph R)
      → edge.weight ≡ trip.weight
      → IsNamed IsStop IsBus trip
      → P s
      → add_trip R edge trip s ≡ ok d
      → P d) where
  create_rides-keeps :
      (settings : RoutingSettings) (db : TransportCatalogue R.Carrier) (bus : Str) (first_id : ℕ)
      (time : R.Carrier) (count : ℕ) (prev : Str) (rest : List Str) (s d : StopGraph R)
      → IsBus bus
      → P s
      → create_rides R settings db bus first_id time count prev rest s ≡ ok d
      → P d
  unfolding create_rides
  create_rides-keeps settings db bus first_id time count prev [] s d named h e =
      subst P (ok_same {r = ok s} refl e) h
  create_rides-keeps settings db bus first_id time count prev (to ∷ rest) s d named h e =
      let (second, at_to, e1) = >>=-eq-ok (vertex_at R s to) _ e in
      let (span, timed, e2) = >>=-eq-ok (calculate_time R settings db prev to) _ e1 in
      let time_to_road = R.add time span in
      let (next, added, e3) = >>=-eq-ok (add_trip R _ _ s) _ e2 in
      create_rides-keeps settings db bus first_id time_to_road (suc count) to rest next d named
        (step _ _ s next refl named h added) e3

  create_direction-keeps :
      (settings : RoutingSettings) (db : TransportCatalogue R.Carrier) (bus : Str)
      (stops : List Str) (s d : StopGraph R)
      → IsBus bus
      → P s
      → create_direction R settings db bus stops s ≡ ok d
      → P d
  unfolding create_direction
  create_direction-keeps settings db bus [] s d named h e = subst P (ok_same {r = ok s} refl e) h
  create_direction-keeps settings db bus (from ∷ rest) s d named h e =
      let (first, at_from, e1) = >>=-eq-ok (vertex_at R s from) _ e in
      let (next, rides, e2) = >>=-eq-ok (create_rides R settings db bus _ _ 0 from rest s) _ e1 in
      create_direction-keeps settings db bus rest next d named
        (create_rides-keeps settings db bus _ _ 0 from rest s next named h rides) e2

  create_edge-keeps :
      (settings : RoutingSettings) (db : TransportCatalogue R.Carrier) (bus : Bus)
      (s d : StopGraph R)
      → IsBus bus.name
      → P s
      → create_edge R settings db bus s ≡ ok d
      → P d
  unfolding create_edge
  create_edge-keeps settings db bus s d named h e =
      let (stops, found, e1) = >>=-eq-ok (deref_all db.all_stops bus.stops) _ e in
      let (there, forth, e2) =
        >>=-eq-ok (create_direction R settings db bus.name (names R stops) s) _ e1 in
      let kept =
        create_direction-keeps settings db bus.name (names R stops) s there named h forth in
      elim (Bool-cases bus.is_loop_trip) [
        | inl k ↦ subst P (ok_same {r = ok there} refl (rw k at e2)) kept
        | inr k ↦
            create_direction-keeps settings db bus.name (reverse (names R stops)) there d named kept
              (rw k at e2)
      ]

  pub create_edges-keeps :
      (settings : RoutingSettings) (db : TransportCatalogue R.Carrier) (buses : List Bus)
      (s d : StopGraph R)
      → ((i : ℕ) (b : Bus) → get_elem? buses i ≡ some b → IsBus b.name)
      → P s
      → create_edges R settings db buses s ≡ ok d
      → P d
  unfolding create_edges
  create_edges-keeps settings db [] s d named h e = subst P (ok_same {r = ok s} refl e) h
  create_edges-keeps settings db (bus ∷ buses) s d named h e =
      let (next, added, e1) = >>=-eq-ok (create_edge R settings db bus s) _ e in
      create_edges-keeps settings db buses next d (λ i. named (suc i))
        (create_edge-keeps settings db bus s next (named 0 bus refl) h added) e1

  module _
      (name_vertices : (s : StopGraph R) (total : ℕ) (vertexs : List (Str × VertexId))
        → P s
        → P (record s { total_vertex = total; stop_vertexs = vertexs })) where
    create_vertices-keeps :
        (settings : RoutingSettings) (stops : List (Stop R.Carrier)) (s d : StopGraph R)
        → ((i : ℕ) (t : Stop R.Carrier) → get_elem? stops i ≡ some t → IsStop t.name)
        → P s
        → create_vertices R settings stops s ≡ ok d
        → P d
    unfolding create_vertices create_vertex
    create_vertices-keeps settings [] s d named h e = subst P (ok_same {r = ok s} refl e) h
    create_vertices-keeps settings (stop ∷ stops) s d named h e =
        let (next, made, e1) = >>=-eq-ok (create_vertex R settings stop s) _ e in
        create_vertices-keeps settings stops next d (λ i. named (suc i))
          (step _ _ _ next refl (named 0 stop refl) (name_vertices s _ _ h) made) e1

    -- What holds of the members before, and is kept by both changes, holds of the result.
    pub create_graph-keeps :
        (settings : RoutingSettings) (db : TransportCatalogue R.Carrier) (s : StopGraph R)
        → ((i : ℕ) (t : Stop R.Carrier) → get_elem? db.all_stops i ≡ some t → IsStop t.name)
        → ((i : ℕ) (b : Bus) → get_elem? db.all_buses i ≡ some b → IsBus b.name)
        → P (record {
          total_vertex = 0;
          graph_of_stops =
              with_vertex_count (real_weight R) (length db.all_stops + length db.all_stops);
          stop_vertexs = [];
          info_about_edge = [];
        })
        → create_graph R settings db ≡ ok s
        → P s
    unfolding create_graph
    create_graph-keeps settings db s stops buses h e =
        let (mid, made, e1) = >>=-eq-ok (create_vertices R settings db.all_stops _) _ e in
        create_edges-keeps settings db db.all_buses mid s buses
          (create_vertices-keeps settings db.all_stops _ mid stops h made) e1
