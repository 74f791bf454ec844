-- ===== src/TransportRouter/Sound.antt =====
-- The graph that `CreateGraph` of TransportSystem/transport_router.cpp builds.
use transport_system.Prelude.{
  ℕ, suc, ◌+◌, ◌≤◌, ◌<◌, ◌≡◌, refl, sym, ap, subst, ◌∙◌, Bool-cases, none, some, List, [], ◌∷◌,
  reverse, inl, inr, arith, length, Str, str_eq, Option-cases, ok, >>=-eq-ok, ok_same, throw_ok,
  if◌then◌else◌,
}
use transport_system.Real.{Real, of_nat}
use transport_system.Graph.{Edge, with_vertex_count, get_vertex_count, add_edge}
use transport_system.Graph.WellFormed.{IsWellFormed}
use transport_system.Graph.Building.{with_vertex_count-IsWellFormed, add_edge-IsWellFormed}
use transport_system.Domain.{Stop, Bus, deref_all}
use transport_system.Catalogue.{TransportCatalogue, lookup, assign}
use transport_system.Catalogue.Maps.{lookup-assign}
use transport_system.TransportRouter.{
  real_weight, ComponentTrip, RoutingSettings, VertexId, StopGraph, add_trip, emplace_info,
  create_vertex, create_vertices, vertex_at, calculate_time, create_rides, create_direction, names,
  create_edge, create_edges, create_graph,
}

none_of_empty : (name : Str) (v : VertexId) → lookup name [] ≡ some v → ⊥
unfolding lookup
none_of_empty name v h = cc

abbrev IsInside : ℕ → VertexId → Type 0
IsInside n v = (v.inner < n) × (v.outer < n)

IsInside-assign :
    (n : ℕ) (key : Str) (v : VertexId) (xs : List (Str × VertexId))
    → IsInside n v
    → ((name : Str) (u : VertexId) → lookup name xs ≡ some u → IsInside n u)
    → (name : Str) (u : VertexId) → lookup name (assign key v xs) ≡ some u
    → IsInside n u
IsInside-assign n key v xs h hs name u e =
    let found : (if str_eq name key then some v else lookup name xs) ≡ some u =
      sym (lookup-assign name key v xs) ∙ e in
    elim (Bool-cases (str_eq name key)) [
      | inl k ↦ let same : v ≡ u = cc (found, k) in subst (IsInside n) same h
      | inr k ↦ hs name u (cc (found, k))
    ]

module _ (R : Real) where
  -- The graph is well formed, has `n` vertices, and the stops have theirs among them.
  record IsSound (n : ℕ) (s : StopGraph R) : Type 0 where
    well_formed : IsWellFormed (real_weight R) s.graph_of_stops
    count : get_vertex_count (real_weight R) s.graph_of_stops ≡ n
    inside : (name : Str) (v : VertexId) → lookup name s.stop_vertexs ≡ some v → IsInside n v

  add_trip-IsSound :
      (n : ℕ) (edge : Edge (real_weight R)) (trip : ComponentTrip R.Carrier) (s : StopGraph R)
      → IsSound n s
      → edge.from < n
      → edge.to < n
      → (d : StopGraph R) × (add_trip R edge trip s ≡ ok d)
        × IsSound n d
        × (d.total_vertex ≡ s.total_vertex)
  unfolding add_trip
  add_trip-IsSound n edge trip s h from to =
      let (wf, count, id, returns, _) =
        add_edge-IsWellFormed (real_weight R) edge s.graph_of_stops h.well_formed (rw h.count from)
          (rw h.count to) in
      (
        record s {
          graph_of_stops = (add_edge (real_weight R) edge s.graph_of_stops).0;
          info_about_edge = emplace_info id trip s.info_about_edge;
        },
        rw returns refl,
        record { well_formed = wf; count = count ∙ h.count; inside = h.inside },
        refl,
      )

  create_vertex-IsSound :
      (n : ℕ) (settings : RoutingSettings) (stop : Stop R.Carrier) (s : StopGraph R)
      → IsSound n s
      → suc s.total_vertex < n
      → (d : StopGraph R) × (create_vertex R settings stop s ≡ ok d)
        × IsSound n d
        × (d.total_vertex ≡ suc (suc s.total_vertex))
  unfolding create_vertex
  create_vertex-IsSound n settings stop s h room =
      let v : VertexId = record { inner = s.total_vertex; outer = suc s.total_vertex } in
      let named : StopGraph R = record s {
        total_vertex = suc (suc s.total_vertex);
        stop_vertexs = assign stop.name v s.stop_vertexs;
      } in
      let sound : IsSound n named = record {
        well_formed = h.well_formed;
        count = h.count;
        inside = IsInside-assign n stop.name v s.stop_vertexs (omega arith, omega arith) h.inside;
      } in
      let wait = of_nat R settings.bus_wait_time in
      add_trip-IsSound n (record { from = s.total_vertex; to = suc s.total_vertex; weight = wait })
        (record { name = stop.name; weight = wait; span_count = none }) named sound (omega arith)
        (omega arith)

  create_vertices-IsSound :
      (n : ℕ) (settings : RoutingSettings) (stops : List (Stop R.Carrier)) (s : StopGraph R)
      → IsSound n s
      → s.total_vertex + (length stops + length stops) ≤ n
      → (d : StopGraph R) × (create_vertices R settings stops s ≡ ok d) × IsSound n d
  unfolding create_vertices
  create_vertices-IsSound n settings [] s h room = (s, refl, h)
  create_vertices-IsSound n settings (stop ∷ stops) s h room =
      let (d, returns, sound, total) = create_vertex-IsSound n settings stop s h (omega arith) in
      let (e, rest, done) =
        create_vertices-IsSound n settings stops d sound (omega (arith, total)) in
      (e, rw returns rest, done)

  vertex_at-inside :
      (n : ℕ) (s : StopGraph R) (name : Str) (v : VertexId)
      → IsSound n s
      → vertex_at R s name ≡ ok v
      → (v.inner < n) × (v.outer < n)
  unfolding vertex_at
  vertex_at-inside n s name v h e = elim (Option-cases (lookup name s.stop_vertexs)) [
    | inl missing ↦ absurd (throw_ok (rw missing at e))
    | inr (u, found) ↦ h.inside name v (found ∙ ap some (ok_same {r = ok u} refl (rw found at e)))
  ]

  create_rides-IsSound :
      (n : ℕ) (settings : RoutingSettings) (db : TransportCatalogue R.Carrier) (bus : Str)
      (first_id : ℕ) (time : R.Carrier) (count : ℕ) (prev : Str) (rest : List Str)
      (s d : StopGraph R)
      → first_id < n
      → IsSound n s
      → create_rides R settings db bus first_id time count prev rest s ≡ ok d
      → IsSound n d
  unfolding create_rides
  create_rides-IsSound n settings db bus first_id time count prev [] s d f h e =
      subst (IsSound n) (ok_same {r = ok s} refl e) h
  create_rides-IsSound n settings db bus first_id time count prev (to ∷ rest) s d f h e =
      let (second, at_to, e1) = >>=-eq-ok (vertex_at R s to) _ e in
      let (span, timed, e2) = >>=-eq-ok (calculate_time R settings db prev to) _ e1 in
      let time_to_road = R.add time span in
      let edge : Edge (real_weight R) = record {
        from = first_id;
        to = second.inner;
        weight = time_to_road;
      } in
      let trip : ComponentTrip R.Carrier = record {
        name = bus;
        weight = time_to_road;
        span_count = some (suc count);
      } in
      let (next, added, e3) = >>=-eq-ok (add_trip R edge trip s) _ e2 in
      let (made, returns, sound, _) =
        add_trip-IsSound n edge trip s h f (vertex_at-inside n s to second h at_to).0 in
      create_rides-IsSound n settings db bus first_id time_to_road (suc count) to rest next d f
        (subst (IsSound n) (ok_same returns added) sound) e3

  create_direction-IsSound :
      (n : ℕ) (settings : RoutingSettings) (db : TransportCatalogue R.Carrier) (bus : Str)
      (stops : List Str) (s d : StopGraph R)
      → IsSound n s
      → create_direction R settings db bus stops s ≡ ok d
      → IsSound n d
  unfolding create_direction
  create_direction-IsSound n settings db bus [] s d h e =
      subst (IsSound n) (ok_same {r = ok s} refl e) h
  create_direction-IsSound n settings db bus (from ∷ rest) s d h e =
      let (first, at_from, e1) = >>=-eq-ok (vertex_at R s from) _ e in
      let (next, rides, e2) =
        >>=-eq-ok (create_rides R settings db bus first.outer (of_nat R 0) 0 from rest s) _ e1 in
      let sound =
        create_rides-IsSound n settings db bus first.outer (of_nat R 0) 0 from rest s next
          (vertex_at-inside n s from first h at_from).1 h rides in
      create_direction-IsSound n settings db bus rest next d sound e2

  create_edge-IsSound :
      (n : ℕ) (settings : RoutingSettings) (db : TransportCatalogue R.Carrier) (bus : Bus)
      (s d : StopGraph R)
      → IsSound n s
      → create_edge R settings db bus s ≡ ok d
      → IsSound n d
  unfolding create_edge
  create_edge-IsSound n settings db bus s d h e =
      let (stops, found, e1) = >>=-eq-ok (deref_all db.all_stops bus.stops) _ e in
      let (there, forth, e2) =
        >>=-eq-ok (create_direction R settings db bus.name (names R stops) s) _ e1 in
      let sound = create_direction-IsSound n settings db bus.name (names R stops) s there h forth in
      elim (Bool-cases bus.is_loop_trip) [
        | inl k ↦ subst (IsSound n) (ok_same {r = ok there} refl (rw k at e2)) sound
        | inr k ↦
            create_direction-IsSound n settings db bus.name (reverse (names R stops)) there d sound
              (rw k at e2)
      ]

  create_edges-IsSound :
      (n : ℕ) (settings : RoutingSettings) (db : TransportCatalogue R.Carrier) (buses : List Bus)
      (s d : StopGraph R)
      → IsSound n s
      → create_edges R settings db buses s ≡ ok d
      → IsSound n d
  unfolding create_edges
  create_edges-IsSound n settings db [] s d h e = subst (IsSound n) (ok_same {r = ok s} refl e) h
  create_edges-IsSound n settings db (bus ∷ buses) s d h e =
      let (next, added, e1) = >>=-eq-ok (create_edge R settings db bus s) _ e in
      create_edges-IsSound n settings db buses next d
        (create_edge-IsSound n settings db bus s next h added) e1

  create_graph-IsSound :
      (settings : RoutingSettings) (db : TransportCatalogue R.Carrier) (s : StopGraph R)
      → create_graph R settings db ≡ ok s
      → IsSound (length db.all_stops + length db.all_stops) s
  unfolding create_graph
  create_graph-IsSound settings db s e =
      let n = length db.all_stops + length db.all_stops in
      let (count, wf) = with_vertex_count-IsWellFormed (real_weight R) n in
      let start : StopGraph R = record {
        total_vertex = 0;
        graph_of_stops = with_vertex_count (real_weight R) n;
        stop_vertexs = [];
        info_about_edge = [];
      } in
      let sound : IsSound n start = record {
        well_formed = wf;
        count = count;
        inside = λ name v found. absurd (none_of_empty name v found);
      } in
      let (mid, returns, sound_mid) =
        create_vertices-IsSound n settings db.all_stops start sound (omega arith) in
      create_edges-IsSound n settings db db.all_buses mid s sound_mid (rw returns at e)

  -- The graph that `CreateGraph` returns is well formed and has two vertices for each stop.
  pub create_graph-IsWellFormed :
      (settings : RoutingSettings) (db : TransportCatalogue R.Carrier) (s : StopGraph R)
      → create_graph R settings db ≡ ok s
      → IsWellFormed (real_weight R) s.graph_of_stops
        × (get_vertex_count (real_weight R) s.graph_of_stops
            ≡ length db.all_stops + length db.all_stops)
  create_graph-IsWellFormed settings db s e =
      let sound = create_graph-IsSound settings db s e in (sound.well_formed, sound.count)

  -- The vertices of a stop are vertices of the graph.
  pub create_graph-inside :
      (settings : RoutingSettings) (db : TransportCatalogue R.Carrier) (s : StopGraph R)
      (name : Str) (v : VertexId)
      → create_graph R settings db ≡ ok s
      → lookup name s.stop_vertexs ≡ some v
      → (v.inner < get_vertex_count (real_weight R) s.graph_of_stops)
        × (v.outer < get_vertex_count (real_weight R) s.graph_of_stops)
  create_graph-inside settings db s name v e found =
      let sound = create_graph-IsSound settings db s e in rw sound.count (sound.inside name v found)
