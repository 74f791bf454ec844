-- ===== src/TransportRouter/Saving/Members.antt =====
-- What `CreateGraph` of TransportSystem/transport_router.cpp puts into the members that are saved.
use transport_system.Prelude.{
  ℕ, suc, ◌≡◌, refl, subst, some, List, [], ◌∷◌, get_elem?, ok, >>=-eq-ok, ok_same,
}
use transport_system.Real.{Real}
use transport_system.Domain.{Stop, Bus}
use transport_system.Graph.{Edge, add_edge}
use transport_system.Catalogue.{Catalogue}
use transport_system.Catalogue.Indexed.{AreKeyed, AreKeyed-assign}
use transport_system.TransportRouter.{
  real_weight, ComponentTrip, RoutingSettings, StopGraph, add_trip, create_vertices, create_vertex,
  create_graph,
}
use transport_system.TransportRouter.Steps.{IsNamed, create_graph-keeps, create_edges-keeps}
use transport_system.TransportRouter.Known.{add_trip-vertexs, create_vertex-vertexs}
use transport_system.TransportRouter.Saving.Trips.{
  IsStopName, IsBusName, AreTrips, AreTrips-emplace_info,
}
use transport_system.TransportRouter.Saving.Vertices.{ArePlaced, ArePlaced-assign}

module _ (R : Real) where
  add_trip-AreTrips :
      (known : Catalogue R) (edge : Edge (real_weight R)) (trip : ComponentTrip R.Carrier)
      (s d : StopGraph R)
      → edge.weight ≡ trip.weight
      → IsNamed (IsStopName R known) (IsBusName R known) trip
      → AreTrips R known s.info_about_edge
      → add_trip R edge trip s ≡ ok d
      → AreTrips R known d.info_about_edge
  unfolding add_trip
  add_trip-AreTrips known edge trip s d _ named h e =
      let (id, added, made) = >>=-eq-ok (add_edge (real_weight R) edge s.graph_of_stops).1 _ e in
      subst (λ x. AreTrips R known x.info_about_edge) (ok_same {r = ok _} refl made)
        (AreTrips-emplace_info R known id trip s.info_about_edge named h)

  -- The parts of trips are named after the stops and the buses.
  pub create_graph-AreTrips :
      (known : Catalogue R) (settings : RoutingSettings) (db : Catalogue R) (s : StopGraph R)
      → ((i : ℕ) (t : Stop R.Carrier)
          → get_elem? db.all_stops i ≡ some t
          → IsStopName R known t.name)
      → ((i : ℕ) (b : Bus) → get_elem? db.all_buses i ≡ some b → IsBusName R known b.name)
      → create_graph R settings db ≡ ok s
      → AreTrips R known s.info_about_edge
  create_graph-AreTrips known settings db s stops buses e =
      create_graph-keeps R (λ x. AreTrips R known x.info_about_edge) (IsStopName R known)
        (IsBusName R known) (add_trip-AreTrips known) (λ _ _ _ h. h) settings db s stops buses tt e

  create_vertices-ArePlaced :
      (settings : RoutingSettings) (all stops : List (Stop R.Carrier)) (s d : StopGraph R)
      → ((i : ℕ) (t : Stop R.Carrier)
          → get_elem? stops i ≡ some t
          → (j : ℕ) × (get_elem? all j ≡ some t))
      → ArePlaced all s.stop_vertexs × AreKeyed s.stop_vertexs
      → create_vertices R settings stops s ≡ ok d
      → ArePlaced all d.stop_vertexs × AreKeyed d.stop_vertexs
  unfolding create_vertices
  create_vertices-ArePlaced settings all [] s d among h e =
      subst (λ x. ArePlaced all x.stop_vertexs × AreKeyed x.stop_vertexs)
        (ok_same {r = ok s} refl e) h
  create_vertices-ArePlaced settings all (stop ∷ stops) s d among (placed, keyed) e =
      let (next, made, e1) = >>=-eq-ok (create_vertex R settings stop s) _ e in
      let (v, same) = create_vertex-vertexs R settings stop s next made in
      let (j, at) = among 0 stop refl in
      create_vertices-ArePlaced settings all stops next d (λ i. among (suc i))
        (subst (λ x. ArePlaced all x × AreKeyed x) same
          (
            ArePlaced-assign all j stop v s.stop_vertexs at placed,
            AreKeyed-assign stop.name v s.stop_vertexs keyed,
          ))
        e1

  -- The vertices are those of stops, and no name has two entries.
  pub create_graph-ArePlaced :
      (settings : RoutingSettings) (db : Catalogue R) (s : StopGraph R)
      → create_graph R settings db ≡ ok s
      → ArePlaced db.all_stops s.stop_vertexs × AreKeyed s.stop_vertexs
  unfolding create_graph
  create_graph-ArePlaced settings db s e =
      let (mid, made, e1) = >>=-eq-ok (create_vertices R settings db.all_stops _) _ e in
      create_edges-keeps R (λ x. ArePlaced db.all_stops x.stop_vertexs × AreKeyed x.stop_vertexs)
        (λ _. Unit) (λ _. Unit)
        (λ edge trip a b _ _ h added.
          subst (λ x. ArePlaced db.all_stops x × AreKeyed x)
            (add_trip-vertexs R edge trip a b added) h)
        settings db db.all_buses mid s (λ _ _ _. tt)
        (create_vertices-ArePlaced settings db.all_stops db.all_stops _ mid (λ i t at. (i, at))
          (tt, tt) made)
        e1
