-- ===== src/TransportRouter/Quickest.antt =====
-- `GetRouteInfo` of TransportSystem/transport_router.cpp on what the constructor made.
use transport_system.Prelude.{
  ℕ, ◌+◌, ◌≤◌, ◌≡◌, refl, ap, ◌∙◌, none, some, List, [], ◌∷◌, ◌++◌, inl, inr, ◌⊎◌, length, Str, ok,
  or_throw, out_of_range, >>=-eq-ok, ok_same,
}
use transport_system.Real.{Real, of_nat}
use transport_system.Weight.{Le, IsOrdered}
use transport_system.Graph.{get_vertex_count}
use transport_system.Router.{Table, make_router}
use transport_system.Router.Walks.{Walk, here, step}
use transport_system.Router.Shortest.{route_fuel, build_route_decides, build_route_shortest}
use transport_system.Catalogue.{TransportCatalogue, lookup}
use transport_system.TransportRouter.{
  real_weight, ComponentTrip, Trip, RoutingSettings, VertexId, StopGraph, find_info, add_items,
  create_graph, make_transport_router, get_route_info,
}
use transport_system.TransportRouter.Sound.{create_graph-IsWellFormed, create_graph-inside}
use transport_system.TransportRouter.Trips.{IsDescribed, create_graph-IsDescribed}

module _ (R : Real) where
  -- The items are the parts of a trip for these edges, in this order.
  abbrev pub AreItems :
      List (ℕ × ComponentTrip R.Carrier) → List ℕ → List (ComponentTrip R.Carrier) → Type 0
  AreItems info [] [] = Unit
  AreItems info [] (item ∷ items) = ⊥
  AreItems info (id ∷ ids) [] = ⊥
  AreItems info (id ∷ ids) (item ∷ items) =
      (find_info id info ≡ some item) × AreItems info ids items

  AreItems-append :
      (info : List (ℕ × ComponentTrip R.Carrier)) (ids : List ℕ)
      (items : List (ComponentTrip R.Carrier)) (id : ℕ) (item : ComponentTrip R.Carrier)
      → AreItems info ids items
      → find_info id info ≡ some item
      → AreItems info (ids ++ id ∷ []) (items ++ item ∷ [])
  AreItems-append info [] [] id item h e = (e, tt)
  AreItems-append info [] (i ∷ items) id item h e = elim h [ ]
  AreItems-append info (j ∷ ids) [] id item h e = elim h [ ]
  AreItems-append info (j ∷ ids) (i ∷ items) id item h e =
      (h.0, AreItems-append info ids items id item h.1 e)

  add_items-append :
      (info : List (ℕ × ComponentTrip R.Carrier)) (ids more : List ℕ) (trip done : Trip R.Carrier)
      → add_items R info ids trip ≡ ok done
      → add_items R info (ids ++ more) trip ≡ add_items R info more done
  unfolding add_items
  add_items-append info [] more trip done e = rw (ok_same {r = ok trip} refl e) refl
  add_items-append info (id ∷ ids) more trip done e =
      let (item, found, rest) = >>=-eq-ok (or_throw out_of_range (find_info id info)) _ e in
      rw found (add_items-append info ids more _ done rest)

  abbrev pub no_trip : Trip R.Carrier
  no_trip = record { items = []; total_time = of_nat R 0 }

  -- The parts of a trip along a walk take as long as the walk weighs.
  add_items-Walk :
      (s : StopGraph R) (source : ℕ) {ids : List ℕ} {u : ℕ} {x : R.Carrier}
      → IsDescribed R s
      → Walk (real_weight R) s.graph_of_stops source ids u x
      → (trip : Trip R.Carrier) × (add_items R s.info_about_edge ids no_trip ≡ ok trip)
        × AreItems s.info_about_edge ids trip.items
        × (trip.total_time ≡ x)
  unfolding add_items
  add_items-Walk s source h here = (no_trip, refl, tt, refl)
  add_items-Walk s source h (step {ids} walk id e at_id leaves) =
      let (trip, returns, items, total) = add_items-Walk s source h walk in
      let (item, found, same) = h.described id e at_id in
      (
        record { items = trip.items ++ item ∷ []; total_time = R.add trip.total_time item.weight },
        add_items-append s.info_about_edge ids (id ∷ []) no_trip trip returns ∙ rw found refl,
        AreItems-append s.info_about_edge ids trip.items id item items found,
        rw (total, same) refl,
      )

  pub make_transport_router-eq-ok :
      (settings : RoutingSettings) (db : TransportCatalogue R.Carrier) (s : StopGraph R)
      (t : Table (real_weight R))
      → make_transport_router R settings db ≡ ok (s, t)
      → (create_graph R settings db ≡ ok s) × (make_router (real_weight R) s.graph_of_stops ≡ ok t)
  unfolding make_transport_router
  make_transport_router-eq-ok settings db s t made =
      let (g, created, e1) = >>=-eq-ok (create_graph R settings db) _ made in
      let (table, routed, e2) = >>=-eq-ok (make_router (real_weight R) g.graph_of_stops) _ e1 in
      let same = ok_same {r = ok (g, table)} refl e2 in
      let same_graph : g ≡ s = ap (λ x. x.0) same in
      let same_table : table ≡ t = ap (λ x. x.1) same in
      (rw same_graph at created, rw (same_graph, same_table) at routed)

  -- A trip along a walk between the vertices that takes no longer than any other walk, or nothing
  -- where no walk leads from the one to the other.
  abbrev pub IsQuickest :
      StopGraph R → Table (real_weight R) → ℕ → Str → Str → VertexId → VertexId → Type 0
  IsQuickest s t fuel from to start end' =
      ((trip : Trip R.Carrier) × (ids : List ℕ) × (get_route_info R s t fuel from to
          ≡ ok (some trip))
        × Walk (real_weight R) s.graph_of_stops start.inner ids end'.inner trip.total_time
        × AreItems s.info_about_edge ids trip.items
        × ((other : List ℕ) (x : R.Carrier)
            → Walk (real_weight R) s.graph_of_stops start.inner other end'.inner x
            → Le (real_weight R) trip.total_time x))
      ⊎ (get_route_info R s t fuel from to ≡ ok none)
        × ¬ (
            (ids : List ℕ) × (x : R.Carrier) × Walk (real_weight R) s.graph_of_stops start.inner ids
              end'.inner x)

  module _ (O : IsOrdered (real_weight R)) (settings : RoutingSettings)
      (db : TransportCatalogue R.Carrier) (s : StopGraph R) (t : Table (real_weight R))
      (made : make_transport_router R settings db ≡ ok (s, t)) (fuel : ℕ)
      (enough : route_fuel (length db.all_stops + length db.all_stops) ≤ fuel) (from to : Str)
      (start end' : VertexId) (from_at : lookup from s.stop_vertexs ≡ some start)
      (to_at : lookup to s.stop_vertexs ≡ some end') where
    -- Between two stops that are known, GetRouteInfo returns a trip or nothing. The parts of a trip
    -- are those of the edges of a walk between the stops, its time is the sum of theirs, and no walk
    -- between the stops takes less. Nothing is returned only if there is no walk.
    pub get_route_info-IsQuickest : IsQuickest s t fuel from to start end'
    unfolding get_route_info
    get_route_info-IsQuickest =
        let (created, routed) = make_transport_router-eq-ok settings db s t made in
        let (wf, count) = create_graph-IsWellFormed R settings db s created in
        let described = create_graph-IsDescribed R settings db s created in
        let (start_lt, _) = create_graph-inside R settings db s from start created from_at in
        let (end_lt, _) = create_graph-inside R settings db s to end' created to_at in
        let enough' : route_fuel (get_vertex_count (real_weight R) s.graph_of_stops) ≤ fuel =
          rw count enough in
        elim (build_route_decides (real_weight R) O s.graph_of_stops wf t routed fuel enough'
          start.inner end'.inner start_lt end_lt) [
            | inl (r, run, walk) ↦
                let (trip, returns, items, total) = add_items-Walk s start.inner described walk in
                inl (
                  trip,
                  r.edges,
                  rw (from_at, to_at, run, returns) refl,
                  rw total walk,
                  items,
                  λ other x leads.
                      let (best, again, _, least) =
                        build_route_shortest (real_weight R) O s.graph_of_stops wf t routed fuel
                          enough' start.inner end'.inner start_lt end_lt leads in
                      let same : r ≡ best = cc (run, again) in rw (total, same) least,
                )
            | inr (run, none_leads) ↦ inr (rw (from_at, to_at, run) refl, none_leads)
          ]
