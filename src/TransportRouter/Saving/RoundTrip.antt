-- ===== src/TransportRouter/Saving/RoundTrip.antt =====
-- The catalogue and the router of TransportSystem/serialization.cpp, saved and read back: what
-- `GetRouteInfo` of TransportSystem/transport_router.cpp then answers.
use transport_system.Prelude.{
  ℕ, ◌≤◌, ◌≡◌, refl, ok, none, some, length, get_elem?, >>=-of_ok, Str, or_throw, logic_error,
  out_of_range, ◌>>=◌,
}
use transport_system.Real.{Real}
use transport_system.Domain.{Stop, Bus, deref}
use transport_system.Router.{Table, build_route}
use transport_system.Catalogue.{Catalogue, find_stop, lookup}
use transport_system.Catalogue.Names.{find_bus-IsBuilt}
use transport_system.Catalogue.Reachable.{IsBuilt, IsBuilt→IsSound}
use transport_system.Catalogue.Saving.{IsIndexed→AreUnique}
use transport_system.TransportRouter.{
  real_weight, RoutingSettings, StopGraph, make_transport_router, get_route_info, add_items,
}
use transport_system.TransportRouter.Proto.{save_graph, load_graph, save_router, load_router}
use transport_system.TransportRouter.Message.{
  ProtoTransportRouter, RouterState, save_transport_router, deserialize_transport_router,
}
use transport_system.TransportRouter.Quickest.{make_transport_router-eq-ok, no_trip}
use transport_system.TransportRouter.Saving.{RowsAreUint32, TableFits, FromsFit}
use transport_system.TransportRouter.Saving.Trips.{
  IsStopName, IsBusName, TripsFit, load_info-save_info,
}
use transport_system.TransportRouter.Saving.Vertices.{VertexsFit, load_vertexs-save_vertexs}
use transport_system.TransportRouter.Saving.Members.{create_graph-AreTrips, create_graph-ArePlaced}
use transport_system.TransportRouter.Saving.Routes.{build_route-load}

module _ (R : Real) where
  -- The numbers of a router that fit the fields of its messages.
  pub record RouterFits (s : StopGraph R) (t : Table (real_weight R)) : Type 0 where
    pub froms : FromsFit (real_weight R) s.graph_of_stops.edges
    pub rows : RowsAreUint32 s.graph_of_stops.incidence_lists
    pub table : TableFits (real_weight R) t
    pub vertexs : VertexsFit s.stop_vertexs
    pub trips : TripsFit s.info_about_edge

  stop-IsStopName :
      (d : Catalogue R) (i : ℕ) (stop : Stop R.Carrier)
      → IsBuilt R d
      → get_elem? d.all_stops i ≡ some stop
      → IsStopName R d stop.name
  unfolding find_stop deref
  stop-IsStopName d i stop built at =
      let listed = (IsBuilt→IsSound R d built).indexed.stops_listed i stop at in
      (stop, rw (listed, at) refl, refl)

  -- The router of the catalogue is written, and the message is read on a catalogue with the same
  -- stops and buses.
  deserialize-save_router :
      (settings : RoutingSettings) (c d : Catalogue R) (s : StopGraph R) (t : Table (real_weight R))
      → IsBuilt R c
      → IsBuilt R d
      → d.all_stops ≡ c.all_stops
      → d.all_buses ≡ c.all_buses
      → length c.all_stops ≤ 4294967296
      → make_transport_router R settings c ≡ ok (s, t)
      → RouterFits s t
      → (message : ProtoTransportRouter R.Carrier) × (r : RouterState R) × (save_transport_router R
            c
            (record { settings = settings; stop_graph = s; table = t })
          ≡ ok message)
        × (deserialize_transport_router R message d ≡ ok r)
        × (r.stop_graph.stop_vertexs ≡ s.stop_vertexs)
        × (r.stop_graph.info_about_edge ≡ s.info_about_edge)
        × (r.stop_graph.graph_of_stops
            ≡ load_graph (real_weight R) (save_graph (real_weight R) s.graph_of_stops))
        × (r.table ≡ load_router (real_weight R) (save_router (real_weight R) t))
  unfolding save_transport_router deserialize_transport_router
  deserialize-save_router settings c d s t built restored stops buses few made fits =
      let (created, _) = make_transport_router-eq-ok R settings c s t made in
      let stop_named : (i : ℕ) (a : Stop R.Carrier)
          → get_elem? c.all_stops i ≡ some a
          → IsStopName R d a.name =
        λ i a at. stop-IsStopName d i a restored (rw stops at) in
      let bus_named : (i : ℕ) (b : Bus) → get_elem? c.all_buses i ≡ some b → IsBusName R d b.name =
        λ i b at. find_bus-IsBuilt R d i b restored (rw buses at) in
      let trips = create_graph-AreTrips R d settings c s stop_named bus_named created in
      let (placed, keyed) = create_graph-ArePlaced R settings c s created in
      let unique = IsIndexed→AreUnique c (IsBuilt→IsSound R c built).indexed in
      let (ps, saves, loads) =
        load_vertexs-save_vertexs R d c.all_stops stop_named s.stop_vertexs unique few placed keyed
          fits.vertexs in
      let info = load_info-save_info R d s.info_about_edge trips fits.trips in
      (
        _,
        _,
        >>=-of_ok _ saves refl,
        >>=-of_ok _ loads (>>=-of_ok _ info refl),
        refl,
        refl,
        refl,
        refl,
      )

  -- GetRouteInfo reads no more of the graph and the table than BuildRoute does.
  get_route_info-same :
      (s r : StopGraph R) (t u : Table (real_weight R)) (fuel : ℕ) (from to : Str)
      → r.stop_vertexs ≡ s.stop_vertexs
      → r.info_about_edge ≡ s.info_about_edge
      → ((a b : ℕ)
          → build_route (real_weight R) r.graph_of_stops u fuel a b
            ≡ build_route (real_weight R) s.graph_of_stops t fuel a b)
      → get_route_info R r u fuel from to ≡ get_route_info R s t fuel from to
  unfolding get_route_info
  get_route_info-same s r t u fuel from to vertexs info routes = λ i.
      or_throw logic_error (lookup from (vertexs i)) >>= λ start.
      or_throw out_of_range (lookup to (vertexs i)) >>= λ end'.
      routes start.inner end'.inner i >>= λ route. elim route [
        | none ↦ ok none
        | some found ↦ add_items R (info i) found.edges (no_trip R) >>= λ trip. ok (some trip)
      ]

  -- The router gives the same results as the graph and the table.
  abbrev pub AnswersAs : StopGraph R → Table (real_weight R) → RouterState R → Type 0
  AnswersAs s t r =
      (fuel : ℕ) (from to : Str)
      → get_route_info R r.stop_graph r.table fuel from to ≡ get_route_info R s t fuel from to

  -- The router of a catalogue that was built, of at most 2 ^ 32 stops, whose numbers fit its message,
  -- is saved without an exception. It is read back without an exception on a catalogue that was built
  -- and has the same stops and buses, and the router that is read gives the same result for every
  -- GetRouteInfo.
  pub deserialize-save_transport_router :
      (settings : RoutingSettings) (c d : Catalogue R) (s : StopGraph R) (t : Table (real_weight R))
      → IsBuilt R c
      → IsBuilt R d
      → d.all_stops ≡ c.all_stops
      → d.all_buses ≡ c.all_buses
      → length c.all_stops ≤ 4294967296
      → make_transport_router R settings c ≡ ok (s, t)
      → RouterFits s t
      → (message : ProtoTransportRouter R.Carrier) × (r : RouterState R) × (save_transport_router R
            c
            (record { settings = settings; stop_graph = s; table = t })
          ≡ ok message)
        × (deserialize_transport_router R message d ≡ ok r)
        × AnswersAs s t r
  deserialize-save_transport_router settings c d s t built restored stops buses few made fits =
      let (message, r, saves, loads, vertexs, info, graph, table) =
        deserialize-save_router settings c d s t built restored stops buses few made fits in
      (
        message,
        r,
        saves,
        loads,
        λ fuel from to.
            get_route_info-same s r.stop_graph t r.table fuel from to vertexs info (λ a b.
              rw (graph, table)
                (build_route-load (real_weight R) s.graph_of_stops t fuel a b fits.froms fits.rows
                  fits.table)),
      )
