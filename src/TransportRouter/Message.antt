-- ===== src/TransportRouter/Message.antt =====
-- How TransportSystem/transport_router.cpp saves the whole router and reads it back. A `map` field of
-- TransportSystem/transport_router.proto is an association list.
use transport_system.Prelude.{
  ℕ, ◌-◌, ◌%◌, Option, none, some, List, [], ◌∷◌, ◌++◌, Str, length, get_elem?, Result, ok,
  undefined, out_of_range, or_throw, ◌>>=◌, if◌then◌else◌, ◌==◌,
}
use transport_system.Real.{Real}
use transport_system.Domain.{Stop}
use transport_system.Catalogue.{TransportCatalogue, lookup, assign, find_stop, find_bus}
use transport_system.Router.{Table}
use transport_system.TransportRouter.{
  real_weight, ComponentTrip, RoutingSettings, VertexId, StopGraph,
}
use transport_system.TransportRouter.Proto.{
  uint32, ProtoGraph, ProtoRouteData, save_graph, save_router, load_graph, load_router,
}

pub record ProtoRoutingSettings : Type 0 where
  pub bus_wait_time : ℕ
  pub bus_velocity : ℕ

pub record ProtoVertexId : Type 0 where
  pub inner : ℕ
  pub outer : ℕ

pub record ProtoComponentTrip (D : Type 0) : Type 0 where
  pub name : Str
  pub weight : D
  pub span_count : Option ℕ

pub record ProtoTransportRouter (D : Type 0) : Type 0 where
  pub settings : ProtoRoutingSettings
  pub total_vertex : ℕ
  pub graph_of_stops : ProtoGraph D
  pub router : List (List (ProtoRouteData D))
  pub stop_vertexs : List (ℕ × ProtoVertexId)
  pub info_about_edge : List (ℕ × ProtoComponentTrip D)
  pub stops : List Str

-- `map[k] = a` for a key that is a number
unfoldable pub assign_number : {A : Type 0} → ℕ → A → List (ℕ × A) → List (ℕ × A)
assign_number k a [] = (k, a) ∷ []
assign_number k a ((j, b) ∷ xs) = if k == j then (j, a) ∷ xs else (j, b) ∷ assign_number k a xs

-- `SaveRoutingSettingsToProto`
unfoldable pub save_routing_settings : RoutingSettings → ProtoRoutingSettings
save_routing_settings s = record {
  bus_wait_time = uint32 s.bus_wait_time;
  bus_velocity = uint32 s.bus_velocity;
}

-- The first loop of `SaveToProto`, with the names of the message and the map so far.
unfoldable pub save_names :
    {D : Type 0} → List (Stop D) → List Str → List (Str × ℕ) → List Str × List (Str × ℕ)
unfolding assign
save_names [] result name_stops = (result, name_stops)
save_names (stop ∷ stops) result name_stops =
    let names = result ++ stop.name ∷ [] in
    save_names stops names (assign stop.name (uint32 (length names - 1)) name_stops)

unfoldable pub save_vertexs :
    List (Str × ℕ)
    → List (Str × VertexId)
    → List (ℕ × ProtoVertexId)
    → Result (List (ℕ × ProtoVertexId))
unfolding lookup assign_number
save_vertexs name_stops [] result = ok result
save_vertexs name_stops ((name, id) ∷ vertexs) result = do
  i ← or_throw out_of_range (lookup name name_stops)
  save_vertexs name_stops vertexs
      (assign_number i (record { inner = uint32 id.inner; outer = uint32 id.outer }) result)

unfoldable pub save_component : {D : Type 0} → ComponentTrip D → ProtoComponentTrip D
save_component component = record {
  name = component.name;
  weight = component.weight;
  span_count = elim component.span_count [ none ↦ none | some n ↦ some (uint32 n) ];
}

unfoldable pub save_info :
    {D : Type 0}
    → List (ℕ × ComponentTrip D)
    → List (ℕ × ProtoComponentTrip D)
    → List (ℕ × ProtoComponentTrip D)
unfolding assign_number save_component
save_info [] result = result
save_info ((id, component) ∷ info) result =
    save_info info (assign_number (uint32 id) (save_component component) result)

-- The members of `TransportRouter`
pub record RouterState (R : Real) : Type 0 where
  pub settings : RoutingSettings
  pub stop_graph : StopGraph R
  pub table : Table (real_weight R)

module _ (R : Real) where
  -- `TransportRouter::SaveToProto`
  unfoldable pub save_transport_router :
      TransportCatalogue R.Carrier → RouterState R → Result (ProtoTransportRouter R.Carrier)
  unfolding save_names save_routing_settings save_graph save_router save_vertexs save_info
  save_transport_router db r =
      let (stops, name_stops) = save_names db.all_stops [] [] in
      do
        vertexs ← save_vertexs name_stops r.stop_graph.stop_vertexs []
        ok (record {
          settings = save_routing_settings r.settings;
          total_vertex = uint32 r.stop_graph.total_vertex;
          graph_of_stops = save_graph (real_weight R) r.stop_graph.graph_of_stops;
          router = save_router (real_weight R) r.table;
          stop_vertexs = vertexs;
          info_about_edge = save_info r.stop_graph.info_about_edge [];
          stops = stops;
        })

  -- The loop over `proto_router.stop_vertexs_()`
  unfoldable pub load_vertexs :
      TransportCatalogue R.Carrier
      → List Str
      → List (ℕ × ProtoVertexId)
      → List (Str × VertexId)
      → Result (List (Str × VertexId))
  unfolding find_stop assign
  load_vertexs db stops [] result = ok result
  load_vertexs db stops ((place, id) ∷ vertexs) result = do
    name ← or_throw undefined (get_elem? stops place)
    stop ← find_stop db name
    load_vertexs db stops vertexs
        (assign stop.name (record { inner = id.inner; outer = id.outer }) result)

  unfoldable pub load_component :
      TransportCatalogue R.Carrier → ProtoComponentTrip R.Carrier → Result (ComponentTrip R.Carrier)
  unfolding find_stop find_bus
  load_component db component = elim component.span_count [
    | some n ↦ find_bus db component.name >>= λ bus.
        ok (record { name = bus.name; weight = component.weight; span_count = some n })
    | none ↦ find_stop db component.name >>= λ stop.
        ok (record { name = stop.name; weight = component.weight; span_count = none })
  ]

  -- The loop over `proto_router.info_about_edge()`
  unfoldable pub load_info :
      TransportCatalogue R.Carrier
      → List (ℕ × ProtoComponentTrip R.Carrier)
      → List (ℕ × ComponentTrip R.Carrier)
      → Result (List (ℕ × ComponentTrip R.Carrier))
  unfolding load_component assign_number
  load_info db [] result = ok result
  load_info db ((id, component) ∷ info) result = do
    loaded ← load_component db component
    load_info db info (assign_number id loaded result)

  -- `DeserializeTransportRouter`; the settings are `unsigned short`.
  unfoldable pub deserialize_transport_router :
      ProtoTransportRouter R.Carrier → TransportCatalogue R.Carrier → Result (RouterState R)
  unfolding load_graph load_router load_vertexs load_info
  deserialize_transport_router proto db = do
    vertexs ← load_vertexs db proto.stops proto.stop_vertexs []
    info ← load_info db proto.info_about_edge []
    ok (record {
      settings = record {
        bus_wait_time = proto.settings.bus_wait_time % 65536;
        bus_velocity = proto.settings.bus_velocity % 65536;
      };
      stop_graph = record {
        total_vertex = proto.total_vertex;
        graph_of_stops = load_graph (real_weight R) proto.graph_of_stops;
        stop_vertexs = vertexs;
        info_about_edge = info;
      };
      table = load_router (real_weight R) proto.router;
    })
