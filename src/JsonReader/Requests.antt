-- ===== src/JsonReader/Requests.antt =====
-- The requests that fill the catalogue: `JSON_BaseRequest` of TransportSystem/json_reader.cpp. The
-- result is the name of the file with the message that is written to it.
use transport_system.Prelude.{Option, [], ◌∷◌, ℤ, Str, codes, Result, ok, ◌>>=◌, if◌then◌else◌}
use transport_system.Real.{Real}
use transport_system.Json.{Node, Items, no_items, item, as_array, as_dict}
use transport_system.Json.Load.{load}
use transport_system.Catalogue.{Catalogue, empty_catalogue}
use transport_system.TransportRouter.{make_transport_router}
use transport_system.Serialization.{Common, serialization}
use transport_system.JsonReader.{
  at_key, require, is_text, serialization_settings, read_bus, read_stop,
}
use transport_system.JsonReader.Settings.{read_routing_settings, read_map_settings}

module _ (R : Real) where
  -- The first loop, which reads the buses and checks the key of every request.
  unfoldable pub read_buses : Items R.Carrier → Catalogue R → Result (Catalogue R)
  unfolding as_dict require at_key is_text read_bus
  read_buses no_items c = ok c
  read_buses (item description items) c = do
    fields ← as_dict description
    _ ← require (codes "type" ∷ []) fields
    type' ← at_key fields (codes "type")
    next ← if is_text (codes "Bus") type' then read_bus R description c else ok c
    read_buses items next

  -- The second loop, which reads the stops.
  unfoldable pub read_stops : Items R.Carrier → Catalogue R → Result (Catalogue R)
  unfolding as_dict at_key is_text read_stop
  read_stops no_items c = ok c
  read_stops (item description items) c = do
    fields ← as_dict description
    type' ← at_key fields (codes "type")
    next ← if is_text (codes "Stop") type' then read_stop R description c else ok c
    read_stops items next

  unfoldable pub base_request : Node R.Carrier → Catalogue R → Result (Str × Common R.Carrier)
  unfolding as_dict at_key serialization_settings as_array read_buses read_stops
      read_routing_settings make_transport_router read_map_settings serialization
  base_request query c = do
    fields ← as_dict query
    file ← at_key fields (codes "serialization_settings") >>= serialization_settings
    descriptions ← at_key fields (codes "base_requests") >>= as_array
    with_buses ← read_buses descriptions c
    with_stops ← read_stops descriptions with_buses
    settings ← at_key fields (codes "routing_settings") >>= read_routing_settings
    (stop_graph, table) ← make_transport_router R settings with_stops
    map_render ← at_key fields (codes "render_settings") >>= read_map_settings R
    message ←
        serialization R with_stops map_render
          (record { settings = settings; stop_graph = stop_graph; table = table })
    ok (file, message)

  -- `Creator::InitializeCatalogue` on the text of the stream.
  unfoldable pub initialize_catalogue :
      (Str → Option ℤ) → (Str → Option R.Carrier) → Str → Result (Str × Common R.Carrier)
  unfolding load base_request empty_catalogue
  initialize_catalogue stoi stod input = do
    (query, _) ← load stoi stod input
    base_request query empty_catalogue
