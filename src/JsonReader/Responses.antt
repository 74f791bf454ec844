-- ===== src/JsonReader/Responses.antt =====
-- The answers to the requests: `JSON_ResponseRequestBus` and the like of
-- TransportSystem/json_reader.cpp. The copy of the map in the file map.svg is left out.
use transport_system.Prelude.{
  ℕ, Option, none, some, List, [], ◌∷◌, ℤ, Str, codes, Result, ok, ◌>>=◌, if◌then◌else◌,
}
use transport_system.Domain.{StopInfo, BusInfo}
use transport_system.Json.{Node, dict, int, double, string, no_fields, emplace}
use transport_system.Json.Builder.{
  Builder, new_builder, value, key, start_array, start_dict, end_array, end_dict, build,
}
use transport_system.Svg.{Document}
use transport_system.Svg.Render.{render}
use transport_system.TransportRouter.{ComponentTrip, Trip}
use transport_system.Catalogue.Info.{to_int}
use transport_system.Catalogue.Proto.{uint32}

-- `static_cast<int>` of a count
unfoldable pub to_count : ℕ → ℤ
to_count n = to_int (uint32 n)

module _ {D : Type 0} where
  -- `.Key(name).Value(node)`
  unfoldable pub entry : Str → Node D → Builder D → Result (Builder D)
  unfolding key value
  entry name node b = key name b >>= value node

  -- `.EndDict().Build()`
  unfoldable pub finish : Builder D → Result (Node D)
  unfolding end_dict build
  finish b = end_dict b >>= build

  -- `JSON_ResponseRequestBus`
  unfoldable pub response_bus : BusInfo D ℤ → ℤ → Result (Node D)
  unfolding new_builder start_dict entry finish
  response_bus bus_info id =
      if bus_info.exists'
      then start_dict new_builder
        >>= entry (codes "curvature") (double bus_info.curvature)
        >>= entry (codes "request_id") (int id)
        >>= entry (codes "route_length") (double bus_info.route_length)
        >>= entry (codes "stop_count") (int bus_info.quantity_stop)
        >>= entry (codes "unique_stop_count") (int bus_info.unique_stops)
        >>= finish
      else start_dict new_builder
        >>= entry (codes "request_id") (int id)
        >>= entry (codes "error_message") (string (codes "not found"))
        >>= finish

  unfoldable pub add_names : List Str → Builder D → Result (Builder D)
  unfolding value
  add_names [] b = ok b
  add_names (bus ∷ buses) b = value (string bus) b >>= add_names buses

  -- `JSON_ResponseRequestStop` on what `GetInfoStop` returns
  unfoldable pub response_stop : StopInfo → ℤ → Result (Node D)
  unfolding new_builder start_dict key start_array add_names end_array entry finish
  response_stop stop_info id =
      if stop_info.exists'
      then start_dict new_builder
        >>= key (codes "buses")
        >>= start_array
        >>= add_names stop_info.buses
        >>= end_array
        >>= entry (codes "request_id") (int id)
        >>= finish
      else start_dict new_builder
        >>= entry (codes "error_message") (string (codes "not found"))
        >>= entry (codes "request_id") (int id)
        >>= finish

  -- `JSON_ResponseRequesMap`; how numbers are written is an argument.
  unfoldable pub response_map : (ℕ → Str) → (D → Str) → Document D → ℤ → Node D
  unfolding render
  response_map show_unsigned show_double map id = dict (
      emplace (codes "request_id") (int id)
        (emplace (codes "map") (string (render show_unsigned show_double map)) no_fields))

  -- One round of the loop of `JSON_ResponseRequesRouter`.
  unfoldable pub add_item : ComponentTrip D → Builder D → Result (Builder D)
  unfolding start_dict entry end_dict to_count
  add_item item b = elim item.span_count [
    | some count ↦
        start_dict b
        >>= entry (codes "bus") (string item.name)
        >>= entry (codes "time") (double item.weight)
        >>= entry (codes "type") (string (codes "Bus"))
        >>= entry (codes "span_count") (int (to_count count))
        >>= end_dict
    | none ↦
        start_dict b
        >>= entry (codes "stop_name") (string item.name)
        >>= entry (codes "time") (double item.weight)
        >>= entry (codes "type") (string (codes "Wait"))
        >>= end_dict
  ]

  unfoldable pub add_trip_items : List (ComponentTrip D) → Builder D → Result (Builder D)
  unfolding add_item
  add_trip_items [] b = ok b
  add_trip_items (item ∷ items) b = add_item item b >>= add_trip_items items

  -- `JSON_ResponseRequesRouter` on what `GetRouteStat` returns
  unfoldable pub response_route : Option (Trip D) → ℤ → Result (Node D)
  unfolding new_builder start_dict key start_array add_trip_items end_array entry finish
  response_route none id =
      start_dict new_builder
      >>= entry (codes "error_message") (string (codes "not found"))
      >>= entry (codes "request_id") (int id)
      >>= finish
  response_route (some info) id =
      start_dict new_builder
      >>= key (codes "items")
      >>= start_array
      >>= add_trip_items info.items
      >>= end_array
      >>= entry (codes "request_id") (int id)
      >>= entry (codes "total_time") (double info.total_time)
      >>= finish
