-- ===== src/JsonReader/Statistics.antt =====
-- The requests about a saved catalogue: `JSON_StatRequest` of TransportSystem/json_reader.cpp. The
-- content of the file is an argument, `none` where protobuf cannot parse it; `compute_distance`,
-- `std::stoi`, `std::stod` and how numbers are written are arguments too.
use transport_system.Prelude.{
  ℕ, Option, [], ◌∷◌, ℤ, Str, codes, Result, ok, ◌>>=◌, if◌then◌else◌, str_eq,
}
use transport_system.Real.{Real, of_nat}
use transport_system.Domain.{Coordinates}
use transport_system.Svg.{monostate}
use transport_system.Json.{
  Node, Items, Fields, array, no_items, item, as_int, as_array, as_string, as_dict, push_back,
}
use transport_system.Json.Load.{load}
use transport_system.Json.Print.{print}
use transport_system.Catalogue.{Catalogue, empty_catalogue}
use transport_system.Catalogue.Info.{get_info_stop}
use transport_system.MapRenderer.{MapSettings}
use transport_system.Serialization.{Common, Restored, deserialization}
use transport_system.RequestHandler.{render_map, get_route_stat, get_bus_stat}
use transport_system.JsonReader.{at_key, require, serialization_settings}
use transport_system.JsonReader.Responses.{
  response_bus, response_stop, response_map, response_route,
}

module _ {D : Type 0} where
  abbrev pub text_at : Fields D → Str → Result Str
  text_at request key = at_key request key >>= as_string

  abbrev pub id_of : Fields D → Result ℤ
  id_of request = at_key request (codes "id") >>= as_int

module _ (R : Real) (compute_distance : Coordinates R.Carrier → Coordinates R.Carrier → R.Carrier)
    (show_unsigned : ℕ → Str) (show_int : ℤ → Str) (show_double : R.Carrier → Str) (fuel : ℕ) where
  unfoldable pub answer_bus : Restored R → Fields R.Carrier → Result (Node R.Carrier)
  unfolding require at_key as_string as_int get_bus_stat response_bus
  answer_bus state request = do
    _ ← require (codes "name" ∷ []) request
    name ← text_at request (codes "name")
    bus_info ← get_bus_stat R compute_distance state.db name
    id ← id_of request
    response_bus bus_info id

  unfoldable pub answer_stop : Restored R → Fields R.Carrier → Result (Node R.Carrier)
  unfolding require at_key as_string as_int get_info_stop response_stop
  answer_stop state request = do
    _ ← require (codes "name" ∷ []) request
    name ← text_at request (codes "name")
    id ← id_of request
    response_stop (get_info_stop state.db name) id

  unfoldable pub answer_map : Restored R → Fields R.Carrier → Result (Node R.Carrier)
  unfolding at_key as_int render_map response_map
  answer_map state request = do
    map ← render_map R state.db state.map_render
    id ← id_of request
    ok (response_map show_unsigned show_double map id)

  unfoldable pub answer_route : Restored R → Fields R.Carrier → Result (Node R.Carrier)
  unfolding at_key as_string as_int get_route_stat response_route
  answer_route state request = do
    from ← text_at request (codes "from")
    to ← text_at request (codes "to")
    id ← id_of request
    info ← get_route_stat R state.router fuel from to
    response_route info id

  -- One round of the loop of `JSON_StatRequest`, with what is answered so far. The tests of the type
  -- exclude one another; another type is passed over.
  unfoldable pub answer : Restored R → Node R.Carrier → Items R.Carrier → Result (Items R.Carrier)
  unfolding as_dict require at_key as_string answer_bus answer_stop answer_map answer_route
  answer state node result = do
    request ← as_dict node
    _ ← require (codes "type" ∷ codes "id" ∷ []) request
    type' ← text_at request (codes "type")
    if str_eq type' (codes "Bus")
        then (answer_bus state request >>= λ response. ok (push_back result response))
        else if str_eq type' (codes "Stop")
        then (answer_stop state request >>= λ response. ok (push_back result response))
        else if str_eq type' (codes "Map")
        then (answer_map state request >>= λ response. ok (push_back result response))
        else if str_eq type' (codes "Route")
        then (answer_route state request >>= λ response. ok (push_back result response))
        else ok result

  unfoldable pub answer_all :
      Restored R → Items R.Carrier → Items R.Carrier → Result (Items R.Carrier)
  unfolding answer
  answer_all state no_items result = ok result
  answer_all state (item request requests) result =
      answer state request result >>= answer_all state requests

  -- `file` gives the message that a file holds. The catalogue and the settings of the map are those
  -- that the reader has before.
  unfoldable pub stat_request :
      (Str → Option (Common R.Carrier))
      → Catalogue R
      → MapSettings R.Carrier
      → Node R.Carrier
      → Result Str
  unfolding as_dict at_key serialization_settings deserialization as_array answer_all print
  stat_request file catalogue map_render query = do
    fields ← as_dict query
    name ← at_key fields (codes "serialization_settings") >>= serialization_settings
    state ← deserialization R (file name) catalogue map_render
    requests ← at_key fields (codes "stat_requests") >>= as_array
    result ← answer_all state requests no_items
    ok (print show_int show_double (array result))

  -- `MapSettings` as it is by default
  unfoldable pub default_settings : MapSettings R.Carrier
  default_settings =
      let zero_value = of_nat R 0 in
      record {
        size = record { width = zero_value; height = zero_value; padding = zero_value };
        element_size = record { line_width = zero_value; stop_radius = zero_value };
        bus_label = record { font_size = ℤ.pos 0; offset = (zero_value, zero_value) };
        stop_label = record { font_size = ℤ.pos 0; offset = (zero_value, zero_value) };
        underlayer_color = monostate;
        underlayer_width = zero_value;
        color_palette = [];
      }

  -- `Creator::ExecutingRequests` on the text of the stream: the text that it writes.
  unfoldable pub executing_requests :
      (Str → Option ℤ)
      → (Str → Option R.Carrier)
      → (Str → Option (Common R.Carrier))
      → Str
      → Result Str
  unfolding load stat_request empty_catalogue default_settings
  executing_requests stoi stod file input = do
    (query, _) ← load stoi stod input
    stat_request file empty_catalogue default_settings query
