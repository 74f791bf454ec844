-- ===== src/Tests/Requests.antt =====
-- Requests (TransportSystem/json_reader.cpp, TransportSystem/request_handler.cpp).
use transport_system.Prelude.{
  ℕ, ◌≡◌, arith, refl, true, false, none, some, [], ◌∷◌, pos, ℤ, Str, codes, ok,
}
use transport_system.Json.{
  Node, Fields, array, dict, bool, int, string, no_items, item, no_fields, field,
}
use transport_system.Domain.{BusInfo}
use transport_system.Catalogue.{empty_catalogue}
use transport_system.JsonReader.Requests.{base_request}
use transport_system.Graph.{get_vertex_count, get_edge, get_incident_edges}
use transport_system.Router.{
  make_router, initialize_from, initialize_vertex, initialize_edges, initialize_edge, set_cell,
  blank_table, relax_all, relax_through, relax_sources, relax_source, relax_targets, relax_target,
  relax_route,
}
use transport_system.Serialization.{Common}
use transport_system.MapRenderer.Proto.{proto_rgba, proto_str}
use transport_system.Svg.{named, rgba}
use transport_system.MapRenderer.{MapSettings}
use transport_system.TransportRouter.{Trip}
use transport_system.JsonReader.Settings.{read_routing_settings, read_map_settings}
use transport_system.JsonReader.Documents.{
  routing_document, map_document, read_routing_settings-document, read_map_settings-document,
}
use transport_system.JsonReader.Responses.{response_bus, response_stop, response_route}
use transport_system.JsonReader.Answers.{
  bus_answer, stop_answer, route_answer, response_bus_lem, response_stop_lem, response_route_lem,
}
use transport_system.Tests.Network.{naturals}

abbrev of_number : ℕ → Node ℕ
of_number n = int (pos n)

abbrev bus_request : Node ℕ
bus_request = dict (
    field (codes "type") (string (codes "Bus")) (
      field (codes "name") (string (codes "750")) (
        field (codes "stops")
          (array (item (string (codes "A")) (item (string (codes "B")) no_items)))
          (field (codes "is_roundtrip") (bool false) no_fields))))

abbrev stop_request : Str → ℕ → Fields ℕ → Node ℕ
stop_request name latitude distances = dict (
    field (codes "type") (string (codes "Stop")) (
      field (codes "name") (string name) (
        field (codes "latitude") (of_number latitude) (
          field (codes "longitude") (of_number 37)
            (field (codes "road_distances") (dict distances) no_fields)))))

abbrev routing : Node ℕ
routing = dict (
    field (codes "bus_wait_time") (of_number 6)
      (field (codes "bus_velocity") (of_number 40) no_fields))

abbrev offset : Node ℕ
offset = array (item (of_number 7) (item (of_number 15) no_items))

abbrev white : Node ℕ
white = array (
    item (of_number 255)
      (item (of_number 255) (item (of_number 255) (item (of_number 1) no_items))))

abbrev rendering : Node ℕ
rendering = dict (
    field (codes "width") (of_number 1200) (
      field (codes "height") (of_number 500) (
        field (codes "padding") (of_number 50) (
          field (codes "line_width") (of_number 14) (
            field (codes "stop_radius") (of_number 5) (
              field (codes "bus_label_font_size") (of_number 20) (
                field (codes "bus_label_offset") offset (
                  field (codes "stop_label_font_size") (of_number 18) (
                    field (codes "stop_label_offset") offset (
                      field (codes "underlayer_width") (of_number 3) (
                        field (codes "underlayer_color") white (
                          field (codes "color_palette")
                            (array (item (string (codes "green")) no_items)) no_fields))))))))))))

abbrev query : Node ℕ
query = dict (
    field (codes "serialization_settings")
      (dict (field (codes "file") (string (codes "db")) no_fields))
      (field (codes "routing_settings") routing (
        field (codes "render_settings") rendering (
          field (codes "base_requests")
            (array (
              item bus_request (
                item (stop_request (codes "A") 55 (field (codes "B") (of_number 80000) no_fields))
                  (item (stop_request (codes "B") 56 no_fields) no_items))))
            no_fields))))

abbrev message : Common ℕ
message = record {
  map_settings = record {
    size = record { width = 1200; height = 500; padding = 50 };
    element_size = record { line_width = 14; stop_radius = 5 };
    bus_label = record { font_size = pos 20; offset = 7 ∷ 15 ∷ [] };
    stop_label = record { font_size = pos 18; offset = 7 ∷ 15 ∷ [] };
    underlayer_color = proto_rgba record { red = 255; green = 255; blue = 255; opacity = 1 };
    underlayer_width = 3;
    color_palette = proto_str (codes "green") ∷ [];
  };
  catalogue = record {
    stops =
        record { name = codes "A"; coordinates = record { lat = 55; lng = 37 } }
        ∷ record { name = codes "B"; coordinates = record { lat = 56; lng = 37 } }
        ∷ [];
    buses = record { is_loop = false; name = codes "750"; stops = 0 ∷ 1 ∷ [] } ∷ [];
    length_between_stops = record { from = 0; to = 1; length' = 80000 } ∷ [];
  };
  router = record {
    settings = record { bus_wait_time = 6; bus_velocity = 40 };
    total_vertex = 4;
    graph_of_stops = record {
      edges =
          record { from = 0; to = 0; weight = 6 }
          ∷ record { from = 2; to = 2; weight = 6 }
          ∷ record { from = 1; to = 1; weight = 120 }
          ∷ record { from = 3; to = 3; weight = 120 }
          ∷ [];
      incidence_lists = (0 ∷ []) ∷ (2 ∷ []) ∷ (1 ∷ []) ∷ (3 ∷ []) ∷ [];
    };
    router =
        (record { is_initialisation = true; weight = 0; prev_edge = none }
          ∷ record { is_initialisation = true; weight = 6; prev_edge = some 0 }
          ∷ record { is_initialisation = true; weight = 126; prev_edge = some 2 }
          ∷ record { is_initialisation = true; weight = 132; prev_edge = some 1 }
          ∷ [])
        ∷ (record { is_initialisation = true; weight = 246; prev_edge = some 3 }
            ∷ record { is_initialisation = true; weight = 0; prev_edge = none }
            ∷ record { is_initialisation = true; weight = 120; prev_edge = some 2 }
            ∷ record { is_initialisation = true; weight = 126; prev_edge = some 1 }
            ∷ [])
        ∷ (record { is_initialisation = true; weight = 126; prev_edge = some 3 }
            ∷ record { is_initialisation = true; weight = 132; prev_edge = some 0 }
            ∷ record { is_initialisation = true; weight = 0; prev_edge = none }
            ∷ record { is_initialisation = true; weight = 6; prev_edge = some 1 }
            ∷ [])
        ∷ (record { is_initialisation = true; weight = 120; prev_edge = some 3 }
            ∷ record { is_initialisation = true; weight = 126; prev_edge = some 0 }
            ∷ record { is_initialisation = true; weight = 246; prev_edge = some 2 }
            ∷ record { is_initialisation = true; weight = 0; prev_edge = none }
            ∷ [])
        ∷ [];
    stop_vertexs = (0, record { inner = 0; outer = 1 }) ∷ (1, record { inner = 2; outer = 3 }) ∷ [];
    info_about_edge =
        (0, record { name = codes "A"; weight = 6; span_count = none })
        ∷ (1, record { name = codes "B"; weight = 6; span_count = none })
        ∷ (2, record { name = codes "750"; weight = 120; span_count = some 1 })
        ∷ (3, record { name = codes "750"; weight = 120; span_count = some 1 })
        ∷ [];
    stops = codes "A" ∷ codes "B" ∷ [];
  };
}

answered : base_request naturals query empty_catalogue ≡ ok (codes "db", message)
unfolding base_request empty_catalogue make_router get_vertex_count initialize_from
    initialize_vertex initialize_edges initialize_edge set_cell blank_table get_edge
    get_incident_edges relax_all relax_through relax_sources relax_source relax_targets relax_target
    relax_route
answered = refl

read_routing_settings-document_example :
    read_routing_settings {D = ℕ}
      (routing_document (record { bus_wait_time = 6; bus_velocity = 40 }))
    ≡ ok (record { bus_wait_time = 6; bus_velocity = 40 })
read_routing_settings-document_example =
    read_routing_settings-document ℕ (record { bus_wait_time = 6; bus_velocity = 40 }) (omega arith)
      (omega arith)

abbrev pub rendered : MapSettings ℕ
rendered = record {
  size = record { width = 1200; height = 500; padding = 50 };
  element_size = record { line_width = 14; stop_radius = 5 };
  bus_label = record { font_size = pos 20; offset = (7, 15) };
  stop_label = record { font_size = pos 18; offset = (7, 15) };
  underlayer_color = rgba (record { red = 255; green = 255; blue = 255; opacity = 1 });
  underlayer_width = 3;
  color_palette = named (codes "green") ∷ [];
}

read_map_settings-document_example :
    read_map_settings naturals (map_document rendered) ≡ ok rendered
read_map_settings-document_example =
    read_map_settings-document naturals rendered (omega arith, omega arith, omega arith) (tt, tt)

abbrev numbers : BusInfo ℕ ℤ
numbers = record {
  exists' = true;
  curvature = 1;
  route_length = 160000;
  quantity_stop = pos 3;
  unique_stops = pos 2;
}

response_bus_lem_example : response_bus numbers (pos 7) ≡ ok (bus_answer numbers (pos 7))
response_bus_lem_example = response_bus_lem numbers (pos 7)

response_stop_lem_example :
    response_stop {D = ℕ}
      (record { exists' = true; buses = codes "750" ∷ codes "828" ∷ [] })
      (pos 7)
    ≡ ok (stop_answer (codes "750" ∷ codes "828" ∷ []) (pos 7))
response_stop_lem_example =
    response_stop_lem (record { exists' = true; buses = codes "750" ∷ codes "828" ∷ [] }) (pos 7)

abbrev ride : Trip ℕ
ride = record {
  items =
      record { name = codes "A"; weight = 6; span_count = none }
      ∷ record { name = codes "750"; weight = 120; span_count = some 1 }
      ∷ [];
  total_time = 126;
}

response_route_lem_example :
    response_route (some ride) (pos 7) ≡ ok (route_answer (some ride) (pos 7))
response_route_lem_example = response_route_lem (some ride) (pos 7)
