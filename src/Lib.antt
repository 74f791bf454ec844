-- ===== src/Lib.antt =====
-- The transport catalogue of the repository, modelled and verified.
--
-- The program reads a description of stops and buses as JSON, builds a catalogue of them, a map
-- and a graph of the ways between the stops, saves the three, and answers requests about them.
--
-- The parts, and the files that model them:
--   * Graph, Graph/ : TransportSystem/graph.h. A graph is its two vectors. `AddEdge` is `add_edge`,
--     which returns the graph with the id or the exception.
--   * Router, Router/ : TransportSystem/router.h. `make_router` is the constructor and `build_route`
--     is `BuildRoute`; the table `routes_internal_data_` is a list of rows. The weights are those of
--     Weight, an interface with `+` and `<`; the theorems ask for an ordered monoid, which sums of
--     doubles are as far as they are exact.
--   * Json, Json/ : TransportSystem/json.h and TransportSystem/json.cpp. Json/Print holds the
--     printing half, Json/Load the parser over the bytes that are left of the stream.
--   * Json/Builder, Json/Builder/ : TransportSystem/json_builder.h and
--     TransportSystem/json_builder.cpp. Each call takes the builder to the next or throws.
--   * Svg, Svg/ : TransportSystem/svg.h and TransportSystem/svg.cpp. The shapes are records, a
--     document is the list of its objects; Svg/Escape is `Text::SetData`.
--   * Domain : TransportSystem/domain.h and TransportSystem/geo.h. A `Stop*` is a place in the deque
--     of all stops, which only grows.
--   * MapRenderer, MapRenderer/ : TransportSystem/map_renderer.h and
--     TransportSystem/map_renderer.cpp, with the projection and the saving of the settings.
--   * Catalogue, Catalogue/ : TransportSystem/transport_catalogue.h and
--     TransportSystem/transport_catalogue.cpp. Unordered maps are association lists.
--   * TransportRouter, TransportRouter/ : TransportSystem/transport_router.h and
--     TransportSystem/transport_router.cpp. It uses the graph, the router and the catalogue.
--   * Serialization, Serialization/ : TransportSystem/serialization.cpp, the messages of the
--     catalogue, of the map settings and of the router in one. Catalogue/Proto, MapRenderer/Proto,
--     TransportRouter/Proto and TransportRouter/Message hold the three.
--   * RequestHandler, RequestHandler/ : TransportSystem/request_handler.h and
--     TransportSystem/request_handler.cpp, which draws the map with the catalogue, the projector and
--     the shapes.
--   * JsonReader, JsonReader/ : TransportSystem/json_reader.h and TransportSystem/json_reader.cpp.
--     JsonReader reads stops and buses, Settings the settings; Requests is the first run of the
--     program, from JSON to the message, and Statistics the second, from the message and requests to
--     the text of the answers, which Responses makes with the builder. Documents and Describing say
--     how settings and requests are written down, and what the requests mean.
--   * Prelude, Prelude/ : shared names, lists with native lengths, exceptions as values, bytes.
--     Real is `double` with the operations that the sources use. Tests holds runs of the model.
--
-- Exceptions are the `throw` of Result. Undefined behaviour is `throw undefined`, and a loop that is
-- cut short `throw out_of_fuel`.
--
-- Bounds and fuel: `build_route` follows `prev_edge` with fuel; `route_fuel` of the number of
-- vertices is enough. A parser's call takes fuel, of which `load` gives twice the length of the text
-- and one. The loop of `SetData` has as many rounds as the text has characters, and needs fewer.
-- `uint32` fields of messages keep 32 bits, colours 8, routing settings 16, and the sum of lengths in
-- `SummationLenght` 32.
-- An `int` is an integer; IsInt says that it has 32 bits. The conversion of a size to `int` keeps 32
-- bits, and `std::abs` and the number of stops of a bus are undefined where they overflow. Ids of
-- vertices and edges, which are sizes, and the number of rides that a bus takes are natural numbers.
--
-- Not modelled: files, streams and the binary format of protobuf (a file is the message that it
-- holds), the choice of the entry point in TransportSystem/main.cpp, the copy of the map that is
-- written to map.svg. The trigonometry of TransportSystem/geo.cpp, number formatting, `std::stoi` and
-- `std::stod` are arguments. The order in which an unordered map is run through, in which
-- `transform_reduce` adds, and in which arguments are evaluated, is that of the list or of the text.
-- The context classes of the builder only restrict which calls compile.
pub mod Prelude
pub mod Weight
pub mod Graph
pub mod Router
pub mod Json
pub mod Svg
pub mod Real
pub mod Domain
pub mod MapRenderer
pub mod Catalogue
pub mod TransportRouter
pub mod Serialization
pub mod RequestHandler
pub mod JsonReader
pub mod Tests
