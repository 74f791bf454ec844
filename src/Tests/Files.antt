-- ===== src/Tests/Files.antt =====
-- A catalogue, its map and its router in a file (TransportSystem/serialization.cpp).
use transport_system.Prelude.{ℕ, ◌≡◌, refl, some, ok, codes, arith, List, [], ◌∷◌, false}
use transport_system.Catalogue.Listing.{IsBuilt-same_maps}
use transport_system.Domain.{Coordinates}
use transport_system.Catalogue.{empty_catalogue, add_bus, add_stop, add_length_between_stops}
use transport_system.Catalogue.Reachable.{IsBuilt}
use transport_system.JsonReader.Requests.{base_request}
use transport_system.JsonReader.Describing.{
  Request, a_bus, a_stop, query_document, add_buses, add_stops,
}
use transport_system.JsonReader.Building.{
  saved_as, IsFiled, base_request-query_document, base_request-deserialization,
}
use transport_system.TransportRouter.Saving.RoundTrip.{RouterFits}
use transport_system.JsonReader.Restoring.{AnswersSame, deserialization-answers}
use transport_system.Serialization.{Common, Restored, serialization, deserialization}
use transport_system.Serialization.RoundTrip.{IsRestored, deserialization-serialization}
use transport_system.Tests.Network.{naturals, line_catalogue, line_graph, line_settings}
use transport_system.Tests.Catalogues.{
  line_built, with_bus, with_second, second_built, line_table, line_router-made,
}
use transport_system.Tests.Drawings.{settings}

line_router-fits : RouterFits naturals line_graph line_table
line_router-fits = record {
  froms = (omega arith, (omega arith, (omega arith, (omega arith, tt))));
  rows = ((omega arith, tt), ((omega arith, tt), ((omega arith, tt), ((omega arith, tt), tt))));
  table = (
    (tt, (omega arith, (omega arith, (omega arith, tt)))),
    (
      (omega arith, (tt, (omega arith, (omega arith, tt)))),
      (
        (omega arith, (omega arith, (tt, (omega arith, tt)))),
        ((omega arith, (omega arith, (omega arith, (tt, tt)))), tt),
      ),
    ),
  );
  vertexs = (omega arith, omega arith, (omega arith, omega arith, tt));
  trips = (
    omega arith,
    tt,
    (omega arith, tt, (omega arith, omega arith, (omega arith, omega arith, tt))),
  );
}

-- A bus between two stops is read back over an empty catalogue.
deserialization-serialization_example :
    IsRestored naturals line_catalogue settings
      (record { settings = line_settings; stop_graph = line_graph; table = line_table })
      empty_catalogue
      settings
deserialization-serialization_example =
    deserialization-serialization naturals line_settings line_catalogue empty_catalogue settings
      settings line_graph line_table line_built (omega arith)
      (omega arith, omega arith, omega arith) (tt, ((omega arith, omega arith, omega arith), tt))
      line_router-made line_router-fits

abbrev no_distance : Coordinates ℕ → Coordinates ℕ → ℕ
no_distance a b = 1

-- Requests about the bus, the map and a route are answered from the file as before.
deserialization-answers_example :
    (message : Common ℕ) × (state : Restored naturals) × (serialization naturals line_catalogue
        settings
        (record { settings = line_settings; stop_graph = line_graph; table = line_table })
      ≡ ok message)
    × (deserialization naturals (some message) empty_catalogue settings ≡ ok state)
    × AnswersSame naturals no_distance
        (λ n. codes "1")
        (λ n. codes "1")
        (λ x. codes "1")
        32
        state
        (record {
          db = line_catalogue;
          map_render = settings;
          router =
              some
                (record { settings = line_settings; stop_graph = line_graph; table = line_table });
        })
deserialization-answers_example =
    deserialization-answers naturals no_distance (λ n. codes "1") (λ n. codes "1") (λ x. codes "1")
      32 line_settings line_catalogue empty_catalogue settings settings line_graph line_table
      line_built (omega arith) (omega arith, omega arith, omega arith)
      (tt, ((omega arith, omega arith, omega arith), tt)) line_router-made line_router-fits

-- A catalogue before a length is added, and after.
IsBuilt-same_maps_example :
    (line_catalogue.stops ≡ with_second.stops) × (line_catalogue.buses ≡ with_second.buses)
IsBuilt-same_maps_example =
    IsBuilt-same_maps naturals with_second line_catalogue second_built line_built refl refl

abbrev requests : List (Request ℕ)
requests =
    a_stop (codes "A") (record { lat = 55; lng = 37 }) ((codes "B", 80000) ∷ [])
    ∷ a_bus (codes "750") (codes "A" ∷ codes "B" ∷ []) false
    ∷ a_stop (codes "B") (record { lat = 56; lng = 37 }) []
    ∷ []

-- A wait of 6 minutes, and 40 kilometres an hour.
base_request-query_document_example :
    base_request naturals
      (query_document (codes "db") requests line_settings settings)
      empty_catalogue
    ≡ saved_as naturals (codes "db") requests line_settings settings empty_catalogue
base_request-query_document_example =
    base_request-query_document naturals (codes "db") requests line_settings settings
      empty_catalogue ((omega arith, tt), (tt, tt)) (omega arith) (omega arith)
      (omega arith, omega arith, omega arith) (tt, ((omega arith, omega arith, omega arith), tt))

requests-buses : add_buses naturals requests empty_catalogue ≡ ok with_bus
unfolding add_bus empty_catalogue
requests-buses = refl

requests-stops : add_stops naturals requests with_bus ≡ ok line_catalogue
unfolding add_stop add_length_between_stops
requests-stops = refl

-- The catalogue of the requests and its router are read back over an empty catalogue.
base_request-deserialization_example :
    IsFiled naturals
      (codes "db")
      requests
      settings
      empty_catalogue
      line_catalogue
      (record { settings = line_settings; stop_graph = line_graph; table = line_table })
      empty_catalogue
      settings
base_request-deserialization_example =
    base_request-deserialization naturals (codes "db") requests line_settings settings
      empty_catalogue with_bus line_catalogue line_graph line_table ((omega arith, tt), (tt, tt))
      (omega arith) (omega arith) (omega arith, omega arith, omega arith)
      (tt, ((omega arith, omega arith, omega arith), tt)) IsBuilt.start requests-buses
      requests-stops (omega arith) line_router-made line_router-fits empty_catalogue settings
