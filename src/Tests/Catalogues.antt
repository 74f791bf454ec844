-- ===== src/Tests/Catalogues.antt =====
-- Catalogues and routes (TransportSystem/transport_catalogue.cpp,
-- TransportSystem/transport_router.cpp) that a few calls lead to.
use transport_system.Prelude.{ℕ, ◌≡◌, refl, false, none, some, [], ◌∷◌, codes, ok, arith, ◌<◌}
use transport_system.Catalogue.{
  TransportCatalogue, lookup, empty_catalogue, add_stop, add_bus, add_length_between_stops,
}
use transport_system.Catalogue.Proto.{ProtoCatalogue, save_catalogue, deserialize_catalogue}
use transport_system.Catalogue.Reachable.{IsBuilt, IsSound, IsBuilt→IsSound}
use transport_system.Catalogue.RoundTrip.{deserialize-save_catalogue}
use transport_system.Graph.{get_vertex_count, get_edge, get_incident_edges}
use transport_system.Weight.{IsOrdered}
use transport_system.Router.{
  Table, make_router, initialize_from, initialize_vertex, initialize_edges, initialize_edge,
  set_cell, blank_table, relax_all, relax_through, relax_sources, relax_source, relax_targets,
  relax_target, relax_route,
}
use transport_system.Router.Shortest.{route_fuel}
use transport_system.TransportRouter.{real_weight, make_transport_router}
use transport_system.TransportRouter.Known.{HasVertices, create_graph-HasVertices}
use transport_system.Catalogue.Saving.{IsIndexed→AreUnique}
use transport_system.TransportRouter.Trips.{IsDescribed, create_graph-IsDescribed}
use transport_system.TransportRouter.Quickest.{IsQuickest, get_route_info-IsQuickest}
use transport_system.Tests.Network.{
  naturals, line_catalogue, line_graph, line_settings, line_graph-created,
}

abbrev pub with_bus : TransportCatalogue ℕ
with_bus = record line_catalogue {
  length_between_stops = [];
  all_stops =
      record { name = codes "A"; coordinates = record { lat = 0; lng = 0 } }
      ∷ record { name = codes "B"; coordinates = record { lat = 0; lng = 0 } }
      ∷ [];
}

abbrev with_first : TransportCatalogue ℕ
with_first = record with_bus {
  all_stops =
      record { name = codes "A"; coordinates = record { lat = 55; lng = 37 } }
      ∷ record { name = codes "B"; coordinates = record { lat = 0; lng = 0 } }
      ∷ [];
}

abbrev pub with_second : TransportCatalogue ℕ
with_second = record line_catalogue { length_between_stops = [] }

bus_added :
    add_bus naturals (codes "750") (codes "A" ∷ codes "B" ∷ []) false empty_catalogue ≡ ok with_bus
unfolding add_bus empty_catalogue
bus_added = refl

first_added : add_stop naturals (codes "A") (record { lat = 55; lng = 37 }) with_bus ≡ ok with_first
unfolding add_stop
first_added = refl

second_added :
    add_stop naturals (codes "B") (record { lat = 56; lng = 37 }) with_first ≡ ok with_second
unfolding add_stop
second_added = refl

length_added :
    add_length_between_stops naturals (codes "A", codes "B") 80000 with_second ≡ ok line_catalogue
unfolding add_length_between_stops
length_added = refl

pub second_built : IsBuilt naturals with_second
second_built =
    IsBuilt.with_stop (codes "B") (record { lat = 56; lng = 37 }) with_first with_second
      (IsBuilt.with_stop (codes "A") (record { lat = 55; lng = 37 }) with_bus with_first
        (IsBuilt.with_bus (codes "750") (codes "A" ∷ codes "B" ∷ []) false empty_catalogue with_bus
          IsBuilt.start bus_added)
        first_added)
      second_added

pub line_built : IsBuilt naturals line_catalogue
line_built =
    IsBuilt.with_length (codes "A") (codes "B") 80000 with_second line_catalogue (omega arith)
      second_built length_added

IsBuilt→IsSound_example : IsSound naturals line_catalogue
IsBuilt→IsSound_example = IsBuilt→IsSound naturals line_catalogue line_built

deserialize-save_catalogue_example :
    (message : ProtoCatalogue ℕ) × (d : TransportCatalogue ℕ) × (save_catalogue line_catalogue
      ≡ ok message)
    × (deserialize_catalogue naturals message ≡ ok d)
    × IsBuilt naturals d
    × (d.all_stops ≡ line_catalogue.all_stops)
    × (d.all_buses ≡ line_catalogue.all_buses)
    × (d.length_between_stops ≡ line_catalogue.length_between_stops)
deserialize-save_catalogue_example =
    deserialize-save_catalogue naturals line_catalogue line_built (omega arith)

create_graph-HasVertices_example :
    HasVertices naturals line_settings (codes "B") 1 line_graph
    × (3 < get_vertex_count (real_weight naturals) line_graph.graph_of_stops)
create_graph-HasVertices_example =
    create_graph-HasVertices naturals line_settings line_catalogue line_graph 1
      (record { name = codes "B"; coordinates = record { lat = 56; lng = 37 } })
      (IsIndexed→AreUnique line_catalogue
        (IsBuilt→IsSound naturals line_catalogue line_built).indexed)
      line_graph-created refl

create_graph-IsDescribed_example : IsDescribed naturals line_graph
create_graph-IsDescribed_example =
    create_graph-IsDescribed naturals line_settings line_catalogue line_graph line_graph-created

abbrev pub line_table : Table (real_weight naturals)
line_table =
    (some (record { weight = 0; prev_edge = none })
      ∷ some (record { weight = 6; prev_edge = some 0 })
      ∷ some (record { weight = 126; prev_edge = some 2 })
      ∷ some (record { weight = 132; prev_edge = some 1 })
      ∷ [])
    ∷ (some (record { weight = 246; prev_edge = some 3 })
        ∷ some (record { weight = 0; prev_edge = none })
        ∷ some (record { weight = 120; prev_edge = some 2 })
        ∷ some (record { weight = 126; prev_edge = some 1 })
        ∷ [])
    ∷ (some (record { weight = 126; prev_edge = some 3 })
        ∷ some (record { weight = 132; prev_edge = some 0 })
        ∷ some (record { weight = 0; prev_edge = none })
        ∷ some (record { weight = 6; prev_edge = some 1 })
        ∷ [])
    ∷ (some (record { weight = 120; prev_edge = some 3 })
        ∷ some (record { weight = 126; prev_edge = some 0 })
        ∷ some (record { weight = 246; prev_edge = some 2 })
        ∷ some (record { weight = 0; prev_edge = none })
        ∷ [])
    ∷ []

pub line_router-made :
    make_transport_router naturals line_settings line_catalogue ≡ ok (line_graph, line_table)
unfolding make_transport_router make_router get_vertex_count initialize_from initialize_vertex
    initialize_edges initialize_edge set_cell blank_table get_edge get_incident_edges relax_all
    relax_through relax_sources relax_source relax_targets relax_target relax_route
line_router-made = refl

naturals-IsOrdered : IsOrdered (real_weight naturals)
naturals-IsOrdered = record {
  lt_asym = λ a b h. ground arith;
  le_trans = λ a b c h k. ground arith;
  le_antisym = λ a b h k. ground arith;
  plus_assoc = λ a b c. omega arith;
  zero-plus = λ a. omega arith;
  plus-zero = λ a. omega arith;
  plus_mono = λ a b c d h k. ground arith;
  plus_lt_mono = λ a b c h. ground arith;
}

-- The trip from A to B waits for 6 and rides for 120.
get_route_info-IsQuickest_example :
    IsQuickest naturals line_graph line_table 32
      (codes "A")
      (codes "B")
      (record { inner = 0; outer = 1 })
      (record { inner = 2; outer = 3 })
unfolding route_fuel lookup
get_route_info-IsQuickest_example =
    get_route_info-IsQuickest naturals naturals-IsOrdered line_settings line_catalogue line_graph
      line_table line_router-made 32 (omega arith) (codes "A") (codes "B")
      (record { inner = 0; outer = 1 }) (record { inner = 2; outer = 3 }) refl refl
