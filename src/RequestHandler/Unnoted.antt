-- ===== src/RequestHandler/Unnoted.antt =====
-- What TransportSystem/request_handler.cpp answers without reading which buses pass a stop: the map and
-- the buses.
use transport_system.Prelude.{ℕ, suc, ◌≡◌, refl, List, [], ◌∷◌, Str, ◌>>=◌}
use transport_system.Real.{Real, of_nat}
use transport_system.Domain.{Coordinates, deref, deref_all}
use transport_system.Svg.{Document, Point, circle, polyline, add_ptr}
use transport_system.Catalogue.{
  TransportCatalogue, Catalogue, find_bus, find_stop, bus_availability,
}
use transport_system.Catalogue.Info.{get_info_bus}
use transport_system.MapRenderer.{MapSettings, render_way, render_stop, render_name_stop}
use transport_system.RequestHandler.{
  Passed, collect_stops, collect_buses, add_ways, add_label, add_name_at, add_name_bus,
  add_names_bus, add_circles, add_names_stop, add_layers, render_map, get_bus_stat, none_passed,
}
use transport_system.MapRenderer.Projector.{make_projector, project}

module _ {D : Type 0} (c : TransportCatalogue D) (noted : List (Str × List Str)) where
  abbrev pub with_noted : TransportCatalogue D
  with_noted = record c { buses_in_stop = noted }

  collect_buses-noted :
      (buses : List (Str × ℕ)) (passed : Passed D)
      → collect_buses with_noted buses passed ≡ collect_buses c buses passed
  unfolding collect_buses
  collect_buses-noted [] passed = refl
  collect_buses-noted ((name_bus, place) ∷ buses) passed = λ i. deref c.all_buses place >>= λ bus.
      deref_all c.all_stops bus.stops >>= λ stops.
      collect_buses-noted buses (collect_stops name_bus stops passed) i

  module _ (settings : MapSettings D) (projector : Coordinates D → Point D) where
    add_ways-noted :
        (names : List Str) (count : ℕ) (result : Document D)
        → add_ways with_noted settings projector names count result
          ≡ add_ways c settings projector names count result
    unfolding add_ways find_bus
    add_ways-noted [] count result = refl
    add_ways-noted (name ∷ names) count result = λ i. find_bus c name >>= λ bus.
        render_way settings c.all_stops bus count projector >>= λ way.
        add_ways-noted names (suc count) (add_ptr (polyline way) result) i

    module _ (z u : D) where
      add_names_bus-noted :
          (names : List Str) (count : ℕ) (result : Document D)
          → add_names_bus z u with_noted settings projector names count result
            ≡ add_names_bus z u c settings projector names count result
      unfolding add_names_bus add_name_bus add_name_at find_bus
      add_names_bus-noted [] count result = refl
      add_names_bus-noted (name ∷ names) count result = λ i.
          add_name_bus z u c settings projector name count result >>= λ next.
          add_names_bus-noted names (suc count) next i

      add_circles-noted :
          (names : List Str) (result : Document D)
          → add_circles z u with_noted settings projector names result
            ≡ add_circles z u c settings projector names result
      unfolding add_circles find_stop
      add_circles-noted [] result = refl
      add_circles-noted (name ∷ names) result = λ i. find_stop c name >>= λ found.
          add_circles-noted names
            (add_ptr (circle (render_stop z u settings (projector found.coordinates))) result) i

      add_names_stop-noted :
          (names : List Str) (result : Document D)
          → add_names_stop z u with_noted settings projector names result
            ≡ add_names_stop z u c settings projector names result
      unfolding add_names_stop find_stop
      add_names_stop-noted [] result = refl
      add_names_stop-noted (name ∷ names) result = λ i. find_stop c name >>= λ found.
          add_names_stop-noted names
            (add_label (render_name_stop z u settings name (projector found.coordinates)) result) i

      add_layers-noted :
          (passed : Passed D)
          → add_layers z u with_noted settings projector passed
            ≡ add_layers z u c settings projector passed
      unfolding add_layers
      add_layers-noted passed = λ i.
          add_ways-noted passed.set_name_bus 0 [] i
          >>= (λ x. add_names_bus-noted passed.set_name_bus 0 x i)
          >>= (λ x. add_circles-noted passed.set_name_stop x i)
          >>= (λ x. add_names_stop-noted passed.set_name_stop x i)

module _ (R : Real) (c : Catalogue R) (noted : List (Str × List Str)) where
  -- The map does not depend on which buses are noted at the stops.
  pub render_map-noted :
      (settings : MapSettings R.Carrier)
      → render_map R (with_noted c noted) settings ≡ render_map R c settings
  unfolding render_map
  render_map-noted settings = λ i. collect_buses-noted c noted c.buses none_passed i >>= λ passed.
      add_layers-noted c noted settings
        (project R (
          make_projector R passed.coordinates settings.size.width settings.size.height
            settings.size.padding))
        (of_nat R 0) (of_nat R 1) passed i

  pub get_bus_stat-noted :
      (compute_distance : Coordinates R.Carrier → Coordinates R.Carrier → R.Carrier) (name : Str)
      → get_bus_stat R compute_distance (with_noted c noted) name
        ≡ get_bus_stat R compute_distance c name
  unfolding get_bus_stat get_info_bus bus_availability find_bus
  get_bus_stat-noted compute_distance name = refl
