-- ===== src/RequestHandler/Rendering.antt =====
-- The map that `RenderMap` of TransportSystem/request_handler.cpp draws.
use transport_system.Prelude.{◌<◌, ◌≡◌, List, [], ◌++◌, map, length, ok, >>=-of_ok}
use transport_system.Real.{Real, of_nat}
use transport_system.Domain.{Coordinates}
use transport_system.Catalogue.{Catalogue}
use transport_system.Catalogue.Reachable.{IsSound}
use transport_system.MapRenderer.{MapSettings}
use transport_system.MapRenderer.Projector.{make_projector, project}
use transport_system.Svg.{Point, Circle, Polyline, Text, circle, polyline, text}
use transport_system.RequestHandler.{Passed, none_passed, collect_buses, add_layers, render_map}
use transport_system.RequestHandler.Collecting.{IsAscending, collect_all}
use transport_system.RequestHandler.Members.{AreNames, collect_buses-AreNames}
use transport_system.RequestHandler.Labels.{AreWays, AreBusLabels, AreCircles, AreStopLabels}
use transport_system.RequestHandler.Layers.{
  add_ways-Document, add_names_bus-Document, add_circles-Document, add_names_stop-Document,
}

module _ (R : Real) where
  abbrev projector :
      MapSettings R.Carrier → Passed R.Carrier → Coordinates R.Carrier → Point R.Carrier
  projector settings passed = project R (
      make_projector R passed.coordinates settings.size.width settings.size.height
        settings.size.padding)

  -- What the map of a catalogue consists of.
  abbrev pub IsLayered : Catalogue R → MapSettings R.Carrier → Type 0
  IsLayered db settings =
      (passed : Passed R.Carrier) × (ways : List (Polyline R.Carrier)) × (labels : List
        (Text R.Carrier))
      × (circles : List (Circle R.Carrier)) × (names : List (Text R.Carrier)) × (collect_buses db
            db.buses none_passed
          ≡ ok passed)
      × (render_map R db settings
          ≡ ok (((map polyline ways ++ map text labels) ++ map circle circles) ++ map text names))
      × IsAscending passed.set_name_bus
      × IsAscending passed.set_name_stop
      × AreNames db passed
      × AreWays db (projector settings passed) passed.set_name_bus ways
      × AreBusLabels db (projector settings passed) passed.set_name_bus labels
      × AreCircles db (projector settings passed) passed.set_name_stop circles
      × AreStopLabels db (projector settings passed) passed.set_name_stop names

module _ (R : Real) (db : Catalogue R) (sound : IsSound R db) (settings : MapSettings R.Carrier)
    (colored : 0 < length settings.color_palette) where
  -- RenderMap returns on a sound catalogue with a palette that has a colour. It collects, each once and
  -- in ascending order, the names of the buses that pass a stop and of the stops that a bus passes, and
  -- no others. The map has these layers in this order: for each of the buses, a line through the points
  -- of the stops on its way; for each of the buses, a label at its first stop and, if it turns around at
  -- another stop, a label there; for each of the stops, a circle around its point; and for each of the
  -- stops, a label there. A label is two texts of the name, escaped as SetData does it, at the point of
  -- the stop.
  pub render_map-Document : IsLayered R db settings
  unfolding render_map add_layers
  render_map-Document =
      let (passed, collected, h) = collect_all R db sound in
      let shown = projector R settings passed in
      let z = of_nat R 0 in
      let u = of_nat R 1 in
      let (ways, run1, are_ways) =
        add_ways-Document R db settings colored shown sound passed.set_name_bus 0 []
          h.buses_served in
      let (labels, run2, are_labels) =
        add_names_bus-Document R db settings colored shown z u sound passed.set_name_bus 0 _
          h.buses_served in
      let (circles, run3, are_circles) =
        add_circles-Document R db settings colored shown z u sound passed.set_name_stop _
          h.stops_placed in
      let (names, run4, are_names) =
        add_names_stop-Document R db settings colored shown z u sound passed.set_name_stop _
          h.stops_placed in
      (
        passed,
        ways,
        labels,
        circles,
        names,
        collected,
        >>=-of_ok _ collected (>>=-of_ok _ (>>=-of_ok _ (>>=-of_ok _ run1 run2) run3) run4),
        h.buses_ascend,
        h.stops_ascend,
        collect_buses-AreNames db passed sound.indexed.buses_keyed collected,
        are_ways,
        are_labels,
        are_circles,
        are_names,
      )
