-- ===== src/RequestHandler.antt =====
-- TransportSystem/request_handler.h, TransportSystem/request_handler.cpp: the map as a whole, and the
-- requests that are passed on.
pub mod Collecting
pub mod Members
pub mod Labels
pub mod Layers
pub mod Rendering
pub mod Unnoted
use transport_system.Prelude.{
  ℕ, suc, ◌-◌, Option, List, [], ◌∷◌, ◌++◌, Str, str_eq, str_lt, length, get_elem?, ℤ, Result, ok,
  undefined, or_throw, ◌>>=◌, if◌then◌else◌, ◌==◌, ◌||◌,
}
use transport_system.Real.{Real, of_nat}
use transport_system.Domain.{Coordinates, Stop, BusInfo, deref, deref_all}
use transport_system.Catalogue.{TransportCatalogue, Catalogue, find_stop, find_bus}
use transport_system.Catalogue.Info.{get_info_bus}
use transport_system.MapRenderer.{
  MapSettings, render_way, render_name_bus, render_stop, render_name_stop,
}
use transport_system.MapRenderer.Projector.{make_projector, project}
use transport_system.Svg.{Point, Text, Document, circle, polyline, text, add_ptr}
use transport_system.TransportRouter.{Trip, get_route_info}
use transport_system.TransportRouter.Message.{RouterState}

-- `std::set::insert`: the names stand in their order, each once.
unfoldable pub insert_unique : Str → List Str → List Str
insert_unique x [] = x ∷ []
insert_unique x (y ∷ ys) =
    if str_eq x y then y ∷ ys else if str_lt x y then x ∷ y ∷ ys else y ∷ insert_unique x ys

-- What the first loop of `RenderMap` collects.
pub record Passed (D : Type 0) : Type 0 where
  pub set_name_bus : List Str
  pub set_name_stop : List Str
  pub coordinates : List (Coordinates D)

module _ {D : Type 0} where
  abbrev pub none_passed : Passed D
  none_passed = record { set_name_bus = []; set_name_stop = []; coordinates = [] }

  unfoldable pub collect_stops : Str → List (Stop D) → Passed D → Passed D
  unfolding insert_unique
  collect_stops name_bus [] passed = passed
  collect_stops name_bus (stop ∷ stops) passed = collect_stops name_bus stops (record {
    set_name_bus = insert_unique name_bus passed.set_name_bus;
    set_name_stop = insert_unique stop.name passed.set_name_stop;
    coordinates = passed.coordinates ++ stop.coordinates ∷ [];
  })

  unfoldable pub collect_buses :
      TransportCatalogue D → List (Str × ℕ) → Passed D → Result (Passed D)
  unfolding deref deref_all collect_stops
  collect_buses db [] passed = ok passed
  collect_buses db ((name_bus, place) ∷ buses) passed = do
    data' ← deref db.all_buses place
    stops ← deref_all db.all_stops data'.stops
    collect_buses db buses (collect_stops name_bus stops passed)

  -- The loop that draws the ways of the buses, each in the next colour.
  unfoldable pub add_ways :
      TransportCatalogue D
      → MapSettings D
      → (Coordinates D → Point D)
      → List Str
      → ℕ
      → Document D
      → Result (Document D)
  unfolding find_bus render_way add_ptr
  add_ways db settings sphere_projector [] color_counter result = ok result
  add_ways db settings sphere_projector (name_bus ∷ names) color_counter result = do
    bus ← find_bus db name_bus
    vereda ← render_way settings db.all_stops bus color_counter sphere_projector
    add_ways db settings sphere_projector names (suc color_counter)
        (add_ptr (polyline vereda) result)

  unfoldable pub add_label : Text D × Text D → Document D → Document D
  unfolding add_ptr
  add_label (first, second) result = add_ptr (text second) (add_ptr (text first) result)

  module _ (zero_value one_value : D) where
    -- The label at the stop of a place.
    unfoldable pub add_name_at :
        TransportCatalogue D
        → MapSettings D
        → (Coordinates D → Point D)
        → Str
        → ℕ
        → ℕ
        → Document D
        → Result (Document D)
    unfolding deref render_name_bus add_label
    add_name_at db settings sphere_projector name_bus color_counter place result = do
      stop ← deref db.all_stops place
      label ←
          render_name_bus zero_value one_value settings name_bus color_counter
            (sphere_projector stop.coordinates)
      ok (add_label label result)

    -- One label for a bus that ends where it starts, and two for another. Without a stop,
    -- `stops[0]` is undefined.
    unfoldable pub add_name_bus :
        TransportCatalogue D
        → MapSettings D
        → (Coordinates D → Point D)
        → Str
        → ℕ
        → Document D
        → Result (Document D)
    unfolding find_bus add_name_at
    add_name_bus db settings sphere_projector name_bus color_counter result = do
      bus ← find_bus db name_bus
      first ← or_throw undefined (get_elem? bus.stops 0)
      last ← or_throw undefined (get_elem? bus.stops (length bus.stops - 1))
      begun ← add_name_at db settings sphere_projector name_bus color_counter first result
      if bus.is_loop_trip || first == last
          then ok begun
          else add_name_at db settings sphere_projector name_bus color_counter last begun

    unfoldable pub add_names_bus :
        TransportCatalogue D
        → MapSettings D
        → (Coordinates D → Point D)
        → List Str
        → ℕ
        → Document D
        → Result (Document D)
    unfolding add_name_bus
    add_names_bus db settings sphere_projector [] color_counter result = ok result
    add_names_bus db settings sphere_projector (name_bus ∷ names) color_counter result =
        add_name_bus db settings sphere_projector name_bus color_counter result
        >>= add_names_bus db settings sphere_projector names (suc color_counter)

    unfoldable pub add_circles :
        TransportCatalogue D
        → MapSettings D
        → (Coordinates D → Point D)
        → List Str
        → Document D
        → Result (Document D)
    unfolding find_stop render_stop add_ptr
    add_circles db settings sphere_projector [] result = ok result
    add_circles db settings sphere_projector (stop ∷ names) result = do
      found ← find_stop db stop
      let shape = render_stop zero_value one_value settings (sphere_projector found.coordinates)
      add_circles db settings sphere_projector names (add_ptr (circle shape) result)

    unfoldable pub add_names_stop :
        TransportCatalogue D
        → MapSettings D
        → (Coordinates D → Point D)
        → List Str
        → Document D
        → Result (Document D)
    unfolding find_stop render_name_stop add_label
    add_names_stop db settings sphere_projector [] result = ok result
    add_names_stop db settings sphere_projector (stop ∷ names) result = do
      found ← find_stop db stop
      let label =
          render_name_stop zero_value one_value settings stop (sphere_projector found.coordinates)
      add_names_stop db settings sphere_projector names (add_label label result)

    -- The loops of `RenderMap` once the stops are collected.
    unfoldable pub add_layers :
        TransportCatalogue D
        → MapSettings D
        → (Coordinates D → Point D)
        → Passed D
        → Result (Document D)
    unfolding add_ways add_names_bus add_circles add_names_stop
    add_layers db settings sphere_projector passed =
        add_ways db settings sphere_projector passed.set_name_bus 0 []
        >>= add_names_bus db settings sphere_projector passed.set_name_bus 0
        >>= add_circles db settings sphere_projector passed.set_name_stop
        >>= add_names_stop db settings sphere_projector passed.set_name_stop

module _ (R : Real) where
  unfoldable pub render_map : Catalogue R → MapSettings R.Carrier → Result (Document R.Carrier)
  unfolding collect_buses make_projector project add_layers
  render_map db settings = do
    passed ← collect_buses db db.buses none_passed
    let sphere_projector =
        make_projector R passed.coordinates settings.size.width settings.size.height
          settings.size.padding
    add_layers (of_nat R 0) (of_nat R 1) db settings (project R sphere_projector) passed

  -- `router_->GetRouteInfo(from, to)`: without a router it is undefined.
  unfoldable pub get_route_stat :
      Option (RouterState R) → ℕ → Str → Str → Result (Option (Trip R.Carrier))
  unfolding get_route_info
  get_route_stat router fuel from to =
      or_throw undefined router >>= λ r. get_route_info R r.stop_graph r.table fuel from to

  unfoldable pub get_bus_stat :
      (Coordinates R.Carrier → Coordinates R.Carrier → R.Carrier)
      → Catalogue R
      → Str
      → Result (BusInfo R.Carrier ℤ)
  unfolding get_info_bus
  get_bus_stat compute_distance db bus_name = get_info_bus R compute_distance db bus_name
