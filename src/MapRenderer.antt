-- ===== src/MapRenderer.antt =====
-- TransportSystem/map_renderer.h, TransportSystem/map_renderer.cpp: the shapes of the map.
pub mod Projector
pub mod Proto
pub mod Saving
pub mod Bounds
use transport_system.Prelude.{
  ℕ, zero, suc, ◌+◌, ◌-◌, ◌%◌, Bool, true, false, List, [], ◌∷◌, ℤ, pos, negsuc, Str, codes, length,
  get_elem?, Result, ok, throw, undefined, or_throw, ◌>>=◌, if◌then◌else◌, ◌==◌, map,
}
use transport_system.Domain.{Coordinates, Stop, Bus, there_and_back, deref_all}
use transport_system.Svg.{
  Color, monostate, named, none_color, round, round_join, PathProps, no_props, Point, Circle,
  Polyline, Text, set_fill_color, set_stroke_color, set_stroke_width, set_stroke_line_cap,
  set_stroke_line_join, set_center, set_radius, add_point, set_position, set_offset, set_font_size,
  set_font_family, set_font_weight,
}
use transport_system.Svg.Escape.{set_data}

pub record MapSize (D : Type 0) : Type 0 where
  pub width : D
  pub height : D
  pub padding : D

-- `BusLabel` and `StopLabel`: the array has two members.
pub record Label (D : Type 0) : Type 0 where
  pub font_size : ℤ
  pub offset : D × D

pub record ElementSize (D : Type 0) : Type 0 where
  pub line_width : D
  pub stop_radius : D

pub record MapSettings (D : Type 0) : Type 0 where
  pub size : MapSize D
  pub element_size : ElementSize D
  pub bus_label : Label D
  pub stop_label : Label D
  pub underlayer_color : Color D
  pub underlayer_width : D
  pub color_palette : List (Color D)

-- `int` to `uint32_t`
abbrev pub to_uint32 : ℤ → ℕ
to_uint32 (pos n) = n % 4294967296
to_uint32 (negsuc n) = 4294967295 - n % 4294967296

-- The stops along which a bus is drawn.
unfoldable pub drawn_stops : Bus → Result (List ℕ)
unfolding there_and_back
drawn_stops bus = if bus.is_loop_trip then ok bus.stops else there_and_back bus.stops

module _ {D : Type 0} where
  -- `color_palette_[color_counter % color_palette_.size()]`: the remainder by 0 is undefined.
  unfoldable pub palette_color : MapSettings D → ℕ → Result (Color D)
  palette_color settings color_counter =
      let count = length settings.color_palette in
      if count == 0
      then throw undefined
      else or_throw undefined (get_elem? settings.color_palette (color_counter % count))

  unfoldable pub with_props : (PathProps D → PathProps D) → Polyline D → Polyline D
  with_props f l = record l { props = f l.props }

  unfoldable pub with_text_props : (PathProps D → PathProps D) → Text D → Text D
  with_text_props f t = record t { props = f t.props }

  unfoldable pub add_points : (Coordinates D → Point D) → List (Stop D) → Polyline D → Polyline D
  unfolding add_point
  add_points project [] l = l
  add_points project (stop ∷ stops) l =
      add_points project stops (add_point (project stop.coordinates) l)

  abbrev pub way_props : D → Color D → PathProps D
  way_props width color = set_stroke_line_join round_join (
      set_stroke_line_cap round
        (set_fill_color none_color (set_stroke_color color (set_stroke_width width no_props))))

  -- `RenderWay`; `sphere_projector(coords)` is an argument.
  unfoldable pub render_way :
      MapSettings D → List (Stop D) → Bus → ℕ → (Coordinates D → Point D) → Result (Polyline D)
  unfolding palette_color drawn_stops deref_all add_points
  render_way settings all_stops bus color_counter sphere_projector = do
    color ← palette_color settings color_counter
    places ← drawn_stops bus
    stops ← deref_all all_stops places
    ok (
        add_points sphere_projector stops
          (record { props = way_props settings.element_size.line_width color; points = [] }))

module _ {D : Type 0} (zero_value one_value : D) where
  abbrev pub new_text : Text D
  new_text = record {
    props = no_props;
    pos = record { x = zero_value; y = zero_value };
    offset = record { x = zero_value; y = zero_value };
    size = 1;
    font_family = [];
    font_weight = [];
    data' = [];
  }

  abbrev pub new_circle : Circle D
  new_circle = record {
    props = no_props;
    center = record { x = zero_value; y = zero_value };
    radius = one_value;
  }

  abbrev pub to_point : D × D → Point D
  to_point (x, y) = record { x = x; y = y }

  -- What both texts of a label share.
  unfoldable pub place_label : Label D → Str → Point D → Text D
  unfolding set_data set_position set_offset set_font_size set_font_family
  place_label label name stop = set_font_family (codes "Verdana") (
      set_font_size (to_uint32 label.font_size)
        (set_offset (to_point label.offset) (set_position stop (set_data name new_text))))

  unfoldable pub background : MapSettings D → Text D → Text D
  unfolding with_text_props set_fill_color set_stroke_color set_stroke_width set_stroke_line_cap
      set_stroke_line_join
  background settings = with_text_props λ p. set_stroke_line_join round_join (
      set_stroke_line_cap round (
        set_stroke_width settings.underlayer_width (
          set_stroke_color settings.underlayer_color (set_fill_color settings.underlayer_color p))))

  unfoldable pub render_name_bus : MapSettings D → Str → ℕ → Point D → Result (Text D × Text D)
  unfolding place_label background palette_color with_text_props set_fill_color set_font_weight
  render_name_bus settings name_bus color_counter stop = do
    let label = set_font_weight (codes "bold") (place_label settings.bus_label name_bus stop)
    color ← palette_color settings color_counter
    ok (background settings label, with_text_props (set_fill_color color) label)

  unfoldable pub render_stop : MapSettings D → Point D → Circle D
  unfolding set_center set_radius set_fill_color
  render_stop settings stop =
      let circle = set_radius settings.element_size.stop_radius (set_center stop new_circle) in
      record circle { props = set_fill_color (named (codes "white")) circle.props }

  unfoldable pub render_name_stop : MapSettings D → Str → Point D → Text D × Text D
  unfolding place_label background with_text_props set_fill_color
  render_name_stop settings name_stop stop =
      let label = place_label settings.stop_label name_stop stop in
      (background settings label, with_text_props (set_fill_color (named (codes "black"))) label)
