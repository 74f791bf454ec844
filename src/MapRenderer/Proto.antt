-- ===== src/MapRenderer/Proto.antt =====
-- How TransportSystem/map_renderer.cpp saves the settings of the map and reads them back. The
-- messages are those of TransportSystem/svg.proto and TransportSystem/map_renderer.proto; their
-- classes are generated, and a message is the record of its fields.
use transport_system.Prelude.{
  ℕ, ◌%◌, Bool, true, List, [], ◌∷◌, ℤ, Str, get_elem?, Result, ok, undefined, or_throw, ◌>>=◌,
}
use transport_system.Svg.{Rgb, Rgba, Color, monostate, named, rgb, rgba}
use transport_system.MapRenderer.{MapSize, Label, ElementSize, MapSettings}

pub record ProtoRgb : Type 0 where
  pub red : ℕ
  pub green : ℕ
  pub blue : ℕ

pub record ProtoRgba (D : Type 0) : Type 0 where
  pub red : ℕ
  pub green : ℕ
  pub blue : ℕ
  pub opacity : D

-- The `oneof` of `Color`
pub data ProtoColor (D : Type 0) : Type 0 where
  variant_not_set : ProtoColor D
  proto_monostate : Bool → ProtoColor D
  proto_str : Str → ProtoColor D
  proto_rgb : ProtoRgb → ProtoColor D
  proto_rgba : ProtoRgba D → ProtoColor D

-- `BusLabel` and `StopLabel`
pub record ProtoLabel (D : Type 0) : Type 0 where
  pub font_size : ℤ
  pub offset : List D

pub record ProtoMapSettings (D : Type 0) : Type 0 where
  pub size : MapSize D
  pub element_size : ElementSize D
  pub bus_label : ProtoLabel D
  pub stop_label : ProtoLabel D
  pub underlayer_color : ProtoColor D
  pub underlayer_width : D
  pub color_palette : List (ProtoColor D)

unfoldable pub set_proto_rgb : Rgb → ProtoRgb
set_proto_rgb c = record { red = c.red; green = c.green; blue = c.blue }

-- The casts to `uint8_t`
unfoldable pub set_svg_rgb : ProtoRgb → Rgb
set_svg_rgb c = record { red = c.red % 256; green = c.green % 256; blue = c.blue % 256 }

module _ {D : Type 0} where
  unfoldable pub set_proto_rgba : Rgba D → ProtoRgba D
  set_proto_rgba c = record { red = c.red; green = c.green; blue = c.blue; opacity = c.opacity }

  unfoldable pub set_svg_rgba : ProtoRgba D → Rgba D
  set_svg_rgba c = record {
    red = c.red % 256;
    green = c.green % 256;
    blue = c.blue % 256;
    opacity = c.opacity;
  }

  unfoldable pub set_proto_color : Color D → ProtoColor D
  unfolding set_proto_rgb set_proto_rgba
  set_proto_color monostate = proto_monostate true
  set_proto_color (named s) = proto_str s
  set_proto_color (rgb c) = proto_rgb (set_proto_rgb c)
  set_proto_color (rgba c) = proto_rgba (set_proto_rgba c)

  unfoldable pub set_svg_color : ProtoColor D → Color D
  unfolding set_svg_rgb set_svg_rgba
  set_svg_color variant_not_set = monostate
  set_svg_color (proto_monostate b) = monostate
  set_svg_color (proto_str s) = named s
  set_svg_color (proto_rgb c) = rgb (set_svg_rgb c)
  set_svg_color (proto_rgba c) = rgba (set_svg_rgba c)

  unfoldable pub save_label : Label D → ProtoLabel D
  save_label label = record {
    font_size = label.font_size;
    offset = label.offset.0 ∷ label.offset.1 ∷ [];
  }

  unfoldable pub save_palette : List (Color D) → List (ProtoColor D)
  unfolding set_proto_color
  save_palette [] = []
  save_palette (c ∷ cs) = set_proto_color c ∷ save_palette cs

  -- `MapRender::SaveToProto`
  unfoldable pub save_settings : MapSettings D → ProtoMapSettings D
  unfolding set_proto_color save_label save_palette
  save_settings s = record {
    size = record { width = s.size.width; height = s.size.height; padding = s.size.padding };
    element_size = record {
      line_width = s.element_size.line_width;
      stop_radius = s.element_size.stop_radius;
    };
    bus_label = save_label s.bus_label;
    stop_label = save_label s.stop_label;
    underlayer_color = set_proto_color s.underlayer_color;
    underlayer_width = s.underlayer_width;
    color_palette = save_palette s.color_palette;
  }

  -- An access past the end of a repeated field is undefined.
  unfoldable pub load_label : ProtoLabel D → Result (Label D)
  load_label label = do
    dx ← or_throw undefined (get_elem? label.offset 0)
    dy ← or_throw undefined (get_elem? label.offset 1)
    ok (record { font_size = label.font_size; offset = (dx, dy) })

  unfoldable pub load_palette : List (ProtoColor D) → List (Color D)
  unfolding set_svg_color
  load_palette [] = []
  load_palette (c ∷ cs) = set_svg_color c ∷ load_palette cs

  -- `DeserializeMapRender`
  unfoldable pub deserialize_map_render : ProtoMapSettings D → Result (MapSettings D)
  unfolding set_svg_color load_label load_palette
  deserialize_map_render p = do
    bus_label ← load_label p.bus_label
    stop_label ← load_label p.stop_label
    ok (record {
      size = record { width = p.size.width; height = p.size.height; padding = p.size.padding };
      element_size = record {
        line_width = p.element_size.line_width;
        stop_radius = p.element_size.stop_radius;
      };
      bus_label = bus_label;
      stop_label = stop_label;
      underlayer_color = set_svg_color p.underlayer_color;
      underlayer_width = p.underlayer_width;
      color_palette = load_palette p.color_palette;
    })
