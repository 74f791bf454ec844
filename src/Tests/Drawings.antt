-- ===== src/Tests/Drawings.antt =====
-- Drawings and the settings of the map (TransportSystem/svg.cpp, TransportSystem/map_renderer.cpp).
use transport_system.Prelude.{ℕ, ◌≡◌, [], ◌∷◌, pos, codes, ok, arith}
use transport_system.Svg.{named, rgb, rgba, no_props, Text, Point}
use transport_system.Svg.Escape.{set_data}
use transport_system.Svg.Escaping.{escape_tail, set_data-escape}
use transport_system.MapRenderer.{MapSettings}
use transport_system.MapRenderer.Proto.{save_settings, deserialize_map_render}
use transport_system.MapRenderer.Saving.{deserialize-save}

abbrev origin : Point ℕ
origin = record { x = 0; y = 0 }

abbrev blank_text : Text ℕ
blank_text = record {
  props = no_props;
  pos = origin;
  offset = origin;
  size = 1;
  font_family = [];
  font_weight = [];
  data' = [];
}

-- The first character of the name stays as it is.
set_data-escape_example :
    set_data (codes "<a&b>") blank_text ≡ record blank_text { data' = escape_tail (codes "<a&b>") }
set_data-escape_example = set_data-escape (codes "<a&b>") blank_text

abbrev pub settings : MapSettings ℕ
settings = record {
  size = record { width = 600; height = 400; padding = 50 };
  element_size = record { line_width = 14; stop_radius = 5 };
  bus_label = record { font_size = pos 20; offset = (7, 15) };
  stop_label = record { font_size = pos 18; offset = (7, 3) };
  underlayer_color = rgba (record { red = 255; green = 255; blue = 255; opacity = 1 });
  underlayer_width = 3;
  color_palette = named (codes "green") ∷ rgb (record { red = 255; green = 160; blue = 0 }) ∷ [];
}

deserialize-save_example : deserialize_map_render (save_settings settings) ≡ ok settings
deserialize-save_example =
    deserialize-save settings (omega arith, omega arith, omega arith)
      (tt, ((omega arith, omega arith, omega arith), tt))
