-- ===== src/JsonReader/Documents.antt =====
-- The documents with settings that TransportSystem/json_reader.cpp reads, the keys in their order.
use transport_system.Prelude.{
  ℕ, ◌<◌, ◌%◌, ◌≡◌, refl, List, [], ◌∷◌, pos, codes, ok, >>=-of_ok, arith,
}
use transport_system.Real.{Real}
use transport_system.Json.{
  Node, Items, array, dict, int, double, string, no_items, item, no_fields, field,
}
use transport_system.Svg.{Color, monostate, named, rgb, rgba}
use transport_system.MapRenderer.{MapSettings}
use transport_system.TransportRouter.{RoutingSettings}
use transport_system.JsonReader.Settings.{
  read_routing_settings, read_byte, read_rgb, read_rgba, read_components, read_color, read_palette,
  read_offset, read_map_settings,
}

module _ {D : Type 0} where
  abbrev pub number : ℕ → Node D
  number n = int (pos n)

  abbrev pub routing_document : RoutingSettings → Node D
  routing_document s = dict (
      field (codes "bus_velocity") (number s.bus_velocity)
        (field (codes "bus_wait_time") (number s.bus_wait_time) no_fields))

  abbrev pub offset_document : D × D → Node D
  offset_document (x, y) = array (item (double x) (item (double y) no_items))

  -- A colour is a name or three or four components.
  abbrev pub color_document : Color D → Node D
  color_document monostate = string []
  color_document (named s) = string s
  color_document (rgb c) =
      array (item (number c.red) (item (number c.green) (item (number c.blue) no_items)))
  color_document (rgba c) = array (
      item (number c.red)
        (item (number c.green) (item (number c.blue) (item (double c.opacity) no_items))))

  abbrev pub palette_document : List (Color D) → Items D
  palette_document [] = no_items
  palette_document (c ∷ cs) = item (color_document c) (palette_document cs)

  abbrev pub map_document : MapSettings D → Node D
  map_document s = dict (
      field (codes "bus_label_font_size") (int s.bus_label.font_size) (
        field (codes "bus_label_offset") (offset_document s.bus_label.offset) (
          field (codes "color_palette") (array (palette_document s.color_palette)) (
            field (codes "height") (double s.size.height) (
              field (codes "line_width") (double s.element_size.line_width) (
                field (codes "padding") (double s.size.padding) (
                  field (codes "stop_label_font_size") (int s.stop_label.font_size) (
                    field (codes "stop_label_offset") (offset_document s.stop_label.offset) (
                      field (codes "stop_radius") (double s.element_size.stop_radius) (
                        field (codes "underlayer_color") (color_document s.underlayer_color) (
                          field (codes "underlayer_width") (double s.underlayer_width)
                            (field (codes "width") (double s.size.width) no_fields))))))))))))

  -- A colour that a document can hold, of components that are bytes.
  abbrev pub IsWritten : Color D → Type 0
  IsWritten monostate = ⊥
  IsWritten (named s) = Unit
  IsWritten (rgb c) = (c.red < 256) × (c.green < 256) × (c.blue < 256)
  IsWritten (rgba c) = (c.red < 256) × (c.green < 256) × (c.blue < 256)

  abbrev pub AreWritten : List (Color D) → Type 0
  AreWritten [] = Unit
  AreWritten (c ∷ cs) = IsWritten c × AreWritten cs

-- Routing settings that fit `unsigned short` are what JSON_ReaderRoutingSetings returns for the
-- document with them.
pub read_routing_settings-document :
    (D : Type 0) (s : RoutingSettings)
    → s.bus_wait_time < 65536
    → s.bus_velocity < 65536
    → read_routing_settings {D = D} (routing_document s) ≡ ok s
unfolding read_routing_settings
read_routing_settings-document D s h k =
    let wait : s.bus_wait_time % 65536 ≡ s.bus_wait_time = omega (arith, h) in
    let velocity : s.bus_velocity % 65536 ≡ s.bus_velocity = omega (arith, k) in
    rw (wait, velocity) refl

byte-same : (n : ℕ) → n < 256 → n % 256 ≡ n
byte-same n h = omega arith

module _ (R : Real) where
  read_color-document : (c : Color R.Carrier) → IsWritten c → read_color R (color_document c) ≡ ok c
  unfolding read_color read_components read_rgb read_rgba read_byte
  read_color-document monostate h = absurd h
  read_color-document (named s) h = refl
  read_color-document (rgb c) (red, green, blue) =
      rw (byte-same c.red red, byte-same c.green green, byte-same c.blue blue) refl
  read_color-document (rgba c) (red, green, blue) =
      rw (byte-same c.red red, byte-same c.green green, byte-same c.blue blue) refl

  read_palette-document :
      (cs : List (Color R.Carrier)) → AreWritten cs → read_palette R (palette_document cs) ≡ ok cs
  unfolding read_palette
  read_palette-document [] h = refl
  read_palette-document (c ∷ cs) (first, h) =
      >>=-of_ok _ (read_color-document c first) (>>=-of_ok _ (read_palette-document cs h) refl)

  -- Map settings, each colour a name or components that are bytes, are what JSON_ReaderMapSettings
  -- returns for the document with them.
  pub read_map_settings-document :
      (s : MapSettings R.Carrier)
      → IsWritten s.underlayer_color
      → AreWritten s.color_palette
      → read_map_settings R (map_document s) ≡ ok s
  unfolding read_map_settings read_offset
  read_map_settings-document s color palette =
      rw
        (
          read_color-document s.underlayer_color color,
          read_palette-document s.color_palette palette,
        )
        refl
