-- ===== src/JsonReader/Settings.antt =====
-- The settings that TransportSystem/json_reader.cpp reads.
use transport_system.Prelude.{
  ℕ, zero, suc, ◌%◌, ◌-◌, Option, none, some, List, [], ◌∷◌, ℤ, pos, negsuc, Str, codes, Result, ok,
  undefined, or_throw, ◌>>=◌, if◌then◌else◌, ◌==◌,
}
use transport_system.Real.{Real}
use transport_system.Json.{
  Node, Items, Fields, no_items, item, is_string, as_int, as_double, as_array, as_string, as_dict,
}
use transport_system.JsonReader.{at_key, require}
use transport_system.Svg.{Color, named, rgb, rgba}
use transport_system.MapRenderer.{MapSettings}
use transport_system.TransportRouter.{RoutingSettings}

-- An `int` in an unsigned type with this many values
unfoldable pub to_unsigned : ℕ → ℤ → ℕ
to_unsigned values (pos n) = n % values
to_unsigned values (negsuc n) = values - 1 - n % values

module _ {D : Type 0} where
  abbrev pub size : Items D → ℕ
  size no_items = 0
  size (item _ items) = suc (size items)

  abbrev pub get_item? : Items D → ℕ → Option (Node D)
  get_item? no_items i = none
  get_item? (item node items) zero = some node
  get_item? (item node items) (suc i) = get_item? items i

  -- `array[i]`: undefined past the end.
  unfoldable pub item_at : Items D → ℕ → Result (Node D)
  item_at items i = or_throw undefined (get_item? items i)

  -- `JSON_ReaderRoutingSetings`
  unfoldable pub read_routing_settings : Node D → Result RoutingSettings
  unfolding as_dict require at_key as_int to_unsigned
  read_routing_settings document = do
    fields ← as_dict document
    _ ← require (codes "bus_wait_time" ∷ codes "bus_velocity" ∷ []) fields
    wait ← at_key fields (codes "bus_wait_time")
    bus_wait_time ← as_int wait
    velocity ← at_key fields (codes "bus_velocity")
    bus_velocity ← as_int velocity
    ok (record {
      bus_wait_time = to_unsigned 65536 bus_wait_time;
      bus_velocity = to_unsigned 65536 bus_velocity;
    })

  -- A component of a colour, an `int` that becomes a `uint8_t`.
  unfoldable pub read_byte : Items D → ℕ → Result ℕ
  unfolding item_at as_int to_unsigned
  read_byte items i = do node ← item_at items i; z ← as_int node; ok (to_unsigned 256 z)

module _ (R : Real) where
  abbrev pub double_at : Fields R.Carrier → Str → Result R.Carrier
  double_at fields key = at_key fields key >>= as_double R.of_int

  -- `svg::Rgb(...)` on the components of an array
  unfoldable pub read_rgb : Items R.Carrier → Result (Color R.Carrier)
  unfolding read_byte
  read_rgb items = do
    red ← read_byte items 0
    green ← read_byte items 1
    blue ← read_byte items 2
    ok (rgb (record { red = red; green = green; blue = blue }))

  -- `svg::Rgba(...)`, the arguments taken in their order
  unfoldable pub read_rgba : Items R.Carrier → Result (Color R.Carrier)
  unfolding read_byte item_at as_double
  read_rgba items = do
    red ← read_byte items 0
    green ← read_byte items 1
    blue ← read_byte items 2
    last ← item_at items 3
    opacity ← as_double R.of_int last
    ok (rgba (record { red = red; green = green; blue = blue; opacity = opacity }))

  -- The branch of `JSON_ReaderColor` for an array
  unfoldable pub read_components : Items R.Carrier → Result (Color R.Carrier)
  unfolding read_rgb read_rgba
  read_components items = if size items == 4 then read_rgba items else read_rgb items

  -- `JSON_ReaderColor`
  unfoldable pub read_color : Node R.Carrier → Result (Color R.Carrier)
  unfolding is_string as_string as_array read_components
  read_color node =
      if is_string node
      then (as_string node >>= λ s. ok (named s))
      else as_array node >>= read_components

  unfoldable pub read_palette : Items R.Carrier → Result (List (Color R.Carrier))
  unfolding read_color
  read_palette no_items = ok []
  read_palette (item node items) = do
    color ← read_color node
    colors ← read_palette items
    ok (color ∷ colors)

  -- The two numbers of an offset.
  unfoldable pub read_offset : Items R.Carrier → Result (R.Carrier × R.Carrier)
  unfolding item_at as_double
  read_offset items = do
    first ← item_at items 0
    x ← as_double R.of_int first
    second ← item_at items 1
    y ← as_double R.of_int second
    ok (x, y)

  -- `JSON_ReaderMapSettings`
  unfoldable pub read_map_settings : Node R.Carrier → Result (MapSettings R.Carrier)
  unfolding as_dict at_key as_int as_array as_double read_offset read_color read_palette
  read_map_settings document = do
    map_query ← as_dict document
    width ← double_at map_query (codes "width")
    height ← double_at map_query (codes "height")
    padding ← double_at map_query (codes "padding")
    line_width ← double_at map_query (codes "line_width")
    stop_radius ← double_at map_query (codes "stop_radius")
    bus_label_font_size ← at_key map_query (codes "bus_label_font_size") >>= as_int
    arr_bus_label_offset ← at_key map_query (codes "bus_label_offset") >>= as_array
    bus_label_offset ← read_offset arr_bus_label_offset
    stop_label_font_size ← at_key map_query (codes "stop_label_font_size") >>= as_int
    arr_stop_label_offset ← at_key map_query (codes "stop_label_offset") >>= as_array
    stop_label_offset ← read_offset arr_stop_label_offset
    underlayer_width ← double_at map_query (codes "underlayer_width")
    underlayer_color ← at_key map_query (codes "underlayer_color") >>= read_color
    arr_color_palette ← at_key map_query (codes "color_palette") >>= as_array
    color_palette ← read_palette arr_color_palette
    ok (record {
      size = record { width = width; height = height; padding = padding };
      element_size = record { line_width = line_width; stop_radius = stop_radius };
      bus_label = record { font_size = bus_label_font_size; offset = bus_label_offset };
      stop_label = record { font_size = stop_label_font_size; offset = stop_label_offset };
      underlayer_color = underlayer_color;
      underlayer_width = underlayer_width;
      color_palette = color_palette;
    })
