-- ===== src/MapRenderer/Saving.antt =====
-- The settings of the map (TransportSystem/map_renderer.cpp), saved and read back.
use transport_system.Prelude.{ℕ, ◌<◌, ◌%◌, ◌≡◌, refl, List, [], ◌∷◌, ok, arith}
use transport_system.Svg.{Color, monostate, named, rgb, rgba}
use transport_system.MapRenderer.{MapSettings}
use transport_system.MapRenderer.Proto.{
  set_proto_color, set_svg_color, save_label, load_label, save_palette, load_palette, save_settings,
  deserialize_map_render,
}

mod_byte : (n : ℕ) → n < 256 → n % 256 ≡ n
mod_byte n h = omega arith

module _ {D : Type 0} where
  -- The parts of a colour are bytes.
  abbrev pub IsByteColor : Color D → Type 0
  IsByteColor monostate = Unit
  IsByteColor (named s) = Unit
  IsByteColor (rgb c) = (c.red < 256) × (c.green < 256) × (c.blue < 256)
  IsByteColor (rgba c) = (c.red < 256) × (c.green < 256) × (c.blue < 256)

  abbrev pub AreByteColors : List (Color D) → Type 0
  AreByteColors [] = Unit
  AreByteColors (c ∷ cs) = IsByteColor c × AreByteColors cs

  set_svg_color-set_proto_color :
      (c : Color D) → IsByteColor c → set_svg_color (set_proto_color c) ≡ c
  unfolding set_svg_color set_proto_color
  set_svg_color-set_proto_color monostate h = refl
  set_svg_color-set_proto_color (named s) h = refl
  set_svg_color-set_proto_color (rgb c) (r, g, b) =
      rw (mod_byte c.red r, mod_byte c.green g, mod_byte c.blue b) refl
  set_svg_color-set_proto_color (rgba c) (r, g, b) =
      rw (mod_byte c.red r, mod_byte c.green g, mod_byte c.blue b) refl

  load_palette-save_palette :
      (cs : List (Color D)) → AreByteColors cs → load_palette (save_palette cs) ≡ cs
  unfolding load_palette save_palette
  load_palette-save_palette [] h = refl
  load_palette-save_palette (c ∷ cs) h =
      rw (set_svg_color-set_proto_color c h.0, load_palette-save_palette cs h.1) refl

  -- Settings whose colours are made of bytes are read back as they were saved.
  pub deserialize-save :
      (s : MapSettings D)
      → IsByteColor s.underlayer_color
      → AreByteColors s.color_palette
      → deserialize_map_render (save_settings s) ≡ ok s
  unfolding deserialize_map_render save_settings load_label save_label
  deserialize-save s h hs =
      rw
        (
          set_svg_color-set_proto_color s.underlayer_color h,
          load_palette-save_palette s.color_palette hs,
        )
        refl
