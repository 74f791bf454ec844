-- ===== src/Svg/Render.antt =====
-- The output of TransportSystem/svg.cpp. `out << unsigned` and `out << double` are the standard
-- library's, and are arguments.
use transport_system.Prelude.{ℕ, Option, none, some, List, [], ◌∷◌, ◌++◌, Str, codes, replicate}
use transport_system.Svg.{
  Rgb, Rgba, Color, monostate, named, rgb, rgba, StrokeLineCap, butt, round, square, StrokeLineJoin,
  arcs, bevel, miter, miter_clip, round_join, PathProps, Point, Circle, Polyline, Text, Object,
  circle, polyline, text, Document,
}

unfoldable pub print_line_cap : StrokeLineCap → Str
print_line_cap butt = codes "butt"
print_line_cap round = codes "round"
print_line_cap square = codes "square"

unfoldable pub print_line_join : StrokeLineJoin → Str
print_line_join arcs = codes "arcs"
print_line_join bevel = codes "bevel"
print_line_join miter = codes "miter"
print_line_join miter_clip = codes "miter-clip"
print_line_join round_join = codes "round"

-- An attribute that may be absent.
abbrev pub attribute : Str → Option Str → Str
attribute name none = []
attribute name (some s) = b' ' ∷ (name ++ (codes "=\"" ++ (s ++ b'"' ∷ [])))

abbrev pub map_option : {A B : Type 0} → (A → B) → Option A → Option B
map_option f none = none
map_option f (some a) = some (f a)

abbrev pub nonempty : Str → Option Str
nonempty [] = none
nonempty (c ∷ s) = some (c ∷ s)

-- A line of the document, behind its indentation.
abbrev pub document_indent : ℕ
document_indent = 2

module _ {D : Type 0} (show_unsigned : ℕ → Str) (show_double : D → Str) where
  unfoldable pub print_rgb : Rgb → Str
  print_rgb c =
      codes "rgb("
      ++ (show_unsigned c.red
          ++ b',' ∷ (show_unsigned c.green ++ b',' ∷ (show_unsigned c.blue ++ codes ")")))

  unfoldable pub print_rgba : Rgba D → Str
  print_rgba c =
      codes "rgba("
      ++ (show_unsigned c.red
          ++ b','
            ∷ (show_unsigned c.green
                ++ b',' ∷ (show_unsigned c.blue ++ b',' ∷ (show_double c.opacity ++ codes ")"))))

  -- `Visiter`
  unfoldable pub print_color : Color D → Str
  unfolding print_rgb print_rgba
  print_color monostate = codes "none"
  print_color (named s) = s
  print_color (rgb c) = print_rgb c
  print_color (rgba c) = print_rgba c

  -- A colour attribute is left out for `monostate`.
  unfoldable pub held_color : Color D → Option Str
  unfolding print_color
  held_color monostate = none
  held_color c = some (print_color c)

  unfoldable pub render_attrs : PathProps D → Str
  unfolding held_color print_line_cap print_line_join
  render_attrs p =
      attribute (codes "fill") (held_color p.fill_color)
      ++ (attribute (codes "stroke") (held_color p.stroke_color)
          ++ (attribute (codes "stroke-width") (map_option show_double p.stroke_width)
              ++ (attribute (codes "stroke-linecap") (map_option print_line_cap p.stroke_line_cap)
                  ++ attribute (codes "stroke-linejoin")
                      (map_option print_line_join p.stroke_line_join))))

  unfoldable pub render_circle : Circle D → Str
  unfolding render_attrs
  render_circle c =
      codes "<circle cx=\""
      ++ (show_double c.center.x
          ++ (codes "\" cy=\""
              ++ (show_double c.center.y
                  ++ (codes "\" r=\""
                      ++ (show_double c.radius
                          ++ (codes "\"" ++ (render_attrs c.props ++ codes "/>")))))))

  abbrev pub print_point : Point D → Str
  print_point p = show_double p.x ++ b',' ∷ show_double p.y

  unfoldable pub render_points : List (Point D) → Str
  render_points [] = []
  render_points (p ∷ []) = print_point p
  render_points (p ∷ q ∷ ps) = print_point p ++ b' ' ∷ render_points (q ∷ ps)

  unfoldable pub render_polyline : Polyline D → Str
  unfolding render_attrs render_points
  render_polyline l =
      codes "<polyline points=\""
      ++ (render_points l.points ++ (codes "\"" ++ (render_attrs l.props ++ codes "/>")))

  unfoldable pub render_text : Text D → Str
  unfolding render_attrs
  render_text t =
      codes "<text"
      ++ (render_attrs t.props
          ++ (attribute (codes "x") (some (show_double t.pos.x))
              ++ (attribute (codes "y") (some (show_double t.pos.y))
                  ++ (attribute (codes "dx") (some (show_double t.offset.x))
                      ++ (attribute (codes "dy") (some (show_double t.offset.y))
                          ++ (attribute (codes "font-size") (some (show_unsigned t.size))
                              ++ (attribute (codes "font-family") (nonempty t.font_family)
                                  ++ (attribute (codes "font-weight") (nonempty t.font_weight)
                                      ++ (codes ">" ++ (t.data' ++ codes "</text>"))))))))))

  unfoldable pub render_object : Object D → Str
  unfolding render_circle render_polyline render_text
  render_object (circle c) = render_circle c
  render_object (polyline l) = render_polyline l
  render_object (text t) = render_text t

  -- `Object::Render` and the loop of `Document::Render`
  unfoldable pub render_objects : Document D → Str
  unfolding render_object
  render_objects [] = []
  render_objects (obj ∷ objects) =
      replicate document_indent b' ' ++ (render_object obj ++ b'\n' ∷ render_objects objects)

  -- `Document::Render`
  unfoldable pub render : Document D → Str
  unfolding render_objects
  render objects =
      codes "<?xml version=\"1.0\" encoding=\"UTF-8\" ?>\n"
      ++ (codes "<svg xmlns=\"http://www.w3.org/2000/svg\" version=\"1.1\">\n"
          ++ (render_objects objects ++ codes "</svg>"))
