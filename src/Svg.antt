-- ===== src/Svg.antt =====
-- TransportSystem/svg.h, TransportSystem/svg.cpp: the shapes of a drawing. `D` stands for `double`.
pub mod Render
pub mod Escape
pub mod Finding
pub mod Replacing
pub mod Escaping
use transport_system.Prelude.{ℕ, ◌+◌, Option, none, some, List, [], ◌∷◌, ◌++◌, Str, codes}

pub record Rgb : Type 0 where
  pub red : ℕ
  pub green : ℕ
  pub blue : ℕ

pub record Rgba (D : Type 0) : Type 0 where
  pub red : ℕ
  pub green : ℕ
  pub blue : ℕ
  pub opacity : D

-- `std::variant<std::monostate, std::string, Rgb, Rgba>`
pub data Color (D : Type 0) : Type 0 where
  monostate : Color D
  named : Str → Color D
  rgb : Rgb → Color D
  rgba : Rgba D → Color D

-- `NoneColor`
abbrev pub none_color : {D : Type 0} → Color D
none_color = named (codes "none")

pub data StrokeLineCap : Type 0 where
  butt round square : StrokeLineCap

pub data StrokeLineJoin : Type 0 where
  arcs bevel miter miter_clip round_join : StrokeLineJoin

pub record PathProps (D : Type 0) : Type 0 where
  pub fill_color : Color D
  pub stroke_color : Color D
  pub stroke_width : Option D
  pub stroke_line_cap : Option StrokeLineCap
  pub stroke_line_join : Option StrokeLineJoin

abbrev pub no_props : {D : Type 0} → PathProps D
no_props = record {
  fill_color = monostate;
  stroke_color = monostate;
  stroke_width = none;
  stroke_line_cap = none;
  stroke_line_join = none;
}

pub record Point (D : Type 0) : Type 0 where
  pub x : D
  pub y : D

pub record Circle (D : Type 0) : Type 0 where
  pub props : PathProps D
  pub center : Point D
  pub radius : D

pub record Polyline (D : Type 0) : Type 0 where
  pub props : PathProps D
  pub points : List (Point D)

pub record Text (D : Type 0) : Type 0 where
  pub props : PathProps D
  pub pos : Point D
  pub offset : Point D
  pub size : ℕ
  pub font_family : Str
  pub font_weight : Str
  pub data' : Str

-- The classes that derive from `Object`.
pub data Object (D : Type 0) : Type 0 where
  circle : Circle D → Object D
  polyline : Polyline D → Object D
  text : Text D → Object D

-- `Document`: its objects in the order in which they were added.
abbrev pub Document : Type 0 → Type 0
Document D = List (Object D)

module _ {D : Type 0} where
  unfoldable pub set_fill_color : Color D → PathProps D → PathProps D
  set_fill_color color p = record p { fill_color = color }

  unfoldable pub set_stroke_color : Color D → PathProps D → PathProps D
  set_stroke_color color p = record p { stroke_color = color }

  unfoldable pub set_stroke_width : D → PathProps D → PathProps D
  set_stroke_width width p = record p { stroke_width = some width }

  unfoldable pub set_stroke_line_cap : StrokeLineCap → PathProps D → PathProps D
  set_stroke_line_cap line_cap p = record p { stroke_line_cap = some line_cap }

  unfoldable pub set_stroke_line_join : StrokeLineJoin → PathProps D → PathProps D
  set_stroke_line_join line_join p = record p { stroke_line_join = some line_join }

  unfoldable pub set_center : Point D → Circle D → Circle D
  set_center center c = record c { center = center }

  unfoldable pub set_radius : D → Circle D → Circle D
  set_radius radius c = record c { radius = radius }

  unfoldable pub add_point : Point D → Polyline D → Polyline D
  add_point point l = record l { points = l.points ++ point ∷ [] }

  unfoldable pub set_position : Point D → Text D → Text D
  set_position pos t = record t { pos = pos }

  unfoldable pub set_offset : Point D → Text D → Text D
  set_offset offset t = record t { offset = offset }

  unfoldable pub set_font_size : ℕ → Text D → Text D
  set_font_size size t = record t { size = size }

  unfoldable pub set_font_family : Str → Text D → Text D
  set_font_family font_family t = record t { font_family = font_family }

  unfoldable pub set_font_weight : Str → Text D → Text D
  set_font_weight font_weight t = record t { font_weight = font_weight }

  -- `AddPtr`, and `Add`
  unfoldable pub add_ptr : Object D → Document D → Document D
  add_ptr obj doc = doc ++ obj ∷ []
