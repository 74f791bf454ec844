-- ===== src/RequestHandler/Labels.antt =====
-- What stands where on the map of TransportSystem/request_handler.cpp, said by the stops and the buses.
use transport_system.Prelude.{
  ℕ, ◌-◌, ◌≡◌, refl, ap, ◌∙◌, Bool, some, List, [], ◌∷◌, ◌++◌, map, append_assoc, append-nil, Str,
  length, get_elem?, ok, arith, ok_same, after, ◌==◌, ◌||◌, if◌then◌else◌, sym,
}
use transport_system.Domain.{Coordinates, Stop, Bus, deref_all}
use transport_system.Catalogue.{TransportCatalogue, find_bus, find_stop}
use transport_system.Catalogue.Info.{way}
use transport_system.MapRenderer.{
  MapSettings, new_text, place_label, background, with_text_props, palette_color, drawn_stops,
  add_points, render_way, render_name_bus, render_name_stop,
}
use transport_system.Svg.{
  Point, Circle, Polyline, Text, add_point, set_position, set_offset, set_font_size,
  set_font_family, set_font_weight,
}
use transport_system.Svg.Escaping.{escape_tail, set_data-escape}

-- The stops at which the name of a bus stands: its first, and its last if the bus turns around there
-- and it is another.
abbrev last_of : ℕ → List ℕ → ℕ
last_of p [] = p
last_of p (q ∷ ps) = last_of q ps

abbrev pub ends : Bool → List ℕ → List ℕ
ends is_loop [] = []
ends is_loop (p ∷ ps) =
    let last = last_of p ps in if is_loop || p == last then p ∷ [] else p ∷ last ∷ []

get_elem?-last_of : (p : ℕ) (ps : List ℕ) → get_elem? (p ∷ ps) (length ps) ≡ some (last_of p ps)
get_elem?-last_of p [] = refl
get_elem?-last_of p (q ∷ ps) = get_elem?-last_of q ps

pub ends-places :
    (is_loop : Bool) (ps : List ℕ) (first last : ℕ)
    → get_elem? ps 0 ≡ some first
    → get_elem? ps (length ps - 1) ≡ some last
    → ends is_loop ps ≡ (if is_loop || first == last then first ∷ [] else first ∷ last ∷ [])
ends-places is_loop [] first last at_first at_last = absurd (cc at_first)
ends-places is_loop (p ∷ ps) first last at_first at_last =
    let index : length (p ∷ ps) - 1 ≡ length ps = omega arith in
    let same : p ≡ first = cc at_first in
    let same_last : last_of p ps ≡ last = cc (get_elem?-last_of p ps, rw index at at_last) in
    rw (same_last, same) refl

module _ {D : Type 0} (db : TransportCatalogue D) (projector : Coordinates D → Point D) where
  -- Two texts with this name, escaped, at the point of the stop.
  abbrev pub IsLabel : Str → Stop D → Text D → Text D → Type 0
  IsLabel name s a b =
      (a.pos ≡ projector s.coordinates)
      × (b.pos ≡ projector s.coordinates)
      × (a.data' ≡ escape_tail name)
      × (b.data' ≡ escape_tail name)

  -- A label for each place.
  abbrev pub AreLabels : Str → List ℕ → List (Text D) → Type 0
  AreLabels name [] [] = Unit
  AreLabels name [] (a ∷ texts) = ⊥
  AreLabels name (p ∷ ps) [] = ⊥
  AreLabels name (p ∷ ps) (a ∷ []) = ⊥
  AreLabels name (p ∷ ps) (a ∷ b ∷ texts) =
      (s : Stop D) × (get_elem? db.all_stops p ≡ some s)
      × IsLabel name s a b
      × AreLabels name ps texts

  -- The labels of each bus stand at its ends.
  abbrev pub AreBusLabels : List Str → List (Text D) → Type 0
  AreBusLabels [] [] = Unit
  AreBusLabels [] (a ∷ texts) = ⊥
  AreBusLabels (name ∷ names) texts =
      (bus : Bus) × (mine rest : List (Text D)) × (find_bus db name ≡ ok bus)
      × (texts ≡ mine ++ rest)
      × AreLabels name (ends bus.is_loop_trip bus.stops) mine
      × AreBusLabels names rest

  -- A line for each bus, through the points of the stops on its way.
  abbrev pub AreWays : List Str → List (Polyline D) → Type 0
  AreWays [] [] = Unit
  AreWays [] (w ∷ ways) = ⊥
  AreWays (name ∷ names) [] = ⊥
  AreWays (name ∷ names) (w ∷ ways) =
      ((bus : Bus) × (path : List ℕ) × (stops : List (Stop D)) × (find_bus db name ≡ ok bus)
        × (way bus ≡ ok path)
        × (deref_all db.all_stops path ≡ ok stops)
        × (w.points ≡ map (λ s. projector s.coordinates) stops))
      × AreWays names ways

  -- A circle for each stop, around its point.
  abbrev pub AreCircles : List Str → List (Circle D) → Type 0
  AreCircles [] [] = Unit
  AreCircles [] (c ∷ circles) = ⊥
  AreCircles (name ∷ names) [] = ⊥
  AreCircles (name ∷ names) (c ∷ circles) =
      ((s : Stop D) × (find_stop db name ≡ ok s) × (c.center ≡ projector s.coordinates))
      × AreCircles names circles

  -- A label for each stop, at its point.
  abbrev pub AreStopLabels : List Str → List (Text D) → Type 0
  AreStopLabels [] [] = Unit
  AreStopLabels [] (a ∷ texts) = ⊥
  AreStopLabels (name ∷ names) [] = ⊥
  AreStopLabels (name ∷ names) (a ∷ []) = ⊥
  AreStopLabels (name ∷ names) (a ∷ b ∷ texts) =
      ((s : Stop D) × (find_stop db name ≡ ok s) × IsLabel name s a b) × AreStopLabels names texts

  pub add_points-map :
      (stops : List (Stop D)) (l : Polyline D)
      → (add_points projector stops l).points ≡ l.points ++ map (λ s. projector s.coordinates) stops
  unfolding add_points add_point
  add_points-map [] l = sym (append-nil l.points)
  add_points-map (stop ∷ stops) l =
      add_points-map stops (add_point (projector stop.coordinates) l)
      ∙ append_assoc l.points (projector stop.coordinates ∷ [])
          (map (λ s. projector s.coordinates) stops)

  pub render_way-points :
      (settings : MapSettings D) (bus : Bus) (counter : ℕ) (w : Polyline D)
      → render_way settings db.all_stops bus counter projector ≡ ok w
      → (path : List ℕ) × (stops : List (Stop D)) × (way bus ≡ ok path)
        × (deref_all db.all_stops path ≡ ok stops)
        × (w.points ≡ map (λ s. projector s.coordinates) stops)
  unfolding render_way drawn_stops way
  render_way-points settings bus counter w e =
      after (palette_color settings counter) e λ color _ e1.
        after (drawn_stops bus) e1 λ path drawn e2.
          after (deref_all db.all_stops path) e2 λ stops read e3. (
            path,
            stops,
            drawn,
            read,
            sym (ap (λ x. x.points) (ok_same {r = ok _} refl e3)) ∙ add_points-map stops _,
          )

  module _ (z u : D) (settings : MapSettings D) (name : Str) (s : Stop D) where
    pub render_name_bus-IsLabel :
        (counter : ℕ) (a b : Text D)
        → render_name_bus z u settings name counter (projector s.coordinates) ≡ ok (a, b)
        → IsLabel name s a b
    unfolding render_name_bus place_label background with_text_props set_position set_offset
        set_font_size set_font_family set_font_weight
    render_name_bus-IsLabel counter a b e = after (palette_color settings counter) e λ color _ e1.
        let same = ok_same {r = ok _} refl e1 in
        let text = set_data-escape name (new_text z u) in
        (
          sym (ap (λ x. x.0.pos) same),
          sym (ap (λ x. x.1.pos) same),
          sym (ap (λ x. x.0.data') same) ∙ ap (λ x. x.data') text,
          sym (ap (λ x. x.1.data') same) ∙ ap (λ x. x.data') text,
        )

    pub render_name_stop-IsLabel :
        IsLabel name s
          (render_name_stop z u settings name (projector s.coordinates)).0
          (render_name_stop z u settings name (projector s.coordinates)).1
    unfolding render_name_stop place_label background with_text_props set_position set_offset
        set_font_size set_font_family
    render_name_stop-IsLabel =
        let text = set_data-escape name (new_text z u) in
        (refl, refl, ap (λ x. x.data') text, ap (λ x. x.data') text)
