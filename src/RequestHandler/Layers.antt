-- ===== src/RequestHandler/Layers.antt =====
-- The layers of the map that `RenderMap` of TransportSystem/request_handler.cpp draws.
use transport_system.Prelude.{
  ℕ, zero, suc, ◌-◌, ◌%◌, ◌<◌, ◌≡◌, refl, sym, ◌∙◌, ap, Bool-cases, false, some, List, [], ◌∷◌,
  ◌++◌, map, reverse, append_assoc, append-nil, inl, inr, arith, Str, length, map-append, get_elem?,
  get_elem?_of_below, ok, ◌>>=◌, >>=-of_ok, ◌==◌, ◌||◌,
}
use mathlib.Core.List.{reverse_aux}
use transport_system.Real.{Real}
use transport_system.Domain.{Coordinates, Stop, Bus, deref, pop_back, there_and_back}
use transport_system.Catalogue.{Catalogue, find_bus, find_stop}
use transport_system.Catalogue.WellFormed.{AreBelow, AreBelow-append}
use transport_system.Catalogue.Reachable.{IsSound}
use transport_system.MapRenderer.{
  MapSettings, palette_color, drawn_stops, render_way, render_name_bus, render_stop,
  render_name_stop,
}
use transport_system.Svg.{
  Color, Point, Circle, Polyline, Text, Document, circle, polyline, text, add_ptr,
}
use transport_system.RequestHandler.{
  add_ways, add_label, add_name_at, add_name_bus, add_names_bus, add_circles, add_names_stop,
}
use transport_system.RequestHandler.Labels.{
  ends, ends-places, IsLabel, AreLabels, AreBusLabels, AreWays, AreCircles, AreStopLabels,
  render_way-points, render_name_bus-IsLabel, render_name_stop-IsLabel,
}
use transport_system.RequestHandler.Collecting.{All, deref_all_of_below, IsServed, IsPlaced}

pop_back_of_nonempty :
    (m : ℕ) (ps : List ℕ)
    → 0 < length ps
    → AreBelow m ps
    → (front : List ℕ) × (pop_back ps ≡ ok front) × AreBelow m front
unfolding pop_back
pop_back_of_nonempty m [] h below = absurd (omega arith)
pop_back_of_nonempty m (p ∷ []) h below = ([], refl, tt)
pop_back_of_nonempty m (p ∷ q ∷ ps) h below =
    let (front, e, b) = pop_back_of_nonempty m (q ∷ ps) (omega arith) below.1 in
    (p ∷ front, rw e refl, (below.0, b))

AreBelow-reverse_aux :
    (m : ℕ) (ps qs : List ℕ) → AreBelow m ps → AreBelow m qs → AreBelow m (reverse_aux ps qs)
AreBelow-reverse_aux m [] qs h k = k
AreBelow-reverse_aux m (p ∷ ps) qs h k = AreBelow-reverse_aux m ps (p ∷ qs) h.1 (h.0, k)

-- The stops along which a bus with a stop is drawn.
drawn_stops_of_nonempty :
    (m : ℕ) (bus : Bus)
    → 0 < length bus.stops
    → AreBelow m bus.stops
    → (path : List ℕ) × (drawn_stops bus ≡ ok path) × AreBelow m path
unfolding drawn_stops there_and_back
drawn_stops_of_nonempty m bus h below = elim (Bool-cases bus.is_loop_trip) [
  | inl loop ↦ (bus.stops, rw loop refl, below)
  | inr line ↦
      let (front, e, b) = pop_back_of_nonempty m bus.stops h below in
      (
        bus.stops ++ reverse front,
        rw (line, e) refl,
        AreBelow-append m bus.stops (reverse front) below (AreBelow-reverse_aux m front [] b tt),
      )
]

AreBelow-get_elem? :
    (m : ℕ) (ps : List ℕ) (i p : ℕ) → AreBelow m ps → get_elem? ps i ≡ some p → p < m
AreBelow-get_elem? m [] i p h e = cc
AreBelow-get_elem? m (q ∷ ps) zero p h e = let same : q ≡ p = cc e in rw (← same) h.0
AreBelow-get_elem? m (q ∷ ps) (suc i) p h e = AreBelow-get_elem? m ps i p h.1 e

module _ {D : Type 0} (settings : MapSettings D) (colored : 0 < length settings.color_palette) where
  palette_color_of_nonempty :
      (counter : ℕ) → (color : Color D) × (palette_color settings counter ≡ ok color)
  unfolding palette_color
  palette_color_of_nonempty counter =
      let count = length settings.color_palette in
      let inside : counter % count < count = omega (arith, colored) in
      let (color, there) = get_elem?_of_below settings.color_palette (counter % count) inside in
      let some_colors : (count == 0) ≡ false = ground (arith, colored) in
      (color, rw (some_colors, there) refl)

module _ (R : Real) (db : Catalogue R) (settings : MapSettings R.Carrier)
    (colored : 0 < length settings.color_palette)
    (sphere_projector : Coordinates R.Carrier → Point R.Carrier) where
  abbrev all_stops : List (Stop R.Carrier)
  all_stops = db.all_stops

  render_way_of_served :
      (bus : Bus) (counter : ℕ)
      → 0 < length bus.stops
      → AreBelow (length db.all_stops) bus.stops
      → (way : Polyline R.Carrier) × (render_way settings db.all_stops bus counter sphere_projector
          ≡ ok way)
  unfolding render_way
  render_way_of_served bus counter h below =
      let (color, colors) = palette_color_of_nonempty settings colored counter in
      let (path, drawn, inside) = drawn_stops_of_nonempty (length db.all_stops) bus h below in
      let (stops, read, _, _) = deref_all_of_below db.all_stops path inside in
      (_, >>=-of_ok _ colors (>>=-of_ok _ drawn (>>=-of_ok _ read refl)))

  find_bus_of_served :
      (sound : IsSound R db) (n : Str)
      → IsServed R db sound n
      → (bus : Bus) × (find_bus db n ≡ ok bus)
        × (0 < length bus.stops)
        × AreBelow (length db.all_stops) bus.stops
  unfolding find_bus deref
  find_bus_of_served sound n (p, bus, found, there, long, below) =
      (bus, rw (found, there) refl, long, below)

  find_stop_of_placed :
      (sound : IsSound R db) (n : Str)
      → IsPlaced R db sound n
      → (s : Stop R.Carrier) × (find_stop db n ≡ ok s)
  unfolding find_stop deref
  find_stop_of_placed sound n (p, s, found, there) = (s, rw (found, there) refl)

  pub add_ways-Document :
      (sound : IsSound R db) (names : List Str) (counter : ℕ) (doc : Document R.Carrier)
      → All (IsServed R db sound) names
      → (ways : List (Polyline R.Carrier)) × (add_ways db settings sphere_projector names counter
            doc
          ≡ ok (doc ++ map polyline ways))
        × AreWays db sphere_projector names ways
  unfolding add_ways add_ptr
  add_ways-Document sound [] counter doc h = ([], rw (append-nil doc) refl, tt)
  add_ways-Document sound (n ∷ names) counter doc h =
      let (bus, found, long, below) = find_bus_of_served sound n h.0 in
      let (way, drawn) = render_way_of_served bus counter long below in
      let (path, stops, on_way, read, points) =
        render_way-points db sphere_projector settings bus counter way drawn in
      let (ways, rest, others) =
        add_ways-Document sound names (suc counter) (doc ++ polyline way ∷ []) h.1 in
      (
        way ∷ ways,
        rw (found, ◌>>=◌, drawn, ◌>>=◌, ← append_assoc doc (polyline way ∷ []) (map polyline ways))
            rest,
        ((bus, path, stops, found, on_way, read, points), others),
      )

  module _ (zero_value one_value : R.Carrier) where
    render_name_bus_of_nonempty :
        (name : Str) (counter : ℕ) (stop : Point R.Carrier)
        → (label : Text R.Carrier × Text R.Carrier) × (render_name_bus zero_value one_value settings
              name counter stop
            ≡ ok label)
    unfolding render_name_bus
    render_name_bus_of_nonempty name counter stop =
        let (color, colors) = palette_color_of_nonempty settings colored counter in
        (_, >>=-of_ok _ colors refl)

    add_name_at-Document :
        (name : Str) (counter place : ℕ) (doc : Document R.Carrier)
        → place < length db.all_stops
        → (a b : Text R.Carrier) × (stop : Stop R.Carrier) × (add_name_at zero_value one_value db
              settings sphere_projector name counter place doc
            ≡ ok (doc ++ map text (a ∷ b ∷ [])))
          × (get_elem? db.all_stops place ≡ some stop)
          × IsLabel db sphere_projector name stop a b
    unfolding add_name_at add_label add_ptr deref
    add_name_at-Document name counter place doc h =
        let (stop, there) = get_elem?_of_below db.all_stops place h in
        let ((a, b), labels) =
          render_name_bus_of_nonempty name counter (sphere_projector stop.coordinates) in
        (
          a,
          b,
          stop,
          rw (there, ◌>>=◌, labels) (ap ok (append_assoc doc (text a ∷ []) (text b ∷ []))),
          there,
          render_name_bus-IsLabel db sphere_projector zero_value one_value settings name stop
              counter a b labels,
        )

    -- A bus has its labels at its ends.
    add_name_bus-Document :
        (sound : IsSound R db) (name : Str) (counter : ℕ) (doc : Document R.Carrier)
        → IsServed R db sound name
        → (bus : Bus) × (texts : List (Text R.Carrier)) × (add_name_bus zero_value one_value db
              settings sphere_projector name counter doc
            ≡ ok (doc ++ map text texts))
          × (find_bus db name ≡ ok bus)
          × AreLabels db sphere_projector name (ends bus.is_loop_trip bus.stops) texts
    unfolding add_name_bus
    add_name_bus-Document sound name counter doc served =
        let (bus, found, long, below) = find_bus_of_served sound name served in
        let (first, at_first) = get_elem?_of_below bus.stops 0 long in
        let (last, at_last) =
          get_elem?_of_below bus.stops (length bus.stops - 1) (omega (arith, long)) in
        let places = ends-places bus.is_loop_trip bus.stops first last at_first at_last in
        let (a, b, s, begun, at_s, label) =
          add_name_at-Document name counter first doc
            (AreBelow-get_elem? _ bus.stops 0 first below at_first) in
        let (c, d, t, ended, at_t, other) =
          add_name_at-Document name counter last (doc ++ map text (a ∷ b ∷ []))
            (AreBelow-get_elem? _ bus.stops _ last below at_last) in
        elim (Bool-cases (bus.is_loop_trip || first == last)) [
          | inl once ↦ (
            bus,
            a ∷ b ∷ [],
            rw (found, ◌>>=◌, at_first, ◌>>=◌, at_last, ◌>>=◌, begun, once) refl,
            found,
            rw (places, once) (s, at_s, label, tt),
          )
          | inr twice ↦ (
            bus,
            a ∷ b ∷ c ∷ d ∷ [],
            rw (found, ◌>>=◌, at_first, ◌>>=◌, at_last, ◌>>=◌, begun, twice)
                (ended ∙ ap ok (append_assoc doc (map text (a ∷ b ∷ [])) (map text (c ∷ d ∷ [])))),
            found,
            rw (places, twice) (s, at_s, label, (t, at_t, other, tt)),
          )
        ]

    pub add_names_bus-Document :
        (sound : IsSound R db) (names : List Str) (counter : ℕ) (doc : Document R.Carrier)
        → All (IsServed R db sound) names
        → (texts : List (Text R.Carrier)) × (add_names_bus zero_value one_value db settings
              sphere_projector names counter doc
            ≡ ok (doc ++ map text texts))
          × AreBusLabels db sphere_projector names texts
    unfolding add_names_bus
    add_names_bus-Document sound [] counter doc h = ([], rw (append-nil doc) refl, tt)
    add_names_bus-Document sound (n ∷ names) counter doc h =
        let (bus, first, drawn, found, mine) = add_name_bus-Document sound n counter doc h.0 in
        let (texts, rest, others) =
          add_names_bus-Document sound names (suc counter) (doc ++ map text first) h.1 in
        let joined : (doc ++ map text first) ++ map text texts ≡ doc ++ map text (first ++ texts) =
          append_assoc doc (map text first) (map text texts)
          ∙ ap (λ x. doc ++ x) (sym (map-append text first texts)) in
        (
          first ++ texts,
          >>=-of_ok _ drawn (rest ∙ ap ok joined),
          (bus, first, texts, found, refl, mine, others),
        )

    pub add_circles-Document :
        (sound : IsSound R db) (names : List Str) (doc : Document R.Carrier)
        → All (IsPlaced R db sound) names
        → (circles : List (Circle R.Carrier)) × (add_circles zero_value one_value db settings
              sphere_projector names doc
            ≡ ok (doc ++ map circle circles))
          × AreCircles db sphere_projector names circles
    unfolding add_circles add_ptr
    add_circles-Document sound [] doc h = ([], rw (append-nil doc) refl, tt)
    add_circles-Document sound (n ∷ names) doc h =
        let (s, found) = find_stop_of_placed sound n h.0 in
        let shape = render_stop zero_value one_value settings (sphere_projector s.coordinates) in
        let (circles, rest, others) =
          add_circles-Document sound names (doc ++ circle shape ∷ []) h.1 in
        (
          shape ∷ circles,
          >>=-of_ok _ found
              (rest ∙ ap ok (append_assoc doc (circle shape ∷ []) (map circle circles))),
          ((s, found, refl), others),
        )

    pub add_names_stop-Document :
        (sound : IsSound R db) (names : List Str) (doc : Document R.Carrier)
        → All (IsPlaced R db sound) names
        → (texts : List (Text R.Carrier)) × (add_names_stop zero_value one_value db settings
              sphere_projector names doc
            ≡ ok (doc ++ map text texts))
          × AreStopLabels db sphere_projector names texts
    unfolding add_names_stop add_label add_ptr
    add_names_stop-Document sound [] doc h = ([], rw (append-nil doc) refl, tt)
    add_names_stop-Document sound (n ∷ names) doc h =
        let (s, found) = find_stop_of_placed sound n h.0 in
        let (a, b) =
          render_name_stop zero_value one_value settings n (sphere_projector s.coordinates) in
        let (texts, rest, others) =
          add_names_stop-Document sound names ((doc ++ text a ∷ []) ++ text b ∷ []) h.1 in
        let joined : ((doc ++ text a ∷ []) ++ text b ∷ []) ++ map text texts
            ≡ doc ++ map text (a ∷ b ∷ texts) =
          append_assoc (doc ++ text a ∷ []) (text b ∷ []) (map text texts)
          ∙ append_assoc doc (text a ∷ []) (text b ∷ map text texts) in
        (
          a ∷ b ∷ texts,
          >>=-of_ok _ found (rest ∙ ap ok joined),
          (
            (
              s,
              found,
              render_name_stop-IsLabel db sphere_projector zero_value one_value settings n s,
            ),
            others,
          ),
        )
