-- ===== src/Catalogue/Steps.antt =====
-- The changes that the operations of TransportSystem/transport_catalogue.cpp consist of. What each of
-- them keeps, the operations keep.
use transport_system.Prelude.{
  ℕ, ◌≡◌, refl, ap, subst, Bool, Bool-cases, Option, none, some, Option-cases, List, [], ◌∷◌, ◌++◌,
  inl, inr, Str, get_elem?, set, length, ok, or_throw, out_of_range, Exception, after, ok_same,
  throw_ok,
}
use transport_system.Real.{Real}
use transport_system.Domain.{Coordinates, Stop, Bus, deref}
use transport_system.Catalogue.{
  Catalogue, lookup, insert_pair, append_stop, update_stop, is_unset, add_stop, no_location,
  stop_availability, ensure_stop, find_bus, note_bus, append_bus, add_bus_stops, set_bus_stops,
  add_bus, add_length_between_stops,
}
use transport_system.Catalogue.Stops.{lookup-assign_new}

pub ok-or_throw :
    {A : Type 0} (x : Exception) (o : Option A) {a : A} → or_throw x o ≡ ok a → o ≡ some a
ok-or_throw x none e = absurd (throw_ok e)
ok-or_throw x (some b) e = ap some (ok_same {r = ok b} refl e)

pub ok-get_elem? :
    {A : Type 0} (xs : List A) (p : ℕ) {a : A} → deref xs p ≡ ok a → get_elem? xs p ≡ some a
unfolding deref
ok-get_elem? xs p e = ok-or_throw _ (get_elem? xs p) e

module _ (R : Real) (P : Catalogue R → Type 0) where
  pub record Keeps : Type 0 where
    pub append_stop_keeps :
        (stop : Stop R.Carrier) (c : Catalogue R)
        → lookup stop.name c.stops ≡ none
        → P c
        → P (append_stop R stop c)
    pub write_stop_keeps :
        (p : ℕ) (stop old : Stop R.Carrier) (c : Catalogue R)
        → lookup stop.name c.stops ≡ some p
        → get_elem? c.all_stops p ≡ some old
        → P c
        → P (record c { all_stops = set c.all_stops p stop })
    pub note_bus_keeps : (stop bus : Str) (c : Catalogue R) → P c → P (note_bus R stop bus c)
    pub append_bus_keeps : (bus : Bus) (c : Catalogue R) → P c → P (append_bus R bus c)
    pub set_stops_keeps :
        (p : ℕ) (bus : Bus) (stops : List ℕ) (c : Catalogue R)
        → get_elem? c.all_buses p ≡ some bus
        → P c
        → P (record c { all_buses = set c.all_buses p (record bus { stops = stops }) })

  module _ (keeps : Keeps) where
    pub add_stop-keeps :
        (name : Str) (location : Coordinates R.Carrier) (c d : Catalogue R)
        → P c
        → add_stop R name location c ≡ ok d
        → P d
    unfolding add_stop update_stop
    add_stop-keeps name location c d h e =
        let stop : Stop R.Carrier = record { name = name; coordinates = location } in
        elim (Option-cases (lookup name c.stops)) [
          | inl fresh ↦
              subst P (ok_same {r = ok _} refl (rw (add_stop, fresh) at e))
                (keeps.append_stop_keeps stop c fresh h)
          | inr (p, found) ↦
              after (deref c.all_stops p) (rw (add_stop, update_stop, found) at e) λ old at_p e1.
                elim (Bool-cases (is_unset R old.coordinates)) [
                  | inl unset ↦ subst P (ok_same {r = ok _} refl (rw unset at e1)) (
                      keeps.write_stop_keeps p stop old c found (ok-get_elem? c.all_stops p at_p) h)
                  | inr known ↦ subst P (ok_same {r = ok _} refl (rw known at e1)) h
                ]
        ]

    ensure_stop-keeps : (name : Str) (c d : Catalogue R) → P c → ensure_stop R name c ≡ ok d → P d
    unfolding ensure_stop
    ensure_stop-keeps name c d h e = elim (Bool-cases (stop_availability c name)) [
      | inl known ↦ subst P (ok_same {r = ok c} refl (rw known at e)) h
      | inr fresh ↦ add_stop-keeps name (no_location R) c d h (rw fresh at e)
    ]

    add_bus_stops-keeps :
        (name : Str) (stops : List Str) (ps qs : List ℕ) (c d : Catalogue R)
        → P c
        → add_bus_stops R name stops ps c ≡ ok (qs, d)
        → P d
    unfolding add_bus_stops
    add_bus_stops-keeps name [] ps qs c d h e =
        subst P (ap (λ x. x.1) (ok_same {r = ok (ps, c)} refl e)) h
    add_bus_stops-keeps name (stop ∷ stops) ps qs c d h e =
        after (ensure_stop R stop c) e λ known ensured e1.
          after (or_throw out_of_range (lookup stop known.stops)) e1 λ p _ e2.
            after (deref known.all_stops p) e2 λ found _ e3.
              after (find_bus known name) e3 λ bus _ e4.
                add_bus_stops-keeps name stops (ps ++ p ∷ []) qs
                  (note_bus R found.name bus.name known) d
                  (keeps.note_bus_keeps found.name bus.name known
                    (ensure_stop-keeps stop c known h ensured))
                  e4

    pub add_bus-keeps :
        (name : Str) (stops : List Str) (is_loop : Bool) (c d : Catalogue R)
        → P c
        → add_bus R name stops is_loop c ≡ ok d
        → P d
    unfolding add_bus set_bus_stops
    add_bus-keeps name stops is_loop c d h e =
        after (add_bus_stops R name stops [] (append_bus R _ c)) e λ (qs, done) added e1.
          after (or_throw out_of_range (lookup name done.buses)) e1 λ p _ e2.
            after (deref done.all_buses p) e2 λ bus at_p e3. subst P (ok_same {r = ok _} refl e3) (
              keeps.set_stops_keeps p bus qs done (ok-get_elem? done.all_buses p at_p)
                (add_bus_stops-keeps name stops [] qs _ done (keeps.append_bus_keeps _ c h) added))

-- A stop that is known stays at its place.
module _ (R : Real) (n : Str) (i : ℕ) where
  abbrev StaysAt : Catalogue R → Type 0
  StaysAt c = lookup n c.stops ≡ some i

  StaysAt-keeps : Keeps R StaysAt
  unfolding append_stop note_bus append_bus
  StaysAt-keeps = record {
    append_stop_keeps =
        λ stop c fresh h. lookup-assign_new n stop.name (length c.all_stops) c.stops fresh h;
    write_stop_keeps = λ p stop old c _ _ h. h;
    note_bus_keeps = λ stop bus c h. h;
    append_bus_keeps = λ bus c h. h;
    set_stops_keeps = λ p bus stops c _ h. h;
  }

module _ (R : Real) (P : Catalogue R → Type 0) (keeps : Keeps R P) (n : ℕ)
    (insert_length_keeps : (first second : Str) (p q : ℕ) (c : Catalogue R)
      → lookup first c.stops ≡ some p
      → lookup second c.stops ≡ some q
      → P c
      → P (record c { length_between_stops = insert_pair (p, q) n c.length_between_stops })) where
  pub add_length-keeps :
      (first second : Str) (c d : Catalogue R)
      → P c
      → add_length_between_stops R (first, second) n c ≡ ok d
      → P d
  unfolding add_length_between_stops
  add_length-keeps first second c d h e =
      after (or_throw out_of_range (lookup first c.stops)) e λ p at_p e1.
        after (ensure_stop R second c) e1 λ known ensured e2.
          after (or_throw out_of_range (lookup second known.stops)) e2 λ q at_q e3.
            subst P (ok_same {r = ok _} refl e3) (
              insert_length_keeps first second p q known
                (ensure_stop-keeps R (StaysAt R first p) (StaysAt-keeps R first p) second c known
                  (ok-or_throw _ _ at_p) ensured)
                (ok-or_throw _ _ at_q) (ensure_stop-keeps R P keeps second c known h ensured))
