-- ===== src/Catalogue/Loading/Buses.antt =====
-- How TransportSystem/transport_catalogue.cpp reads the buses of a saved catalogue.
use transport_system.Prelude.{
  ℕ, suc, ◌≡◌, refl, sym, ap, subst, ◌∙◌, some, List, [], ◌∷◌, ◌++◌, map, append_assoc, append-nil,
  Str, length, get_elem?, get_elem?-concat, set, ok, >>=-of_ok,
}
use transport_system.Real.{Real}
use transport_system.Domain.{Stop, Bus, deref}
use transport_system.Catalogue.{
  Catalogue, lookup, stop_availability, ensure_stop, note_bus, find_bus, append_bus, add_bus_stops,
  set_bus_stops, add_bus,
}
use transport_system.Catalogue.WellFormed.{AreBelow}
use transport_system.Catalogue.Stops.{lookup-assign_same}
use transport_system.Catalogue.Building.{ArePlaces}
use transport_system.Catalogue.Reachable.{IsBuilt, IsBuilt→IsSound}
use transport_system.Catalogue.Saving.{saved_bus}
use transport_system.Catalogue.Proto.{save_stop, load_buses}
use transport_system.Catalogue.Loading.{IsListed, proto_names-saved}

set-concat : {A : Type 0} (xs : List A) (a b : A) → set (xs ++ a ∷ []) (length xs) b ≡ xs ++ b ∷ []
set-concat [] a b = refl
set-concat (x ∷ xs) a b = ap (λ ys. x ∷ ys) (set-concat xs a b)

module _ (R : Real) where
  -- The same aside from the buses that are noted at the stops.
  abbrev IsSame : Catalogue R → Catalogue R → Type 0
  IsSame c d =
      (d.all_stops ≡ c.all_stops)
      × (d.stops ≡ c.stops)
      × (d.all_buses ≡ c.all_buses)
      × (d.buses ≡ c.buses)
      × (d.length_between_stops ≡ c.length_between_stops)

  -- The loop of `AddBus` for stops that are known finds their places.
  add_bus_stops-known :
      (name : Str) (i : ℕ) (bus : Bus) (names : List Str) (qs ps : List ℕ) (c : Catalogue R)
      → IsListed R c
      → lookup name c.buses ≡ some i
      → get_elem? c.all_buses i ≡ some bus
      → ArePlaces R c.all_stops names qs
      → (d : Catalogue R) × (add_bus_stops R name names ps c ≡ ok (ps ++ qs, d)) × IsSame c d
  unfolding add_bus_stops ensure_stop stop_availability deref find_bus note_bus
  add_bus_stops-known name i bus [] [] ps c h at_name there places =
      (c, rw (append-nil ps) refl, (refl, refl, refl, refl, refl))
  add_bus_stops-known name i bus [] (q ∷ qs) ps c h at_name there places = absurd places
  add_bus_stops-known name i bus (n ∷ names) [] ps c h at_name there places = absurd places
  add_bus_stops-known name i bus (n ∷ names) (q ∷ qs) ps c h at_name there
        ((s, at_q, same), places) =
      let found : lookup n c.stops ≡ some q =
        subst (λ x. lookup x c.stops ≡ some q) same (h q s at_q) in
      let next = note_bus R s.name bus.name c in
      let (d, rest, equal) =
        add_bus_stops-known name i bus names qs (ps ++ q ∷ []) next h at_name there places in
      let known : ensure_stop R n c ≡ ok c = rw (ensure_stop, found) refl in
      let after' : find_bus c name ≡ ok bus = rw (at_name, there) refl in
      let runs : add_bus_stops R name (n ∷ names) ps c ≡ ok ((ps ++ q ∷ []) ++ qs, d) =
        rw (known, found, at_q, after') rest in
      (
        d,
        subst (λ x. add_bus_stops R name (n ∷ names) ps c ≡ ok (x, d)) (append_assoc ps (q ∷ []) qs)
            runs,
        equal,
      )

  -- `AddBus` for stops that are known puts the bus, with their places, behind the others.
  add_bus-known :
      (bus : Bus) (names : List Str) (c : Catalogue R)
      → IsListed R c
      → ArePlaces R c.all_stops names bus.stops
      → (d : Catalogue R) × (add_bus R bus.name names bus.is_loop_trip c ≡ ok d)
        × (d.all_stops ≡ c.all_stops)
        × (d.all_buses ≡ c.all_buses ++ bus ∷ [])
        × (d.length_between_stops ≡ c.length_between_stops)
  unfolding add_bus append_bus set_bus_stops deref
  add_bus-known bus names c h places =
      let empty : Bus = record { name = bus.name; stops = []; is_loop_trip = bus.is_loop_trip } in
      let begun = append_bus R empty c in
      let at_name = lookup-assign_same bus.name (length c.all_buses) c.buses in
      let (d, runs, (stops, _, buses, names', lengths)) =
        add_bus_stops-known bus.name (length c.all_buses) empty names bus.stops [] begun h at_name
          (get_elem?-concat c.all_buses empty) places in
      let found : lookup bus.name d.buses ≡ some (length c.all_buses) = rw names' at_name in
      let there : get_elem? d.all_buses (length c.all_buses) ≡ some empty =
        rw buses (get_elem?-concat c.all_buses empty) in
      (
        record d { all_buses = set d.all_buses (length c.all_buses) bus },
        rw (runs, found, there) refl,
        stops,
        ap (λ x. set x (length c.all_buses) bus) buses ∙ set-concat c.all_buses empty bus,
        lengths,
      )

  pub load_buses-append :
      (all : List (Stop R.Carrier)) (buses : List Bus) (c : Catalogue R)
      → IsBuilt R c
      → c.all_stops ≡ all
      → ((i : ℕ) (b : Bus) → get_elem? buses i ≡ some b → AreBelow (length all) b.stops)
      → (d : Catalogue R) × (load_buses R (map save_stop all) (map saved_bus buses) c ≡ ok d)
        × IsBuilt R d
        × (d.all_stops ≡ all)
        × (d.all_buses ≡ c.all_buses ++ buses)
        × (d.length_between_stops ≡ c.length_between_stops)
  unfolding load_buses
  load_buses-append all [] c b same h = (c, refl, b, same, sym (append-nil c.all_buses), refl)
  load_buses-append all (bus ∷ buses) c b same h =
      let listed = (IsBuilt→IsSound R c b).indexed.stops_listed in
      let (names, read, places) = proto_names-saved R all bus.stops (h 0 bus refl) in
      let (next, added, stops, buses', lengths) =
        add_bus-known bus names c listed (rw same places) in
      let (d, rest, bd, stops'', buses'', lengths'') =
        load_buses-append all buses next
          (IsBuilt.with_bus bus.name names bus.is_loop_trip c next b added) (stops ∙ same)
          (λ i. h (suc i)) in
      (
        d,
        >>=-of_ok _ read
            (>>=-of_ok (load_buses R (map save_stop all) (map saved_bus buses)) added rest),
        bd,
        stops'',
        buses'' ∙ ap (λ x. x ++ buses) buses' ∙ append_assoc c.all_buses (bus ∷ []) buses,
        lengths'' ∙ lengths,
      )
