-- ===== src/Catalogue/Loading.antt =====
-- How TransportSystem/transport_catalogue.cpp reads the stops of a saved catalogue.
pub mod Buses
pub mod Lengths
use transport_system.Prelude.{
  ℕ, zero, suc, ◌+◌, ◌≤◌, ◌<◌, ◌≡◌, refl, sym, ap, subst, ◌∙◌, Bool-cases, Bool, ◌&&◌, none, some,
  Option-cases, List, [], ◌∷◌, ◌++◌, map, append_assoc, append-nil, inl, inr, arith, Str, length,
  length-append, get_elem?, get_elem?_of_below, get_elem?-append_left, get_elem?-concat,
  get_elem?-lt_length, set, true, false, ok, ok_same, ◌>>=◌, >>=-of_ok, ◌==◌, if◌then◌else◌,
}
use transport_system.Real.{Real}
use transport_system.Domain.{Stop, Bus, deref}
use transport_system.Catalogue.{
  TransportCatalogue, Catalogue, lookup, lookup_pair, insert_pair, append_stop, add_stop,
  stop_availability, ensure_stop, note_bus, find_bus, append_bus, add_bus_stops, set_bus_stops,
  add_bus, add_length_between_stops, empty_catalogue,
}
use transport_system.Catalogue.WellFormed.{Holds, AreBelow, stop_name, IsWellFormed}
use transport_system.Catalogue.Stops.{lookup-assign_same}
use transport_system.Catalogue.Building.{ArePlaces}
use transport_system.Catalogue.Indexed.{IsIndexed}
use transport_system.Catalogue.Reachable.{AreLengths, IsSound, IsBuilt, IsBuilt→IsSound}
use transport_system.Catalogue.Saving.{saved, saved_bus, saved_length, IsIndexed→AreUnique}
use transport_system.Catalogue.Proto.{
  uint32, ProtoStop, ProtoBus, ProtoDistance, save_stop, proto_name, proto_names, load_stops,
  load_buses, load_lengths, deserialize_catalogue,
}

get_elem?-middle :
    {A : Type 0} (xs : List A) (a : A) (ys : List A) → get_elem? (xs ++ a ∷ ys) (length xs) ≡ some a
get_elem?-middle [] a ys = refl
get_elem?-middle (x ∷ xs) a ys = get_elem?-middle xs a ys

module _ (R : Real) where
  -- Each stop stands at the place where its name is found.
  abbrev pub IsListed : Catalogue R → Type 0
  IsListed c =
      (i : ℕ) (s : Stop R.Carrier)
      → get_elem? c.all_stops i ≡ some s
      → lookup s.name c.stops ≡ some i

  -- The stops that a catalogue has, and those that are still to be added, are of different names.
  abbrev AreNew : List (Stop R.Carrier) → List (Stop R.Carrier) → Type 0
  AreNew all stops =
      (i j : ℕ) (s t : Stop R.Carrier)
      → get_elem? (all ++ stops) i ≡ some s
      → get_elem? (all ++ stops) j ≡ some t
      → s.name ≡ t.name
      → i ≡ j

  fresh_stop :
      (c : Catalogue R) (stop : Stop R.Carrier) (stops : List (Stop R.Carrier))
      → IsWellFormed c
      → AreNew c.all_stops (stop ∷ stops)
      → lookup stop.name c.stops ≡ none
  fresh_stop c stop stops w h = elim (Option-cases (lookup stop.name c.stops)) [
    | inl absent ↦ absent
    | inr (p, found) ↦
        let (s, there, same) = w.stop_named stop.name p found in
        let here = get_elem?-append_left c.all_stops (stop ∷ stops) p there in
        let last = get_elem?-middle c.all_stops stop stops in
        let below = get_elem?-lt_length c.all_stops p there in
        absurd (omega (arith, h p (length c.all_stops) s stop here last same, below))
  ]

  pub load_stops-append :
      (stops : List (Stop R.Carrier)) (c : Catalogue R)
      → IsBuilt R c
      → AreNew c.all_stops stops
      → (d : Catalogue R) × (load_stops R (map save_stop stops) c ≡ ok d)
        × IsBuilt R d
        × (d.all_stops ≡ c.all_stops ++ stops)
        × (d.all_buses ≡ c.all_buses)
        × (d.length_between_stops ≡ c.length_between_stops)
  unfolding load_stops save_stop append_stop
  load_stops-append [] c b h = (c, refl, b, sym (append-nil c.all_stops), refl, refl)
  load_stops-append (stop ∷ stops) c b h =
      let fresh = fresh_stop c stop stops (IsBuilt→IsSound R c b).well_formed h in
      let added : add_stop R stop.name stop.coordinates c ≡ ok (append_stop R stop c) =
        rw (add_stop, fresh) refl in
      let next = append_stop R stop c in
      let assoc : next.all_stops ++ stops ≡ c.all_stops ++ stop ∷ stops =
        append_assoc c.all_stops (stop ∷ []) stops in
      let (d, rest, bd, stops', buses, lengths) =
        load_stops-append stops next (IsBuilt.with_stop stop.name stop.coordinates c next b added)
          (λ i j s t. rw assoc (h i j s t)) in
      (
        d,
        >>=-of_ok (load_stops R (map save_stop stops)) added rest,
        bd,
        stops' ∙ assoc,
        buses,
        lengths,
      )

  pub proto_name-saved :
      (all : List (Stop R.Carrier)) (p : ℕ) (s : Stop R.Carrier)
      → get_elem? all p ≡ some s
      → proto_name (map save_stop all) p ≡ ok s.name
  unfolding proto_name save_stop
  proto_name-saved [] p s e = cc
  proto_name-saved (t ∷ all) zero s e = let same : t ≡ s = cc e in ap (λ x. ok x.name) same
  proto_name-saved (t ∷ all) (suc p) s e = proto_name-saved all p s e

  pub proto_names-saved :
      (all : List (Stop R.Carrier)) (ps : List ℕ)
      → AreBelow (length all) ps
      → (names : List Str) × (proto_names (map save_stop all) ps ≡ ok names)
        × ArePlaces R all names ps
  unfolding proto_names
  proto_names-saved all [] h = ([], refl, tt)
  proto_names-saved all (p ∷ ps) h =
      let (s, there) = get_elem?_of_below all p h.0 in
      let (names, rest, places) = proto_names-saved all ps h.1 in
      (
        s.name ∷ names,
        rw (proto_name-saved all p s there, ◌>>=◌, rest) refl,
        ((s, there, refl), places),
      )
