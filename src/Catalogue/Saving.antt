-- ===== src/Catalogue/Saving.antt =====
-- The message in which TransportSystem/transport_catalogue.cpp saves a catalogue.
use transport_system.Prelude.{
  ℕ, zero, suc, ◌+◌, ◌≤◌, ◌<◌, ◌≡◌, refl, sym, ap, subst, ◌∙◌, Bool-cases, some, List, [], ◌∷◌,
  ◌++◌, map, append_assoc, append-nil, inl, inr, arith, Str, str_eq, str_eq→eq, length,
  length-append, get_elem?, get_elem?_of_below, ◌≢◌, ok, ◌>>=◌,
}
use transport_system.Real.{Real}
use transport_system.Domain.{Stop, Bus, deref}
use transport_system.Catalogue.{TransportCatalogue, Catalogue, lookup, assign}
use transport_system.Catalogue.Maps.{lookup-assign}
use transport_system.Catalogue.WellFormed.{AreBelow}
use transport_system.Catalogue.Stops.{lookup-assign_same}
use transport_system.Catalogue.Indexed.{IsIndexed}
use transport_system.Catalogue.Reachable.{AreLengths, IsSound}
use transport_system.Catalogue.Proto.{
  uint32, ProtoStop, ProtoBus, ProtoDistance, ProtoCatalogue, save_stop, saved_place, saved_places,
  save_bus, save_length, save_stops, save_buses, save_lengths, save_catalogue,
}

abbrev pub saved_bus : Bus → ProtoBus
saved_bus bus = record { is_loop = bus.is_loop_trip; name = bus.name; stops = bus.stops }

abbrev pub saved_length : (ℕ × ℕ) × ℕ → ProtoDistance
saved_length ((p, q), n) = record { from = p; to = q; length' = uint32 n }

module _ {D : Type 0} where
  -- The message with the stops, the buses and the lengths as they stand in the catalogue, each stop
  -- by its place.
  abbrev pub saved : TransportCatalogue D → ProtoCatalogue D
  saved c = record {
    stops = map save_stop c.all_stops;
    buses = map saved_bus c.all_buses;
    length_between_stops = map saved_length c.length_between_stops;
  }

  -- No two places hold stops of the same name.
  abbrev pub AreUnique : List (Stop D) → Type 0
  AreUnique stops =
      (i j : ℕ) (s t : Stop D)
      → get_elem? stops i ≡ some s
      → get_elem? stops j ≡ some t
      → s.name ≡ t.name
      → i ≡ j

  pub IsIndexed→AreUnique : (c : TransportCatalogue D) → IsIndexed c → AreUnique c.all_stops
  IsIndexed→AreUnique c h i j s t at_i at_j same =
      let found : lookup s.name c.stops ≡ some i = h.stops_listed i s at_i in
      let again : lookup t.name c.stops ≡ some j = h.stops_listed j t at_j in
      cc (found, again, same)

  pub AreUnique-tail :
      (s : Stop D) (stops : List (Stop D)) → AreUnique (s ∷ stops) → AreUnique stops
  AreUnique-tail s stops h i j a b at_i at_j same =
      omega (arith, h (suc i) (suc j) a b at_i at_j same)

  -- The loop keeps what the map has under a name that no stop has.
  save_stops-lookup_other :
      (n : Str) (stops : List (Stop D)) (places : List (Str × ℕ)) (result : List (ProtoStop D))
      → ((j : ℕ) (t : Stop D) → get_elem? stops j ≡ some t → n ≢ t.name)
      → lookup n (save_stops stops places result).0 ≡ lookup n places
  unfolding save_stops
  save_stops-lookup_other n [] places result h = refl
  save_stops-lookup_other n (stop ∷ stops) places result h =
      save_stops-lookup_other n stops (assign stop.name (length result) places) _
        (λ j t e. h (suc j) t e)
      ∙ lookup-assign n stop.name (length result) places
      ∙ elim (Bool-cases (str_eq n stop.name)) [
        | inl same ↦ absurd (h 0 stop refl (str_eq→eq n stop.name same))
        | inr other ↦ rw other refl
      ]

  save_stops-lookup :
      (stops : List (Stop D)) (places : List (Str × ℕ)) (result : List (ProtoStop D)) (i : ℕ)
      (s : Stop D)
      → AreUnique stops
      → get_elem? stops i ≡ some s
      → lookup s.name (save_stops stops places result).0 ≡ some (length result + i)
  unfolding save_stops
  save_stops-lookup [] places result i s h e = cc
  save_stops-lookup (stop ∷ stops) places result zero s h e =
      let same : stop ≡ s = cc e in
      let alone : (j : ℕ) (t : Stop D) → get_elem? stops j ≡ some t → stop.name ≢ t.name =
        λ j t at_j equal. omega (arith, h 0 (suc j) stop t refl at_j equal) in
      subst
        (λ x. lookup x.name (save_stops (stop ∷ stops) places result).0 ≡ some (length result + 0))
        same
        (save_stops-lookup_other stop.name stops _ _ alone
          ∙ lookup-assign_same stop.name (length result) places
          ∙ ap some (omega arith))
  save_stops-lookup (stop ∷ stops) places result (suc i) s h e =
      let longer = length-append result (save_stop stop ∷ []) in
      save_stops-lookup stops _ (result ++ save_stop stop ∷ []) i s (AreUnique-tail stop stops h) e
      ∙ ap some (omega (arith, longer))

  pub save_stops-map :
      (stops : List (Stop D)) (places : List (Str × ℕ)) (result : List (ProtoStop D))
      → (save_stops stops places result).1 ≡ result ++ map save_stop stops
  unfolding save_stops
  save_stops-map [] places result = sym (append-nil result)
  save_stops-map (stop ∷ stops) places result =
      save_stops-map stops _ (result ++ save_stop stop ∷ [])
      ∙ append_assoc result (save_stop stop ∷ []) (map save_stop stops)

  module _ (all : List (Stop D)) (places : List (Str × ℕ)) (few : length all ≤ 4294967296)
      (listed : (i : ℕ) (s : Stop D)
        → get_elem? all i ≡ some s
        → lookup s.name places ≡ some i) where
    saved_place-same : (p : ℕ) → p < length all → saved_place all places p ≡ ok p
    unfolding saved_place deref
    saved_place-same p h =
        let (s, there) = get_elem?_of_below all p h in
        rw (there, listed p s there) (ap ok (omega arith))

    saved_places-same :
        (ps : List ℕ) → AreBelow (length all) ps → saved_places all places ps ≡ ok ps
    unfolding saved_places
    saved_places-same [] h = refl
    saved_places-same (p ∷ ps) h = rw (saved_place-same p h.0, ◌>>=◌, saved_places-same ps h.1) refl

    save_buses-map :
        (buses : List Bus)
        → ((i : ℕ) (b : Bus) → get_elem? buses i ≡ some b → AreBelow (length all) b.stops)
        → save_buses all places buses ≡ ok (map saved_bus buses)
    unfolding save_buses save_bus
    save_buses-map [] h = refl
    save_buses-map (b ∷ buses) h =
        rw (saved_places-same b.stops (h 0 b refl), ◌>>=◌, save_buses-map buses (λ i. h (suc i)))
          refl

    save_lengths-map :
        (lengths : List ((ℕ × ℕ) × ℕ))
        → AreLengths (length all) lengths
        → save_lengths all places lengths ≡ ok (map saved_length lengths)
    unfolding save_lengths save_length
    save_lengths-map [] h = refl
    save_lengths-map (((p, q), n) ∷ lengths) (hp, hq, _, _, h) =
        rw (saved_place-same p hp, ◌>>=◌, saved_place-same q hq, save_lengths-map lengths h) refl

module _ (R : Real) where
  -- A sound catalogue of at most 2 ^ 32 stops is saved without an exception, and the message has its
  -- stops, buses and lengths as they stand in the catalogue, each stop by its place.
  pub save_catalogue-saved :
      (c : Catalogue R)
      → IsSound R c
      → length c.all_stops ≤ 4294967296
      → save_catalogue c ≡ ok (saved c)
  unfolding save_catalogue
  save_catalogue-saved c h few =
      let places = (save_stops c.all_stops [] []).0 in
      let listed : (i : ℕ) (s : Stop R.Carrier)
          → get_elem? c.all_stops i ≡ some s
          → lookup s.name places ≡ some i =
        λ i s e.
          save_stops-lookup c.all_stops [] [] i s (IsIndexed→AreUnique c h.indexed) e
          ∙ ap some (omega arith) in
      let buses =
        save_buses-map c.all_stops places few listed c.all_buses h.well_formed.bus_stops in
      let lengths =
        save_lengths-map c.all_stops places few listed c.length_between_stops h.paired in
      rw (buses, ◌>>=◌, lengths, save_stops-map c.all_stops [] []) refl
