-- ===== src/JsonReader/Describing.antt =====
-- What the base requests of TransportSystem/json_reader.cpp mean: a bus or a stop, and how it is
-- written down. What is read of such a document, and what is saved of it.
use transport_system.Prelude.{
  ℕ, ◌<◌, ◌≡◌, refl, true, Bool, arith, List, [], ◌∷◌, ltb, Str, codes, Result, ok, ◌>>=◌,
  >>=-of_ok,
}
use transport_system.Real.{Real}
use transport_system.Domain.{Coordinates}
use transport_system.Json.{
  Node, Items, Fields, array, dict, bool, double, string, no_items, item, no_fields, field,
}
use transport_system.Catalogue.{Catalogue, add_stop, add_bus, add_length_between_stops}
use transport_system.MapRenderer.{MapSettings}
use transport_system.TransportRouter.{RoutingSettings}
use transport_system.JsonReader.{strings, abs_int, read_bus, read_lengths, read_stop}
use transport_system.JsonReader.Documents.{number, routing_document, map_document}
use transport_system.JsonReader.Requests.{read_buses, read_stops}

-- A request: a bus with its stops, or a stop with its distances to others.
pub data Request (D : Type 0) : Type 0 where
  a_bus : (name : Str) (stops : List Str) (is_roundtrip : Bool) → Request D
  a_stop : (name : Str) (place : Coordinates D) (distances : List (Str × ℕ)) → Request D

-- Distances that are ints.
abbrev pub AreInts : List (Str × ℕ) → Type 0
AreInts [] = Unit
AreInts ((name, n) ∷ distances) = (n < 2147483648) × AreInts distances

module _ {D : Type 0} where
  abbrev pub stop_items : List Str → Items D
  stop_items [] = no_items
  stop_items (name ∷ names) = item (string name) (stop_items names)

  abbrev pub distance_fields : List (Str × ℕ) → Fields D
  distance_fields [] = no_fields
  distance_fields ((name, n) ∷ distances) = field name (number n) (distance_fields distances)

  abbrev pub request_document : Request D → Node D
  request_document (a_bus name stops is_roundtrip) = dict (
      field (codes "is_roundtrip") (bool is_roundtrip) (
        field (codes "name") (string name) (
          field (codes "stops") (array (stop_items stops))
            (field (codes "type") (string (codes "Bus")) no_fields))))
  request_document (a_stop name place distances) = dict (
      field (codes "latitude") (double place.lat) (
        field (codes "longitude") (double place.lng) (
          field (codes "name") (string name) (
            field (codes "road_distances") (dict (distance_fields distances))
              (field (codes "type") (string (codes "Stop")) no_fields)))))

  abbrev pub request_items : List (Request D) → Items D
  request_items [] = no_items
  request_items (request ∷ requests) = item (request_document request) (request_items requests)

  abbrev pub query_document : Str → List (Request D) → RoutingSettings → MapSettings D → Node D
  query_document file requests routing settings = dict (
      field (codes "base_requests") (array (request_items requests)) (
        field (codes "render_settings") (map_document settings) (
          field (codes "routing_settings") (routing_document routing) (
            field (codes "serialization_settings")
              (dict (field (codes "file") (string file) no_fields)) no_fields))))

  abbrev pub DistancesFit : List (Request D) → Type 0
  DistancesFit [] = Unit
  DistancesFit (a_bus name stops is_roundtrip ∷ requests) = DistancesFit requests
  DistancesFit (a_stop name place distances ∷ requests) = AreInts distances × DistancesFit requests

strings-stop_items : (D : Type 0) (names : List Str) → strings {D = D} (stop_items names) ≡ ok names
unfolding strings
strings-stop_items D [] = refl
strings-stop_items D (name ∷ names) = >>=-of_ok _ (strings-stop_items D names) refl

module _ (R : Real) where
  -- What the requests mean: first the buses, then the stops with their distances.
  abbrev pub add_buses : List (Request R.Carrier) → Catalogue R → Result (Catalogue R)
  add_buses [] c = ok c
  add_buses (a_bus name stops is_roundtrip ∷ requests) c =
      add_bus R name stops is_roundtrip c >>= add_buses requests
  add_buses (a_stop name place distances ∷ requests) c = add_buses requests c

  abbrev pub add_distances : Str → List (Str × ℕ) → Catalogue R → Result (Catalogue R)
  add_distances name [] c = ok c
  add_distances name ((second, n) ∷ distances) c =
      add_length_between_stops R (name, second) n c >>= add_distances name distances

  abbrev pub add_stops : List (Request R.Carrier) → Catalogue R → Result (Catalogue R)
  add_stops [] c = ok c
  add_stops (a_bus name stops is_roundtrip ∷ requests) c = add_stops requests c
  add_stops (a_stop name place distances ∷ requests) c =
      add_stop R name place c >>= add_distances name distances >>= add_stops requests

  read_bus-document :
      (name : Str) (stops : List Str) (is_roundtrip : Bool) (c : Catalogue R)
      → read_bus R (request_document (a_bus name stops is_roundtrip)) c
        ≡ add_bus R name stops is_roundtrip c
  unfolding read_bus
  read_bus-document name stops is_roundtrip c = rw (strings-stop_items R.Carrier stops) refl

  read_lengths-distance_fields :
      (name : Str) (distances : List (Str × ℕ)) (c : Catalogue R)
      → AreInts distances
      → read_lengths R name (distance_fields distances) c ≡ add_distances name distances c
  unfolding read_lengths abs_int
  read_lengths-distance_fields name [] c h = refl
  read_lengths-distance_fields name ((second, n) ∷ distances) c (fits, h) =
      let small : ltb n 2147483648 ≡ true = ground (arith, fits) in
      rw small (λ i. add_length_between_stops R (name, second) n c >>= λ next.
      read_lengths-distance_fields name distances next h i)

  read_stop-document :
      (name : Str) (place : Coordinates R.Carrier) (distances : List (Str × ℕ)) (c : Catalogue R)
      → AreInts distances
      → read_stop R (request_document (a_stop name place distances)) c
        ≡ (add_stop R name place c >>= add_distances name distances)
  unfolding read_stop
  read_stop-document name place distances c h =
      λ i. add_stop R name place c >>= λ next. read_lengths-distance_fields name distances next h i

  pub read_buses-request_items :
      (requests : List (Request R.Carrier)) (c : Catalogue R)
      → read_buses R (request_items requests) c ≡ add_buses requests c
  unfolding read_buses
  read_buses-request_items [] c = refl
  read_buses-request_items (a_bus name stops is_roundtrip ∷ requests) c = λ i.
      read_bus-document name stops is_roundtrip c i >>= λ next.
      read_buses-request_items requests next i
  read_buses-request_items (a_stop name place distances ∷ requests) c =
      read_buses-request_items requests c

  pub read_stops-request_items :
      (requests : List (Request R.Carrier)) (c : Catalogue R)
      → DistancesFit requests
      → read_stops R (request_items requests) c ≡ add_stops requests c
  unfolding read_stops
  read_stops-request_items [] c h = refl
  read_stops-request_items (a_bus name stops is_roundtrip ∷ requests) c h =
      read_stops-request_items requests c h
  read_stops-request_items (a_stop name place distances ∷ requests) c (ints, h) = λ i.
      read_stop-document name place distances c ints i >>= λ next.
      read_stops-request_items requests next h i
