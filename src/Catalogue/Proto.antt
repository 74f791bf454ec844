-- ===== src/Catalogue/Proto.antt =====
-- How TransportSystem/transport_catalogue.cpp saves the catalogue and reads it back. The messages
-- are those of TransportSystem/transport_catalogue.proto; their classes are generated, and a message
-- is the record of its fields. A `uint32` field keeps 32 bits.
use transport_system.Prelude.{
  ℕ, ◌%◌, Bool, List, [], ◌∷◌, ◌++◌, Str, length, get_elem?, Result, ok, undefined, out_of_range,
  or_throw, ◌>>=◌,
}
use transport_system.Real.{Real}
use transport_system.Domain.{Coordinates, Stop, Bus, deref}
use transport_system.Catalogue.{
  TransportCatalogue, Catalogue, lookup, assign, empty_catalogue, add_stop, add_bus,
  add_length_between_stops,
}

abbrev pub uint32 : ℕ → ℕ
uint32 n = n % 4294967296

pub record ProtoStop (D : Type 0) : Type 0 where
  pub name : Str
  pub coordinates : Coordinates D

pub record ProtoBus : Type 0 where
  pub is_loop : Bool
  pub name : Str
  pub stops : List ℕ

pub record ProtoDistance : Type 0 where
  pub from : ℕ
  pub to : ℕ
  pub length' : ℕ

pub record ProtoCatalogue (D : Type 0) : Type 0 where
  pub stops : List (ProtoStop D)
  pub buses : List ProtoBus
  pub length_between_stops : List ProtoDistance

module _ {D : Type 0} where
  unfoldable pub save_stop : Stop D → ProtoStop D
  save_stop stop = record {
    name = stop.name;
    coordinates = record { lat = stop.coordinates.lat; lng = stop.coordinates.lng };
  }

  -- `stops.at(stop->name)` for a pointer to a stop, as the field of the message keeps it.
  unfoldable pub saved_place : List (Stop D) → List (Str × ℕ) → ℕ → Result ℕ
  unfolding deref lookup
  saved_place all_stops proto_stops p = do
    stop ← deref all_stops p
    i ← or_throw out_of_range (lookup stop.name proto_stops)
    ok (uint32 i)

  unfoldable pub saved_places : List (Stop D) → List (Str × ℕ) → List ℕ → Result (List ℕ)
  unfolding saved_place
  saved_places all_stops proto_stops [] = ok []
  saved_places all_stops proto_stops (p ∷ ps) = do
    i ← saved_place all_stops proto_stops p
    is ← saved_places all_stops proto_stops ps
    ok (i ∷ is)

  -- `SaveBusToProto`
  unfoldable pub save_bus : List (Stop D) → List (Str × ℕ) → Bus → Result ProtoBus
  unfolding saved_places
  save_bus all_stops proto_stops bus = do
    stops ← saved_places all_stops proto_stops bus.stops
    ok (record { is_loop = bus.is_loop_trip; name = bus.name; stops = stops })

  -- `SaveLenghtToProto`
  unfoldable pub save_length : List (Stop D) → List (Str × ℕ) → (ℕ × ℕ) × ℕ → Result ProtoDistance
  unfolding saved_place
  save_length all_stops proto_stops ((first, second), length') = do
    from ← saved_place all_stops proto_stops first
    to ← saved_place all_stops proto_stops second
    ok (record { from = from; to = to; length' = uint32 length' })

  -- The first loop of `SaveToProto`, with the map of the names and the stops of the message so far.
  unfoldable pub save_stops :
      List (Stop D) → List (Str × ℕ) → List (ProtoStop D) → List (Str × ℕ) × List (ProtoStop D)
  unfolding assign save_stop
  save_stops [] proto_stops result = (proto_stops, result)
  save_stops (stop ∷ stops) proto_stops result =
      save_stops stops (assign stop.name (length result) proto_stops)
        (result ++ save_stop stop ∷ [])

  unfoldable pub save_buses : List (Stop D) → List (Str × ℕ) → List Bus → Result (List ProtoBus)
  unfolding save_bus
  save_buses all_stops proto_stops [] = ok []
  save_buses all_stops proto_stops (bus ∷ buses) = do
    saved ← save_bus all_stops proto_stops bus
    rest ← save_buses all_stops proto_stops buses
    ok (saved ∷ rest)

  unfoldable pub save_lengths :
      List (Stop D) → List (Str × ℕ) → List ((ℕ × ℕ) × ℕ) → Result (List ProtoDistance)
  unfolding save_length
  save_lengths all_stops proto_stops [] = ok []
  save_lengths all_stops proto_stops (entry ∷ entries) = do
    saved ← save_length all_stops proto_stops entry
    rest ← save_lengths all_stops proto_stops entries
    ok (saved ∷ rest)

  -- `TransportCatalogue::SaveToProto`
  unfoldable pub save_catalogue : TransportCatalogue D → Result (ProtoCatalogue D)
  unfolding save_stops save_buses save_lengths
  save_catalogue c =
      let (proto_stops, stops) = save_stops c.all_stops [] [] in
      do
        buses ← save_buses c.all_stops proto_stops c.all_buses
        lengths ← save_lengths c.all_stops proto_stops c.length_between_stops
        ok (record { stops = stops; buses = buses; length_between_stops = lengths })

  -- `proto_catalogue.stops()[i].name()`: an access past the end is undefined.
  unfoldable pub proto_name : List (ProtoStop D) → ℕ → Result Str
  proto_name stops i = or_throw undefined (get_elem? stops i) >>= λ stop. ok stop.name

  unfoldable pub proto_names : List (ProtoStop D) → List ℕ → Result (List Str)
  unfolding proto_name
  proto_names stops [] = ok []
  proto_names stops (i ∷ is) = do
    name ← proto_name stops i
    names ← proto_names stops is
    ok (name ∷ names)

module _ (R : Real) where
  unfoldable pub load_stops : List (ProtoStop R.Carrier) → Catalogue R → Result (Catalogue R)
  unfolding add_stop
  load_stops [] c = ok c
  load_stops (stop ∷ stops) c =
      add_stop R stop.name (record { lat = stop.coordinates.lat; lng = stop.coordinates.lng }) c
      >>= load_stops stops

  unfoldable pub load_buses :
      List (ProtoStop R.Carrier) → List ProtoBus → Catalogue R → Result (Catalogue R)
  unfolding proto_names add_bus
  load_buses stops [] c = ok c
  load_buses stops (bus ∷ buses) c = do
    names ← proto_names stops bus.stops
    next ← add_bus R bus.name names bus.is_loop c
    load_buses stops buses next

  unfoldable pub load_lengths :
      List (ProtoStop R.Carrier) → List ProtoDistance → Catalogue R → Result (Catalogue R)
  unfolding proto_name add_length_between_stops
  load_lengths stops [] c = ok c
  load_lengths stops (dist ∷ dists) c = do
    from ← proto_name stops dist.from
    to ← proto_name stops dist.to
    next ← add_length_between_stops R (from, to) dist.length' c
    load_lengths stops dists next

  -- `DeserializeTransportCatalogue`
  unfoldable pub deserialize_catalogue : ProtoCatalogue R.Carrier → Result (Catalogue R)
  unfolding empty_catalogue load_stops load_buses load_lengths
  deserialize_catalogue proto = do
    with_stops ← load_stops proto.stops empty_catalogue
    with_buses ← load_buses proto.stops proto.buses with_stops
    load_lengths proto.stops proto.length_between_stops with_buses
