-- ===== src/JsonReader.antt =====
-- TransportSystem/json_reader.h, TransportSystem/json_reader.cpp: requests that are read from JSON.
-- `R.of_int` converts an int to a double.
pub mod Settings
pub mod Requests
pub mod Responses
pub mod Statistics
pub mod Answers
pub mod Documents
pub mod Describing
pub mod Building
pub mod Restoring
use transport_system.Prelude.{
  ℕ, Bool, true, false, none, some, List, [], ◌∷◌, ℤ, abs, ltb, Str, codes, str_eq, Result, ok,
  throw, out_of_range, invalid_argument, undefined, or_throw, ◌>>=◌, if◌then◌else◌,
}
use transport_system.Real.{Real}
use transport_system.Json.{
  Node, Items, Fields, no_items, item, no_fields, field, string, find, as_int, as_double, as_bool,
  as_array, as_string, as_dict,
}
use transport_system.Catalogue.{Catalogue, add_stop, add_bus, add_length_between_stops}

module _ {D : Type 0} where
  -- `std::map::at`
  unfoldable pub at_key : Fields D → Str → Result (Node D)
  at_key fields key = or_throw out_of_range (find key fields)

  -- The guards at the start of a reader: a key that is missing is an invalid argument.
  unfoldable pub require : List Str → Fields D → Result (Unit {0})
  require [] entries = ok tt
  require (key ∷ keys) entries = elim (find key entries) [
    | none ↦ throw invalid_argument
    | some _ ↦ require keys entries
  ]

  -- `node == text`
  unfoldable pub is_text : Str → Node D → Bool
  is_text text (string s) = str_eq s text
  is_text text _ = false

  -- `JSON_Serialization_Settings`
  unfoldable pub serialization_settings : Node D → Result Str
  unfolding as_dict at_key as_string
  serialization_settings document = do
    fields ← as_dict document
    file ← at_key fields (codes "file")
    as_string file

  unfoldable pub strings : Items D → Result (List Str)
  unfolding as_string
  strings no_items = ok []
  strings (item stop stops) = do name ← as_string stop; names ← strings stops; ok (name ∷ names)

-- `std::abs` of an int: undefined for the least one.
unfoldable pub abs_int : ℤ → Result ℕ
abs_int z = if ltb (abs z) 2147483648 then ok (abs z) else throw undefined

module _ (R : Real) where
  -- `JSON_ReaderBus`
  unfoldable pub read_bus : Node R.Carrier → Catalogue R → Result (Catalogue R)
  unfolding as_dict require at_key as_string as_bool as_array strings add_bus
  read_bus document c = do
    fields ← as_dict document
    _ ← require (codes "name" ∷ codes "stops" ∷ codes "is_roundtrip" ∷ []) fields
    name ← at_key fields (codes "name")
    name_bus ← as_string name
    roundtrip ← at_key fields (codes "is_roundtrip")
    is_loop ← as_bool roundtrip
    stops ← at_key fields (codes "stops")
    listed ← as_array stops
    stop_names ← strings listed
    add_bus R name_bus stop_names is_loop c

  -- The loop of `JSON_ReaderStop` over the distances.
  unfoldable pub read_lengths : Str → Fields R.Carrier → Catalogue R → Result (Catalogue R)
  unfolding as_int abs_int add_length_between_stops
  read_lengths name_stop no_fields c = ok c
  read_lengths name_stop (field name_second_stop length' map_length) c = do
    z ← as_int length'
    n ← abs_int z
    next ← add_length_between_stops R (name_stop, name_second_stop) n c
    read_lengths name_stop map_length next

  -- `JSON_ReaderStop`
  unfoldable pub read_stop : Node R.Carrier → Catalogue R → Result (Catalogue R)
  unfolding as_dict require at_key as_string as_double add_stop read_lengths
  read_stop document c = do
    fields ← as_dict document
    _ ←
        require (codes "name" ∷ codes "latitude" ∷ codes "longitude" ∷ codes "road_distances" ∷ [])
          fields
    name ← at_key fields (codes "name")
    name_stop ← as_string name
    lat ← at_key fields (codes "latitude")
    latitude ← as_double R.of_int lat
    lng ← at_key fields (codes "longitude")
    longitude ← as_double R.of_int lng
    distances ← at_key fields (codes "road_distances")
    map_length ← as_dict distances
    added ← add_stop R name_stop (record { lat = latitude; lng = longitude }) c
    read_lengths name_stop map_length added
