-- ===== src/Catalogue.antt =====
-- TransportSystem/transport_catalogue.h, TransportSystem/transport_catalogue.cpp. The deques
-- `all_stops_` and `all_buses_` only grow, so pointers into them are places, and a `string_view` is
-- the name that it shows. An `unordered_map` is an association list.
pub mod Info
pub mod Maps
pub mod WellFormed
pub mod Stops
pub mod Building
pub mod Counting
pub mod Lengths
pub mod Proto
pub mod Steps
pub mod Indexed
pub mod Reachable
pub mod Names
pub mod Listing
pub mod Saving
pub mod Loading
pub mod RoundTrip
use transport_system.Prelude.{
  ℕ, zero, suc, ◌+◌, Bool, true, false, ◌&&◌, ◌||◌, Option, none, some, List, [], ◌∷◌, ◌++◌, Str,
  str_eq, length, get_elem?, set, Result, ok, throw, out_of_range, or_throw, ◌>>=◌, if◌then◌else◌,
  ◌==◌,
}
use transport_system.Real.{Real, of_nat}
use transport_system.Domain.{Coordinates, Stop, Bus, deref}

-- Association lists
module _ {A : Type 0} where
  -- `find`
  unfoldable pub lookup : Str → List (Str × A) → Option A
  lookup k [] = none
  lookup k ((j, a) ∷ xs) = if str_eq k j then some a else lookup k xs

  -- `map[k] = a`
  unfoldable pub assign : Str → A → List (Str × A) → List (Str × A)
  assign k a [] = (k, a) ∷ []
  assign k a ((j, b) ∷ xs) = if str_eq k j then (j, a) ∷ xs else (j, b) ∷ assign k a xs

  -- `count`
  abbrev pub is_some : Option A → Bool
  is_some none = false
  is_some (some a) = true

-- `length_between_stops_.find`
unfoldable pub lookup_pair : ℕ × ℕ → List ((ℕ × ℕ) × ℕ) → Option ℕ
lookup_pair k [] = none
lookup_pair k ((j, a) ∷ xs) = if k.0 == j.0 && k.1 == j.1 then some a else lookup_pair k xs

-- `length_between_stops_.insert`: an entry that is there stays.
unfoldable pub insert_pair : ℕ × ℕ → ℕ → List ((ℕ × ℕ) × ℕ) → List ((ℕ × ℕ) × ℕ)
insert_pair k a [] = (k, a) ∷ []
insert_pair k a ((j, b) ∷ xs) =
    if k.0 == j.0 && k.1 == j.1 then (j, b) ∷ xs else (j, b) ∷ insert_pair k a xs

abbrev pub contains : Str → List Str → Bool
contains x [] = false
contains x (y ∷ ys) = str_eq x y || contains x ys

pub record TransportCatalogue (D : Type 0) : Type 0 where
  pub buses : List (Str × ℕ)
  pub stops : List (Str × ℕ)
  pub buses_in_stop : List (Str × List Str)
  pub length_between_stops : List ((ℕ × ℕ) × ℕ)
  pub all_buses : List Bus
  pub all_stops : List (Stop D)

module _ {D : Type 0} where
  unfoldable pub empty_catalogue : TransportCatalogue D
  empty_catalogue = record {
    buses = [];
    stops = [];
    buses_in_stop = [];
    length_between_stops = [];
    all_buses = [];
    all_stops = [];
  }

  unfoldable pub stop_availability : TransportCatalogue D → Str → Bool
  unfolding lookup
  stop_availability c stop = is_some (lookup stop c.stops)

  unfoldable pub bus_availability : TransportCatalogue D → Str → Bool
  unfolding lookup
  bus_availability c bus = is_some (lookup bus c.buses)

  -- `FindStop`, `GetStop` and `*stops_.at(name)`
  unfoldable pub find_stop : TransportCatalogue D → Str → Result (Stop D)
  unfolding lookup deref
  find_stop c name = or_throw out_of_range (lookup name c.stops) >>= deref c.all_stops

  -- `FindBus`, `GetBus` and `*buses_.at(name)`
  unfoldable pub find_bus : TransportCatalogue D → Str → Result Bus
  unfolding lookup deref
  find_bus c name = or_throw out_of_range (lookup name c.buses) >>= deref c.all_buses

module _ (R : Real) where
  abbrev pub Catalogue : Type 0
  Catalogue = TransportCatalogue R.Carrier

  -- `{ 0., 0. }`, which also stands for coordinates that are not known.
  abbrev pub no_location : Coordinates R.Carrier
  no_location = record { lat = of_nat R 0; lng = of_nat R 0 }

  unfoldable pub is_unset : Coordinates R.Carrier → Bool
  is_unset location = R.eq location.lat (of_nat R 0) && R.eq location.lng (of_nat R 0)

  unfoldable pub append_stop : Stop R.Carrier → Catalogue → Catalogue
  unfolding assign
  append_stop stop c = record c {
    all_stops = c.all_stops ++ stop ∷ [];
    stops = assign stop.name (length c.all_stops) c.stops;
  }

  -- `AddStop` for a name that is there.
  unfoldable pub update_stop : ℕ → Stop R.Carrier → Catalogue → Result Catalogue
  unfolding deref is_unset
  update_stop p stop c = deref c.all_stops p >>= λ old.
      ok (if is_unset old.coordinates then record c { all_stops = set c.all_stops p stop } else c)

  unfoldable pub add_stop : Str → Coordinates R.Carrier → Catalogue → Result Catalogue
  unfolding lookup append_stop update_stop
  add_stop name location c =
      let stop : Stop R.Carrier = record { name = name; coordinates = location } in
      elim (lookup name c.stops) [ none ↦ ok (append_stop stop c) | some p ↦ update_stop p stop c ]

  -- A stop that is not there is added without coordinates.
  unfoldable pub ensure_stop : Str → Catalogue → Result Catalogue
  unfolding stop_availability add_stop
  ensure_stop name c = if stop_availability c name then ok c else add_stop name no_location c

  -- `buses_in_stop_[stop]`, which makes an empty entry where there is none.
  unfoldable pub buses_at : Str → List (Str × List Str) → List Str
  unfolding lookup
  buses_at stop xs = elim (lookup stop xs) [ none ↦ [] | some names ↦ names ]

  unfoldable pub note_bus : Str → Str → Catalogue → Catalogue
  unfolding buses_at assign
  note_bus stop bus c =
      let names = buses_at stop c.buses_in_stop in
      record c {
        buses_in_stop =
            assign stop (if contains bus names then names else names ++ bus ∷ []) c.buses_in_stop;
      }

  -- The loop of `AddBus`, with the pointers to the stops so far.
  unfoldable pub add_bus_stops : Str → List Str → List ℕ → Catalogue → Result (List ℕ × Catalogue)
  unfolding ensure_stop lookup deref find_bus note_bus
  add_bus_stops name [] deq_stops c = ok (deq_stops, c)
  add_bus_stops name (stop ∷ stops) deq_stops c = do
    known ← ensure_stop stop c
    p ← or_throw out_of_range (lookup stop known.stops)
    found ← deref known.all_stops p
    bus ← find_bus known name
    add_bus_stops name stops (deq_stops ++ p ∷ []) (note_bus found.name bus.name known)

  unfoldable pub append_bus : Bus → Catalogue → Catalogue
  unfolding assign
  append_bus bus c = record c {
    all_buses = c.all_buses ++ bus ∷ [];
    buses = assign bus.name (length c.all_buses) c.buses;
  }

  -- `buses_.at(name)->stops = deq_stops`
  unfoldable pub set_bus_stops : Str → List ℕ → Catalogue → Result Catalogue
  unfolding lookup deref
  set_bus_stops name deq_stops c = do
    p ← or_throw out_of_range (lookup name c.buses)
    bus ← deref c.all_buses p
    ok (record c { all_buses = set c.all_buses p (record bus { stops = deq_stops }) })

  unfoldable pub add_bus : Str → List Str → Bool → Catalogue → Result Catalogue
  unfolding append_bus add_bus_stops set_bus_stops
  add_bus name stops is_loop c = do
    (deq_stops, done) ←
        add_bus_stops name stops []
          (append_bus (record { name = name; stops = []; is_loop_trip = is_loop }) c)
    set_bus_stops name deq_stops done

  unfoldable pub add_length_between_stops : Str × Str → ℕ → Catalogue → Result Catalogue
  unfolding lookup ensure_stop insert_pair
  add_length_between_stops (first, second) length' c = do
    p1 ← or_throw out_of_range (lookup first c.stops)
    known ← ensure_stop second c
    p2 ← or_throw out_of_range (lookup second known.stops)
    ok (record known {
      length_between_stops = insert_pair (p1, p2) length' known.length_between_stops;
    })
