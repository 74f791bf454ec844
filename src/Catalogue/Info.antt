-- ===== src/Catalogue/Info.antt =====
-- What TransportSystem/transport_catalogue.cpp answers about stops and buses.
use transport_system.Prelude.{
  ℕ, zero, suc, ◌+◌, ◌*◌, ◌%◌, ◌-◌, Bool, true, false, none, some, List, [], ◌∷◌, Str, str_eq,
  str_lt, ℤ, pos, negsuc, ltb, length, Result, ok, throw, out_of_range, logic_error, undefined,
  or_throw, ◌>>=◌, if◌then◌else◌, ◌==◌, ◌||◌,
}
use transport_system.Real.{Real, of_nat}
use transport_system.Domain.{Coordinates, Stop, Bus, StopInfo, BusInfo, deref_all, there_and_back}
use transport_system.Catalogue.{
  TransportCatalogue, lookup, lookup_pair, stop_availability, bus_availability, find_bus,
}

-- `GetLenghtBetweenStops`: the length in the direction that is known.
unfoldable pub get_length_between_stops : {D : Type 0} → TransportCatalogue D → Str → Str → Result ℕ
unfolding lookup lookup_pair
get_length_between_stops c first second = do
  p ← or_throw out_of_range (lookup first c.stops)
  q ← or_throw out_of_range (lookup second c.stops)
  elim (lookup_pair (p, q) c.length_between_stops) [
    | some n ↦ ok n
    | none ↦ elim (lookup_pair (q, p) c.length_between_stops) [
      | some n ↦ ok n
      | none ↦ if str_eq first second then ok 0 else throw logic_error
    ]
  ]

-- One term of `SummationLenght`: the length of the way from a stop to the next.
unfoldable pub segment_length : List ((ℕ × ℕ) × ℕ) → ℕ → ℕ → Result ℕ
unfolding lookup_pair
segment_length lengths from to = elim (lookup_pair (from, to) lengths) [
  | some n ↦ ok n
  | none ↦ or_throw out_of_range (lookup_pair (to, from) lengths)
]

-- The sum of one term for each stop and the next. Without a stop, `std::next` is undefined.
unfoldable pub sum_segments :
    {A M : Type 0} → (A → A → Result M) → (M → M → M) → M → List A → Result M
sum_segments f plus sum [] = throw undefined
sum_segments f plus sum (a ∷ []) = ok sum
sum_segments f plus sum (a ∷ b ∷ rest) = f a b >>= λ m. sum_segments f plus (plus sum m) (b ∷ rest)

abbrev pub word : ℕ
word = 4294967296

-- `int + uint32_t` in an `int`, kept as its 32 bits.
abbrev pub add_uint32 : ℕ → ℕ → ℕ
add_uint32 a b = (a + b) % word

-- An `int` from its 32 bits
abbrev pub to_int : ℕ → ℤ
to_int n = if ltb n 2147483648 then pos n else negsuc (4294967295 - n)

-- The stops that a bus passes.
unfoldable pub way : Bus → Result (List ℕ)
unfolding there_and_back
way bus = if bus.is_loop_trip then ok bus.stops else there_and_back bus.stops

-- `SummationLenght`
unfoldable pub summation_length : List ((ℕ × ℕ) × ℕ) → Bus → Result ℤ
unfolding way sum_segments segment_length
summation_length lengths bus =
    way bus >>= sum_segments (segment_length lengths) add_uint32 0 >>= λ sum. ok (to_int sum)

-- `std::unordered_set` of the stops
abbrev pub member : ℕ → List ℕ → Bool
member x [] = false
member x (y ∷ ys) = x == y || member x ys

unfoldable pub distinct : List ℕ → List ℕ
distinct [] = []
distinct (x ∷ xs) = if member x xs then distinct xs else x ∷ distinct xs

-- `count * 2 - 1` of an int: undefined outside of int.
unfoldable pub twice_less_one : ℤ → Result ℤ
twice_less_one (pos zero) = ok (negsuc 0)
twice_less_one (pos (suc n)) = if ltb n 1073741823 then ok (pos (n * 2 + 1)) else throw undefined
twice_less_one (negsuc n) = if ltb n 1073741823 then ok (negsuc (n * 2 + 2)) else throw undefined

-- `quantity_stop`, with the size of the deque converted to an int
unfoldable pub quantity_stop : Bus → Result ℤ
unfolding twice_less_one
quantity_stop bus =
    let count = to_int (length bus.stops % word) in
    if bus.is_loop_trip then ok count else twice_less_one count

-- `std::sort` on names
unfoldable pub insert_name : Str → List Str → List Str
insert_name x [] = x ∷ []
insert_name x (y ∷ ys) = if str_lt y x then y ∷ insert_name x ys else x ∷ y ∷ ys

unfoldable pub sort_names : List Str → List Str
unfolding insert_name
sort_names [] = []
sort_names (x ∷ xs) = insert_name x (sort_names xs)

unfoldable pub get_info_stop : {D : Type 0} → TransportCatalogue D → Str → StopInfo
unfolding stop_availability lookup sort_names
get_info_stop c stop_name =
    if stop_availability c stop_name
    then elim (lookup stop_name c.buses_in_stop) [
      | none ↦ record { exists' = true; buses = [] }
      | some names ↦ record { exists' = true; buses = sort_names names }
    ]
    else record { exists' = false; buses = [] }

-- `geo::ComputeDistance` is trigonometry of the standard library, and is an argument.
module _ (R : Real)
    (compute_distance : Coordinates R.Carrier → Coordinates R.Carrier → R.Carrier) where
  abbrev pub line : Stop R.Carrier → Stop R.Carrier → Result R.Carrier
  line a b = ok (compute_distance b.coordinates a.coordinates)

  -- `SummationLineLenght`
  unfoldable pub summation_line_length : List (Stop R.Carrier) → Bus → Result R.Carrier
  unfolding deref_all sum_segments
  summation_line_length all_stops bus = do
    stops ← deref_all all_stops bus.stops
    sum ← sum_segments line R.add (of_nat R 0) stops
    ok (if bus.is_loop_trip then sum else R.mul (of_nat R 2) sum)

  unfoldable pub get_info_bus : TransportCatalogue R.Carrier → Str → Result (BusInfo R.Carrier ℤ)
  unfolding bus_availability find_bus summation_length summation_line_length quantity_stop distinct
  get_info_bus c bus_name =
      let zero_value = of_nat R 0 in
      let info = do
        bus ← find_bus c bus_name
        count ← quantity_stop bus
        length' ← summation_length c.length_between_stops bus
        line_length ← summation_line_length c.all_stops bus
        ok (record {
          exists' = true;
          curvature = R.div (R.of_int length') line_length;
          route_length = R.of_int length';
          quantity_stop = count;
          unique_stops = to_int (length (distinct bus.stops) % word);
        })
      in if bus_availability c bus_name
        then info
        else ok (record {
          exists' = false;
          curvature = zero_value;
          route_length = zero_value;
          quantity_stop = pos 0;
          unique_stops = pos 0;
        })
