-- ===== src/RequestHandler/Collecting.antt =====
-- The names that `RenderMap` of TransportSystem/request_handler.cpp collects.
use transport_system.Prelude.{
  ℕ, suc, ◌<◌, ◌≡◌, refl, ap, Bool-cases, true, false, none, some, List, [], ◌∷◌, inl, inr, arith,
  Str, str_eq, str_eq→eq, str_eq_refl, str_lt, str_lt_trans, length, get_elem?, get_elem?_of_below,
  ok, ◌>>=◌,
}
use transport_system.Real.{Real}
use transport_system.Domain.{Stop, Bus, deref, deref_all}
use transport_system.Catalogue.{Catalogue, lookup}
use transport_system.Catalogue.WellFormed.{AreBelow}
use transport_system.Catalogue.Indexed.{AreKeyed}
use transport_system.Catalogue.Reachable.{IsSound}
use transport_system.RequestHandler.{
  insert_unique, Passed, none_passed, collect_stops, collect_buses,
}

abbrev pub All : {A : Type 0} → (A → Type 0) → List A → Type 0
All P [] = Unit
All P (x ∷ xs) = P x × All P xs

-- Ascending, so that each name stands once: the elements of a `std::set`.
abbrev pub IsAscending : List Str → Type 0
IsAscending [] = Unit
IsAscending (x ∷ xs) = All (λ y. str_lt x y ≡ true) xs × IsAscending xs

str_lt_total : (s t : Str) → str_eq s t ≡ false → str_lt s t ≡ false → str_lt t s ≡ true
str_lt_total [] [] e h = cc
str_lt_total [] (y ∷ t) e h = cc
str_lt_total (x ∷ s) [] e h = refl
str_lt_total (x ∷ s) (y ∷ t) e h = ground (arith, str_lt_total s t)

pub All-insert_unique :
    (P : Str → Type 0) (x : Str) (xs : List Str) → P x → All P xs → All P (insert_unique x xs)
unfolding insert_unique
All-insert_unique P x [] p h = (p, tt)
All-insert_unique P x (y ∷ ys) p h = elim (Bool-cases (str_eq x y)) [
  | inl same ↦ rw same h
  | inr other ↦ elim (Bool-cases (str_lt x y)) [
    | inl less ↦ rw (other, less) (p, h)
    | inr more ↦ rw (other, more) (h.0, All-insert_unique P x ys p h.1)
  ]
]

All-below :
    (x y : Str) (ys : List Str)
    → str_lt x y ≡ true
    → All (λ z. str_lt y z ≡ true) ys
    → All (λ z. str_lt x z ≡ true) ys
All-below x y [] less h = tt
All-below x y (z ∷ ys) less h = (str_lt_trans x y z less h.0, All-below x y ys less h.1)

IsAscending-insert_unique :
    (x : Str) (xs : List Str) → IsAscending xs → IsAscending (insert_unique x xs)
unfolding insert_unique
IsAscending-insert_unique x [] h = (tt, tt)
IsAscending-insert_unique x (y ∷ ys) h = elim (Bool-cases (str_eq x y)) [
  | inl same ↦ rw same h
  | inr other ↦ elim (Bool-cases (str_lt x y)) [
    | inl less ↦ rw (other, less) ((less, All-below x y ys less h.0), h)
    | inr more ↦
        rw (other, more)
          (
            All-insert_unique (λ z. str_lt y z ≡ true) x ys (str_lt_total x y other more) h.0,
            IsAscending-insert_unique x ys h.1,
          )
  ]
]

-- What is found in a list whose keys differ.
abbrev pub AreFound : {A : Type 0} → List (Str × A) → List (Str × A) → Type 0
AreFound whole [] = Unit
AreFound whole ((k, a) ∷ xs) = (lookup k whole ≡ some a) × AreFound whole xs

AreFound-cons :
    {A : Type 0} (k : Str) (a : A) (whole xs : List (Str × A))
    → lookup k xs ≡ none
    → AreFound whole xs
    → AreFound ((k, a) ∷ whole) xs
unfolding lookup
AreFound-cons k a whole [] h f = tt
AreFound-cons k a whole ((j, b) ∷ xs) h f = elim (Bool-cases (str_eq k j)) [
  | inl same ↦ let wrong : some b ≡ none = rw same at h in absurd cc
  | inr other ↦
      let back : str_eq j k ≡ false = elim (Bool-cases (str_eq j k)) [
        | inl q ↦ let equal : j ≡ k = str_eq→eq j k q in cc (equal, str_eq_refl k, other)
        | inr q ↦ q
      ] in
      (rw back f.0, AreFound-cons k a whole xs (rw other at h) f.1)
]

pub AreKeyed→AreFound : {A : Type 0} (xs : List (Str × A)) → AreKeyed xs → AreFound xs xs
unfolding lookup
AreKeyed→AreFound [] h = tt
AreKeyed→AreFound ((k, a) ∷ xs) h =
    (rw (str_eq_refl k) refl, AreFound-cons k a xs xs h.0 (AreKeyed→AreFound xs h.1))

module _ {D : Type 0} where
  abbrev pub IsAt : List (Stop D) → Stop D → Type 0
  IsAt all s = (p : ℕ) × (get_elem? all p ≡ some s)

  -- Places that hold stops can be followed.
  pub deref_all_of_below :
      (all : List (Stop D)) (ps : List ℕ)
      → AreBelow (length all) ps
      → (stops : List (Stop D)) × (deref_all all ps ≡ ok stops)
        × (length stops ≡ length ps)
        × All (IsAt all) stops
  unfolding deref_all deref
  deref_all_of_below all [] h = ([], refl, refl, tt)
  deref_all_of_below all (p ∷ ps) h =
      let (s, there) = get_elem?_of_below all p h.0 in
      let (stops, rest, count, at) = deref_all_of_below all ps h.1 in
      (s ∷ stops, rw (there, ◌>>=◌, rest) refl, ap suc count, ((p, there), at))

module _ (R : Real) (db : Catalogue R) (sound : IsSound R db) where
  -- A bus of this name is found, and it passes a stop.
  abbrev pub IsServed : Str → Type 0
  IsServed n =
      (p : ℕ) × (bus : Bus) × (lookup n db.buses ≡ some p)
      × (get_elem? db.all_buses p ≡ some bus)
      × (0 < length bus.stops)
      × AreBelow (length db.all_stops) bus.stops

  abbrev pub IsPlaced : Str → Type 0
  IsPlaced n =
      (p : ℕ) × (s : Stop R.Carrier) × (lookup n db.stops ≡ some p)
      × (get_elem? db.all_stops p ≡ some s)

  pub record IsCollected (passed : Passed R.Carrier) : Type 0 where
    pub buses_served : All IsServed passed.set_name_bus
    pub stops_placed : All IsPlaced passed.set_name_stop
    pub buses_ascend : IsAscending passed.set_name_bus
    pub stops_ascend : IsAscending passed.set_name_stop

  collect_stops-IsCollected :
      (name : Str) (stops : List (Stop R.Carrier)) (passed : Passed R.Carrier)
      → IsServed name
      → All (IsAt db.all_stops) stops
      → IsCollected passed
      → IsCollected (collect_stops name stops passed)
  unfolding collect_stops
  collect_stops-IsCollected name [] passed served at h = h
  collect_stops-IsCollected name (stop ∷ stops) passed served ((p, there), at) h =
      let placed : IsPlaced stop.name = (p, stop, sound.indexed.stops_listed p stop there, there) in
      collect_stops-IsCollected name stops _ served at (record {
        buses_served = All-insert_unique IsServed name passed.set_name_bus served h.buses_served;
        stops_placed =
            All-insert_unique IsPlaced stop.name passed.set_name_stop placed h.stops_placed;
        buses_ascend = IsAscending-insert_unique name passed.set_name_bus h.buses_ascend;
        stops_ascend = IsAscending-insert_unique stop.name passed.set_name_stop h.stops_ascend;
      })

  collect_bus-IsCollected :
      (name : Str) (p : ℕ) (bus : Bus) (stops : List (Stop R.Carrier)) (passed : Passed R.Carrier)
      → lookup name db.buses ≡ some p
      → get_elem? db.all_buses p ≡ some bus
      → length stops ≡ length bus.stops
      → All (IsAt db.all_stops) stops
      → IsCollected passed
      → IsCollected (collect_stops name stops passed)
  unfolding collect_stops
  collect_bus-IsCollected name p bus [] passed found there count at h = h
  collect_bus-IsCollected name p bus (stop ∷ stops) passed found there count at h =
      collect_stops-IsCollected name (stop ∷ stops) passed
        (p, bus, found, there, omega (arith, count), sound.well_formed.bus_stops p bus there) at h

  collect_buses-IsCollected :
      (buses : List (Str × ℕ)) (passed : Passed R.Carrier)
      → AreFound db.buses buses
      → IsCollected passed
      → (d : Passed R.Carrier) × (collect_buses db buses passed ≡ ok d) × IsCollected d
  unfolding collect_buses deref
  collect_buses-IsCollected [] passed f h = (passed, refl, h)
  collect_buses-IsCollected ((name, p) ∷ buses) passed (found, f) h =
      let (bus, there, _) = sound.well_formed.bus_named name p found in
      let (stops, read, count, at) =
        deref_all_of_below db.all_stops bus.stops (sound.well_formed.bus_stops p bus there) in
      let (d, rest, done) =
        collect_buses-IsCollected buses (collect_stops name stops passed) f
          (collect_bus-IsCollected name p bus stops passed found there count at h) in
      (d, rw (there, ◌>>=◌, read) rest, done)

  -- On a sound catalogue the loop returns: each name of the set of buses is that of a bus with a
  -- stop, each name of the set of stops that of a stop, and both sets are in ascending order.
  pub collect_all :
      (d : Passed R.Carrier) × (collect_buses db db.buses none_passed ≡ ok d) × IsCollected d
  collect_all =
      collect_buses-IsCollected db.buses none_passed
        (AreKeyed→AreFound db.buses sound.indexed.buses_keyed)
        (record { buses_served = tt; stops_placed = tt; buses_ascend = tt; stops_ascend = tt })
