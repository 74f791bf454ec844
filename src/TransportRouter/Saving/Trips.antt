-- ===== src/TransportRouter/Saving/Trips.antt =====
-- `info_about_edge` of TransportSystem/transport_router.cpp, saved and read back.
use transport_system.Prelude.{
  ℕ, ◌≡◌, refl, sym, ap, ◌∙◌, Bool-cases, false, Option, none, some, List, [], ◌∷◌, ◌++◌, map,
  append_assoc, append-nil, inl, inr, arith, Str, ok, >>=-of_ok, ◌==◌,
}
use transport_system.Real.{Real}
use transport_system.Domain.{Stop, Bus}
use transport_system.Catalogue.{Catalogue, find_stop, find_bus}
use transport_system.TransportRouter.{ComponentTrip, find_info, emplace_info}
use transport_system.TransportRouter.Steps.{IsNamed}
use transport_system.TransportRouter.Saving.{IsUint32, uint32-same}
use transport_system.TransportRouter.Message.{
  ProtoComponentTrip, assign_number, save_component, save_info, load_component, load_info,
}

-- No key stands twice.
abbrev pub AreNumbered : {A : Type 0} → List (ℕ × A) → Type 0
AreNumbered [] = Unit
AreNumbered ((k, a) ∷ xs) = (find_info k xs ≡ none) × AreNumbered xs

pub assign_number_new :
    {A : Type 0} (k : ℕ) (a : A) (xs : List (ℕ × A))
    → find_info k xs ≡ none
    → assign_number k a xs ≡ xs ++ (k, a) ∷ []
unfolding find_info assign_number
assign_number_new k a [] h = refl
assign_number_new k a ((j, b) ∷ xs) h = elim (Bool-cases (k == j)) [
  | inl same ↦ let wrong : some b ≡ none = rw same at h in absurd cc
  | inr other ↦ rw (other, assign_number_new k a xs (rw other at h)) refl
]

find_info-middle :
    {A : Type 0} (j k : ℕ) (a : A) (xs ys : List (ℕ × A))
    → find_info j (xs ++ (k, a) ∷ ys) ≡ none
    → (j == k) ≡ false
unfolding find_info
find_info-middle j k a [] ys h = elim (Bool-cases (j == k)) [
  | inl same ↦ let wrong : some a ≡ none = rw same at h in absurd cc
  | inr other ↦ other
]
find_info-middle j k a ((i, b) ∷ xs) ys h = elim (Bool-cases (j == i)) [
  | inl same ↦ let wrong : some b ≡ none = rw same at h in absurd cc
  | inr other ↦ find_info-middle j k a xs ys (rw other at h)
]

pub find_info-before :
    {A : Type 0} (k : ℕ) (a : A) (xs ys : List (ℕ × A))
    → AreNumbered (xs ++ (k, a) ∷ ys)
    → find_info k xs ≡ none
unfolding find_info
find_info-before k a [] ys h = refl
find_info-before k a ((j, b) ∷ xs) ys (fresh, h) = elim (Bool-cases (k == j)) [
  | inl same ↦
      let apart = find_info-middle j k a xs ys fresh in absurd (ground (arith, same, apart))
  | inr other ↦ rw other (find_info-before k a xs ys h)
]

find_info-emplace_info_other :
    {A : Type 0} (j k : ℕ) (a : A) (xs : List (ℕ × A))
    → (j == k) ≡ false
    → find_info j (emplace_info k a xs) ≡ find_info j xs
unfolding find_info emplace_info
find_info-emplace_info_other j k a [] h = rw h refl
find_info-emplace_info_other j k a ((i, b) ∷ xs) h = elim (Bool-cases (k == i)) [
  | inl same ↦ rw same refl
  | inr other ↦ rw (other, find_info-emplace_info_other j k a xs h) refl
]

abbrev pub CountFits : Option ℕ → Type 0
CountFits none = Unit
CountFits (some n) = IsUint32 n

abbrev pub TripsFit : {D : Type 0} → List (ℕ × ComponentTrip D) → Type 0
TripsFit [] = Unit
TripsFit ((id, trip) ∷ xs) = IsUint32 id × CountFits trip.span_count × TripsFit xs

module _ (R : Real) (db : Catalogue R) where
  abbrev pub IsStopName : Str → Type 0
  IsStopName n = (s : Stop R.Carrier) × (find_stop db n ≡ ok s) × (s.name ≡ n)

  abbrev pub IsBusName : Str → Type 0
  IsBusName n = (b : Bus) × (find_bus db n ≡ ok b) × (b.name ≡ n)

  -- Each part of a trip is named after a stop or a bus of the catalogue, and no edge has two.
  abbrev pub AreTrips : List (ℕ × ComponentTrip R.Carrier) → Type 0
  AreTrips [] = Unit
  AreTrips ((id, trip) ∷ xs) =
      IsNamed IsStopName IsBusName trip × (find_info id xs ≡ none) × AreTrips xs

  pub AreTrips-emplace_info :
      (id : ℕ) (trip : ComponentTrip R.Carrier) (xs : List (ℕ × ComponentTrip R.Carrier))
      → IsNamed IsStopName IsBusName trip
      → AreTrips xs
      → AreTrips (emplace_info id trip xs)
  unfolding emplace_info find_info
  AreTrips-emplace_info id trip [] named h = (named, refl, tt)
  AreTrips-emplace_info id trip ((j, t) ∷ xs) named (first, fresh, h) =
      elim (Bool-cases (id == j)) [
        | inl same ↦ rw same (first, fresh, h)
        | inr other ↦
            let apart : (j == id) ≡ false = ground (arith, other) in
            rw other (
              first,
              find_info-emplace_info_other j id trip xs apart ∙ fresh,
              AreTrips-emplace_info id trip xs named h,
            )
      ]

  AreTrips→AreNumbered : (xs : List (ℕ × ComponentTrip R.Carrier)) → AreTrips xs → AreNumbered xs
  AreTrips→AreNumbered [] h = tt
  AreTrips→AreNumbered ((id, t) ∷ xs) (_, fresh, h) = (fresh, AreTrips→AreNumbered xs h)

  -- The ids of the edges and the counts fit 32 bits.
  abbrev save_entry : ℕ × ComponentTrip R.Carrier → ℕ × ProtoComponentTrip R.Carrier
  save_entry (id, trip) = (id, save_component trip)

  find_info-save_entry :
      (k : ℕ) (xs : List (ℕ × ComponentTrip R.Carrier))
      → find_info k xs ≡ none
      → find_info k (map save_entry xs) ≡ none
  unfolding find_info
  find_info-save_entry k [] h = refl
  find_info-save_entry k ((j, t) ∷ xs) h = elim (Bool-cases (k == j)) [
    | inl same ↦ let wrong : some t ≡ none = rw same at h in absurd cc
    | inr other ↦ rw other (find_info-save_entry k xs (rw other at h))
  ]

  AreNumbered-save_entry :
      (xs : List (ℕ × ComponentTrip R.Carrier)) → AreNumbered xs → AreNumbered (map save_entry xs)
  AreNumbered-save_entry [] h = tt
  AreNumbered-save_entry ((id, t) ∷ xs) (fresh, h) =
      (find_info-save_entry id xs fresh, AreNumbered-save_entry xs h)

  save_info-map :
      (xs : List (ℕ × ComponentTrip R.Carrier)) (result : List (ℕ × ProtoComponentTrip R.Carrier))
      → TripsFit xs
      → AreNumbered (result ++ map save_entry xs)
      → save_info xs result ≡ result ++ map save_entry xs
  unfolding save_info
  save_info-map [] result fits h = sym (append-nil result)
  save_info-map ((id, t) ∷ xs) result (fits, _, rest) h =
      let fresh = find_info-before id (save_component t) result (map save_entry xs) h in
      let assoc = append_assoc result ((id, save_component t) ∷ []) (map save_entry xs) in
      rw (uint32-same id fits, assign_number_new id (save_component t) result fresh)
        (save_info-map xs (result ++ (id, save_component t) ∷ []) rest (rw assoc h) ∙ assoc)

  load_component-named :
      (name : Str) (weight : R.Carrier) (span : Option ℕ)
      → IsNamed IsStopName IsBusName (record { name = name; weight = weight; span_count = span })
      → CountFits span
      → load_component R db
          (save_component (record { name = name; weight = weight; span_count = span }))
        ≡ ok (record { name = name; weight = weight; span_count = span })
  unfolding load_component save_component
  load_component-named name weight none (s, found, same) fits = rw (found, same) refl
  load_component-named name weight (some n) (b, found, same) fits =
      rw (found, same, uint32-same n fits) refl

  load_info-map :
      (xs result : List (ℕ × ComponentTrip R.Carrier))
      → AreTrips xs
      → TripsFit xs
      → AreNumbered (result ++ xs)
      → load_info R db (map save_entry xs) result ≡ ok (result ++ xs)
  unfolding load_info
  load_info-map [] result named fits h = rw (append-nil result) refl
  load_info-map ((id, t) ∷ xs) result (first, _, named) (_, count, fits) h =
      let loaded = load_component-named t.name t.weight t.span_count first count in
      let fresh = find_info-before id t result xs h in
      let assoc = append_assoc result ((id, t) ∷ []) xs in
      let next : load_info R db (map save_entry xs) (assign_number id t result)
          ≡ ok (result ++ (id, t) ∷ xs) =
        rw (assign_number_new id t result fresh)
          (load_info-map xs (result ++ (id, t) ∷ []) named fits (rw assoc h) ∙ ap ok assoc) in
      >>=-of_ok _ loaded next

  -- The parts of trips are read back as they were saved.
  pub load_info-save_info :
      (xs : List (ℕ × ComponentTrip R.Carrier))
      → AreTrips xs
      → TripsFit xs
      → load_info R db (save_info xs []) [] ≡ ok xs
  load_info-save_info xs h fits =
      let numbered = AreTrips→AreNumbered xs h in
      rw (save_info-map xs [] fits (AreNumbered-save_entry xs numbered))
        (load_info-map xs [] h fits numbered)
