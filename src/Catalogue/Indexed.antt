-- ===== src/Catalogue/Indexed.antt =====
-- The maps of TransportSystem/transport_catalogue.h list everything: each stop of the deque is found
-- under its name at its own place, and each name of a bus stands in its map once.
use transport_system.Prelude.{
  ℕ, ◌≡◌, refl, ◌∙◌, Bool-cases, none, some, List, [], ◌∷◌, inl, inr, Str, str_eq, str_eq_refl,
  str_eq→eq, get_elem?, set, length, get_elem?-concat_cases, get_elem?-set, get_elem?-lt_length,
  ◌==◌, arith, false,
}
use transport_system.Real.{Real}
use transport_system.Domain.{Stop}
use transport_system.Catalogue.{
  TransportCatalogue, Catalogue, lookup, assign, append_stop, note_bus, append_bus, empty_catalogue,
}
use transport_system.Catalogue.Maps.{lookup-assign}
use transport_system.Catalogue.Steps.{Keeps}

-- No key stands twice.
abbrev pub AreKeyed : {A : Type 0} → List (Str × A) → Type 0
AreKeyed [] = Unit
AreKeyed ((k, a) ∷ xs) = (lookup k xs ≡ none) × AreKeyed xs

pub AreKeyed-assign :
    {A : Type 0} (k : Str) (a : A) (xs : List (Str × A)) → AreKeyed xs → AreKeyed (assign k a xs)
unfolding lookup assign
AreKeyed-assign k a [] h = (refl, tt)
AreKeyed-assign k a ((j, b) ∷ xs) h = elim (Bool-cases (str_eq k j)) [
  | inl same ↦ rw same h
  | inr other ↦
      let back : str_eq j k ≡ false = elim (Bool-cases (str_eq j k)) [
        | inl q ↦ let equal : j ≡ k = str_eq→eq j k q in cc (equal, str_eq_refl k, other)
        | inr q ↦ q
      ] in
      rw other (lookup-assign j k a xs ∙ rw back h.0, AreKeyed-assign k a xs h.1)
]

module _ {D : Type 0} where
  pub record IsIndexed (c : TransportCatalogue D) : Type 0 where
    pub stops_listed :
        (i : ℕ) (s : Stop D) → get_elem? c.all_stops i ≡ some s → lookup s.name c.stops ≡ some i
    pub buses_keyed : AreKeyed c.buses

  pub empty-IsIndexed : IsIndexed empty_catalogue
  unfolding empty_catalogue
  empty-IsIndexed = record { stops_listed = λ i s e. cc; buses_keyed = tt }

module _ (R : Real) where
  append_stop-IsIndexed :
      (stop : Stop R.Carrier) (c : Catalogue R)
      → lookup stop.name c.stops ≡ none
      → IsIndexed c
      → IsIndexed (append_stop R stop c)
  unfolding append_stop
  append_stop-IsIndexed stop c fresh h = record {
    stops_listed = λ i s e.
        lookup-assign s.name stop.name (length c.all_stops) c.stops
        ∙ elim (get_elem?-concat_cases c.all_stops stop i e) [
          | inl old ↦
              let found = h.stops_listed i s old in
              let other : str_eq s.name stop.name ≡ false =
                elim (Bool-cases (str_eq s.name stop.name)) [
                  | inl q ↦
                      let equal : s.name ≡ stop.name = str_eq→eq s.name stop.name q in
                      cc (equal, found, fresh)
                  | inr q ↦ q
                ] in
              rw other found
          | inr (last, same) ↦ rw (same, str_eq_refl stop.name, last) refl
        ];
    buses_keyed = h.buses_keyed;
  }

  write_stop-IsIndexed :
      (p : ℕ) (stop old : Stop R.Carrier) (c : Catalogue R)
      → lookup stop.name c.stops ≡ some p
      → get_elem? c.all_stops p ≡ some old
      → IsIndexed c
      → IsIndexed (record c { all_stops = set c.all_stops p stop })
  write_stop-IsIndexed p stop old c found there h = record {
    stops_listed = λ i s e.
        let read = get_elem?-set c.all_stops p i stop (get_elem?-lt_length c.all_stops p there) in
        elim (Bool-cases (p == i)) [
          | inl k ↦
              let place : p ≡ i = ground (arith, k) in
              let same : stop ≡ s = cc (read, k, e) in cc (same, place, found)
          | inr k ↦ h.stops_listed i s (cc (read, k, e))
        ];
    buses_keyed = h.buses_keyed;
  }

  pub IsIndexed-keeps : Keeps R IsIndexed
  unfolding note_bus append_bus
  IsIndexed-keeps = record {
    append_stop_keeps = append_stop-IsIndexed;
    write_stop_keeps = write_stop-IsIndexed;
    note_bus_keeps =
        λ stop bus c h. record { stops_listed = h.stops_listed; buses_keyed = h.buses_keyed };
    append_bus_keeps = λ bus c h. record {
      stops_listed = h.stops_listed;
      buses_keyed = AreKeyed-assign bus.name (length c.all_buses) c.buses h.buses_keyed;
    };
    set_stops_keeps =
        λ p bus stops c _ h. record { stops_listed = h.stops_listed; buses_keyed = h.buses_keyed };
  }
