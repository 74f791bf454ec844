-- ===== src/Catalogue/Reachable.antt =====
-- The catalogues that the operations of TransportSystem/transport_catalogue.cpp build.
use transport_system.Prelude.{
  ℕ, ◌+◌, ◌<◌, ◌≡◌, refl, sym, subst, ◌∙◌, Bool, false, none, some, Option-cases, List, [], ◌∷◌,
  inl, inr, Str, arith, length, length-append, length-set, get_elem?-lt_length, ok, ok_same,
  throw_ok, Bool-cases, ◌&&◌, ◌==◌,
}
use transport_system.Real.{Real}
use transport_system.Domain.{Coordinates}
use transport_system.Catalogue.{
  Catalogue, lookup, lookup_pair, insert_pair, append_stop, note_bus, append_bus, empty_catalogue,
  add_stop, add_bus, add_length_between_stops,
}
use transport_system.Catalogue.WellFormed.{
  IsIndex, IsIndex-append, Holds-set, stop_name, IsWellFormed,
}
use transport_system.Catalogue.Stops.{add_stop-IsWellFormed}
use transport_system.Catalogue.Building.{add_bus-HasBus}
use transport_system.Catalogue.Lengths.{add_length-get_length}
use transport_system.Catalogue.Steps.{Keeps, add_stop-keeps, add_bus-keeps, add_length-keeps}
use transport_system.Catalogue.Indexed.{IsIndexed, IsIndexed-keeps, empty-IsIndexed}

-- Lengths that fit `uint32_t` between stops whose places are below the bound, no pair twice.
abbrev pub AreLengths : ℕ → List ((ℕ × ℕ) × ℕ) → Type 0
AreLengths m [] = Unit
AreLengths m ((k, n) ∷ xs) =
    (k.0 < m) × (k.1 < m) × (n < 4294967296) × (lookup_pair k xs ≡ none) × AreLengths m xs

AreLengths-suc : (m : ℕ) (xs : List ((ℕ × ℕ) × ℕ)) → AreLengths m xs → AreLengths (m + 1) xs
AreLengths-suc m [] h = tt
AreLengths-suc m ((k, n) ∷ xs) (hp, hq, fits, fresh, h) =
    (omega arith, omega arith, fits, fresh, AreLengths-suc m xs h)

lookup_pair-insert_pair_other :
    (j k : ℕ × ℕ) (n : ℕ) (xs : List ((ℕ × ℕ) × ℕ))
    → (j.0 == k.0 && j.1 == k.1) ≡ false
    → lookup_pair j (insert_pair k n xs) ≡ lookup_pair j xs
unfolding lookup_pair insert_pair
lookup_pair-insert_pair_other j k n [] h = rw h refl
lookup_pair-insert_pair_other j k n ((i, a) ∷ xs) h = elim (Bool-cases (k.0 == i.0 && k.1 == i.1)) [
  | inl same ↦ rw same refl
  | inr other ↦ rw (other, lookup_pair-insert_pair_other j k n xs h) refl
]

AreLengths-insert_pair :
    (m : ℕ) (k : ℕ × ℕ) (n : ℕ) (xs : List ((ℕ × ℕ) × ℕ))
    → k.0 < m
    → k.1 < m
    → n < 4294967296
    → AreLengths m xs
    → AreLengths m (insert_pair k n xs)
unfolding insert_pair lookup_pair
AreLengths-insert_pair m k n [] hp hq fits h = (hp, hq, fits, refl, tt)
AreLengths-insert_pair m k n ((j, a) ∷ xs) hp hq fits (hi, hj, ha, fresh, h) =
    elim (Bool-cases (k.0 == j.0 && k.1 == j.1)) [
      | inl same ↦ rw same (hi, hj, ha, fresh, h)
      | inr other ↦
          let apart : (j.0 == k.0 && j.1 == k.1) ≡ false = ground (arith, other) in
          rw other (
            hi,
            hj,
            ha,
            lookup_pair-insert_pair_other j k n xs apart ∙ fresh,
            AreLengths-insert_pair m k n xs hp hq fits h,
          )
    ]

module _ (R : Real) where
  -- A catalogue that the calls of its operations can lead to.
  pub data IsBuilt : Catalogue R → Type 0 where
    start : IsBuilt empty_catalogue
    with_stop :
        (name : Str) (location : Coordinates R.Carrier) (c d : Catalogue R)
        → IsBuilt c
        → add_stop R name location c ≡ ok d
        → IsBuilt d
    with_bus :
        (name : Str) (stops : List Str) (is_loop : Bool) (c d : Catalogue R)
        → IsBuilt c
        → add_bus R name stops is_loop c ≡ ok d
        → IsBuilt d
    with_length :
        (first second : Str) (n : ℕ) (c d : Catalogue R)
        → n < 4294967296
        → IsBuilt c
        → add_length_between_stops R (first, second) n c ≡ ok d
        → IsBuilt d

  record IsPaired (c : Catalogue R) : Type 0 where
    named : IsIndex stop_name c.stops c.all_stops
    below : AreLengths (length c.all_stops) c.length_between_stops

  IsPaired-keeps : Keeps R IsPaired
  unfolding append_stop note_bus append_bus
  IsPaired-keeps = record {
    append_stop_keeps = λ stop c fresh h. record {
      named = IsIndex-append stop_name c.stops c.all_stops stop h.named;
      below =
          rw (length-append c.all_stops (stop ∷ []))
            (AreLengths-suc (length c.all_stops) c.length_between_stops h.below);
    };
    write_stop_keeps = λ p stop old c found there h.
        let (there', at_p, same) = h.named stop.name p found in
        record {
          named = λ n i e.
              Holds-set stop_name c.all_stops p there' stop n i at_p (sym same) (h.named n i e);
          below = rw (length-set c.all_stops p stop) h.below;
        };
    note_bus_keeps = λ stop bus c h. record { named = h.named; below = h.below };
    append_bus_keeps = λ bus c h. record { named = h.named; below = h.below };
    set_stops_keeps = λ p bus stops c _ h. record { named = h.named; below = h.below };
  }

  pub record IsSound (c : Catalogue R) : Type 0 where
    pub well_formed : IsWellFormed c
    pub indexed : IsIndexed c
    pub paired : AreLengths (length c.all_stops) c.length_between_stops

  empty-IsSound : IsSound empty_catalogue
  unfolding empty_catalogue lookup
  empty-IsSound = record {
    well_formed = record {
      stop_named = λ n p e. absurd (cc e);
      bus_named = λ n p e. absurd (cc e);
      bus_stops = λ i b e. absurd (cc e);
    };
    indexed = empty-IsIndexed;
    paired = tt;
  }

  add_stop-IsSound :
      (name : Str) (location : Coordinates R.Carrier) (c d : Catalogue R)
      → IsSound c
      → add_stop R name location c ≡ ok d
      → IsSound d
  add_stop-IsSound name location c d h e =
      let (d', returns, wf, _, _) = add_stop-IsWellFormed R name location c h.well_formed in
      let paired =
        add_stop-keeps R IsPaired IsPaired-keeps name location c d
          (record { named = h.well_formed.stop_named; below = h.paired }) e in
      record {
        well_formed = subst IsWellFormed (ok_same returns e) wf;
        indexed = add_stop-keeps R IsIndexed (IsIndexed-keeps R) name location c d h.indexed e;
        paired = paired.below;
      }

  add_bus-IsSound :
      (name : Str) (stops : List Str) (is_loop : Bool) (c d : Catalogue R)
      → IsSound c
      → add_bus R name stops is_loop c ≡ ok d
      → IsSound d
  add_bus-IsSound name stops is_loop c d h e =
      let (d', returns, wf, _) = add_bus-HasBus R name stops is_loop c h.well_formed in
      let paired =
        add_bus-keeps R IsPaired IsPaired-keeps name stops is_loop c d
          (record { named = h.well_formed.stop_named; below = h.paired }) e in
      record {
        well_formed = subst IsWellFormed (ok_same returns e) wf;
        indexed = add_bus-keeps R IsIndexed (IsIndexed-keeps R) name stops is_loop c d h.indexed e;
        paired = paired.below;
      }

  insert_length-IsPaired :
      (n : ℕ)
      → n < 4294967296
      → (first second : Str) (p q : ℕ) (c : Catalogue R) → lookup first c.stops ≡ some p
      → lookup second c.stops ≡ some q
      → IsPaired c
      → IsPaired (record c { length_between_stops = insert_pair (p, q) n c.length_between_stops })
  insert_length-IsPaired n fits first second p q c at_p at_q h =
      let (_, there, _) = h.named first p at_p in
      let (_, there', _) = h.named second q at_q in
      record {
        named = h.named;
        below =
            AreLengths-insert_pair (length c.all_stops) (p, q) n c.length_between_stops
              (get_elem?-lt_length c.all_stops p there) (get_elem?-lt_length c.all_stops q there')
              fits h.below;
      }

  add_length-IsSound :
      (first second : Str) (n : ℕ) (c d : Catalogue R)
      → n < 4294967296
      → IsSound c
      → add_length_between_stops R (first, second) n c ≡ ok d
      → IsSound d
  unfolding add_length_between_stops
  add_length-IsSound first second n c d fits h e = elim (Option-cases (lookup first c.stops)) [
    | inl absent ↦ absurd (throw_ok (rw (add_length_between_stops, absent) at e))
    | inr (p, found) ↦
        let (d', _, returns, wf, _, _) =
          add_length-get_length R first second n c h.well_formed found in
        let paired =
          add_length-keeps R IsPaired IsPaired-keeps n (insert_length-IsPaired n fits) first second
            c d (record { named = h.well_formed.stop_named; below = h.paired }) e in
        let indexed =
          add_length-keeps R IsIndexed (IsIndexed-keeps R) n
            (λ _ _ _ _ x _ _ k. record {
              stops_listed = k.stops_listed;
              buses_keyed = k.buses_keyed;
            })
            first second c d h.indexed e in
        record {
          well_formed = subst IsWellFormed (ok_same returns e) wf;
          indexed = indexed;
          paired = paired.below;
        }
  ]

  -- Every catalogue that can be built is sound: names find stops and buses of that name, each stop of
  -- the deque is found at its own place, no name of a bus stands twice in the map, each bus passes
  -- stops that are there, and lengths are recorded between
  -- stops that are there, one for each pair.
  pub IsBuilt→IsSound : (c : Catalogue R) → IsBuilt c → IsSound c
  IsBuilt→IsSound _ start = empty-IsSound
  IsBuilt→IsSound _ (with_stop name location c d b e) =
      add_stop-IsSound name location c d (IsBuilt→IsSound c b) e
  IsBuilt→IsSound _ (with_bus name stops is_loop c d b e) =
      add_bus-IsSound name stops is_loop c d (IsBuilt→IsSound c b) e
  IsBuilt→IsSound _ (with_length first second n c d fits b e) =
      add_length-IsSound first second n c d fits (IsBuilt→IsSound c b) e
