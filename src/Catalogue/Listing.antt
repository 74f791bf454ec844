-- ===== src/Catalogue/Listing.antt =====
-- The maps of TransportSystem/transport_catalogue.h from names are determined by the deques: each lists
-- the names in their order, and a name that stands twice leads to its last place.
use transport_system.Prelude.{
  ℕ, zero, suc, ◌+◌, ◌≡◌, refl, sym, ap, ◌∙◌, some, List, [], ◌∷◌, ◌++◌, Str, get_elem?, set,
  length, arith,
}
use transport_system.Real.{Real}
use transport_system.Catalogue.{
  Catalogue, lookup, assign, append_stop, note_bus, append_bus, empty_catalogue,
}
use transport_system.Catalogue.WellFormed.{stop_name, bus_name, IsIndex, IsIndex-append, Holds-set}
use transport_system.Catalogue.Steps.{Keeps, add_stop-keeps, add_bus-keeps, add_length-keeps}
use transport_system.Catalogue.Reachable.{IsBuilt}

module _ {A : Type 0} (name : A → Str) where
  -- The map with the names of the list from this place on.
  abbrev pub listing : List A → ℕ → List (Str × ℕ) → List (Str × ℕ)
  listing [] n map = map
  listing (a ∷ all) n map = listing all (suc n) (assign (name a) n map)

  listing-append :
      (all : List A) (a : A) (n : ℕ) (map : List (Str × ℕ))
      → listing (all ++ a ∷ []) n map ≡ assign (name a) (n + length all) (listing all n map)
  listing-append [] a n map =
      let here : n ≡ n + 0 = omega arith in ap (λ place. assign (name a) place map) here
  listing-append (b ∷ all) a n map =
      let next : suc n + length all ≡ n + suc (length all) = omega arith in
      listing-append all a (suc n) (assign (name b) n map)
      ∙ ap (λ place. assign (name a) place (listing all (suc n) (assign (name b) n map))) next

  listing-append_last :
      (all : List A) (a : A)
      → assign (name a) (length all) (listing all 0 []) ≡ listing (all ++ a ∷ []) 0 []
  listing-append_last all a =
      let place : length all ≡ 0 + length all = omega arith in
      ap (λ i. assign (name a) i (listing all 0 [])) place ∙ sym (listing-append all a 0 [])

  listing-set :
      (all : List A) (p n : ℕ) (old new : A) (map : List (Str × ℕ))
      → get_elem? all p ≡ some old
      → name new ≡ name old
      → listing (set all p new) n map ≡ listing all n map
  listing-set [] p n old new map at same = cc
  listing-set (a ∷ all) zero n old new map at same =
      let there : a ≡ old = cc at in
      ap (λ k. listing all (suc n) (assign k n map)) (same ∙ ap name (sym there))
  listing-set (a ∷ all) (suc p) n old new map at same =
      listing-set all p (suc n) old new (assign (name a) n map) at same

module _ (R : Real) where
  record IsListing (c : Catalogue R) : Type 0 where
    stops : c.stops ≡ listing stop_name c.all_stops 0 []
    buses : c.buses ≡ listing bus_name c.all_buses 0 []
    named : IsIndex stop_name c.stops c.all_stops

  IsListing-keeps : Keeps R IsListing
  unfolding append_stop note_bus append_bus
  IsListing-keeps = record {
    append_stop_keeps = λ stop c fresh h. record {
      stops =
          ap (assign stop.name (length c.all_stops)) h.stops
          ∙ listing-append_last stop_name c.all_stops stop;
      buses = h.buses;
      named = IsIndex-append stop_name c.stops c.all_stops stop h.named;
    };
    write_stop_keeps = λ p stop old c found there h.
        let (there', at_p, same) = h.named stop.name p found in
        record {
          stops =
              h.stops ∙ sym (listing-set stop_name c.all_stops p 0 there' stop [] at_p (sym same));
          buses = h.buses;
          named = λ n i e.
              Holds-set stop_name c.all_stops p there' stop n i at_p (sym same) (h.named n i e);
        };
    note_bus_keeps = λ stop bus c h. record { stops = h.stops; buses = h.buses; named = h.named };
    append_bus_keeps = λ bus c h. record {
      stops = h.stops;
      buses =
          ap (assign bus.name (length c.all_buses)) h.buses
          ∙ listing-append_last bus_name c.all_buses bus;
      named = h.named;
    };
    set_stops_keeps = λ p bus stops c at_p h. record {
      stops = h.stops;
      buses = h.buses ∙ sym (listing-set bus_name c.all_buses p 0 bus _ [] at_p refl);
      named = h.named;
    };
  }

  empty-IsListing : IsListing empty_catalogue
  unfolding empty_catalogue lookup
  empty-IsListing = record { stops = refl; buses = refl; named = λ n p e. absurd (cc e) }

  IsBuilt→IsListing : (c : Catalogue R) → IsBuilt R c → IsListing c
  IsBuilt→IsListing _ IsBuilt.start = empty-IsListing
  IsBuilt→IsListing _ (IsBuilt.with_stop name location c d b e) =
      add_stop-keeps R IsListing IsListing-keeps name location c d (IsBuilt→IsListing c b) e
  IsBuilt→IsListing _ (IsBuilt.with_bus name stops is_loop c d b e) =
      add_bus-keeps R IsListing IsListing-keeps name stops is_loop c d (IsBuilt→IsListing c b) e
  IsBuilt→IsListing _ (IsBuilt.with_length first second n c d fits b e) =
      add_length-keeps R IsListing IsListing-keeps n
        (λ _ _ _ _ _ _ _ h. record { stops = h.stops; buses = h.buses; named = h.named }) first
        second c d (IsBuilt→IsListing c b) e

  -- Two catalogues that were built and have the same deques of stops and of buses find the same place
  -- for each name of a stop and for each name of a bus, and list the names in the same order.
  pub IsBuilt-same_maps :
      (c d : Catalogue R)
      → IsBuilt R c
      → IsBuilt R d
      → d.all_stops ≡ c.all_stops
      → d.all_buses ≡ c.all_buses
      → (d.stops ≡ c.stops) × (d.buses ≡ c.buses)
  IsBuilt-same_maps c d built built' stops buses =
      let h = IsBuilt→IsListing c built in
      let k = IsBuilt→IsListing d built' in
      (
        k.stops ∙ ap (λ all. listing stop_name all 0 []) stops ∙ sym h.stops,
        k.buses ∙ ap (λ all. listing bus_name all 0 []) buses ∙ sym h.buses,
      )
