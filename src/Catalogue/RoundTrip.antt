-- ===== src/Catalogue/RoundTrip.antt =====
-- A catalogue (TransportSystem/transport_catalogue.cpp), saved and read back.
use transport_system.Prelude.{◌≤◌, ◌≡◌, ap, ◌∙◌, [], ◌++◌, length, ok, >>=-of_ok}
use transport_system.Real.{Real}
use transport_system.Catalogue.{Catalogue, empty_catalogue}
use transport_system.Catalogue.Reachable.{IsBuilt, IsBuilt→IsSound}
use transport_system.Catalogue.Saving.{saved, save_catalogue-saved, IsIndexed→AreUnique}
use transport_system.Catalogue.Proto.{ProtoCatalogue, save_catalogue, deserialize_catalogue}
use transport_system.Catalogue.Loading.{load_stops-append}
use transport_system.Catalogue.Loading.Buses.{load_buses-append}
use transport_system.Catalogue.Loading.Lengths.{load_lengths-append}

module _ (R : Real) where
  deserialize-saved :
      (c : Catalogue R)
      → IsBuilt R c
      → (d : Catalogue R) × (deserialize_catalogue R (saved c) ≡ ok d)
        × IsBuilt R d
        × (d.all_stops ≡ c.all_stops)
        × (d.all_buses ≡ c.all_buses)
        × (d.length_between_stops ≡ c.length_between_stops)
  unfolding deserialize_catalogue empty_catalogue
  deserialize-saved c b =
      let h = IsBuilt→IsSound R c b in
      let (c1, run1, b1, stops1, buses1, lengths1) =
        load_stops-append R c.all_stops empty_catalogue IsBuilt.start
          (IsIndexed→AreUnique c h.indexed) in
      let (c2, run2, b2, stops2, buses2, lengths2) =
        load_buses-append R c.all_stops c.all_buses c1 b1 stops1 h.well_formed.bus_stops in
      let none_yet : c2.length_between_stops ≡ [] = lengths2 ∙ lengths1 in
      let (c3, run3, b3, stops3, buses3, lengths3) =
        load_lengths-append R c.all_stops c.length_between_stops c2 b2 stops2 (rw none_yet h.paired)
          h.paired in
      (
        c3,
        >>=-of_ok _ run1 (>>=-of_ok _ run2 run3),
        b3,
        stops3,
        buses3 ∙ buses2 ∙ ap (λ x. x ++ c.all_buses) buses1,
        lengths3 ∙ ap (λ x. x ++ c.length_between_stops) none_yet,
      )

  -- A catalogue that was built, of at most 2 ^ 32 stops, is saved and read back without an exception.
  -- The catalogue that is read can be built too, and has the same stops, the same buses and the same
  -- lengths, each in the same order.
  pub deserialize-save_catalogue :
      (c : Catalogue R)
      → IsBuilt R c
      → length c.all_stops ≤ 4294967296
      → (message : ProtoCatalogue R.Carrier) × (d : Catalogue R) × (save_catalogue c ≡ ok message)
        × (deserialize_catalogue R message ≡ ok d)
        × IsBuilt R d
        × (d.all_stops ≡ c.all_stops)
        × (d.all_buses ≡ c.all_buses)
        × (d.length_between_stops ≡ c.length_between_stops)
  deserialize-save_catalogue c b few =
      let (d, loads, built, stops, buses, lengths) = deserialize-saved c b in
      (
        saved c,
        d,
        save_catalogue-saved R c (IsBuilt→IsSound R c b) few,
        loads,
        built,
        stops,
        buses,
        lengths,
      )
