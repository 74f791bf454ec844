-- ===== src/Catalogue/Lengths.antt =====
-- Lengths between stops: `AddLenghtBetweenStops` and `GetLenghtBetweenStops` of
-- TransportSystem/transport_catalogue.h.
use transport_system.Prelude.{
  ℕ, ◌≡◌, refl, ap, ◌∙◌, Bool-cases, ◌&&◌, Option, none, some, List, [], ◌∷◌, inl, inr, Str, arith,
  ok, ◌>>=◌, ◌==◌,
}
use transport_system.Real.{Real}
use transport_system.Catalogue.{
  TransportCatalogue, Catalogue, lookup, lookup_pair, insert_pair, add_length_between_stops,
}
use transport_system.Catalogue.WellFormed.{IsWellFormed}
use transport_system.Catalogue.Stops.{ensure_stop-IsWellFormed}
use transport_system.Catalogue.Info.{get_length_between_stops}

-- A pair that is recorded keeps its length, and a new one gets the given length.
abbrev pub kept : Option ℕ → ℕ → ℕ
kept none n = n
kept (some m) n = m

lookup_pair-insert_pair :
    (k : ℕ × ℕ) (n : ℕ) (xs : List ((ℕ × ℕ) × ℕ))
    → lookup_pair k (insert_pair k n xs) ≡ some (kept (lookup_pair k xs) n)
unfolding lookup_pair insert_pair
lookup_pair-insert_pair k n [] = ground arith
lookup_pair-insert_pair k n ((j, a) ∷ xs) = elim (Bool-cases (k.0 == j.0 && k.1 == j.1)) [
  | inl e ↦ rw e (rw e refl)
  | inr e ↦ rw e (rw e (lookup_pair-insert_pair k n xs))
]

get_length-found :
    {D : Type 0} (c : TransportCatalogue D) (first second : Str) (p q m : ℕ)
    → lookup first c.stops ≡ some p
    → lookup second c.stops ≡ some q
    → lookup_pair (p, q) c.length_between_stops ≡ some m
    → get_length_between_stops c first second ≡ ok m
unfolding get_length_between_stops
get_length-found c first second p q m f s l = rw (f, s, ◌>>=◌, l) refl

module _ (R : Real) where
  -- On a well-formed catalogue that has the first stop, `AddLenghtBetweenStops` returns one that is
  -- well formed, and in which the length from the first to the second is the one that was recorded
  -- for this direction before, or the given one if there was none.
  pub add_length-get_length :
      (first second : Str) (n : ℕ) (c : Catalogue R) {p : ℕ}
      → IsWellFormed c
      → lookup first c.stops ≡ some p
      → (d : Catalogue R) × (q : ℕ) × (add_length_between_stops R (first, second) n c ≡ ok d)
        × IsWellFormed d
        × (lookup second d.stops ≡ some q)
        × (get_length_between_stops d first second
            ≡ ok (kept (lookup_pair (p, q) c.length_between_stops) n))
  unfolding add_length_between_stops get_length_between_stops
  add_length-get_length first second n c {p} w found =
      let (known, returns, wk, g, (q, there)) = ensure_stop-IsWellFormed R second c w in
      let first_known = g.kept first p found in
      let same : known.length_between_stops ≡ c.length_between_stops = g.same_lengths in
      let read = lookup_pair-insert_pair (p, q) n known.length_between_stops in
      let grown : Catalogue R = record known {
        length_between_stops = insert_pair (p, q) n known.length_between_stops;
      } in
      let found_length = get_length-found grown first second p q _ first_known there read in
      (
        grown,
        q,
        rw (found, returns, there) refl,
        record { stop_named = wk.stop_named; bus_named = wk.bus_named; bus_stops = wk.bus_stops },
        there,
        found_length ∙ ap (λ xs. ok (kept (lookup_pair (p, q) xs) n)) same,
      )
