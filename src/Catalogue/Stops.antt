-- ===== src/Catalogue/Stops.antt =====
-- `AddStop` of TransportSystem/transport_catalogue.cpp on well-formed catalogues.
use transport_system.Prelude.{
  ℕ, ◌≤◌, ◌≡◌, refl, sym, ◌∙◌, Bool-cases, none, some, Option-cases, List, [], ◌∷◌, ◌++◌, inl, inr,
  Str, str_eq, str_eq_refl, str_eq→eq, arith, length, get_elem?, set, length-append, length-set,
  Result, ok,
}
use transport_system.Real.{Real}
use transport_system.Domain.{Coordinates, Stop, deref}
use transport_system.Catalogue.{
  Catalogue, lookup, assign, append_stop, update_stop, is_unset, add_stop, no_location,
  stop_availability, ensure_stop,
}
use transport_system.Catalogue.Maps.{lookup-assign}
use transport_system.Catalogue.WellFormed.{
  Holds, IsIndex-append, Holds-set, Holds-append, AreBelow-mono, stop_name, IsWellFormed, Grows,
  Grows-refl,
}

pub lookup-assign_same :
    {A : Type 0} (k : Str) (a : A) (xs : List (Str × A)) → lookup k (assign k a xs) ≡ some a
lookup-assign_same k a xs = lookup-assign k k a xs ∙ rw (str_eq_refl k) refl

pub lookup-assign_new :
    {A : Type 0} (k j : Str) (a : A) (xs : List (Str × A)) {b : A}
    → lookup j xs ≡ none
    → lookup k xs ≡ some b
    → lookup k (assign j a xs) ≡ some b
lookup-assign_new k j a xs h e = lookup-assign k j a xs ∙ elim (Bool-cases (str_eq k j)) [
  | inl q ↦ let same : k ≡ j = str_eq→eq k j q in cc (same, h, e)
  | inr q ↦ rw q e
]

module _ (R : Real) where
  -- What an operation that adds a stop of this name does.
  abbrev pub Adds : Str → Catalogue R → Result (Catalogue R) → Type 0
  Adds name c r =
      (d : Catalogue R) × (r ≡ ok d)
      × IsWellFormed d
      × Grows c d
      × ((p : ℕ) × (lookup name d.stops ≡ some p))

  append_stop-IsWellFormed :
      (s : Stop R.Carrier) (c : Catalogue R)
      → IsWellFormed c
      → lookup s.name c.stops ≡ none
      → Adds s.name c (ok (append_stop R s c))
  unfolding append_stop
  append_stop-IsWellFormed s c w fresh =
      let longer : length c.all_stops ≤ length (c.all_stops ++ s ∷ []) =
        omega (arith, length-append c.all_stops (s ∷ [])) in
      (
        append_stop R s c,
        refl,
        record {
          stop_named = IsIndex-append stop_name c.stops c.all_stops s w.stop_named;
          bus_named = w.bus_named;
          bus_stops =
              λ i b e. AreBelow-mono (length c.all_stops) _ b.stops longer (w.bus_stops i b e);
        },
        record {
          kept = λ n p e. lookup-assign_new n s.name (length c.all_stops) c.stops fresh e;
          held = λ n p h. Holds-append stop_name c.all_stops s n p h;
          more = longer;
          same_buses = refl;
          same_lengths = refl;
          same_all_buses = refl;
        },
        (length c.all_stops, lookup-assign_same s.name (length c.all_stops) c.stops),
      )

  write_stop-IsWellFormed :
      (p : ℕ) (old s : Stop R.Carrier) (c : Catalogue R)
      → IsWellFormed c
      → lookup s.name c.stops ≡ some p
      → get_elem? c.all_stops p ≡ some old
      → old.name ≡ s.name
      → Adds s.name c (ok (record c { all_stops = set c.all_stops p s }))
  write_stop-IsWellFormed p old s c w found there same =
      let long : length (set c.all_stops p s) ≡ length c.all_stops = length-set c.all_stops p s in
      let holds : (n : Str) (i : ℕ)
          → Holds stop_name c.all_stops n i
          → Holds stop_name (set c.all_stops p s) n i =
        λ n i h. Holds-set stop_name c.all_stops p old s n i there (sym same) h in
      (
        record c { all_stops = set c.all_stops p s },
        refl,
        record {
          stop_named = λ n i e. holds n i (w.stop_named n i e);
          bus_named = w.bus_named;
          bus_stops = λ i b e.
              AreBelow-mono (length c.all_stops) _ b.stops (omega (arith, long))
                (w.bus_stops i b e);
        },
        record {
          kept = λ n i e. e;
          held = holds;
          more = omega (arith, long);
          same_buses = refl;
          same_lengths = refl;
          same_all_buses = refl;
        },
        (p, found),
      )

  -- On a well-formed catalogue `AddStop` returns one that is well formed and in which the stop is
  -- found; the stops that were there are found at the same places, and the buses are the same.
  pub add_stop-IsWellFormed :
      (name : Str) (location : Coordinates R.Carrier) (c : Catalogue R)
      → IsWellFormed c
      → Adds name c (add_stop R name location c)
  unfolding add_stop update_stop deref
  add_stop-IsWellFormed name location c w =
      let s : Stop R.Carrier = record { name = name; coordinates = location } in
      elim (Option-cases (lookup name c.stops)) [
        | inl e ↦ rw (add_stop, e) (append_stop-IsWellFormed s c w e)
        | inr (p, e) ↦
            let (old, there, same) = w.stop_named name p e in
            elim (Bool-cases (is_unset R old.coordinates)) [
              | inl k ↦
                  rw (add_stop, e, update_stop, there, k)
                    (write_stop-IsWellFormed p old s c w e there same)
              | inr k ↦ rw (add_stop, e, update_stop, there, k) (c, refl, w, Grows-refl c, (p, e))
            ]
      ]

  pub ensure_stop-IsWellFormed :
      (name : Str) (c : Catalogue R) → IsWellFormed c → Adds name c (ensure_stop R name c)
  unfolding ensure_stop stop_availability
  ensure_stop-IsWellFormed name c w = elim (Option-cases (lookup name c.stops)) [
    | inl e ↦ rw (ensure_stop, e) (add_stop-IsWellFormed name (no_location R) c w)
    | inr (p, e) ↦ rw (ensure_stop, e) (c, refl, w, Grows-refl c, (p, e))
  ]
