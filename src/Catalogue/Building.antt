-- ===== src/Catalogue/Building.antt =====
-- `AddBus` of TransportSystem/transport_catalogue.cpp on well-formed catalogues.
use transport_system.Prelude.{
  ℕ, ◌<◌, ◌≡◌, refl, sym, ap, subst, ◌∙◌, Bool, Bool-cases, some, List, [], ◌∷◌, ◌++◌, append_assoc,
  append-nil, inl, inr, Str, arith, length, get_elem?, set, get_elem?-concat,
  get_elem?-concat_cases, get_elem?-set, get_elem?-lt_length, ◌==◌, ok,
}
use transport_system.Real.{Real}
use transport_system.Domain.{Stop, Bus, deref}
use transport_system.Catalogue.{
  Catalogue, lookup, note_bus, find_bus, append_bus, add_bus_stops, set_bus_stops, add_bus,
}
use transport_system.Catalogue.WellFormed.{
  Holds, IsIndex-append, Holds-set, AreBelow, stop_name, bus_name, IsWellFormed, Grows, Grows-refl,
  Grows-trans,
}
use transport_system.Catalogue.Stops.{lookup-assign_same, ensure_stop-IsWellFormed}

module _ (R : Real) where
  -- The places hold stops of these names.
  abbrev pub ArePlaces : List (Stop R.Carrier) → List Str → List ℕ → Type 0
  ArePlaces all [] [] = Unit
  ArePlaces all [] (p ∷ ps) = ⊥
  ArePlaces all (n ∷ ns) [] = ⊥
  ArePlaces all (n ∷ ns) (p ∷ ps) = Holds stop_name all n p × ArePlaces all ns ps

  ArePlaces-Grows :
      (c d : Catalogue R) (ns : List Str) (ps : List ℕ)
      → Grows c d
      → ArePlaces c.all_stops ns ps
      → ArePlaces d.all_stops ns ps
  ArePlaces-Grows c d [] [] g h = tt
  ArePlaces-Grows c d [] (p ∷ ps) g h = absurd h
  ArePlaces-Grows c d (n ∷ ns) [] g h = absurd h
  ArePlaces-Grows c d (n ∷ ns) (p ∷ ps) g h = (g.held n p h.0, ArePlaces-Grows c d ns ps g h.1)

  ArePlaces-concat :
      (all : List (Stop R.Carrier)) (ns : List Str) (ps : List ℕ) (n : Str) (p : ℕ)
      → ArePlaces all ns ps
      → Holds stop_name all n p
      → ArePlaces all (ns ++ n ∷ []) (ps ++ p ∷ [])
  ArePlaces-concat all [] [] n p h k = (k, tt)
  ArePlaces-concat all [] (q ∷ ps) n p h k = absurd h
  ArePlaces-concat all (m ∷ ns) [] n p h k = absurd h
  ArePlaces-concat all (m ∷ ns) (q ∷ ps) n p h k = (h.0, ArePlaces-concat all ns ps n p h.1 k)

  ArePlaces-AreBelow :
      (all : List (Stop R.Carrier)) (ns : List Str) (ps : List ℕ)
      → ArePlaces all ns ps
      → AreBelow (length all) ps
  ArePlaces-AreBelow all [] [] h = tt
  ArePlaces-AreBelow all [] (p ∷ ps) h = absurd h
  ArePlaces-AreBelow all (n ∷ ns) [] h = absurd h
  ArePlaces-AreBelow all (n ∷ ns) (p ∷ ps) ((s, e, q), h) =
      (get_elem?-lt_length all p e, ArePlaces-AreBelow all ns ps h)

  note_bus-IsWellFormed :
      (stop bus : Str) (c : Catalogue R) → IsWellFormed c → IsWellFormed (note_bus R stop bus c)
  unfolding note_bus
  note_bus-IsWellFormed stop bus c w = record {
    stop_named = w.stop_named;
    bus_named = w.bus_named;
    bus_stops = w.bus_stops;
  }

  Grows-note_bus :
      (stop bus : Str) (c d : Catalogue R) → Grows c d → Grows c (note_bus R stop bus d)
  unfolding note_bus
  Grows-note_bus stop bus c d g = record {
    kept = g.kept;
    held = g.held;
    more = g.more;
    same_buses = g.same_buses;
    same_lengths = g.same_lengths;
    same_all_buses = g.same_all_buses;
  }

  Grows-of_note_bus :
      (stop bus : Str) (c d : Catalogue R) → Grows (note_bus R stop bus c) d → Grows c d
  unfolding note_bus
  Grows-of_note_bus stop bus c d g = record {
    kept = g.kept;
    held = g.held;
    more = g.more;
    same_buses = g.same_buses;
    same_lengths = g.same_lengths;
    same_all_buses = g.same_all_buses;
  }

  -- The loop of `AddBus` returns places of the named stops.
  add_bus_stops-ArePlaces :
      (name : Str) (stops : List Str) (ns : List Str) (ps : List ℕ) (c : Catalogue R)
      → IsWellFormed c
      → ((p : ℕ) × (lookup name c.buses ≡ some p))
      → ArePlaces c.all_stops ns ps
      → (qs : List ℕ) × (d : Catalogue R) × (add_bus_stops R name stops ps c ≡ ok (qs, d))
        × IsWellFormed d
        × Grows c d
        × ArePlaces d.all_stops (ns ++ stops) qs
  unfolding add_bus_stops deref find_bus
  add_bus_stops-ArePlaces name [] ns ps c w bus h = (
    ps,
    c,
    refl,
    w,
    Grows-refl c,
    subst (λ ms. ArePlaces c.all_stops ms ps) (sym (append-nil ns)) h,
  )
  add_bus_stops-ArePlaces name (stop ∷ stops) ns ps c w (i, at_name) h =
      let (known, returns, wk, g, (p, found)) = ensure_stop-IsWellFormed R stop c w in
      let (s, there, same) = wk.stop_named stop p found in
      let at_known : lookup name known.buses ≡ some i = rw g.same_buses at_name in
      let (b, bus_there, named) = wk.bus_named name i at_known in
      let next = note_bus R s.name b.name known in
      let (qs, d, rest, wd, gd, places) =
        add_bus_stops-ArePlaces name stops (ns ++ stop ∷ []) (ps ++ p ∷ []) next
          (note_bus-IsWellFormed s.name b.name known wk) (i, at_known)
          (ArePlaces-concat known.all_stops ns ps stop p (ArePlaces-Grows c known ns ps g h)
            (s, there, same)) in
      let after : find_bus known name ≡ ok b = rw (at_known, bus_there) refl in
      let runs : add_bus_stops R name (stop ∷ stops) ps c ≡ ok (qs, d) =
        rw (returns, found, there, after) rest in
      (
        qs,
        d,
        runs,
        wd,
        Grows-trans c known d g (Grows-of_note_bus s.name b.name known d gd),
        subst (λ ms. ArePlaces d.all_stops ms qs) (append_assoc ns (stop ∷ []) stops) places,
      )

  append_bus-IsWellFormed :
      (b : Bus) (c : Catalogue R) → b.stops ≡ [] → IsWellFormed c → IsWellFormed (append_bus R b c)
  unfolding append_bus
  append_bus-IsWellFormed b c e w = record {
    stop_named = w.stop_named;
    bus_named = IsIndex-append bus_name c.buses c.all_buses b w.bus_named;
    bus_stops = λ i a found. elim (get_elem?-concat_cases c.all_buses b i found) [
      | inl old ↦ w.bus_stops i a old
      | inr (_, same) ↦
          subst (AreBelow (length c.all_stops)) (sym e ∙ ap (λ x. x.stops) (sym same)) tt
    ];
  }

  -- The bus is found, and it passes stops of the given names in their order.
  abbrev pub HasBus : Str → List Str → Bool → Catalogue R → Type 0
  HasBus name stops is_loop d =
      (b : Bus) × (find_bus d name ≡ ok b)
      × (b.name ≡ name)
      × (b.is_loop_trip ≡ is_loop)
      × ArePlaces d.all_stops stops b.stops

  stops_of_set :
      (c : Catalogue R)
      → IsWellFormed c
      → (p : ℕ) (new : Bus) → AreBelow (length c.all_stops) new.stops
      → p < length c.all_buses
      → (i : ℕ) (b : Bus) → get_elem? (set c.all_buses p new) i ≡ some b
      → AreBelow (length c.all_stops) b.stops
  stops_of_set c w p new below h i b e =
      let read = get_elem?-set c.all_buses p i new h in
      elim (Bool-cases (p == i)) [
        | inl k ↦
            let same : new ≡ b = cc (read, k, e) in
            subst (λ x. AreBelow (length c.all_stops) x.stops) same below
        | inr k ↦ w.bus_stops i b (cc (read, k, e))
      ]

  set_bus_stops-IsWellFormed :
      (name : Str) (stops : List Str) (qs : List ℕ) (p : ℕ) (b : Bus) (c : Catalogue R)
      → IsWellFormed c
      → lookup name c.buses ≡ some p
      → get_elem? c.all_buses p ≡ some b
      → b.name ≡ name
      → ArePlaces c.all_stops stops qs
      → (d : Catalogue R) × (set_bus_stops R name qs c ≡ ok d)
        × IsWellFormed d
        × HasBus name stops b.is_loop_trip d
  unfolding set_bus_stops deref find_bus
  set_bus_stops-IsWellFormed name stops qs p b c w found there same places =
      let new : Bus = record b { stops = qs } in
      let here : get_elem? (set c.all_buses p new) p ≡ some new =
        get_elem?-set c.all_buses p p new (get_elem?-lt_length c.all_buses p there)
        ∙ ground arith in
      let below = ArePlaces-AreBelow c.all_stops stops qs places in
      (
        record c { all_buses = set c.all_buses p new },
        rw (found, there) refl,
        record {
          stop_named = w.stop_named;
          bus_named =
              λ n i e. Holds-set bus_name c.all_buses p b new n i there refl (w.bus_named n i e);
          bus_stops = stops_of_set c w p new below (get_elem?-lt_length c.all_buses p there);
        },
        (new, rw (found, here) refl, same, refl, places),
      )

  -- On a well-formed catalogue `AddBus` returns one that is well formed, and in which the bus is found
  -- with stops of the given names in their order.
  pub add_bus-HasBus :
      (name : Str) (stops : List Str) (is_loop : Bool) (c : Catalogue R)
      → IsWellFormed c
      → (d : Catalogue R) × (add_bus R name stops is_loop c ≡ ok d)
        × IsWellFormed d
        × HasBus name stops is_loop d
  unfolding add_bus append_bus
  add_bus-HasBus name stops is_loop c w =
      let bus : Bus = record { name = name; stops = []; is_loop_trip = is_loop } in
      let start = append_bus R bus c in
      let ws = append_bus-IsWellFormed bus c refl w in
      let at_name : lookup name start.buses ≡ some (length c.all_buses) =
        lookup-assign_same name (length c.all_buses) c.buses in
      let (qs, mid, runs, wm, g, places) =
        add_bus_stops-ArePlaces name stops [] [] start ws (length c.all_buses, at_name) tt in
      let found : lookup name mid.buses ≡ some (length c.all_buses) = rw g.same_buses at_name in
      let there : get_elem? mid.all_buses (length c.all_buses) ≡ some bus =
        rw g.same_all_buses (get_elem?-concat c.all_buses bus) in
      let (d, ends, wd, has) =
        set_bus_stops-IsWellFormed name stops qs (length c.all_buses) bus mid wm found there refl
          places in
      (d, rw runs ends, wd, has)
