-- ===== src/Catalogue/Names.antt =====
-- The name of each bus of TransportSystem/transport_catalogue.h leads to a bus of that name.
use transport_system.Prelude.{
  ℕ, ◌≡◌, refl, sym, ap, subst, ◌∙◌, Bool-cases, true, some, List, [], ◌∷◌, inl, inr, Str, str_eq,
  str_eq_refl, str_eq→eq, get_elem?, set, length, get_elem?-concat, get_elem?-append_left,
  get_elem?-concat_cases, get_elem?-set, get_elem?-lt_length, ok, ◌==◌, if◌then◌else◌, arith,
}
use transport_system.Real.{Real}
use transport_system.Domain.{Bus, deref}
use transport_system.Catalogue.{
  Catalogue, lookup, append_stop, note_bus, append_bus, empty_catalogue, find_bus,
}
use transport_system.Catalogue.Maps.{lookup-assign}
use transport_system.Catalogue.Steps.{Keeps, add_stop-keeps, add_bus-keeps, add_length-keeps}
use transport_system.Catalogue.Reachable.{IsBuilt}

abbrev IsListed : List (Str × ℕ) → List Bus → Str → Type 0
IsListed map buses n =
    (j : ℕ) × (b : Bus) × (lookup n map ≡ some j) × (get_elem? buses j ≡ some b) × (b.name ≡ n)

abbrev AreListed : List (Str × ℕ) → List Bus → Type 0
AreListed map buses = (i : ℕ) (b : Bus) → get_elem? buses i ≡ some b → IsListed map buses b.name

module _ (R : Real) where
  abbrev BusesAreListed : Catalogue R → Type 0
  BusesAreListed c = AreListed c.buses c.all_buses

  append_bus-listed :
      (bus : Bus) (c : Catalogue R) → BusesAreListed c → BusesAreListed (append_bus R bus c)
  unfolding append_bus
  append_bus-listed bus c h i b e =
      let read = lookup-assign b.name bus.name (length c.all_buses) c.buses in
      elim (Bool-cases (str_eq b.name bus.name)) [
        | inl same ↦ (
          length c.all_buses,
          bus,
          read ∙ rw same refl,
          get_elem?-concat c.all_buses bus,
          sym (str_eq→eq b.name bus.name same),
        )
        | inr other ↦ elim (get_elem?-concat_cases c.all_buses bus i e) [
          | inl old ↦
              let (j, found, at_name, at_j, named) = h i b old in
              (
                j,
                found,
                read ∙ rw other at_name,
                get_elem?-append_left c.all_buses (bus ∷ []) j at_j,
                named,
              )
          | inr (_, equal) ↦
              let same : str_eq b.name bus.name ≡ true = rw equal (str_eq_refl bus.name) in
              absurd cc
        ]
      ]

  set_stops-listed :
      (p : ℕ) (bus : Bus) (stops : List ℕ) (c : Catalogue R)
      → get_elem? c.all_buses p ≡ some bus
      → BusesAreListed c
      → BusesAreListed (record c { all_buses = set c.all_buses p (record bus { stops = stops }) })
  set_stops-listed p bus stops c at_p h =
      let changed : Bus = record bus { stops = stops } in
      let read : (j : ℕ)
          → get_elem? (set c.all_buses p changed) j
            ≡ (if p == j then some changed else get_elem? c.all_buses j) =
        λ j. get_elem?-set c.all_buses p j changed (get_elem?-lt_length c.all_buses p at_p) in
      let still : (n : Str)
          → IsListed c.buses c.all_buses n
          → IsListed c.buses (set c.all_buses p changed) n =
        λ n (j, found, at_name, at_j, named). elim (Bool-cases (p == j)) [
          | inl k ↦
              let place : p ≡ j = ground (arith, k) in
              let same : bus ≡ found = cc (at_p, at_j, place) in
              (j, changed, at_name, read j ∙ rw k refl, ap (λ x. x.name) same ∙ named)
          | inr k ↦ (j, found, at_name, read j ∙ rw k at_j, named)
        ] in
      λ i b e. elim (Bool-cases (p == i)) [
        | inl k ↦
            let same : changed ≡ b = cc (read i, k, e) in
            still b.name
              (subst (IsListed c.buses c.all_buses) (ap (λ x. x.name) same) (h p bus at_p))
        | inr k ↦ still b.name (h i b (cc (read i, k, e)))
      ]

  AreListed-keeps : Keeps R BusesAreListed
  unfolding append_stop note_bus
  AreListed-keeps = record {
    append_stop_keeps = λ stop c fresh h. h;
    write_stop_keeps = λ p stop old c _ _ h. h;
    note_bus_keeps = λ stop bus c h. h;
    append_bus_keeps = append_bus-listed;
    set_stops_keeps = set_stops-listed;
  }

  IsBuilt→AreListed : (c : Catalogue R) → IsBuilt R c → BusesAreListed c
  unfolding empty_catalogue
  IsBuilt→AreListed _ IsBuilt.start = λ i b e. absurd (cc e)
  IsBuilt→AreListed _ (IsBuilt.with_stop name location c d b e) =
      add_stop-keeps R BusesAreListed AreListed-keeps name location c d (IsBuilt→AreListed c b) e
  IsBuilt→AreListed _ (IsBuilt.with_bus name stops is_loop c d b e) =
      add_bus-keeps R BusesAreListed AreListed-keeps name stops is_loop c d (IsBuilt→AreListed c b)
        e
  IsBuilt→AreListed _ (IsBuilt.with_length first second n c d fits b e) =
      add_length-keeps R BusesAreListed AreListed-keeps n (λ _ _ _ _ _ _ _ h. h) first second c d
        (IsBuilt→AreListed c b) e

  -- FindBus returns a bus of the name of any bus of a catalogue that was built.
  pub find_bus-IsBuilt :
      (c : Catalogue R) (i : ℕ) (b : Bus)
      → IsBuilt R c
      → get_elem? c.all_buses i ≡ some b
      → (found : Bus) × (find_bus c b.name ≡ ok found) × (found.name ≡ b.name)
  unfolding find_bus deref
  find_bus-IsBuilt c i b built at =
      let (j, found, at_name, at_j, named) = IsBuilt→AreListed c built i b at in
      (found, rw (at_name, at_j) refl, named)
