-- ===== src/Catalogue/WellFormed.antt =====
-- When the maps and the deques of TransportSystem/transport_catalogue.h agree.
use transport_system.Prelude.{
  ℕ, ◌≤◌, ◌<◌, ◌≡◌, refl, sym, ap, subst, ◌∙◌, Bool-cases, some, List, [], ◌∷◌, ◌++◌, inl, inr, Str,
  str_eq, str_eq→eq, if◌then◌else◌, arith, length, get_elem?, set, get_elem?-append_left,
  get_elem?-concat, get_elem?-set, get_elem?-lt_length, ◌==◌,
}
use transport_system.Domain.{Stop, Bus}
use transport_system.Catalogue.{TransportCatalogue, lookup, assign}
use transport_system.Catalogue.Maps.{lookup-assign}

module _ {A : Type 0} (name : A → Str) where
  -- The place holds something of this name.
  abbrev pub Holds : List A → Str → ℕ → Type 0
  Holds all n p = (a : A) × (get_elem? all p ≡ some a) × (name a ≡ n)

  -- What the map finds is at its place.
  abbrev pub IsIndex : List (Str × ℕ) → List A → Type 0
  IsIndex places all = (n : Str) (p : ℕ) → lookup n places ≡ some p → Holds all n p

  pub Holds-append :
      (all : List A) (x : A) (n : Str) (p : ℕ) → Holds all n p → Holds (all ++ x ∷ []) n p
  Holds-append all x n p (a, e, q) = (a, get_elem?-append_left all (x ∷ []) p e, q)

  pub IsIndex-append :
      (places : List (Str × ℕ)) (all : List A) (x : A)
      → IsIndex places all
      → IsIndex (assign (name x) (length all) places) (all ++ x ∷ [])
  IsIndex-append places all x h n p e =
      let found : (if str_eq n (name x) then some (length all) else lookup n places) ≡ some p =
        sym (lookup-assign n (name x) (length all) places) ∙ e in
      elim (Bool-cases (str_eq n (name x))) [
        | inl k ↦
            let place : length all ≡ p = cc (k, found) in
            (
              x,
              subst (λ i. get_elem? (all ++ x ∷ []) i ≡ some x) place (get_elem?-concat all x),
              sym (str_eq→eq n (name x) k),
            )
        | inr k ↦ Holds-append all x n p (h n p (cc (k, found)))
      ]

  -- What is written has the name of what was there.
  pub Holds-set :
      (all : List A) (i : ℕ) (old new : A) (n : Str) (p : ℕ)
      → get_elem? all i ≡ some old
      → name new ≡ name old
      → Holds all n p
      → Holds (set all i new) n p
  Holds-set all i old new n p e same (a, found, q) =
      let at_p = get_elem?-set all i p new (get_elem?-lt_length all i e) in
      elim (Bool-cases (i == p)) [
        | inl k ↦
            let place : i ≡ p = ground (arith, k) in
            let there : old ≡ a = cc (e, found, place) in
            (new, cc (at_p, k), same ∙ ap name there ∙ q)
        | inr k ↦ (a, cc (at_p, k, found), q)
      ]

-- Each place is below the bound.
abbrev pub AreBelow : ℕ → List ℕ → Type 0
AreBelow n [] = Unit
AreBelow n (p ∷ ps) = (p < n) × AreBelow n ps

pub AreBelow-mono : (m n : ℕ) (ps : List ℕ) → m ≤ n → AreBelow m ps → AreBelow n ps
AreBelow-mono m n [] e h = tt
AreBelow-mono m n (p ∷ ps) e h = (omega (arith, h.0), AreBelow-mono m n ps e h.1)

pub AreBelow-append :
    (n : ℕ) (ps qs : List ℕ) → AreBelow n ps → AreBelow n qs → AreBelow n (ps ++ qs)
AreBelow-append n [] qs h k = k
AreBelow-append n (p ∷ ps) qs h k = (h.0, AreBelow-append n ps qs h.1 k)

abbrev pub bus_name : Bus → Str
bus_name b = b.name

module _ {D : Type 0} where
  abbrev pub stop_name : Stop D → Str
  stop_name s = s.name

  -- Names find the stop or the bus of that name, and each bus passes stops that are there.
  pub record IsWellFormed (c : TransportCatalogue D) : Type 0 where
    pub stop_named : IsIndex stop_name c.stops c.all_stops
    pub bus_named : IsIndex bus_name c.buses c.all_buses
    pub bus_stops :
        (i : ℕ) (b : Bus) → get_elem? c.all_buses i ≡ some b → AreBelow (length c.all_stops) b.stops

  -- More stops are known, and what was known of the old ones, their coordinates aside, is as it was.
  pub record Grows (c d : TransportCatalogue D) : Type 0 where
    pub kept : (n : Str) (p : ℕ) → lookup n c.stops ≡ some p → lookup n d.stops ≡ some p
    pub held : (n : Str) (p : ℕ) → Holds stop_name c.all_stops n p → Holds stop_name d.all_stops n p
    pub more : length c.all_stops ≤ length d.all_stops
    pub same_buses : d.buses ≡ c.buses
    pub same_lengths : d.length_between_stops ≡ c.length_between_stops
    pub same_all_buses : d.all_buses ≡ c.all_buses

  pub Grows-refl : (c : TransportCatalogue D) → Grows c c
  Grows-refl c = record {
    kept = λ n p e. e;
    held = λ n p e. e;
    more = omega arith;
    same_buses = refl;
    same_lengths = refl;
    same_all_buses = refl;
  }

  pub Grows-trans : (c d e : TransportCatalogue D) → Grows c d → Grows d e → Grows c e
  Grows-trans c d e g h = record {
    kept = λ n p k. h.kept n p (g.kept n p k);
    held = λ n p k. h.held n p (g.held n p k);
    more = omega (arith, g.more, h.more);
    same_buses = h.same_buses ∙ g.same_buses;
    same_lengths = h.same_lengths ∙ g.same_lengths;
    same_all_buses = h.same_all_buses ∙ g.same_all_buses;
  }
