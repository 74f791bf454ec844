-- ===== src/Catalogue/Loading/Lengths.antt =====
-- How TransportSystem/transport_catalogue.cpp reads the lengths of a saved catalogue.
use transport_system.Prelude.{
  ℕ, ◌≡◌, refl, sym, ◌∙◌, Bool-cases, ◌&&◌, none, some, List, [], ◌∷◌, ◌++◌, map, append_assoc,
  append-nil, inl, inr, arith, length, get_elem?, get_elem?_of_below, false, ok, >>=-of_ok, ◌==◌,
}
use transport_system.Real.{Real}
use transport_system.Domain.{Stop}
use transport_system.Catalogue.{
  Catalogue, lookup_pair, insert_pair, stop_availability, ensure_stop, add_length_between_stops,
}
use transport_system.Catalogue.Reachable.{AreLengths, IsBuilt, IsBuilt→IsSound}
use transport_system.Catalogue.Saving.{saved_length}
use transport_system.Catalogue.Proto.{uint32, save_stop, load_lengths}
use transport_system.Catalogue.Loading.{IsListed, proto_name-saved}

insert_pair_new :
    (k : ℕ × ℕ) (n : ℕ) (xs : List ((ℕ × ℕ) × ℕ))
    → lookup_pair k xs ≡ none
    → insert_pair k n xs ≡ xs ++ (k, n) ∷ []
unfolding insert_pair lookup_pair
insert_pair_new k n [] h = refl
insert_pair_new k n ((j, a) ∷ xs) h = elim (Bool-cases (k.0 == j.0 && k.1 == j.1)) [
  | inl same ↦ let wrong : some a ≡ none = rw same at h in absurd cc
  | inr other ↦ rw (other, insert_pair_new k n xs (rw other at h)) refl
]

lookup_pair-middle :
    (j k : ℕ × ℕ) (n : ℕ) (xs ys : List ((ℕ × ℕ) × ℕ))
    → lookup_pair j (xs ++ (k, n) ∷ ys) ≡ none
    → (j.0 == k.0 && j.1 == k.1) ≡ false
unfolding lookup_pair
lookup_pair-middle j k n [] ys h = elim (Bool-cases (j.0 == k.0 && j.1 == k.1)) [
  | inl same ↦ let wrong : some n ≡ none = rw same at h in absurd cc
  | inr other ↦ other
]
lookup_pair-middle j k n ((i, a) ∷ xs) ys h = elim (Bool-cases (j.0 == i.0 && j.1 == i.1)) [
  | inl same ↦ let wrong : some a ≡ none = rw same at h in absurd cc
  | inr other ↦ lookup_pair-middle j k n xs ys (rw other at h)
]

-- A pair that stands once does not stand before.
lookup_pair-before :
    (m : ℕ) (k : ℕ × ℕ) (n : ℕ) (xs ys : List ((ℕ × ℕ) × ℕ))
    → AreLengths m (xs ++ (k, n) ∷ ys)
    → lookup_pair k xs ≡ none
unfolding lookup_pair
lookup_pair-before m k n [] ys h = refl
lookup_pair-before m k n ((j, a) ∷ xs) ys (_, _, _, fresh, h) =
    elim (Bool-cases (k.0 == j.0 && k.1 == j.1)) [
      | inl same ↦
          let apart = lookup_pair-middle j k n xs ys fresh in absurd (ground (arith, same, apart))
      | inr other ↦ rw other (lookup_pair-before m k n xs ys h)
    ]

module _ (R : Real) where
  add_length-known :
      (c : Catalogue R) (p q n : ℕ) (s t : Stop R.Carrier)
      → IsListed R c
      → get_elem? c.all_stops p ≡ some s
      → get_elem? c.all_stops q ≡ some t
      → lookup_pair (p, q) c.length_between_stops ≡ none
      → add_length_between_stops R (s.name, t.name) n c
        ≡ ok (record c { length_between_stops = c.length_between_stops ++ ((p, q), n) ∷ [] })
  unfolding add_length_between_stops ensure_stop stop_availability
  add_length-known c p q n s t h at_p at_q fresh =
      let first = h p s at_p in
      let second = h q t at_q in
      let known : ensure_stop R t.name c ≡ ok c = rw (ensure_stop, second) refl in
      let new = insert_pair_new (p, q) n c.length_between_stops fresh in
      rw (first, known, second, new) refl

  pub load_lengths-append :
      (all : List (Stop R.Carrier)) (lengths : List ((ℕ × ℕ) × ℕ)) (c : Catalogue R)
      → IsBuilt R c
      → c.all_stops ≡ all
      → AreLengths (length all) (c.length_between_stops ++ lengths)
      → AreLengths (length all) lengths
      → (d : Catalogue R) × (load_lengths R (map save_stop all) (map saved_length lengths) c ≡ ok d)
        × IsBuilt R d
        × (d.all_stops ≡ all)
        × (d.all_buses ≡ c.all_buses)
        × (d.length_between_stops ≡ c.length_between_stops ++ lengths)
  unfolding load_lengths
  load_lengths-append all [] c b same h k =
      (c, refl, b, same, refl, sym (append-nil c.length_between_stops))
  load_lengths-append all (((p, q), n) ∷ lengths) c b same h (hp, hq, fits, _, k) =
      let listed = (IsBuilt→IsSound R c b).indexed.stops_listed in
      let (s, at_p) = get_elem?_of_below all p hp in
      let (t, at_q) = get_elem?_of_below all q hq in
      let fresh = lookup_pair-before (length all) (p, q) n c.length_between_stops lengths h in
      let keeps : uint32 n ≡ n = omega arith in
      let next : Catalogue R = record c {
        length_between_stops = c.length_between_stops ++ ((p, q), n) ∷ [];
      } in
      let added : add_length_between_stops R (s.name, t.name) (uint32 n) c ≡ ok next =
        rw keeps (add_length-known c p q n s t listed (rw same at_p) (rw same at_q) fresh) in
      let assoc = append_assoc c.length_between_stops (((p, q), n) ∷ []) lengths in
      let (d, rest, bd, stops, buses, lengths') =
        load_lengths-append all lengths next
          (IsBuilt.with_length s.name t.name (uint32 n) c next (rw keeps fits) b added) same
          (rw assoc h) k in
      (
        d,
        >>=-of_ok _ (proto_name-saved R all p s at_p) (
            >>=-of_ok _ (proto_name-saved R all q t at_q) (
              >>=-of_ok (load_lengths R (map save_stop all) (map saved_length lengths)) added
                rest)),
        bd,
        stops,
        buses,
        lengths' ∙ assoc,
      )
