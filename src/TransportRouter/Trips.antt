-- ===== src/TransportRouter/Trips.antt =====
-- `info_about_edge` of TransportSystem/transport_router.cpp: each edge of the graph has the part of a
-- trip that it stands for.
use transport_system.Prelude.{
  ℕ, ◌-◌, ◌<◌, ◌≡◌, refl, ap, subst, ◌∙◌, Bool-cases, ==_iff, false, none, some, List, [], ◌∷◌,
  ◌++◌, inl, inr, arith, length, length-append, get_elem?, get_elem?-lt_length,
  get_elem?-concat_cases, Option-cases, ok, >>=-eq-ok, ok_same, throw_ok, ltb, ◌==◌, if◌then◌else◌,
}
use transport_system.Real.{Real}
use transport_system.Graph.{Edge, DirectedWeightedGraph, with_vertex_count, add_edge}
use transport_system.Catalogue.{TransportCatalogue}
use transport_system.TransportRouter.{
  real_weight, ComponentTrip, RoutingSettings, StopGraph, find_info, emplace_info, add_trip,
  create_graph,
}
use transport_system.TransportRouter.Steps.{IsNamed, create_graph-keeps}

module _ {A : Type 0} where
  -- What is found after an entry is put under a key that was not there.
  find_info-emplace_info :
      (k id : ℕ) (a : A) (xs : List (ℕ × A))
      → find_info id xs ≡ none
      → find_info k (emplace_info id a xs) ≡ (if k == id then some a else find_info k xs)
  unfolding find_info emplace_info
  find_info-emplace_info k id a [] h = refl
  find_info-emplace_info k id a ((j, b) ∷ xs) h = elim (Bool-cases (id == j)) [
    | inl same ↦ let wrong : some b ≡ none = rw same at h in absurd cc
    | inr other ↦
        let rest = find_info-emplace_info k id a xs (rw other at h) in
        rw (other, rest) (ground arith)
  ]

module _ (R : Real) where
  -- Each edge has its trip, of the same weight, and only edges have one.
  pub record IsDescribed (s : StopGraph R) : Type 0 where
    pub described :
        (id : ℕ) (edge : Edge (real_weight R))
        → get_elem? s.graph_of_stops.edges id ≡ some edge
        → (trip : ComponentTrip R.Carrier) × (find_info id s.info_about_edge ≡ some trip)
          × (edge.weight ≡ trip.weight)
    pub bounded :
        (id : ℕ) (trip : ComponentTrip R.Carrier)
        → find_info id s.info_about_edge ≡ some trip
        → id < length s.graph_of_stops.edges

  not_described :
      (s : StopGraph R)
      → IsDescribed s
      → find_info (length s.graph_of_stops.edges) s.info_about_edge ≡ none
  not_described s h =
      elim (Option-cases (find_info (length s.graph_of_stops.edges) s.info_about_edge)) [
        | inl absent ↦ absent
        | inr (trip, found) ↦ absurd (omega (arith, h.bounded _ trip found))
      ]

  -- What `AddEdge` does when it returns.
  pub add_edge-eq-ok :
      (edge : Edge (real_weight R)) (g : DirectedWeightedGraph (real_weight R)) (id : ℕ)
      → (add_edge (real_weight R) edge g).1 ≡ ok id
      → (id ≡ length g.edges) × ((add_edge (real_weight R) edge g).0.edges ≡ g.edges ++ edge ∷ [])
  unfolding add_edge
  add_edge-eq-ok edge g id returns =
      let count = length-append g.edges (edge ∷ []) in
      elim (Bool-cases (ltb edge.from (length g.incidence_lists))) [
        | inl inside ↦
            let same : length (g.edges ++ edge ∷ []) - 1 ≡ id =
              ok_same {r = ok _} refl (rw inside at returns) in
            rw inside (omega (arith, same, count), refl)
        | inr outside ↦ absurd (throw_ok (rw outside at returns))
      ]

  module _ (edge : Edge (real_weight R)) (trip : ComponentTrip R.Carrier) (s : StopGraph R)
      (same : edge.weight ≡ trip.weight) (h : IsDescribed s)
      (g : DirectedWeightedGraph (real_weight R))
      (grown : g.edges ≡ s.graph_of_stops.edges ++ edge ∷ []) where
    abbrev new_id : ℕ
    new_id = length s.graph_of_stops.edges

    abbrev with_trip : StopGraph R
    with_trip = record s {
      graph_of_stops = g;
      info_about_edge = emplace_info new_id trip s.info_about_edge;
    }

    found_in :
        (id : ℕ)
        → find_info id with_trip.info_about_edge
          ≡ (if id == new_id then some trip else find_info id s.info_about_edge)
    found_in id = find_info-emplace_info id new_id trip s.info_about_edge (not_described s h)

    with_trip-described :
        (id : ℕ) (e : Edge (real_weight R))
        → get_elem? g.edges id ≡ some e
        → (t : ComponentTrip R.Carrier) × (find_info id with_trip.info_about_edge ≡ some t)
          × (e.weight ≡ t.weight)
    with_trip-described id e found =
        elim (get_elem?-concat_cases s.graph_of_stops.edges edge id (rw grown at found)) [
          | inl old ↦
              let (t, at_id, equal) = h.described id e old in
              let other : (id == new_id) ≡ false =
                ground (arith, get_elem?-lt_length s.graph_of_stops.edges id old) in
              (t, rw (found_in id, other) at_id, equal)
          | inr (last, new) ↦
              (trip, rw (found_in id) (ground (arith, last)), ap (λ x. x.weight) new ∙ same)
        ]

    with_trip-bounded :
        (id : ℕ) (t : ComponentTrip R.Carrier)
        → find_info id with_trip.info_about_edge ≡ some t
        → id < length g.edges
    with_trip-bounded id t found =
        rw (grown, length-append)
          (elim (Bool-cases (id == new_id)) [
            | inl last ↦ let (at_id, _) = ==_iff id new_id in omega (arith, at_id last)
            | inr other ↦ omega (arith, h.bounded id t (rw (found_in id, other) at found))
          ])

    with_trip-IsDescribed : IsDescribed with_trip
    with_trip-IsDescribed = record { described = with_trip-described; bounded = with_trip-bounded }

  add_trip-IsDescribed :
      (edge : Edge (real_weight R)) (trip : ComponentTrip R.Carrier) (s d : StopGraph R)
      → edge.weight ≡ trip.weight
      → IsNamed (λ _. Unit) (λ _. Unit) trip
      → IsDescribed s
      → add_trip R edge trip s ≡ ok d
      → IsDescribed d
  unfolding add_trip
  add_trip-IsDescribed edge trip s d same _ h e =
      let (id, added, made) = >>=-eq-ok (add_edge (real_weight R) edge s.graph_of_stops).1 _ e in
      let (last, grown) = add_edge-eq-ok edge s.graph_of_stops id added in
      subst IsDescribed (ok_same {r = ok _} refl (rw last at made))
        (with_trip-IsDescribed edge trip s same h _ grown)

  -- Each edge of the graph that `CreateGraph` returns has its trip.
  pub create_graph-IsDescribed :
      (settings : RoutingSettings) (db : TransportCatalogue R.Carrier) (s : StopGraph R)
      → create_graph R settings db ≡ ok s
      → IsDescribed s
  unfolding with_vertex_count find_info
  create_graph-IsDescribed settings db s e =
      create_graph-keeps R IsDescribed (λ _. Unit) (λ _. Unit) add_trip-IsDescribed
        (λ before total vertexs h. record { described = h.described; bounded = h.bounded }) settings
        db s (λ _ _ _. tt) (λ _ _ _. tt)
        (record { described = λ id edge h. cc; bounded = λ id trip h. cc }) e
