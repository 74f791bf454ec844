-- ===== src/TransportRouter/Saving/Vertices.antt =====
-- `stop_vertexs_` of TransportSystem/transport_router.cpp, saved and read back.
use transport_system.Prelude.{
  ℕ, zero, suc, ◌+◌, ◌≤◌, ◌≡◌, ◌≢◌, refl, sym, ap, subst, ◌∙◌, Bool-cases, true, none, some, List,
  [], ◌∷◌, ◌++◌, append_assoc, append-nil, inl, inr, arith, Str, str_eq, str_eq_refl, str_eq→eq,
  length, length-append, get_elem?, ok, ◌==◌,
}
use transport_system.Real.{Real}
use transport_system.Domain.{Stop}
use transport_system.Catalogue.{Catalogue, lookup, assign}
use transport_system.Catalogue.Maps.{lookup-assign}
use transport_system.Catalogue.Stops.{lookup-assign_same}
use transport_system.Catalogue.Indexed.{AreKeyed}
use transport_system.Catalogue.Saving.{AreUnique, AreUnique-tail}
use transport_system.TransportRouter.{VertexId, find_info}
use transport_system.TransportRouter.Saving.{IsUint32, uint32-same}
use transport_system.TransportRouter.Saving.Trips.{
  AreNumbered, assign_number_new, find_info-before, IsStopName,
}
use transport_system.TransportRouter.Message.{
  ProtoVertexId, assign_number, save_names, save_vertexs, load_vertexs,
}

module _ {D : Type 0} where
  abbrev pub stop_names : List (Stop D) → List Str
  stop_names [] = []
  stop_names (s ∷ stops) = s.name ∷ stop_names stops

  save_names-names :
      (stops : List (Stop D)) (result : List Str) (places : List (Str × ℕ))
      → (save_names stops result places).0 ≡ result ++ stop_names stops
  unfolding save_names
  save_names-names [] result places = sym (append-nil result)
  save_names-names (s ∷ stops) result places =
      save_names-names stops (result ++ s.name ∷ []) _
      ∙ append_assoc result (s.name ∷ []) (stop_names stops)

  save_names-lookup_other :
      (n : Str) (stops : List (Stop D)) (result : List Str) (places : List (Str × ℕ))
      → ((j : ℕ) (t : Stop D) → get_elem? stops j ≡ some t → n ≢ t.name)
      → lookup n (save_names stops result places).1 ≡ lookup n places
  unfolding save_names
  save_names-lookup_other n [] result places h = refl
  save_names-lookup_other n (s ∷ stops) result places h =
      save_names-lookup_other n stops (result ++ s.name ∷ []) _ (λ j t e. h (suc j) t e)
      ∙ lookup-assign n s.name _ places
      ∙ elim (Bool-cases (str_eq n s.name)) [
        | inl same ↦ absurd (h 0 s refl (str_eq→eq n s.name same))
        | inr other ↦ rw other refl
      ]

  save_names-lookup :
      (stops : List (Stop D)) (result : List Str) (places : List (Str × ℕ)) (i : ℕ) (s : Stop D)
      → AreUnique stops
      → length result + length stops ≤ 4294967296
      → get_elem? stops i ≡ some s
      → lookup s.name (save_names stops result places).1 ≡ some (length result + i)
  unfolding save_names
  save_names-lookup [] result places i s h few e = cc
  save_names-lookup (t ∷ stops) result places zero s h few e =
      let same : t ≡ s = cc e in
      let longer = length-append result (t.name ∷ []) in
      let alone : (j : ℕ) (u : Stop D) → get_elem? stops j ≡ some u → t.name ≢ u.name =
        λ j u at_j equal. omega (arith, h 0 (suc j) t u refl at_j equal) in
      subst (λ x. lookup x.name (save_names (t ∷ stops) result places).1 ≡ some (length result + 0))
        same
        (save_names-lookup_other t.name stops (result ++ t.name ∷ []) _ alone
          ∙ lookup-assign_same t.name _ places
          ∙ ap some (omega (arith, longer)))
  save_names-lookup (t ∷ stops) result places (suc i) s h few e =
      let longer = length-append result (t.name ∷ []) in
      save_names-lookup stops (result ++ t.name ∷ []) _ i s (AreUnique-tail t stops h)
        (omega (arith, longer)) e
      ∙ ap some (omega (arith, longer))

  get_elem?-stop_names :
      (stops : List (Stop D)) (i : ℕ) (s : Stop D)
      → get_elem? stops i ≡ some s
      → get_elem? (stop_names stops) i ≡ some s.name
  get_elem?-stop_names [] i s e = cc
  get_elem?-stop_names (t ∷ stops) zero s e = let same : t ≡ s = cc e in ap (λ x. some x.name) same
  get_elem?-stop_names (t ∷ stops) (suc i) s e = get_elem?-stop_names stops i s e

  -- The entries of the message for the vertices: the place of each stop with its vertices.
  abbrev pub AtPlaces : List (Stop D) → List (Str × VertexId) → List (ℕ × ProtoVertexId) → Type 0
  AtPlaces all [] [] = Unit
  AtPlaces all [] (p ∷ ps) = ⊥
  AtPlaces all (x ∷ xs) [] = ⊥
  AtPlaces all ((n, v) ∷ xs) ((i, w) ∷ ps) =
      (s : Stop D) × (get_elem? all i ≡ some s)
      × (s.name ≡ n)
      × (w ≡ record { inner = v.inner; outer = v.outer })
      × AtPlaces all xs ps

  AtPlaces-fresh :
      (all : List (Stop D)) (n : Str) (i : ℕ) (s : Stop D) (xs : List (Str × VertexId))
      (ps : List (ℕ × ProtoVertexId))
      → get_elem? all i ≡ some s
      → s.name ≡ n
      → lookup n xs ≡ none
      → AtPlaces all xs ps
      → find_info i ps ≡ none
  unfolding lookup find_info
  AtPlaces-fresh all n i s [] [] at same h p = refl
  AtPlaces-fresh all n i s [] (q ∷ ps) at same h p = absurd p
  AtPlaces-fresh all n i s (x ∷ xs) [] at same h p = absurd p
  AtPlaces-fresh all n i s ((m, v) ∷ xs) ((j, w) ∷ ps) at same h (t, at_j, named, _, p) =
      elim (Bool-cases (i == j)) [
        | inl equal ↦
            let place : i ≡ j = ground (arith, equal) in
            let stops : s ≡ t = cc (at, at_j, place) in
            let names : n ≡ m = sym same ∙ ap (λ x. x.name) stops ∙ named in
            let is_same : str_eq n m ≡ true =
              subst (λ x. str_eq n x ≡ true) names (str_eq_refl n) in
            let wrong : some v ≡ none = rw is_same at h in absurd cc
        | inr other ↦ elim (Bool-cases (str_eq n m)) [
          | inl k ↦ let wrong : some v ≡ none = rw k at h in absurd cc
          | inr k ↦ rw other (AtPlaces-fresh all n i s xs ps at same (rw k at h) p)
        ]
      ]

  AtPlaces→AreNumbered :
      (all : List (Stop D)) (xs : List (Str × VertexId)) (ps : List (ℕ × ProtoVertexId))
      → AreKeyed xs
      → AtPlaces all xs ps
      → AreNumbered ps
  AtPlaces→AreNumbered all [] [] h p = tt
  AtPlaces→AreNumbered all [] (q ∷ ps) h p = absurd p
  AtPlaces→AreNumbered all (x ∷ xs) [] h p = absurd p
  AtPlaces→AreNumbered all ((n, v) ∷ xs) ((i, w) ∷ ps) (fresh, h) (s, at, same, _, p) =
      (AtPlaces-fresh all n i s xs ps at same fresh p, AtPlaces→AreNumbered all xs ps h p)

assign_new :
    {A : Type 0} (k : Str) (a : A) (xs : List (Str × A))
    → lookup k xs ≡ none
    → assign k a xs ≡ xs ++ (k, a) ∷ []
unfolding lookup assign
assign_new k a [] h = refl
assign_new k a ((j, b) ∷ xs) h = elim (Bool-cases (str_eq k j)) [
  | inl same ↦ let wrong : some b ≡ none = rw same at h in absurd cc
  | inr other ↦ rw (other, assign_new k a xs (rw other at h)) refl
]

lookup-middle :
    {A : Type 0} (j k : Str) (a : A) (xs ys : List (Str × A))
    → lookup j (xs ++ (k, a) ∷ ys) ≡ none
    → j ≢ k
unfolding lookup
lookup-middle j k a [] ys h equal =
    let same : str_eq j k ≡ true = subst (λ x. str_eq j x ≡ true) equal (str_eq_refl j) in
    let wrong : some a ≡ none = rw same at h in absurd cc
lookup-middle j k a ((i, b) ∷ xs) ys h equal = elim (Bool-cases (str_eq j i)) [
  | inl same ↦ let wrong : some b ≡ none = rw same at h in absurd cc
  | inr other ↦ lookup-middle j k a xs ys (rw other at h) equal
]

lookup-before :
    {A : Type 0} (k : Str) (a : A) (xs ys : List (Str × A))
    → AreKeyed (xs ++ (k, a) ∷ ys)
    → lookup k xs ≡ none
unfolding lookup
lookup-before k a [] ys h = refl
lookup-before k a ((j, b) ∷ xs) ys (fresh, h) = elim (Bool-cases (str_eq k j)) [
  | inl same ↦ absurd (lookup-middle j k a xs ys fresh (sym (str_eq→eq k j same)))
  | inr other ↦ rw other (lookup-before k a xs ys h)
]

abbrev pub VertexsFit : List (Str × VertexId) → Type 0
VertexsFit [] = Unit
VertexsFit ((n, v) ∷ xs) = IsUint32 v.inner × IsUint32 v.outer × VertexsFit xs

module _ {D : Type 0} where
  -- Each name is that of a stop, and no name has two entries.
  abbrev pub ArePlaced : List (Stop D) → List (Str × VertexId) → Type 0
  ArePlaced all [] = Unit
  ArePlaced all ((n, v) ∷ xs) =
      ((i : ℕ) × (s : Stop D) × (get_elem? all i ≡ some s) × (s.name ≡ n)) × ArePlaced all xs

  pub ArePlaced-assign :
      (all : List (Stop D)) (i : ℕ) (s : Stop D) (v : VertexId) (xs : List (Str × VertexId))
      → get_elem? all i ≡ some s
      → ArePlaced all xs
      → ArePlaced all (assign s.name v xs)
  unfolding assign
  ArePlaced-assign all i s v [] at h = ((i, s, at, refl), tt)
  ArePlaced-assign all i s v ((n, w) ∷ xs) at (first, h) = elim (Bool-cases (str_eq s.name n)) [
    | inl same ↦ rw same (first, h)
    | inr other ↦ rw other (first, ArePlaced-assign all i s v xs at h)
  ]

  AtPlaces-of_ArePlaced :
      (all : List (Stop D)) (xs : List (Str × VertexId))
      → ArePlaced all xs
      → (ps : List (ℕ × ProtoVertexId)) × AtPlaces all xs ps
  AtPlaces-of_ArePlaced all [] h = ([], tt)
  AtPlaces-of_ArePlaced all ((n, v) ∷ xs) ((i, s, at, same), h) =
      let (ps, places) = AtPlaces-of_ArePlaced all xs h in
      ((i, record { inner = v.inner; outer = v.outer }) ∷ ps, (s, at, same, refl, places))

  save_vertexs-AtPlaces :
      (all : List (Stop D)) (name_stops : List (Str × ℕ))
      (listed : (i : ℕ) (s : Stop D) → get_elem? all i ≡ some s → lookup s.name name_stops ≡ some i)
      (xs : List (Str × VertexId)) (ps result : List (ℕ × ProtoVertexId))
      → VertexsFit xs
      → AtPlaces all xs ps
      → AreNumbered (result ++ ps)
      → save_vertexs name_stops xs result ≡ ok (result ++ ps)
  unfolding save_vertexs
  save_vertexs-AtPlaces all name_stops listed [] [] result fits p h = rw (append-nil result) refl
  save_vertexs-AtPlaces all name_stops listed [] (q ∷ ps) result fits p h = absurd p
  save_vertexs-AtPlaces all name_stops listed (x ∷ xs) [] result fits p h = absurd p
  save_vertexs-AtPlaces all name_stops listed ((n, v) ∷ xs) ((i, w) ∷ ps) result
        (inner_fits, outer_fits, fits) (s, at, same, vertices, p) h =
      let found : lookup n name_stops ≡ some i =
        subst (λ x. lookup x name_stops ≡ some i) same (listed i s at) in
      let assoc = append_assoc result ((i, w) ∷ []) ps in
      let new = assign_number_new i w result (find_info-before i w result ps h) in
      let rest : save_vertexs name_stops xs (assign_number i w result)
          ≡ ok (result ++ (i, w) ∷ ps) =
        rw new (
          save_vertexs-AtPlaces all name_stops listed xs ps (result ++ (i, w) ∷ []) fits p
            (rw assoc h)
          ∙ ap ok assoc) in
      rw (found, uint32-same v.inner inner_fits, uint32-same v.outer outer_fits, ← vertices) rest

module _ (R : Real) (db : Catalogue R) (all : List (Stop R.Carrier))
    (named : (i : ℕ) (s : Stop R.Carrier) → get_elem? all i ≡ some s → IsStopName R db s.name) where
  load_vertexs-AtPlaces :
      (xs : List (Str × VertexId)) (ps : List (ℕ × ProtoVertexId)) (result : List (Str × VertexId))
      → AtPlaces all xs ps
      → AreKeyed (result ++ xs)
      → load_vertexs R db (stop_names all) ps result ≡ ok (result ++ xs)
  unfolding load_vertexs
  load_vertexs-AtPlaces [] [] result p h = rw (append-nil result) refl
  load_vertexs-AtPlaces [] (q ∷ ps) result p h = absurd p
  load_vertexs-AtPlaces (x ∷ xs) [] result p h = absurd p
  load_vertexs-AtPlaces ((n, v) ∷ xs) ((i, w) ∷ ps) result (s, at, same, vertices, p) h =
      let (t, found, at_name) = named i s at in
      let assoc = append_assoc result ((n, v) ∷ []) xs in
      let new = assign_new n v result (lookup-before n v result xs h) in
      let rest : load_vertexs R db (stop_names all) ps (assign n v result)
          ≡ ok (result ++ (n, v) ∷ xs) =
        rw new (load_vertexs-AtPlaces xs ps (result ++ (n, v) ∷ []) p (rw assoc h) ∙ ap ok assoc) in
      rw (get_elem?-stop_names all i s at, found, at_name, same, vertices) rest

  -- The vertices are read back as they were saved.
  pub load_vertexs-save_vertexs :
      (xs : List (Str × VertexId))
      → AreUnique all
      → length all ≤ 4294967296
      → ArePlaced all xs
      → AreKeyed xs
      → VertexsFit xs
      → (ps : List (ℕ × ProtoVertexId)) × (save_vertexs (save_names all [] []).1 xs [] ≡ ok ps)
        × (load_vertexs R db (save_names all [] []).0 ps [] ≡ ok xs)
  load_vertexs-save_vertexs xs unique few placed keyed fits =
      let (ps, places) = AtPlaces-of_ArePlaced all xs placed in
      let numbered = AtPlaces→AreNumbered all xs ps keyed places in
      let listed : (i : ℕ) (s : Stop R.Carrier)
          → get_elem? all i ≡ some s
          → lookup s.name (save_names all [] []).1 ≡ some i =
        λ i s e.
          save_names-lookup all [] [] i s unique (omega (arith, few)) e ∙ ap some (omega arith) in
      (
        ps,
        save_vertexs-AtPlaces all (save_names all [] []).1 listed xs ps [] fits places numbered,
        rw (save_names-names all [] []) (load_vertexs-AtPlaces xs ps [] places keyed),
      )
