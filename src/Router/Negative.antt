-- ===== src/Router/Negative.antt =====
-- Negative weights: when the constructor of TransportSystem/router.h throws.
use mathlib.Core.List.{Memᴰ}
use mathlib.Core.List.Memᴰ
use transport_system.Prelude.{
  ℕ, zero, suc, ◌+◌, ◌≤◌, ◌<◌, ◌≡◌, refl, subst, true, false, some, List, [], ◌∷◌, ◌⊎◌, inl, inr,
  Bool-cases, arith, get_elem?, get_or, Result, ok, throw, domain_error, ◌>>=◌, ◌==◌, if◌then◌else◌,
}
use transport_system.Weight.{Weight}
use transport_system.Graph.{Edge, DirectedWeightedGraph, get_vertex_count}
use transport_system.Graph.WellFormed.{IsWellFormed, get_incident_edges_in_range}
use transport_system.Router.{
  Table, cell, set_cell, is_better, no_edges, blank_table, initialize_edge, initialize_edges,
  initialize_vertex, initialize_from, relax_all, make_router,
}

module _ (W : Weight) (g : DirectedWeightedGraph W) where
  open W use {zero_weight, lt}

  pub HasNegative : Type 0
  HasNegative =
      (id : ℕ) × (e : Edge W) × (get_elem? g.edges id ≡ some e) × (lt e.weight zero_weight ≡ true)

  pub IsNonnegative : Type 0
  IsNonnegative =
      (id : ℕ) (e : Edge W) → get_elem? g.edges id ≡ some e → lt e.weight zero_weight ≡ false

module _ (W : Weight) (g : DirectedWeightedGraph W) (wf : IsWellFormed W g) where
  open W use {zero_weight, lt}

  abbrev n : ℕ
  n = get_vertex_count W g

  abbrev Nonneg : ℕ → Type 0
  Nonneg v =
      (id : ℕ) (e : Edge W)
      → get_elem? g.edges id ≡ some e
      → e.from ≡ v
      → lt e.weight zero_weight ≡ false

  -- The run ends with a table, and `P` holds, or it throws because of a negative edge.
  abbrev Ends : Type 0 → Result (Table W) → Type 0
  Ends P r = ((t : Table W) × (r ≡ ok t) × P) ⊎ (r ≡ throw domain_error) × HasNegative W g

  Ends-bind :
      {P Q : Type 0} (r : Result (Table W)) (f : Table W → Result (Table W))
      → Ends P r
      → ((t : Table W) → P → Ends Q (f t))
      → Ends Q (r >>= f)
  Ends-bind r f (inl (t, e, p)) k = rw e (k t p)
  Ends-bind r f (inr (e, negative)) k = inr (rw e refl, negative)

  initialize_edge-Ends :
      (v id : ℕ) (e : Edge W) (t : Table W)
      → get_elem? g.edges id ≡ some e
      → Ends (lt e.weight zero_weight ≡ false) (initialize_edge W g v id t)
  unfolding initialize_edge HasNegative
  initialize_edge-Ends v id e t found =
      rw (found, initialize_edge)
        (elim (Bool-cases (lt e.weight zero_weight)) [
          | inl h ↦ inr (rw h refl, (id, e, found, h))
          | inr h ↦ inl (
            if is_better W e.weight (cell W t v e.to)
                then set_cell W t v e.to (some (record { weight = e.weight; prev_edge = some id }))
                else t,
            rw h refl,
            h,
          )
        ])

  initialize_edges-Ends :
      (v : ℕ) (ids : List ℕ) (t : Table W)
      → ((id : ℕ) → Memᴰ id ids → (e : Edge W) × (get_elem? g.edges id ≡ some e) × (e.from ≡ v))
      → Ends
          ((id : ℕ) (e : Edge W)
            → Memᴰ id ids
            → get_elem? g.edges id ≡ some e
            → lt e.weight zero_weight ≡ false)
          (initialize_edges W g v ids t)
  unfolding initialize_edges
  initialize_edges-Ends v [] t leave = inl (t, refl, λ id e m. absurd (Memᴰ.not-nil m))
  initialize_edges-Ends v (id ∷ ids) t leave =
      let (e, found, from) = leave id (Memᴰ.head refl) in
      Ends-bind (initialize_edge W g v id t) (initialize_edges W g v ids)
        (initialize_edge-Ends v id e t found)
        λ t' first. elim (initialize_edges-Ends v ids t' (λ k m. leave k (Memᴰ.tail m))) [
          | inl (u, run, rest) ↦ inl (
            u,
            run,
            λ k x m found'. elim (Memᴰ.cases_cons m) [
              | inl same ↦
                  let one : e ≡ x = cc (found, found', same) in
                  subst (λ y. lt y.weight zero_weight ≡ false) one first
              | inr later ↦ rest k x later found'
            ],
          )
          | inr failed ↦ inr failed
        ]

  initialize_vertex-Ends :
      (v : ℕ) (t : Table W) → v < n → Ends (Nonneg v) (initialize_vertex W g v t)
  unfolding initialize_vertex
  initialize_vertex-Ends v t h =
      rw (get_incident_edges_in_range W g v h)
        (elim (initialize_edges-Ends v (get_or g.incidence_lists v [])
          (set_cell W t v v (some (no_edges W))) (λ id. wf.leaves id v)) [
            | inl (u, run, rest) ↦ inl (
              u,
              run,
              λ id e found from.
                  rest id e
                    (subst (λ x. Memᴰ id (get_or g.incidence_lists x [])) from
                      (wf.listed id e found))
                    found,
            )
            | inr failed ↦ inr failed
          ])

  initialize_from-Ends :
      (rounds v : ℕ) (t : Table W)
      → rounds + v ≡ n
      → Ends ((i : ℕ) → v ≤ i → i < n → Nonneg i) (initialize_from W g rounds v t)
  unfolding initialize_from
  initialize_from-Ends zero v t e = inl (t, refl, λ i above below. absurd (omega arith))
  initialize_from-Ends (suc rounds) v t e =
      Ends-bind (initialize_vertex W g v t) (initialize_from W g rounds (suc v))
        (initialize_vertex-Ends v t (omega arith))
        λ t' first. elim (initialize_from-Ends rounds (suc v) t' (omega arith)) [
          | inl (u, run, rest) ↦ inl (
            u,
            run,
            λ i above below. elim (Bool-cases (i == v)) [
              | inl same ↦ let at : v ≡ i = ground arith in subst Nonneg at first
              | inr other ↦ rest i (ground arith) below
            ],
          )
          | inr failed ↦ inr failed
        ]

-- The constructor makes a table exactly when no edge has a negative weight: on a well-formed
-- graph it either returns, and all weights are non-negative, or it throws std::domain_error, and
-- some edge has a negative weight.
pub make_router_decides :
    (W : Weight) (g : DirectedWeightedGraph W)
    → IsWellFormed W g
    → ((t : Table W) × (make_router W g ≡ ok t) × IsNonnegative W g)
      ⊎ (make_router W g ≡ throw domain_error) × HasNegative W g
unfolding make_router IsNonnegative
make_router_decides W g wf =
    elim (initialize_from-Ends W g wf (get_vertex_count W g) 0
      (blank_table W (get_vertex_count W g)) (omega arith)) [
        | inl (u, run, rest) ↦ inl (
          relax_all W (get_vertex_count W g) (get_vertex_count W g) 0 u,
          rw run refl,
          λ id e found. rest e.from (omega arith) (wf.from_in_range id e found) id e found refl,
        )
        | inr (run, negative) ↦ inr (rw run refl, negative)
      ]
