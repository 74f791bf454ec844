-- ===== src/Graph/Building.antt =====
-- What `DirectedWeightedGraph` of TransportSystem/graph.h builds.
use mathlib.Core.List.{Memᴰ}
use mathlib.Core.List.Memᴰ
use transport_system.Prelude.{
  ℕ, ◌≤◌, ◌<◌, ◌≡◌, refl, sym, ◌∙◌, subst, [], ◌∷◌, ◌++◌, inl, inr, Bool-cases, arith, ◌==◌, length,
  length-append, length-set, length-replicate, get_or, set, get_or-set, get_or-replicate,
  get_elem?-append_left, get_elem?-concat, get_elem?-concat_cases, ok, throw, out_of_range, false,
  if◌then◌else◌, ltb,
}
use transport_system.Weight.{Weight}
use transport_system.Graph.{
  Edge, DirectedWeightedGraph, with_vertex_count, get_vertex_count, get_edge_count, get_edge,
  add_edge,
}
use transport_system.Graph.WellFormed.{IsWellFormed, get_edge_found}

module _ (W : Weight) where
  -- A new graph has the given number of vertices and is well formed.
  pub with_vertex_count-IsWellFormed :
      (n : ℕ)
      → (get_vertex_count W (with_vertex_count W n) ≡ n) × IsWellFormed W (with_vertex_count W n)
  unfolding with_vertex_count get_vertex_count
  with_vertex_count-IsWellFormed n = (
    length-replicate n [],
    record {
      from_in_range = λ id e h. cc;
      to_in_range = λ id e h. cc;
      listed = λ id e h. cc;
      leaves = λ id v m. absurd (Memᴰ.not-nil (subst (Memᴰ id) (get_or-replicate n v []) m));
    },
  )

  module _ (e : Edge W) (g : DirectedWeightedGraph W) (wf : IsWellFormed W g)
      (from_lt : e.from < get_vertex_count W g) (to_lt : e.to < get_vertex_count W g) where
    abbrev grown : DirectedWeightedGraph W
    grown = record {
      edges = g.edges ++ e ∷ [];
      incidence_lists =
          set g.incidence_lists e.from (get_or g.incidence_lists e.from [] ++ length g.edges ∷ []);
    }

    add_edge-grown : add_edge W e g ≡ (grown, ok (length g.edges))
    unfolding add_edge get_vertex_count
    add_edge-grown = ground (arith, length-append g.edges (e ∷ []))

    same_count : get_vertex_count W grown ≡ get_vertex_count W g
    unfolding get_vertex_count
    same_count = length-set g.incidence_lists e.from _

    row :
        (v : ℕ)
        → get_or grown.incidence_lists v [] ≡ (
            if e.from == v
            then get_or g.incidence_lists e.from [] ++ length g.edges ∷ []
            else get_or g.incidence_lists v [])
    unfolding get_vertex_count
    row v = get_or-set g.incidence_lists e.from v _ [] from_lt

    row_self :
        get_or grown.incidence_lists e.from []
        ≡ get_or g.incidence_lists e.from [] ++ length g.edges ∷ []
    row_self = ground (arith, row e.from)

    row_other :
        (v : ℕ)
        → (e.from == v) ≡ false
        → get_or grown.incidence_lists v [] ≡ get_or g.incidence_lists v []
    row_other v h = ground (arith, row v)

    -- An id of a row of the new graph is the new one or was there.
    listed_later :
        (id v : ℕ)
        → Memᴰ id (get_or g.incidence_lists v [])
        → Memᴰ id (get_or grown.incidence_lists v [])
    listed_later id v m = rw (row v) (elim (Bool-cases (e.from == v)) [
      | inl same ↦
          let at : v ≡ e.from = ground arith in
          rw same (Memᴰ.append_left _ (subst (λ x. Memᴰ id (get_or g.incidence_lists x [])) at m))
      | inr other ↦ rw other m
    ])

    grown-IsWellFormed : IsWellFormed W grown
    grown-IsWellFormed = record {
      from_in_range = λ id x h. rw same_count (elim (get_elem?-concat_cases g.edges e id h) [
        | inl old ↦ wf.from_in_range id x old
        | inr (_, new) ↦ rw new from_lt
      ]);
      to_in_range = λ id x h. rw same_count (elim (get_elem?-concat_cases g.edges e id h) [
        | inl old ↦ wf.to_in_range id x old
        | inr (_, new) ↦ rw new to_lt
      ]);
      listed = λ id x h. elim (get_elem?-concat_cases g.edges e id h) [
        | inl old ↦ listed_later id x.from (wf.listed id x old)
        | inr (last, new) ↦
            rw (new, last, row_self)
              (Memᴰ.append_right (get_or g.incidence_lists e.from []) (Memᴰ.head refl))
      ];
      leaves = λ id v m. elim (Bool-cases (e.from == v)) [
        | inl same ↦
            let at : e.from ≡ v = ground arith in
            elim (Memᴰ.append_cases (get_or g.incidence_lists e.from []) (
              subst (Memᴰ id) row_self
                (subst (λ x. Memᴰ id (get_or grown.incidence_lists x [])) (sym at) m))) [
                  | inl old ↦
                      let (x, found, from) = wf.leaves id e.from old in
                      (x, get_elem?-append_left g.edges (e ∷ []) id found, from ∙ at)
                  | inr new ↦ (e, rw (Memᴰ.eq_of_singleton new) (get_elem?-concat g.edges e), at)
                ]
        | inr other ↦
            let (x, found, from) = wf.leaves id v (subst (Memᴰ id) (row_other v other) m) in
            (x, get_elem?-append_left g.edges (e ∷ []) id found, from)
      ];
    }

    -- Adding an edge between two vertices keeps the graph well formed and its vertices, and the
    -- returned number finds the edge.
    pub add_edge-IsWellFormed :
        let (g', r) = add_edge W e g in
        IsWellFormed W g'
        × (get_vertex_count W g' ≡ get_vertex_count W g)
        × (id : ℕ) × (r ≡ ok id)
        × (get_edge W g' id ≡ ok e)
    add_edge-IsWellFormed = rw add_edge-grown (
      grown-IsWellFormed,
      same_count,
      length g.edges,
      refl,
      get_edge_found W grown (length g.edges) e (get_elem?-concat g.edges e),
    )

  -- An edge from no vertex: AddEdge throws std::out_of_range, and the edge stays in the graph,
  -- which is well formed no more.
  pub add_edge_out_of_range :
      (e : Edge W) (g : DirectedWeightedGraph W)
      → get_vertex_count W g ≤ e.from
      → let (g', r) = add_edge W e g in
        (r ≡ throw out_of_range) × (get_edge W g' (get_edge_count W g) ≡ ok e) × ¬ IsWellFormed W g'
  unfolding add_edge get_vertex_count get_edge_count get_edge
  add_edge_out_of_range e g h =
      rw (outside, get_elem?-concat g.edges e)
        (
          refl,
          refl,
          λ wf. omega (arith, wf.from_in_range (length g.edges) e (get_elem?-concat g.edges e)),
        )
    where
      outside : ltb e.from (length g.incidence_lists) ≡ false
      outside = ground arith
