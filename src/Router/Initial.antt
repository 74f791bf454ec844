-- ===== src/Router/Initial.antt =====
-- `InitializeRoutesInternalData` of TransportSystem/router.h: the routes of at most one edge.
use mathlib.Core.List.{Memᴰ}
use mathlib.Core.List.Memᴰ
use transport_system.Prelude.{
  ℕ, zero, suc, ◌+◌, ◌<◌, ◌≡◌, ◌≢◌, refl, sym, subst, ◌∙◌, ◌&&◌, true, false, some, List, [], ◌∷◌,
  ◌⊎◌, inl, inr, Bool-cases, arith, get_elem?, get_or, ok, >>=-eq-ok, ◌==◌,
}
use transport_system.Weight.{Weight, IsOrdered}
use transport_system.Weight.Extended.{AtMost, AtMost-refl, AtMost-trans, improves→AtMost}
use transport_system.Graph.{Edge, DirectedWeightedGraph, get_incident_edges, get_vertex_count}
use transport_system.Graph.WellFormed.{IsWellFormed, get_incident_edges_row}
use transport_system.Router.{
  RouteInternalData, Table, cell, set_cell, is_better, no_edges, initialize_edge, initialize_edges,
  initialize_vertex, initialize_from,
}
use transport_system.Router.Table.{IsSquare, set_cell-IsSquare, cell-set_cell_cases}
use transport_system.Router.Walks.{dist, is_better-improves}

module _ (W : Weight) (O : IsOrdered W) (g : DirectedWeightedGraph W) where
  open W use {Carrier, zero_weight, lt}

  -- A cell holds the empty route or one edge.
  pub data Origin (i j : ℕ) (d : RouteInternalData W) : Type 0 where
    empty : i ≡ j → d ≡ no_edges W → Origin i j d
    single :
        (id : ℕ) (e : Edge W)
        → get_elem? g.edges id ≡ some e
        → e.from ≡ i
        → e.to ≡ j
        → lt e.weight zero_weight ≡ false
        → d ≡ record { weight = e.weight; prev_edge = some id }
        → Origin i j d

  abbrev pub HasOrigins : Table W → Type 0
  HasOrigins t = (i j : ℕ) (d : RouteInternalData W) → cell W t i j ≡ some d → Origin i j d

  -- What happens to the table while the edges that leave `v` are entered.
  pub record Enters (n v : ℕ) (t t' : Table W) : Type 0 where
    pub square : IsSquare W n t → IsSquare W n t'
    pub others : (i j : ℕ) → i ≢ v → cell W t' i j ≡ cell W t i j
    pub lower : (i j : ℕ) → AtMost W (dist W t' i j) (dist W t i j)
    pub diagonal : cell W t v v ≡ some (no_edges W) → cell W t' v v ≡ some (no_edges W)
    pub origins : HasOrigins t → HasOrigins t'

  Enters-refl : (n v : ℕ) (t : Table W) → Enters n v t t
  Enters-refl n v t = record {
    square = λ s. s;
    others = λ i j h. refl;
    lower = λ i j. AtMost-refl W O (dist W t i j);
    diagonal = λ h. h;
    origins = λ h. h;
  }

  Enters-trans : (n v : ℕ) (t u w : Table W) → Enters n v t u → Enters n v u w → Enters n v t w
  Enters-trans n v t u w a b = record {
    square = λ s. b.square (a.square s);
    others = λ i j h. cc (a.others i j h, b.others i j h);
    lower = λ i j.
        AtMost-trans W O (dist W w i j) (dist W u i j) (dist W t i j) (b.lower i j) (a.lower i j);
    diagonal = λ h. b.diagonal (a.diagonal h);
    origins = λ h. b.origins (a.origins h);
  }

  module _ (n v id : ℕ) (e : Edge W) (found : get_elem? g.edges id ≡ some e) (from : e.from ≡ v)
      (v_lt : v < n) (to_lt : e.to < n) (nonneg : lt e.weight zero_weight ≡ false) (t : Table W)
      (s : IsSquare W n t) where
    abbrev entry : RouteInternalData W
    entry = record { weight = e.weight; prev_edge = some id }

    abbrev written : Table W
    written = set_cell W t v e.to (some entry)

    seen :
        (k l : ℕ)
        → ((v ≡ k) × (e.to ≡ l) × (cell W written k l ≡ some entry))
          ⊎ ((v == k && e.to == l) ≡ false) × (cell W written k l ≡ cell W t k l)
    seen k l = cell-set_cell_cases W n t v e.to (some entry) k l v_lt to_lt s

    -- A loop is no improvement on the empty route.
    written-diagonal :
        is_better W e.weight (cell W t v e.to) ≡ true
        → cell W t v v ≡ some (no_edges W)
        → cell W written v v ≡ some (no_edges W)
    written-diagonal better h = elim (seen v v) [
      | inl (_, loop, _) ↦
          let at_v : is_better W e.weight (cell W t v v) ≡ true =
            subst (λ x. is_better W e.weight (cell W t v x) ≡ true) loop better in
          let at_zero : lt e.weight zero_weight ≡ true = rw h at at_v in cc (at_zero, nonneg)
      | inr (_, same) ↦ cc (same, h)
    ]

    written-Enters : is_better W e.weight (cell W t v e.to) ≡ true → Enters n v t written
    written-Enters better = record {
      square = set_cell-IsSquare W n t v e.to (some entry) v_lt;
      others =
          λ i j h. elim (seen i j) [ inl (p, _, _) ↦ absurd (h (sym p)) | inr (_, same) ↦ same ];
      lower = λ i j. elim (seen i j) [
        | inl (p, q, new) ↦
            rw (new, ← p, ← q)
              (improves→AtMost W O (some e.weight) (dist W t v e.to)
                (rw (is_better-improves W e.weight (cell W t v e.to)) at better))
        | inr (_, same) ↦ rw same (AtMost-refl W O (dist W t i j))
      ];
      diagonal = written-diagonal better;
      origins = λ h i j d q. elim (seen i j) [
        | inl (a, b, new) ↦ single id e found (from ∙ a) b nonneg (cc)
        | inr (_, same) ↦ h i j d (sym same ∙ q)
      ];
    }

    written_covers :
        is_better W e.weight (cell W t v e.to) ≡ true
        → AtMost W (dist W written v e.to) (some e.weight)
    written_covers better = elim (seen v e.to) [
      | inl (_, _, new) ↦ rw new (AtMost-refl W O (some e.weight))
      | inr (other, _) ↦ absurd (ground arith)
    ]

  module _ (n v id : ℕ) (e : Edge W) (found : get_elem? g.edges id ≡ some e) (from : e.from ≡ v)
      (v_lt : v < n) (to_lt : e.to < n) (t t' : Table W) (s : IsSquare W n t) where
    initialize_edge_lem :
        initialize_edge W g v id t ≡ ok t'
        → (lt e.weight zero_weight ≡ false)
          × Enters n v t t'
          × AtMost W (dist W t' v e.to) (some e.weight)
    unfolding initialize_edge
    initialize_edge_lem h = elim (Bool-cases (lt e.weight zero_weight)) [
      | inl negative ↦ absurd (ground arith)
      | inr nonneg ↦ elim (Bool-cases (is_better W e.weight (cell W t v e.to))) [
        | inl better ↦
            let out : written n v id e found from v_lt to_lt nonneg t s ≡ t' = ground arith in
            (
              nonneg,
              subst (Enters n v t) out
                  (written-Enters n v id e found from v_lt to_lt nonneg t s better),
              subst (λ u. AtMost W (dist W u v e.to) (some e.weight)) out
                  (written_covers n v id e found from v_lt to_lt nonneg t s better),
            )
        | inr worse ↦
            let out : t ≡ t' = ground arith in
            (
              nonneg,
              subst (Enters n v t) out (Enters-refl n v t),
              subst (λ u. AtMost W (dist W u v e.to) (some e.weight)) out
                  (rw (is_better-improves W e.weight (cell W t v e.to)) at worse),
            )
      ]
    ]

  module _ (wf : IsWellFormed W g) where
    abbrev pub vertices : ℕ
    vertices = get_vertex_count W g

    -- What holds of the row of a vertex once its edges are entered.
    pub record IsEntered (v : ℕ) (t : Table W) : Type 0 where
      pub diagonal : cell W t v v ≡ some (no_edges W)
      pub covers :
          (id : ℕ) (e : Edge W)
          → get_elem? g.edges id ≡ some e
          → e.from ≡ v
          → AtMost W (dist W t v e.to) (some e.weight)
      pub nonneg :
          (id : ℕ) (e : Edge W)
          → get_elem? g.edges id ≡ some e
          → e.from ≡ v
          → lt e.weight zero_weight ≡ false

    -- The edges `ids` are entered into row `v`.
    abbrev Covers : ℕ → List ℕ → Table W → Type 0
    Covers v ids t =
        (id : ℕ) (e : Edge W)
        → Memᴰ id ids
        → get_elem? g.edges id ≡ some e
        → e.from ≡ v
        → (lt e.weight zero_weight ≡ false) × AtMost W (dist W t v e.to) (some e.weight)

    initialize_edges_lem :
        (v : ℕ) (ids : List ℕ) (t t' : Table W)
        → v < vertices
        → ((id : ℕ) → Memᴰ id ids → (e : Edge W) × (get_elem? g.edges id ≡ some e) × (e.from ≡ v))
        → IsSquare W vertices t
        → initialize_edges W g v ids t ≡ ok t'
        → Enters vertices v t t' × Covers v ids t'
    unfolding initialize_edges
    initialize_edges_lem v [] t t' v_lt leave s h =
        let out : t ≡ t' = ground arith in
        (
          subst (Enters vertices v t) out (Enters-refl vertices v t),
          λ id e m. absurd (Memᴰ.not-nil m),
        )
    initialize_edges_lem v (id ∷ ids) t t' v_lt leave s h =
        let (e, found, from) = leave id (Memᴰ.head refl) in
        let (u, first, rest) =
          >>=-eq-ok (initialize_edge W g v id t) (initialize_edges W g v ids) h in
        let (nonneg, enters, covered) =
          initialize_edge_lem vertices v id e found from v_lt (wf.to_in_range id e found) t u s
            first in
        let (later, covers) =
          initialize_edges_lem v ids u t' v_lt (λ k m. leave k (Memᴰ.tail m)) (enters.square s)
            rest in
        (
          Enters-trans vertices v t u t' enters later,
          λ k e' m found' from'. elim (Memᴰ.cases_cons m) [
            | inl same ↦
                let one : e ≡ e' = cc (found, found', same) in
                subst
                  (λ x.
                    (lt x.weight zero_weight ≡ false) × AtMost W (dist W t' v x.to) (some x.weight))
                  one
                  (
                    nonneg,
                    AtMost-trans W O (dist W t' v e.to) (dist W u v e.to) (some e.weight)
                        (later.lower v e.to) covered,
                  )
            | inr later_one ↦ covers k e' later_one found' from'
          ],
        )

    record IsVertexDone (v : ℕ) (t t' : Table W) : Type 0 where
      square : IsSquare W vertices t'
      origins : HasOrigins t'
      others : (i j : ℕ) → i ≢ v → cell W t' i j ≡ cell W t i j
      entered : IsEntered v t'

    module _ (v : ℕ) (v_lt : v < vertices) (t : Table W) (s : IsSquare W vertices t)
        (o : HasOrigins t) where
      abbrev started : Table W
      started = set_cell W t v v (some (no_edges W))

      started-IsSquare : IsSquare W vertices started
      started-IsSquare = set_cell-IsSquare W vertices t v v (some (no_edges W)) v_lt s

      started-cell :
          (k l : ℕ)
          → ((v ≡ k) × (v ≡ l) × (cell W started k l ≡ some (no_edges W)))
            ⊎ ((v == k && v == l) ≡ false) × (cell W started k l ≡ cell W t k l)
      started-cell k l = cell-set_cell_cases W vertices t v v (some (no_edges W)) k l v_lt v_lt s

      started-origins : HasOrigins started
      started-origins i j d q = elim (started-cell i j) [
        | inl (a, b, new) ↦ empty (cc) (cc)
        | inr (_, same) ↦ o i j d (cc)
      ]

      started-others : (i j : ℕ) → i ≢ v → cell W started i j ≡ cell W t i j
      started-others i j h = elim (started-cell i j) [
        | inl (a, _, _) ↦ absurd (h (sym a))
        | inr (_, same) ↦ same
      ]

      started-diagonal : cell W started v v ≡ some (no_edges W)
      started-diagonal = elim (started-cell v v) [
        | inl (_, _, new) ↦ new
        | inr (other, _) ↦ absurd (ground arith)
      ]

      initialize_vertex_lem :
          (t' : Table W) → initialize_vertex W g v t ≡ ok t' → IsVertexDone v t t'
      unfolding initialize_vertex
      initialize_vertex_lem t' h =
          let (ids, found, rest) =
            >>=-eq-ok (get_incident_edges W g v) (λ ids. initialize_edges W g v ids started) h in
          let row : get_or g.incidence_lists v [] ≡ ids = get_incident_edges_row W g v ids found in
          let (enters, covers) =
            initialize_edges_lem v ids started t' v_lt
              (λ id m. wf.leaves id v (subst (Memᴰ id) (sym row) m)) started-IsSquare rest in
          let cover =
            λ (id : ℕ) (e : Edge W) (f : get_elem? g.edges id ≡ some e) (from : e.from ≡ v).
              covers id e
                (subst (Memᴰ id) row
                  (subst (λ x. Memᴰ id (get_or g.incidence_lists x [])) from (wf.listed id e f)))
                f from in
          record {
            square = enters.square started-IsSquare;
            origins = enters.origins started-origins;
            others = λ i j ne. cc (enters.others i j ne, started-others i j ne);
            entered = record {
              diagonal = enters.diagonal started-diagonal;
              covers = λ id e f from. (cover id e f from).1;
              nonneg = λ id e f from. (cover id e f from).0;
            };
          }

    -- The rows of the vertices below `v` are entered.
    pub record IsInitialBelow (v : ℕ) (t : Table W) : Type 0 where
      pub square : IsSquare W vertices t
      pub origins : HasOrigins t
      pub entered : (i : ℕ) → i < v → IsEntered i t

    IsEntered-others :
        (i : ℕ) (t t' : Table W)
        → ((j : ℕ) → cell W t' i j ≡ cell W t i j)
        → IsEntered i t
        → IsEntered i t'
    IsEntered-others i t t' same h = record {
      diagonal = cc (same i, h.diagonal);
      covers = λ id e f from. rw (same e.to) (h.covers id e f from);
      nonneg = h.nonneg;
    }

    pub initialize_from_lem :
        (rounds v : ℕ) (t t' : Table W)
        → rounds + v ≡ vertices
        → IsInitialBelow v t
        → initialize_from W g rounds v t ≡ ok t'
        → IsInitialBelow vertices t'
    unfolding initialize_from
    initialize_from_lem zero v t t' e p h =
        let out : t ≡ t' = ground arith in
        let done : v ≡ vertices = omega arith in
        subst (λ u. IsInitialBelow vertices u) out (subst (λ k. IsInitialBelow k t) done p)
    initialize_from_lem (suc rounds) v t t' e p h =
        let (u, first, rest) =
          >>=-eq-ok (initialize_vertex W g v t) (initialize_from W g rounds (suc v)) h in
        let step = initialize_vertex_lem v (omega arith) t p.square p.origins u first in
        initialize_from_lem rounds (suc v) u t' (omega arith)
          (record {
            square = step.square;
            origins = step.origins;
            entered = λ i lt. elim (Bool-cases (i == v)) [
              | inl same ↦
                  let here : v ≡ i = ground arith in subst (λ k. IsEntered k u) here step.entered
              | inr other ↦
                  IsEntered-others i t u (λ j. step.others i j (ground arith))
                    (p.entered i (ground arith))
            ];
          })
          rest
