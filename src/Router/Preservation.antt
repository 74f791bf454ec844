-- ===== src/Router/Preservation.antt =====
-- The invariant of the routes and one phase of the constructor of TransportSystem/router.h.
use transport_system.Prelude.{
  ℕ, suc, ◌+◌, ◌<◌, ◌≡◌, refl, sym, subst, true, false, Option, none, some, List, ◌⊎◌, inl, inr,
  Bool-cases, Option-cases, arith, ◌==◌, get_elem?, if◌then◌else◌, ◌++◌,
}
use transport_system.Weight.{Weight, IsOrdered}
use transport_system.Weight.Extended.{
  add, improves, AtMost, AtMost-refl, AtMost-trans, improves→AtMost, improves_of_AtMost,
  improves_then_AtMost, add_assoc, add-zero, zero-add, add_left_mono, add_right_mono, add_improves,
  add_nonneg, nonneg_add,
}
use transport_system.Graph.{Edge, DirectedWeightedGraph, get_vertex_count}
use transport_system.Graph.WellFormed.{IsWellFormed}
use transport_system.Router.{RouteInternalData, last_edge}
use transport_system.Router.Walks.{Walk, Walk-append}
use transport_system.Router.Phase.{Cells, joined, relaxed}
use transport_system.Router.Detour.{
  weights, detour, shortens, IsShortened, relaxed-shorter, relaxed-kept, weights-relaxed,
}
use transport_system.Router.Invariant.{IsLast, Inv}

module _ (W : Weight) (O : IsOrdered W) (g : DirectedWeightedGraph W) (wf : IsWellFormed W g)
    (k bound : ℕ) (c : Cells W) (rank : ℕ → ℕ → ℕ) (inv : Inv W O g wf k bound c rank)
    (k_lt : k < get_vertex_count W g) where
  open W use {Carrier, zero_weight, plus, lt}

  abbrev pub w : ℕ → ℕ → Option Carrier
  w = weights W c

  abbrev pub c' : Cells W
  c' = relaxed W k c

  abbrev pub w' : ℕ → ℕ → Option Carrier
  w' = weights W c'

  abbrev pub via : ℕ → ℕ → Option Carrier
  via = detour W k c

  abbrev pub rank' : ℕ → ℕ → ℕ
  rank' i j = if shortens W k c i j then bound + rank k j else rank i j

  shrinks : (i j : ℕ) → AtMost W (w' i j) (w i j)
  shrinks i j = elim (Bool-cases (shortens W k c i j)) [
    | inl h ↦ rw (weights-relaxed W k c i j, h) (improves→AtMost W O (via i j) (w i j) h)
    | inr h ↦ rw (weights-relaxed W k c i j, h) (AtMost-refl W O (w i j))
  ]

  through : (i j : ℕ) → AtMost W (w' i j) (via i j)
  through i j = elim (Bool-cases (shortens W k c i j)) [
    | inl h ↦ rw (weights-relaxed W k c i j, h) (AtMost-refl W O (via i j))
    | inr h ↦ rw (weights-relaxed W k c i j, h) h
  ]

  w_k : w k k ≡ some zero_weight
  w_k = rw (inv.diagonal k k_lt) refl

  -- Neither the row nor the column of `k` is shortened.
  column_kept : (i : ℕ) → shortens W k c i k ≡ false
  column_kept i = rw (w_k, add-zero W O (w i k)) (AtMost-refl W O (w i k))

  new_diagonal : (v : ℕ) → v < get_vertex_count W g → shortens W k c v v ≡ false
  new_diagonal v h = rw (inv.diagonal v h) (
      AtMost-trans W O (some zero_weight) (w v k) (via v v) (inv.nonneg v k)
        (add_nonneg W O (w v k) (w k v) (inv.nonneg k v)))

  Improved→rank : (i j : ℕ) → shortens W k c i j ≡ true → rank' i j ≡ bound + rank k j
  Improved→rank i j h = rw h refl

  new_nonneg : (i j : ℕ) → AtMost W (some zero_weight) (w' i j)
  new_nonneg i j = elim (Bool-cases (shortens W k c i j)) [
    | inl h ↦
        rw (weights-relaxed W k c i j, h)
          (AtMost-trans W O (some zero_weight) (w i k) (via i j) (inv.nonneg i k)
            (add_nonneg W O (w i k) (w k j) (inv.nonneg k j)))
    | inr h ↦ rw (weights-relaxed W k c i j, h) (inv.nonneg i j)
  ]

  new_walks :
      (i j : ℕ) (d : RouteInternalData W)
      → c' i j ≡ some d
      → (ids : List ℕ) × Walk W g i ids j d.weight
  new_walks i j d e = elim (Bool-cases (shortens W k c i j)) [
    | inl h ↦
        let s = relaxed-shorter W k c i j h in
        let (p, first) = inv.walks i k s.first s.to_k in
        let (q, second) = inv.walks k j s.second s.from_k in
        let whole : joined W s.first s.second ≡ d = cc (s.result, e) in
        (
          p ++ q,
          subst (λ x. Walk W g i (p ++ q) j x.weight) whole (Walk-append W O g i first second),
        )
    | inr h ↦ inv.walks i j d (cc (relaxed-kept W k c i j h, e))
  ]

  -- A shortened route has the last edge of its second half.
  second_last :
      (i j : ℕ) (h : shortens W k c i j ≡ true)
      → (id : ℕ) × ((relaxed-shorter W k c i j h).second.prev_edge ≡ some id)
  second_last i j h = elim (Option-cases s.second.prev_edge) [
    | inl e ↦
        let loop : k ≡ j = inv.no_last k j s.second s.from_k e in
        let still : shortens W k c i k ≡ true =
          subst (λ x. shortens W k c i x ≡ true) (sym loop) h in
        cc (still, column_kept i)
    | inr (id, e) ↦ (id, e)
  ]
    where
      s : IsShortened W k c i j
      s = relaxed-shorter W k c i j h

  new_no_last : (i j : ℕ) (d : RouteInternalData W) → c' i j ≡ some d → d.prev_edge ≡ none → i ≡ j
  new_no_last i j d e q = elim (Bool-cases (shortens W k c i j)) [
    | inl h ↦
        let s = relaxed-shorter W k c i j h in
        let (id, last) = second_last i j h in
        let whole : joined W s.first s.second ≡ d = cc (s.result, e) in
        let gone : last_edge W s.first s.second ≡ none = cc (whole, q) in absurd (ground arith)
    | inr h ↦ inv.no_last i j d (cc (relaxed-kept W k c i j h, e)) q
  ]

  -- If the route to the last edge is shortened, so is the route along it.
  kept_back :
      (i j id : ℕ) (e : Edge W)
      → get_elem? g.edges id ≡ some e
      → e.to ≡ j
      → AtMost W (add W (w i e.from) (some e.weight)) (w i j)
      → (e.from ≡ i) ⊎ (e.from < k)
      → shortens W k c i e.from ≡ true
      → shortens W k c i j ≡ true
  kept_back i j id e found ends along (inl at_source) h =
      let i_lt : i < get_vertex_count W g =
        subst (λ x. x < get_vertex_count W g) at_source (wf.from_in_range id e found) in
      let loop : shortens W k c i i ≡ true = subst (λ x. shortens W k c i x ≡ true) at_source h in
      cc (loop, new_diagonal i i_lt)
  kept_back i j id e found ends along (inr below) h =
      let edge : AtMost W (w e.from j) (some e.weight) =
        subst (λ x. AtMost W (w e.from x) (some e.weight)) ends (inv.edges id e found) in
      let tail_le : AtMost W (w k j) (add W (w k e.from) (some e.weight)) =
        AtMost-trans W O (w k j) (add W (w k e.from) (w e.from j))
          (add W (w k e.from) (some e.weight)) (inv.closed e.from k j below)
          (add_left_mono W O (w k e.from) (w e.from j) (some e.weight) edge) in
      let whole : AtMost W (via i j) (add W (via i e.from) (some e.weight)) =
        rw (add_assoc W O (w i k) (w k e.from) (some e.weight))
          (add_left_mono W O (w i k) (w k j) (add W (w k e.from) (some e.weight)) tail_le) in
      let strict : improves W (via i j) (add W (w i e.from) (some e.weight)) ≡ true =
        improves_of_AtMost W O (via i j) (add W (via i e.from) (some e.weight))
          (add W (w i e.from) (some e.weight)) whole
          (add_improves W O (via i e.from) (w i e.from) e.weight h) in
      improves_then_AtMost W O (via i j) (add W (w i e.from) (some e.weight)) (w i j) strict along

  IsLast-shortened :
      (i j id : ℕ) (h : shortens W k c i j ≡ true)
      → IsLast W O g wf k c rank k j id
      → IsLast W O g wf (suc k) c' rank' i j id
  IsLast-shortened i j id h l = record {
    edge = l.edge;
    found = l.found;
    ends = l.ends;
    weight =
        let u = l.edge.from in
        let x = some l.edge.weight in
        rw (weights-relaxed W k c i j, h)
          (AtMost-trans W O (add W (w' i u) x) (add W (via i u) x) (via i j)
            (add_right_mono W O (w' i u) (via i u) x (through i u))
            (rw (add_assoc W O (w i k) (w k u) x)
              (add_left_mono W O (w i k) (add W (w k u) x) (w k j) l.weight)));
    interior = inr (elim l.interior [ inl e ↦ omega arith | inr e ↦ omega arith ]);
    falls = ground (arith, inv.bounded i l.edge.from, l.falls);
  }

  IsLast-kept :
      (i j id : ℕ) (h : shortens W k c i j ≡ false)
      → IsLast W O g wf k c rank i j id
      → IsLast W O g wf (suc k) c' rank' i j id
  IsLast-kept i j id h l = record {
    edge = l.edge;
    found = l.found;
    ends = l.ends;
    weight =
        let u = l.edge.from in
        let x = some l.edge.weight in
        rw (weights-relaxed W k c i j, h)
          (AtMost-trans W O (add W (w' i u) x) (add W (w i u) x) (w i j)
            (add_right_mono W O (w' i u) (w i u) x (shrinks i u)) l.weight);
    interior = elim l.interior [ inl e ↦ inl e | inr e ↦ inr (omega arith) ];
    falls = elim (Bool-cases (shortens W k c i l.edge.from)) [
      | inl shorter ↦ cc (kept_back i j id l.edge l.found l.ends l.weight l.interior shorter, h)
      | inr kept ↦ rw (h, kept) l.falls
    ];
  }

  new-IsLast :
      (i j id : ℕ) (d : RouteInternalData W)
      → c' i j ≡ some d
      → d.prev_edge ≡ some id
      → IsLast W O g wf (suc k) c' rank' i j id
  new-IsLast i j id d e q = elim (Bool-cases (shortens W k c i j)) [
    | inl h ↦
        let s = relaxed-shorter W k c i j h in
        let (id', found) = second_last i j h in
        let whole : joined W s.first s.second ≡ d = cc (s.result, e) in
        let kept : last_edge W s.first s.second ≡ some id = cc (whole, q) in
        let same : id' ≡ id = ground arith in
        IsLast-shortened i j id h
          (inv.last k j id s.second s.from_k (subst (λ x. s.second.prev_edge ≡ some x) same found))
    | inr h ↦ IsLast-kept i j id h (inv.last i j id d (cc (relaxed-kept W k c i j h, e)) q)
  ]

  -- The route through `k` is no longer than one through `m` and `k` in any order.
  detour_le :
      (m i j : ℕ)
      → m < k
      → AtMost W (via i j) (add W (w' i m) (w' m j)) ⊎ AtMost W (w i j) (add W (w' i m) (w' m j))
  detour_le m i j h = elim (Bool-cases (shortens W k c i m)) [
    | inl p ↦ elim (Bool-cases (shortens W k c m j)) [
      | inl q ↦ inl (
          rw
            (
              weights-relaxed W k c i m,
              weights-relaxed W k c m j,
              p,
              q,
              add_assoc W O (w i k) (w k m) (via m j),
            )
            (add_left_mono W O (w i k) (w k j) (add W (w k m) (via m j)) (
              AtMost-trans W O (w k j) (via m j) (add W (w k m) (via m j))
                (nonneg_add W O (w k j) (w m k) (inv.nonneg m k))
                (nonneg_add W O (via m j) (w k m) (inv.nonneg k m)))))
      | inr q ↦ inl (
          rw
            (
              weights-relaxed W k c i m,
              weights-relaxed W k c m j,
              p,
              q,
              add_assoc W O (w i k) (w k m) (w m j),
            )
            (add_left_mono W O (w i k) (w k j) (add W (w k m) (w m j)) (inv.closed m k j h)))
    ]
    | inr p ↦ elim (Bool-cases (shortens W k c m j)) [
      | inl q ↦ inl (
          rw
            (
              weights-relaxed W k c i m,
              weights-relaxed W k c m j,
              p,
              q,
              sym (add_assoc W O (w i m) (w m k) (w k j)),
            )
            (add_right_mono W O (w i k) (add W (w i m) (w m k)) (w k j) (inv.closed m i k h)))
      | inr q ↦
          inr (rw (weights-relaxed W k c i m, weights-relaxed W k c m j, p, q) (inv.closed m i j h))
    ]
  ]

  new_closed_below : (m i j : ℕ) → m < k → AtMost W (w' i j) (add W (w' i m) (w' m j))
  new_closed_below m i j h = elim (detour_le m i j h) [
    | inl p ↦ AtMost-trans W O (w' i j) (via i j) (add W (w' i m) (w' m j)) (through i j) p
    | inr p ↦ AtMost-trans W O (w' i j) (w i j) (add W (w' i m) (w' m j)) (shrinks i j) p
  ]

  row_kept : (j : ℕ) → shortens W k c k j ≡ false
  row_kept j = rw (w_k, zero-add W O (w k j)) (AtMost-refl W O (w k j))

  new_closed_at : (i j : ℕ) → AtMost W (w' i j) (add W (w' i k) (w' k j))
  new_closed_at i j =
      rw (weights-relaxed W k c i k, weights-relaxed W k c k j, column_kept i, row_kept j)
        (through i j)

  -- After the phase of `k` the invariant holds with vertices up to `k`.
  pub relaxed-Inv : Inv W O g wf (suc k) (bound + bound) c' rank'
  relaxed-Inv = record {
    diagonal = λ v h. rw (relaxed-kept W k c v v (new_diagonal v h)) (inv.diagonal v h);
    nonneg = new_nonneg;
    walks = new_walks;
    edges = λ id e found.
        AtMost-trans W O (w' e.from e.to) (w e.from e.to) (some e.weight) (shrinks e.from e.to)
          (inv.edges id e found);
    closed = λ m i j h. elim (Bool-cases (m == k)) [
      | inl same ↦
          let at : k ≡ m = ground arith in
          subst (λ x. AtMost W (w' i j) (add W (w' i x) (w' x j))) at (new_closed_at i j)
      | inr other ↦ new_closed_below m i j (ground arith)
    ];
    no_last = new_no_last;
    last = new-IsLast;
    bounded = λ i j. ground (arith, inv.bounded i j, inv.bounded k j);
  }
