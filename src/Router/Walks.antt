-- ===== src/Router/Walks.antt =====
-- Walks through a graph as lists of edge numbers: what the table of TransportSystem/router.h is
-- measured against.
use transport_system.Prelude.{
  ℕ, ◌≡◌, refl, Option, none, some, List, [], ◌∷◌, ◌++◌, get_elem?, append_assoc, append-nil,
}
use transport_system.Weight.{Weight, IsOrdered}
use transport_system.Weight.Extended.{improves}
use transport_system.Graph.{Edge, DirectedWeightedGraph}
use transport_system.Router.{RouteInternalData, Table, cell, is_better}

module _ (W : Weight) where
  open W use {Carrier, zero_weight, plus}

  -- The edges of a walk from `source`, the vertex where it ends, and the sum of its weights.
  pub data Walk (g : DirectedWeightedGraph W) (source : ℕ) : List ℕ → ℕ → Carrier → Type 0 where
    here : Walk g source [] source zero_weight
    step :
        {ids : List ℕ} {u : ℕ} {x : Carrier}
        → Walk g source ids u x
        → (id : ℕ) (e : Edge W) → get_elem? g.edges id ≡ some e
        → e.from ≡ u
        → Walk g source (ids ++ id ∷ []) e.to (plus x e.weight)

  abbrev pub weight_of : Option (RouteInternalData W) → Option Carrier
  weight_of none = none
  weight_of (some d) = some d.weight

  -- The weight that the table holds for a pair of vertices.
  abbrev pub dist : Table W → ℕ → ℕ → Option Carrier
  dist t i j = weight_of (cell W t i j)

  pub is_better-improves :
      (x : Carrier) (d : Option (RouteInternalData W))
      → is_better W x d ≡ improves W (some x) (weight_of d)
  is_better-improves x none = refl
  is_better-improves x (some d) = refl

  pub Walk-append :
      (O : IsOrdered W) (g : DirectedWeightedGraph W) (i : ℕ) {u : ℕ} {p : List ℕ} {x : Carrier}
      {q : List ℕ} {j : ℕ} {y : Carrier}
      → Walk g i p u x
      → Walk g u q j y
      → Walk g i (p ++ q) j (plus x y)
  Walk-append O g i {p} {x = x} w here = rw (append-nil, O.plus-zero x) w
  Walk-append O g i {p} {x = x} w (step {ids} {x = y} v id e h k) =
      rw (← append_assoc p ids (id ∷ []), ← O.plus_assoc x y e.weight)
        (step (Walk-append O g i w v) id e h k)
