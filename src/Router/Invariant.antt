-- ===== src/Router/Invariant.antt =====
-- What holds of the routes after the phases below `k`: they are walks, they are as short as any
-- that passes through vertices below `k` alone, and `prev_edge` leads back along them.
use transport_system.Prelude.{ℕ, ◌<◌, ◌≡◌, none, some, List, ◌⊎◌, get_elem?}
use transport_system.Weight.{Weight, IsOrdered}
use transport_system.Weight.Extended.{add, AtMost}
use transport_system.Graph.{Edge, DirectedWeightedGraph, get_vertex_count}
use transport_system.Graph.WellFormed.{IsWellFormed}
use transport_system.Router.{RouteInternalData, no_edges}
use transport_system.Router.Walks.{Walk}
use transport_system.Router.Phase.{Cells}
use transport_system.Router.Detour.{weights}

module _ (W : Weight) (O : IsOrdered W) (g : DirectedWeightedGraph W) (wf : IsWellFormed W g) where
  open W use {Carrier, zero_weight, plus, lt}

  -- The edge `id` is the last of a route from `i` to `j`, after a route that has a smaller rank.
  pub record IsLast (k : ℕ) (c : Cells W) (rank : ℕ → ℕ → ℕ) (i j id : ℕ) : Type 0 where
    pub edge : Edge W
    pub found : get_elem? g.edges id ≡ some edge
    pub ends : edge.to ≡ j
    pub weight : AtMost W (add W (weights W c i edge.from) (some edge.weight)) (weights W c i j)
    pub interior : (edge.from ≡ i) ⊎ (edge.from < k)
    pub falls : rank i edge.from < rank i j

  pub record Inv (k bound : ℕ) (c : Cells W) (rank : ℕ → ℕ → ℕ) : Type 0 where
    pub diagonal : (v : ℕ) → v < get_vertex_count W g → c v v ≡ some (no_edges W)
    pub nonneg : (i j : ℕ) → AtMost W (some zero_weight) (weights W c i j)
    pub walks :
        (i j : ℕ) (d : RouteInternalData W)
        → c i j ≡ some d
        → (ids : List ℕ) × Walk W g i ids j d.weight
    pub edges :
        (id : ℕ) (e : Edge W)
        → get_elem? g.edges id ≡ some e
        → AtMost W (weights W c e.from e.to) (some e.weight)
    pub closed :
        (m i j : ℕ) → m < k → AtMost W (weights W c i j) (add W (weights W c i m) (weights W c m j))
    pub no_last : (i j : ℕ) (d : RouteInternalData W) → c i j ≡ some d → d.prev_edge ≡ none → i ≡ j
    pub last :
        (i j id : ℕ) (d : RouteInternalData W)
        → c i j ≡ some d
        → d.prev_edge ≡ some id
        → IsLast k c rank i j id
    pub bounded : (i j : ℕ) → rank i j < bound
