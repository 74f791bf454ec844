-- ===== src/TransportRouter/Saving.antt =====
-- What TransportSystem/transport_router.cpp saves is compared with what it reads back.
pub mod Routes
pub mod Trips
pub mod Vertices
pub mod Members
pub mod RoundTrip
use transport_system.Prelude.{ℕ, ◌<◌, ◌≡◌, refl, Option, none, some, List, [], ◌∷◌, map, arith}
use transport_system.Weight.{Weight}
use transport_system.Graph.{Edge, DirectedWeightedGraph}
use transport_system.Router.{RouteInternalData, Table}
use transport_system.TransportRouter.Proto.{
  uint32, save_edge, save_edges, save_lists, save_graph, save_data, save_row, save_router,
  load_edges, load_graph, load_data, load_row, load_router,
}

abbrev pub IsUint32 : ℕ → Type 0
IsUint32 n = n < 4294967296

uint32-same : (n : ℕ) → IsUint32 n → uint32 n ≡ n
uint32-same n h = omega arith

abbrev pub AreUint32 : List ℕ → Type 0
AreUint32 [] = Unit
AreUint32 (n ∷ ns) = IsUint32 n × AreUint32 ns

map-uint32 : (ns : List ℕ) → AreUint32 ns → map uint32 ns ≡ ns
map-uint32 [] h = refl
map-uint32 (n ∷ ns) h = rw (uint32-same n h.0, map-uint32 ns h.1) refl

abbrev pub RowsAreUint32 : List (List ℕ) → Type 0
RowsAreUint32 [] = Unit
RowsAreUint32 (ns ∷ rows) = AreUint32 ns × RowsAreUint32 rows

module _ (W : Weight) where
  -- The ids of the last edges fit the messages.
  abbrev pub Fits : Option (RouteInternalData W) → Type 0
  Fits none = Unit
  Fits (some d) = elim d.prev_edge [ none ↦ Unit | some id ↦ IsUint32 id ]

  abbrev pub RowFits : List (Option (RouteInternalData W)) → Type 0
  RowFits [] = Unit
  RowFits (d ∷ row) = Fits d × RowFits row

  abbrev pub TableFits : Table W → Type 0
  TableFits [] = Unit
  TableFits (row ∷ table) = RowFits row × TableFits table

  load_data-save_some :
      (w : W.Carrier) (prev : Option ℕ)
      → Fits (some (record { weight = w; prev_edge = prev }))
      → load_data W (save_data W (some (record { weight = w; prev_edge = prev })))
        ≡ some (record { weight = w; prev_edge = prev })
  unfolding load_data save_data
  load_data-save_some w none k = refl
  load_data-save_some w (some id) k = rw (uint32-same id k) refl

  load_data-save_data :
      (d : Option (RouteInternalData W)) → Fits d → load_data W (save_data W d) ≡ d
  unfolding load_data save_data
  load_data-save_data none h = refl
  load_data-save_data (some d) h = load_data-save_some d.weight d.prev_edge h

  load_row-save_row :
      (row : List (Option (RouteInternalData W))) → RowFits row → load_row W (save_row W row) ≡ row
  unfolding load_row save_row
  load_row-save_row [] h = refl
  load_row-save_row (d ∷ row) h = rw (load_data-save_data d h.0, load_row-save_row row h.1) refl

  -- A table whose edge ids fit 32 bits is read back as it was saved.
  pub load_router-save_router : (t : Table W) → TableFits t → load_router W (save_router W t) ≡ t
  unfolding load_router save_router
  load_router-save_router [] h = refl
  load_router-save_router (row ∷ t) h =
      rw (load_row-save_row row h.0, load_router-save_router t h.1) refl

  -- The edge as a loop at the vertex that it leaves.
  abbrev pub collapse : Edge W → Edge W
  collapse e = record e { to = e.from }

  abbrev pub FromsFit : List (Edge W) → Type 0
  FromsFit [] = Unit
  FromsFit (e ∷ es) = IsUint32 e.from × FromsFit es

  load_edges-save_edges :
      (es : List (Edge W)) → FromsFit es → load_edges W (save_edges W es) ≡ map collapse es
  unfolding load_edges save_edges save_edge
  load_edges-save_edges [] h = refl
  load_edges-save_edges (e ∷ es) h = rw (uint32-same e.from h.0, load_edges-save_edges es h.1) refl

  save_lists-same : (rows : List (List ℕ)) → RowsAreUint32 rows → save_lists W rows ≡ rows
  unfolding save_lists
  save_lists-same [] h = refl
  save_lists-same (ns ∷ rows) h = rw (map-uint32 ns h.0, save_lists-same rows h.1) refl

  -- A graph whose numbers fit 32 bits is read back with its incidence lists and its weights, but each
  -- edge leads back to the vertex that it leaves.
  pub load_graph-save_graph :
      (g : DirectedWeightedGraph W)
      → FromsFit g.edges
      → RowsAreUint32 g.incidence_lists
      → load_graph W (save_graph W g)
        ≡ record { edges = map collapse g.edges; incidence_lists = g.incidence_lists }
  unfolding load_graph save_graph
  load_graph-save_graph g h k =
      rw (load_edges-save_edges g.edges h, save_lists-same g.incidence_lists k) refl
