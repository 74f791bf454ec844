-- ===== src/Tests/Network.antt =====
-- The catalogue and the saved router (TransportSystem/transport_catalogue.cpp,
-- TransportSystem/transport_router.cpp).
use transport_system.Prelude.{
  ℕ, ◌+◌, ◌-◌, ◌*◌, ◌/◌, ◌≡◌, refl, false, none, some, List, [], ◌∷◌, pos, negsuc, Str, codes, ltb,
  ◌==◌, ok, arith,
}
use transport_system.Real.{Real}
use transport_system.Domain.{Bus, there_and_back, pop_back}
use transport_system.Catalogue.{TransportCatalogue, empty_catalogue, add_stop, add_bus, lookup}
use transport_system.Catalogue.WellFormed.{IsWellFormed}
use transport_system.Catalogue.Stops.{Adds, add_stop-IsWellFormed}
use transport_system.Catalogue.Building.{HasBus, add_bus-HasBus}
use transport_system.Catalogue.Info.{way, quantity_stop}
use transport_system.Catalogue.Counting.{quantity_stop-way}
use transport_system.Graph.{add_edge, with_vertex_count, get_vertex_count, DirectedWeightedGraph}
use transport_system.Router.{Table}
use transport_system.Prelude.{
  zero, suc, sym, subst, ◌∙◌, Option, Bool-cases, inl, inr, str_eq, str_eq→eq, get_elem?,
}
use transport_system.Catalogue.{add_length_between_stops}
use transport_system.Catalogue.WellFormed.{IsIndex, Holds, AreBelow, stop_name, bus_name}
use transport_system.Catalogue.Lengths.{kept, add_length-get_length}
use transport_system.TransportRouter.Sound.{create_graph-IsWellFormed}
use transport_system.Graph.WellFormed
use transport_system.Catalogue.{lookup_pair, assign}
use transport_system.Catalogue.Info.{get_length_between_stops}
use transport_system.Domain.{deref, deref_all}
use transport_system.TransportRouter.{
  StopGraph, RoutingSettings, create_graph, create_vertices, create_vertex, create_edges,
  create_edge, create_direction, create_rides, add_trip, emplace_info, vertex_at, calculate_time,
  real_weight,
}
use transport_system.TransportRouter.Proto.{save_graph, load_graph, save_router, load_router}
use transport_system.TransportRouter.Saving.{load_graph-save_graph, load_router-save_router}

-- Natural numbers in place of doubles
abbrev pub naturals : Real
naturals = record {
  Carrier = ℕ;
  of_int = λ z. elim z [ pos n ↦ n | negsuc n ↦ 0 ];
  add = ◌+◌;
  sub = ◌-◌;
  mul = ◌*◌;
  div = ◌/◌;
  eq = ◌==◌;
  lt = ltb;
  is_zero = λ x. x == 0;
}

some_inj : {A : Type 0} {a b : A} → ◌≡◌ {A = Option A} (some a) (some b) → a ≡ b
some_inj h = cc

none-some : {A : Type 0} {a : A} → none ≡ some a → ⊥
none-some h = cc

empty-IsWellFormed : IsWellFormed {D = ℕ} empty_catalogue
unfolding empty_catalogue lookup
empty-IsWellFormed = record {
  stop_named = λ n p h. absurd (none-some h);
  bus_named = λ n p h. absurd (none-some h);
  bus_stops = λ i b h. absurd (none-some h);
}

add_stop-IsWellFormed_example :
    Adds naturals
      (codes "A")
      empty_catalogue
      (add_stop naturals (codes "A") (record { lat = 55; lng = 37 }) empty_catalogue)
add_stop-IsWellFormed_example =
    add_stop-IsWellFormed naturals (codes "A") (record { lat = 55; lng = 37 }) empty_catalogue
      empty-IsWellFormed

abbrev pub line_stops : List Str
line_stops = codes "A" ∷ codes "B" ∷ codes "A" ∷ []

add_bus-HasBus_example :
    (d : TransportCatalogue ℕ) × (add_bus naturals (codes "750") line_stops false empty_catalogue
      ≡ ok d)
    × IsWellFormed d
    × HasBus naturals (codes "750") line_stops false d
add_bus-HasBus_example =
    add_bus-HasBus naturals (codes "750") line_stops false empty_catalogue empty-IsWellFormed

abbrev pub line_bus : Bus
line_bus = record { name = codes "750"; stops = 0 ∷ 1 ∷ 2 ∷ []; is_loop_trip = false }

line_way : way line_bus ≡ ok (0 ∷ 1 ∷ 2 ∷ 1 ∷ 0 ∷ [])
unfolding way there_and_back pop_back
line_way = refl

quantity_stop-way_example : quantity_stop line_bus ≡ ok (pos 5)
quantity_stop-way_example =
    quantity_stop-way line_bus (0 ∷ 1 ∷ 2 ∷ 1 ∷ 0 ∷ []) (omega arith) line_way

abbrev saved_graph : DirectedWeightedGraph (real_weight naturals)
saved_graph = record {
  edges = record { from = 0; to = 1; weight = 6 } ∷ [];
  incidence_lists = (0 ∷ []) ∷ [] ∷ [];
}

-- The edge leads to the vertex 1, and after reading back to the vertex 0.
load_graph-save_graph_example :
    load_graph (real_weight naturals) (save_graph (real_weight naturals) saved_graph) ≡ record {
      edges = record { from = 0; to = 0; weight = 6 } ∷ [];
      incidence_lists = (0 ∷ []) ∷ [] ∷ [];
    }
load_graph-save_graph_example =
    load_graph-save_graph (real_weight naturals) saved_graph (omega arith, tt)
      ((omega arith, tt), (tt, tt))

abbrev saved_table : Table (real_weight naturals)
saved_table =
    (some (record { weight = 0; prev_edge = none })
      ∷ some (record { weight = 6; prev_edge = some 0 })
      ∷ [])
    ∷ (none ∷ none ∷ [])
    ∷ []

load_router-save_router_example :
    load_router (real_weight naturals) (save_router (real_weight naturals) saved_table)
    ≡ saved_table
load_router-save_router_example =
    load_router-save_router (real_weight naturals) saved_table
      ((tt, (omega arith, tt)), ((tt, (tt, tt)), tt))

abbrev pub line_catalogue : TransportCatalogue ℕ
line_catalogue = record {
  buses = (codes "750", 0) ∷ [];
  stops = (codes "A", 0) ∷ (codes "B", 1) ∷ [];
  buses_in_stop = (codes "A", codes "750" ∷ []) ∷ (codes "B", codes "750" ∷ []) ∷ [];
  length_between_stops = ((0, 1), 80000) ∷ [];
  all_buses = record { name = codes "750"; stops = 0 ∷ 1 ∷ []; is_loop_trip = false } ∷ [];
  all_stops =
      record { name = codes "A"; coordinates = record { lat = 55; lng = 37 } }
      ∷ record { name = codes "B"; coordinates = record { lat = 56; lng = 37 } }
      ∷ [];
}

abbrev pub line_graph : StopGraph naturals
line_graph = record {
  total_vertex = 4;
  graph_of_stops = record {
    edges =
        record { from = 0; to = 1; weight = 6 }
        ∷ record { from = 2; to = 3; weight = 6 }
        ∷ record { from = 1; to = 2; weight = 120 }
        ∷ record { from = 3; to = 0; weight = 120 }
        ∷ [];
    incidence_lists = (0 ∷ []) ∷ (2 ∷ []) ∷ (1 ∷ []) ∷ (3 ∷ []) ∷ [];
  };
  stop_vertexs =
      (codes "A", record { inner = 0; outer = 1 })
      ∷ (codes "B", record { inner = 2; outer = 3 })
      ∷ [];
  info_about_edge =
      (0, record { name = codes "A"; weight = 6; span_count = none })
      ∷ (1, record { name = codes "B"; weight = 6; span_count = none })
      ∷ (2, record { name = codes "750"; weight = 120; span_count = some 1 })
      ∷ (3, record { name = codes "750"; weight = 120; span_count = some 1 })
      ∷ [];
}

abbrev pub line_settings : RoutingSettings
line_settings = record { bus_wait_time = 6; bus_velocity = 40 }

pub line_graph-created : create_graph naturals line_settings line_catalogue ≡ ok line_graph
unfolding create_graph create_vertices create_vertex create_edges create_edge create_direction
    create_rides add_trip emplace_info add_edge with_vertex_count vertex_at calculate_time
    get_length_between_stops lookup lookup_pair assign deref_all deref
line_graph-created = refl

create_graph-IsWellFormed_example :
    WellFormed.IsWellFormed (real_weight naturals) line_graph.graph_of_stops
    × (get_vertex_count (real_weight naturals) line_graph.graph_of_stops ≡ 4)
create_graph-IsWellFormed_example =
    create_graph-IsWellFormed naturals line_settings line_catalogue line_graph line_graph-created

first_stop : lookup (codes "A") line_catalogue.stops ≡ some 0
unfolding lookup
first_stop = refl

at_place :
    {A : Type 0} (f : A → Str) (k : Str) (i : ℕ) (places : List (Str × ℕ)) (all : List A)
    → IsIndex f places all
    → Holds f all k i
    → IsIndex f ((k, i) ∷ places) all
unfolding lookup
at_place f k i places all h (a, e, q) n p found = elim (Bool-cases (str_eq n k)) [
  | inl same ↦
      let place : i ≡ p = cc (same, found) in
      (a, subst (λ x. get_elem? all x ≡ some a) place e, q ∙ sym (str_eq→eq n k same))
  | inr other ↦ h n p (rw other at found)
]

nowhere : {A : Type 0} (f : A → Str) (all : List A) → IsIndex f [] all
unfolding lookup
nowhere f all n p found = absurd (none-some found)

stops_below : (i : ℕ) (b : Bus) → get_elem? line_catalogue.all_buses i ≡ some b → AreBelow 2 b.stops
stops_below zero b found =
    subst (λ x. AreBelow 2 x.stops) (some_inj found) (omega arith, (omega arith, tt))
stops_below (suc i) b found = absurd (none-some found)

line_catalogue-IsWellFormed : IsWellFormed line_catalogue
line_catalogue-IsWellFormed = record {
  stop_named =
      at_place stop_name (codes "A") 0 _ line_catalogue.all_stops
        (at_place stop_name (codes "B") 1 [] line_catalogue.all_stops
          (nowhere stop_name line_catalogue.all_stops) (_, refl, refl))
        (_, refl, refl);
  bus_named =
      at_place bus_name (codes "750") 0 [] line_catalogue.all_buses
        (nowhere bus_name line_catalogue.all_buses) (_, refl, refl);
  bus_stops = λ i b found. stops_below i b found;
}

-- The length from A to B is recorded already.
add_length-get_length_example :
    (d : TransportCatalogue ℕ) × (q : ℕ) × (add_length_between_stops naturals
        (codes "A", codes "B")
        5
        line_catalogue
      ≡ ok d)
    × IsWellFormed d
    × (lookup (codes "B") d.stops ≡ some q)
    × (get_length_between_stops d (codes "A") (codes "B")
        ≡ ok (kept (lookup_pair (0, q) line_catalogue.length_between_stops) 5))
add_length-get_length_example =
    add_length-get_length naturals (codes "A") (codes "B") 5 line_catalogue
      line_catalogue-IsWellFormed first_stop
