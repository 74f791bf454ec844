-- ===== src/JsonReader/Restoring.antt =====
-- `JSON_StatRequest` of TransportSystem/json_reader.cpp after a file was read: what is answered to
-- requests about buses, the map and routes.
use transport_system.Prelude.{
  ℕ, ◌≤◌, ◌≡◌, subst, sym, some, length, ok, List, Str, ◌>>=◌, codes, ℤ, [], ◌∷◌,
}
use transport_system.Real.{Real}
use transport_system.Domain.{Coordinates}
use transport_system.Json.{Fields}
use transport_system.Router.{Table}
use transport_system.Catalogue.{Catalogue}
use transport_system.Catalogue.Reachable.{IsBuilt}
use transport_system.MapRenderer.{MapSettings}
use transport_system.MapRenderer.Saving.{IsByteColor, AreByteColors}
use transport_system.TransportRouter.{
  real_weight, RoutingSettings, StopGraph, make_transport_router,
}
use transport_system.TransportRouter.Message.{RouterState}
use transport_system.TransportRouter.Saving.RoundTrip.{RouterFits, AnswersAs}
use transport_system.Serialization.{Common, Restored, serialization, deserialization}
use transport_system.Serialization.RoundTrip.{deserialization-serialization}
use transport_system.RequestHandler.{get_route_stat}
use transport_system.RequestHandler.Unnoted.{with_noted, render_map-noted, get_bus_stat-noted}
use transport_system.JsonReader.{require}
use transport_system.JsonReader.Responses.{response_bus, response_map, response_route}
use transport_system.JsonReader.Statistics.{answer_bus, answer_map, answer_route, text_at, id_of}

module _ (R : Real) where
  same_but_noted :
      (c d : Catalogue R)
      → d.all_stops ≡ c.all_stops
      → d.all_buses ≡ c.all_buses
      → d.length_between_stops ≡ c.length_between_stops
      → d.stops ≡ c.stops
      → d.buses ≡ c.buses
      → d ≡ with_noted c d.buses_in_stop
  same_but_noted c d all_stops all_buses lengths stops buses = λ i. record d {
    all_stops = all_stops i;
    all_buses = all_buses i;
    length_between_stops = lengths i;
    stops = stops i;
    buses = buses i;
  }

module _ (R : Real) (compute_distance : Coordinates R.Carrier → Coordinates R.Carrier → R.Carrier)
    (show_unsigned : ℕ → Str) (show_int : ℤ → Str) (show_double : R.Carrier → Str) (fuel : ℕ) where
  -- Requests about a bus, the map or a route are answered in one state as in the other.
  abbrev pub AnswersSame : Restored R → Restored R → Type 0
  AnswersSame a b =
      (request : Fields R.Carrier)
      → (answer_bus R compute_distance show_unsigned show_int show_double fuel a request
          ≡ answer_bus R compute_distance show_unsigned show_int show_double fuel b request)
        × (answer_map R compute_distance show_unsigned show_int show_double fuel a request
            ≡ answer_map R compute_distance show_unsigned show_int show_double fuel b request)
        × (answer_route R compute_distance show_unsigned show_int show_double fuel a request
            ≡ answer_route R compute_distance show_unsigned show_int show_double fuel b request)

  answers-noted :
      (c : Catalogue R) (noted : List (Str × List Str)) (mr : MapSettings R.Carrier)
      (tr r : RouterState R)
      → AnswersAs R tr.stop_graph tr.table r
      → AnswersSame
          (record { db = with_noted c noted; map_render = mr; router = some r })
          (record { db = c; map_render = mr; router = some tr })
  unfolding answer_bus answer_map answer_route get_route_stat
  answers-noted c noted mr tr r answers request = (
    λ i. require (codes "name" ∷ []) request >>= λ _. text_at request (codes "name") >>= λ name.
        get_bus_stat-noted R c noted compute_distance name i >>= λ bus_info.
        id_of request >>= λ id. response_bus bus_info id,
    λ i. render_map-noted R c noted mr i >>= λ map.
        id_of request >>= λ id. ok (response_map show_unsigned show_double map id),
    λ i. text_at request (codes "from") >>= λ from. text_at request (codes "to") >>= λ to.
        id_of request >>= λ id. answers fuel from to i >>= λ info. response_route info id,
  )

  -- A catalogue that was built, of at most 2 ^ 32 stops, is written and read back with settings whose
  -- colours consist of bytes and with the router that was made of it, if the numbers of the router fit
  -- its message. What is read back answers every request about a bus, the map or a route, as the
  -- catalogue, the settings and the router that were written, exceptions included.
  pub deserialization-answers :
      (routing : RoutingSettings) (c over : Catalogue R) (mr over_settings : MapSettings R.Carrier)
      (s : StopGraph R) (t : Table (real_weight R))
      → IsBuilt R c
      → length c.all_stops ≤ 4294967296
      → IsByteColor mr.underlayer_color
      → AreByteColors mr.color_palette
      → make_transport_router R routing c ≡ ok (s, t)
      → RouterFits R s t
      → (message : Common R.Carrier) × (state : Restored R) × (serialization R c mr
            (record { settings = routing; stop_graph = s; table = t })
          ≡ ok message)
        × (deserialization R (some message) over over_settings ≡ ok state)
        × AnswersSame state (record {
          db = c;
          map_render = mr;
          router = some (record { settings = routing; stop_graph = s; table = t });
        })
  deserialization-answers routing c over mr over_settings s t built few color palette made fits =
      let tr : RouterState R = record { settings = routing; stop_graph = s; table = t } in
      let (message, d, r, writes, reads, _, all_stops, all_buses, lengths, stops, buses, answers) =
        deserialization-serialization R routing c over mr over_settings s t built few color palette
          made fits in
      let same = same_but_noted R c d all_stops all_buses lengths stops buses in
      (
        message,
        record { db = d; map_render = mr; router = some r },
        writes,
        reads,
        subst
            (λ x.
              AnswersSame (record { db = x; map_render = mr; router = some r })
                (record { db = c; map_render = mr; router = some tr }))
            (sym same) (answers-noted c d.buses_in_stop mr tr r answers),
      )
