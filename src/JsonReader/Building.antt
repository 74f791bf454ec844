-- ===== src/JsonReader/Building.antt =====
-- `JSON_BaseRequest` of TransportSystem/json_reader.cpp on a query that is written down, and what is
-- read back from the file that it writes.
use transport_system.Prelude.{
  ℕ, ◌≤◌, ◌<◌, ◌≡◌, refl, ◌∙◌, List, [], ◌∷◌, Str, length, Result, ok, ◌>>=◌, >>=-of_ok, after,
  subst, ok_same, arith, some,
}
use transport_system.Real.{Real}
use transport_system.Router.{Table}
use transport_system.Catalogue.{Catalogue, add_stop, add_bus, add_length_between_stops}
use transport_system.Catalogue.Reachable.{IsBuilt}
use transport_system.Svg.{Color, monostate, named, rgb, rgba}
use transport_system.MapRenderer.{MapSettings}
use transport_system.MapRenderer.Saving.{IsByteColor, AreByteColors}
use transport_system.TransportRouter.{
  real_weight, RoutingSettings, StopGraph, make_transport_router,
}
use transport_system.TransportRouter.Message.{RouterState}
use transport_system.TransportRouter.Saving.RoundTrip.{RouterFits, AnswersAs}
use transport_system.Serialization.{Common, serialization, deserialization}
use transport_system.Serialization.RoundTrip.{deserialization-serialization}
use transport_system.JsonReader.{serialization_settings}
use transport_system.JsonReader.Documents.{
  IsWritten, AreWritten, read_routing_settings-document, read_map_settings-document,
}
use transport_system.JsonReader.Describing.{
  Request, a_bus, a_stop, query_document, AreInts, DistancesFit, add_buses, add_distances,
  add_stops, read_buses-request_items, read_stops-request_items,
}
use transport_system.JsonReader.Requests.{base_request}

IsWritten→IsByteColor : {D : Type 0} (c : Color D) → IsWritten c → IsByteColor c
IsWritten→IsByteColor monostate h = absurd h
IsWritten→IsByteColor (named s) h = tt
IsWritten→IsByteColor (rgb c) h = h
IsWritten→IsByteColor (rgba c) h = h

AreWritten→AreByteColors : {D : Type 0} (cs : List (Color D)) → AreWritten cs → AreByteColors cs
AreWritten→AreByteColors [] h = tt
AreWritten→AreByteColors (c ∷ cs) (first, h) =
    (IsWritten→IsByteColor c first, AreWritten→AreByteColors cs h)

module _ (R : Real) where
  -- What a query with these requests and settings saves.
  abbrev pub saved_as :
      Str
      → List (Request R.Carrier)
      → RoutingSettings
      → MapSettings R.Carrier
      → Catalogue R
      → Result (Str × Common R.Carrier)
  saved_as file requests routing settings c = add_buses R requests c >>= λ with_buses.
      add_stops R requests with_buses >>= λ d. make_transport_router R routing d >>= λ made.
      serialization R d settings
        (record { settings = routing; stop_graph = made.0; table = made.1 })
      >>= λ message. ok (file, message)

  -- JSON_BaseRequest on the document with these base requests and settings does what the requests mean
  -- and saves it, exceptions included: it adds the buses with their stops in their order, then the stops
  -- with their coordinates and their distances, makes the router of the result with the routing
  -- settings, and writes the catalogue, the settings of the map and the router to the file that is
  -- named. The distances are ints, the routing settings fit 16 bits, and each colour of the map is a
  -- name or of components that are bytes.
  pub base_request-query_document :
      (file : Str) (requests : List (Request R.Carrier)) (routing : RoutingSettings)
      (settings : MapSettings R.Carrier) (c : Catalogue R)
      → DistancesFit requests
      → routing.bus_wait_time < 65536
      → routing.bus_velocity < 65536
      → IsWritten settings.underlayer_color
      → AreWritten settings.color_palette
      → base_request R (query_document file requests routing settings) c
        ≡ saved_as file requests routing settings c
  unfolding base_request serialization_settings
  base_request-query_document file requests routing settings c ints wait velocity color palette =
      λ i. read_buses-request_items R requests c i >>= λ with_buses.
      read_stops-request_items R requests with_buses ints i >>= λ d.
      read_routing_settings-document R.Carrier routing wait velocity i >>= λ routing'.
      make_transport_router R routing' d >>= λ made.
      read_map_settings-document R settings color palette i >>= λ settings'.
      serialization R d settings'
        (record { settings = routing'; stop_graph = made.0; table = made.1 })
      >>= λ message. ok (file, message)

  add_buses-IsBuilt :
      (requests : List (Request R.Carrier)) (c d : Catalogue R)
      → IsBuilt R c
      → add_buses R requests c ≡ ok d
      → IsBuilt R d
  add_buses-IsBuilt [] c d b e = subst (IsBuilt R) (ok_same {r = ok c} refl e) b
  add_buses-IsBuilt (a_bus name stops is_roundtrip ∷ requests) c d b e =
      after (add_bus R name stops is_roundtrip c) e λ next added rest.
        add_buses-IsBuilt requests next d (IsBuilt.with_bus name stops is_roundtrip c next b added)
          rest
  add_buses-IsBuilt (a_stop name place distances ∷ requests) c d b e =
      add_buses-IsBuilt requests c d b e

  add_distances-IsBuilt :
      (name : Str) (distances : List (Str × ℕ)) (c d : Catalogue R)
      → AreInts distances
      → IsBuilt R c
      → add_distances R name distances c ≡ ok d
      → IsBuilt R d
  add_distances-IsBuilt name [] c d h b e = subst (IsBuilt R) (ok_same {r = ok c} refl e) b
  add_distances-IsBuilt name ((second, n) ∷ distances) c d (fits, h) b e =
      after (add_length_between_stops R (name, second) n c) e λ next added rest.
        add_distances-IsBuilt name distances next d h
          (IsBuilt.with_length name second n c next (omega (arith, fits)) b added) rest

  add_stops-IsBuilt :
      (requests : List (Request R.Carrier)) (c d : Catalogue R)
      → DistancesFit requests
      → IsBuilt R c
      → add_stops R requests c ≡ ok d
      → IsBuilt R d
  add_stops-IsBuilt [] c d h b e = subst (IsBuilt R) (ok_same {r = ok c} refl e) b
  add_stops-IsBuilt (a_bus name stops is_roundtrip ∷ requests) c d h b e =
      add_stops-IsBuilt requests c d h b e
  add_stops-IsBuilt (a_stop name place distances ∷ requests) c d (ints, h) b e =
      after (add_stop R name place c >>= add_distances R name distances) e λ next both rest.
        after (add_stop R name place c) both λ placed added more.
          add_stops-IsBuilt requests next d h
            (add_distances-IsBuilt name distances placed next ints
              (IsBuilt.with_stop name place c placed b added) more)
            rest

  -- The query writes to the file a message that is read back, over any catalogue and settings, as a
  -- catalogue with the stops, buses and lengths of this one, these settings, and a router that answers
  -- as this one.
  abbrev pub IsFiled :
      Str
      → List (Request R.Carrier)
      → MapSettings R.Carrier
      → Catalogue R
      → Catalogue R
      → RouterState R
      → Catalogue R
      → MapSettings R.Carrier
      → Type 0
  IsFiled file requests settings c d tr over over_settings =
      (message : Common R.Carrier) × (db : Catalogue R) × (r : RouterState R) × (base_request R
          (query_document file requests tr.settings settings) c
        ≡ ok (file, message))
      × (deserialization R (some message) over over_settings
          ≡ ok (record { db = db; map_render = settings; router = some r }))
      × (db.all_stops ≡ d.all_stops)
      × (db.all_buses ≡ d.all_buses)
      × (db.length_between_stops ≡ d.length_between_stops)
      × AnswersAs R tr.stop_graph tr.table r

  module _ (file : Str) (requests : List (Request R.Carrier)) (routing : RoutingSettings)
      (settings : MapSettings R.Carrier) (c with_buses d : Catalogue R) (s : StopGraph R)
      (t : Table (real_weight R)) (ints : DistancesFit requests)
      (wait : routing.bus_wait_time < 65536) (velocity : routing.bus_velocity < 65536)
      (color : IsWritten settings.underlayer_color) (palette : AreWritten settings.color_palette)
      (built : IsBuilt R c) (buses : add_buses R requests c ≡ ok with_buses)
      (stops : add_stops R requests with_buses ≡ ok d) (few : length d.all_stops ≤ 4294967296)
      (made : make_transport_router R routing d ≡ ok (s, t)) (fits : RouterFits R s t)
      (over : Catalogue R) (over_settings : MapSettings R.Carrier) where
    -- If adding the buses and the stops of the requests to a catalogue that was built gives a catalogue
    -- of at most 2 ^ 32 stops, and a router of it whose numbers fit its message, then JSON_BaseRequest
    -- returns on the document with these requests, and the file that it writes is read back: with the
    -- stops, the buses and the lengths that the requests describe, with the settings of the map, and
    -- with a router that gives the same result for every GetRouteInfo. Distances, settings and colours
    -- fit their types.
    pub base_request-deserialization :
        IsFiled file requests settings c d
          (record { settings = routing; stop_graph = s; table = t })
          over
          over_settings
    base_request-deserialization =
        let d_built =
          add_stops-IsBuilt requests with_buses d ints
            (add_buses-IsBuilt requests c with_buses built buses) stops in
        let (message, db, r, writes, reads, _, all_stops, all_buses, lengths, _, _, answers) =
          deserialization-serialization R routing d over settings over_settings s t d_built few
            (IsWritten→IsByteColor settings.underlayer_color color)
            (AreWritten→AreByteColors settings.color_palette palette) made fits in
        (
          message,
          db,
          r,
          base_request-query_document file requests routing settings c ints wait velocity color
                palette
              ∙ >>=-of_ok _ buses (>>=-of_ok _ stops (>>=-of_ok _ made (>>=-of_ok _ writes refl))),
          reads,
          all_stops,
          all_buses,
          lengths,
          answers,
        )
