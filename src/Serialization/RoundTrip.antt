-- ===== src/Serialization/RoundTrip.antt =====
-- What `Serialization` of TransportSystem/serialization.cpp writes, `Deserialization` reads back.
use transport_system.Prelude.{◌≤◌, ◌≡◌, refl, some, length, Result, ok, ◌>>=◌, >>=-of_ok}
use transport_system.Real.{Real}
use transport_system.Router.{Table}
use transport_system.Catalogue.{Catalogue}
use transport_system.Catalogue.Reachable.{IsBuilt}
use transport_system.Catalogue.Listing.{IsBuilt-same_maps}
use transport_system.Catalogue.RoundTrip.{deserialize-save_catalogue}
use transport_system.MapRenderer.{MapSettings}
use transport_system.MapRenderer.Saving.{IsByteColor, AreByteColors, deserialize-save}
use transport_system.TransportRouter.{
  real_weight, RoutingSettings, StopGraph, make_transport_router,
}
use transport_system.TransportRouter.Message.{RouterState, deserialize_transport_router}
use transport_system.TransportRouter.Saving.RoundTrip.{
  RouterFits, AnswersAs, deserialize-save_transport_router,
}
use transport_system.Serialization.{Common, Restored, serialization, deserialization}

module _ (R : Real) where
  -- The message that is written is read back, over any catalogue and settings, as a catalogue with the
  -- same stops, buses, lengths and names, the same settings, and a router that answers as this one.
  abbrev pub IsRestored :
      Catalogue R
      → MapSettings R.Carrier
      → RouterState R
      → Catalogue R
      → MapSettings R.Carrier
      → Type 0
  IsRestored c mr tr over over_settings =
      (message : Common R.Carrier) × (d : Catalogue R) × (r : RouterState R) × (serialization R c mr
          tr
        ≡ ok message)
      × (deserialization R (some message) over over_settings
          ≡ ok (record { db = d; map_render = mr; router = some r }))
      × IsBuilt R d
      × (d.all_stops ≡ c.all_stops)
      × (d.all_buses ≡ c.all_buses)
      × (d.length_between_stops ≡ c.length_between_stops)
      × (d.stops ≡ c.stops)
      × (d.buses ≡ c.buses)
      × AnswersAs R tr.stop_graph tr.table r

  -- A catalogue that was built, of at most 2 ^ 32 stops, is written and read back with settings whose
  -- colours consist of bytes and with the router that was made of it, if the numbers of the router fit
  -- its message. Neither throws. What is read back is a catalogue that was built, with the same stops,
  -- buses and lengths, each in the same order, and the same places of the names of stops and of buses,
  -- the same settings, and a router that gives the same result for every GetRouteInfo.
  pub deserialization-serialization :
      (routing : RoutingSettings) (c over : Catalogue R) (mr over_settings : MapSettings R.Carrier)
      (s : StopGraph R) (t : Table (real_weight R))
      → IsBuilt R c
      → length c.all_stops ≤ 4294967296
      → IsByteColor mr.underlayer_color
      → AreByteColors mr.color_palette
      → make_transport_router R routing c ≡ ok (s, t)
      → RouterFits R s t
      → IsRestored c mr
          (record { settings = routing; stop_graph = s; table = t })
          over
          over_settings
  unfolding serialization deserialization
  deserialization-serialization routing c over mr over_settings s t built few color palette made
        fits =
      let (message, d, saves, loads, restored, stops, buses, lengths) =
        deserialize-save_catalogue R c built few in
      let (router, r, saves_router, loads_router, answers) =
        deserialize-save_transport_router R routing c d s t built restored stops buses few made
          fits in
      let maps = IsBuilt-same_maps R c d built restored stops buses in
      let restore_router : MapSettings R.Carrier → Result (Restored R) = λ x.
        deserialize_transport_router R router d >>= λ tr.
        ok (record { db = d; map_render = x; router = some tr }) in
      (
        _,
        d,
        r,
        >>=-of_ok _ saves (>>=-of_ok _ saves_router refl),
        >>=-of_ok _ loads (
            >>=-of_ok restore_router (deserialize-save mr color palette) (
              >>=-of_ok (λ x. ok (record { db = d; map_render = mr; router = some x })) loads_router
                refl)),
        restored,
        stops,
        buses,
        lengths,
        maps.0,
        maps.1,
        answers,
      )
