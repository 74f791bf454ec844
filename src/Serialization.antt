-- ===== src/Serialization.antt =====
-- TransportSystem/serialization.cpp: the three messages in one. Its binary form is protobuf's.
pub mod RoundTrip
use transport_system.Prelude.{Option, none, some, Result, ok, ◌>>=◌}
use transport_system.Real.{Real}
use transport_system.Catalogue.{Catalogue}
use transport_system.Catalogue.Proto.{ProtoCatalogue, save_catalogue, deserialize_catalogue}
use transport_system.MapRenderer.{MapSettings}
use transport_system.MapRenderer.Proto.{ProtoMapSettings, save_settings, deserialize_map_render}
use transport_system.TransportRouter.Message.{
  ProtoTransportRouter, RouterState, save_transport_router, deserialize_transport_router,
}

pub record Common (D : Type 0) : Type 0 where
  pub map_settings : ProtoMapSettings D
  pub catalogue : ProtoCatalogue D
  pub router : ProtoTransportRouter D

module _ (R : Real) where
  -- What is restored: `db`, `mr`, and the router, which may be a null pointer.
  pub record Restored : Type 0 where
    pub db : Catalogue R
    pub map_render : MapSettings R.Carrier
    pub router : Option (RouterState R)

  unfoldable pub serialization :
      Catalogue R → MapSettings R.Carrier → RouterState R → Result (Common R.Carrier)
  unfolding save_catalogue save_settings save_transport_router
  serialization db mr tr = do
    catalogue ← save_catalogue db
    router ← save_transport_router R db tr
    ok (record { map_settings = save_settings mr; catalogue = catalogue; router = router })

  -- `ParseFromIstream` gives a message or fails, which leaves `db` and `mr` as they are.
  unfoldable pub deserialization :
      Option (Common R.Carrier) → Catalogue R → MapSettings R.Carrier → Result Restored
  unfolding deserialize_catalogue deserialize_map_render deserialize_transport_router
  deserialization none db mr = ok (record { db = db; map_render = mr; router = none })
  deserialization (some message) db mr = do
    catalogue ← deserialize_catalogue R message.catalogue
    map_render ← deserialize_map_render message.map_settings
    router ← deserialize_transport_router R message.router catalogue
    ok (record { db = catalogue; map_render = map_render; router = some router })
