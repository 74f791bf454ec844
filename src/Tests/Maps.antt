-- ===== src/Tests/Maps.antt =====
-- Maps (TransportSystem/request_handler.cpp, TransportSystem/map_renderer.h).
use native.Mathlib.Nat.{mul-le-mul, mul-div-le}
use transport_system.Prelude.{ℕ, ◌+◌, ◌*◌, ◌/◌, ◌≤◌, ◌≡◌, refl, false, List, [], ◌∷◌, ltb, arith}
use transport_system.Domain.{Coordinates}
use transport_system.MapRenderer.Projector.{make_projector, project}
use transport_system.MapRenderer.Bounds.{AtMost, IsExact, project-AtMost}
use transport_system.Catalogue.Reachable.{IsBuilt→IsSound}
use transport_system.RequestHandler.Rendering.{IsLayered, render_map-Document}
use transport_system.Tests.Network.{naturals, line_catalogue}
use transport_system.Tests.Catalogues.{line_built}
use transport_system.Tests.Requests.{rendered}

render_map-Document_example : IsLayered naturals line_catalogue rendered
render_map-Document_example =
    render_map-Document naturals line_catalogue (IsBuilt→IsSound naturals line_catalogue line_built)
      rendered (omega arith)

ltb_of_le : (a b : ℕ) → a ≤ b → ltb b a ≡ false
ltb_of_le a b h = ground (arith, h)

le_of_ltb : (a b : ℕ) → ltb b a ≡ false → a ≤ b
le_of_ltb a b h = ground (arith, h)

naturals-IsExact : IsExact naturals
naturals-IsExact = record {
  lt_asym = λ a b h. ground arith;
  le_refl = λ a. ground arith;
  le_trans = λ a b c h k. ground arith;
  sub_mono = λ a b m h. ground arith;
  sub_anti = λ a b m h. ground arith;
  sub-zero_le = λ a b h. ground arith;
  add_mono = λ a b c h. ground arith;
  zero_le-add = λ a b h. ground arith;
  mul_mono =
      λ a b c d _ h _ k. ltb_of_le (a * c) (b * d) (mul-le-mul (le_of_ltb a b h) (le_of_ltb c d k));
  mul-zero_le = λ a b _ _. ltb_of_le 0 (a * b) (omega arith);
  div-zero_le = λ a b _ _. ltb_of_le 0 (a / b) (omega arith);
  mul-div = λ a b _. ltb_of_le (b * (a / b)) a (mul-div-le a b);
}

abbrev corner : Coordinates ℕ
corner = record { lat = 55; lng = 37 }

abbrev others : List (Coordinates ℕ)
others = record { lat = 65; lng = 39 } ∷ record { lat = 60; lng = 47 } ∷ []

project-AtMost_example :
    AtMost naturals 50 450
    × AtMost naturals 450 (1100 + 50)
    × AtMost naturals 50 250
    × AtMost naturals 250 (400 + 50)
unfolding project make_projector
project-AtMost_example =
    project-AtMost naturals naturals-IsExact corner others 1200 500 50 2
      (record { lat = 60; lng = 47 }) refl refl refl refl refl
