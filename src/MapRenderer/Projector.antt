-- ===== src/MapRenderer/Projector.antt =====
-- `SphereProjector` of TransportSystem/map_renderer.h.
use transport_system.Prelude.{List, [], ◌∷◌, Option, none, some, if◌then◌else◌}
use transport_system.Real.{Real, of_nat}
use transport_system.Domain.{Coordinates}
use transport_system.Svg.{Point}

pub record SphereProjector (D : Type 0) : Type 0 where
  pub padding : D
  pub min_lon : D
  pub max_lat : D
  pub zoom_coeff : D

module _ (R : Real) where
  abbrev pub lesser : R.Carrier → R.Carrier → R.Carrier
  lesser a b = if R.lt b a then b else a

  abbrev pub greater : R.Carrier → R.Carrier → R.Carrier
  greater a b = if R.lt a b then b else a

  -- The values at the two places that `std::minmax_element` finds.
  unfoldable pub least : R.Carrier → List R.Carrier → R.Carrier
  least a [] = a
  least a (b ∷ bs) = least (lesser a b) bs

  unfoldable pub greatest : R.Carrier → List R.Carrier → R.Carrier
  greatest a [] = a
  greatest a (b ∷ bs) = greatest (greater a b) bs

  abbrev pub lats : List (Coordinates R.Carrier) → List R.Carrier
  lats [] = []
  lats (c ∷ cs) = c.lat ∷ lats cs

  abbrev pub lngs : List (Coordinates R.Carrier) → List R.Carrier
  lngs [] = []
  lngs (c ∷ cs) = c.lng ∷ lngs cs

  -- The zoom along one axis.
  unfoldable pub zoom : R.Carrier → R.Carrier → R.Carrier → Option R.Carrier
  zoom extent padding range =
      if R.is_zero range
      then none
      else some (R.div (R.sub extent (R.mul (of_nat R 2) padding)) range)

  unfoldable pub choose_zoom : Option R.Carrier → Option R.Carrier → R.Carrier
  choose_zoom (some w) (some h) = lesser w h
  choose_zoom (some w) none = w
  choose_zoom none (some h) = h
  choose_zoom none none = of_nat R 0

  unfoldable pub make_projector :
      List (Coordinates R.Carrier) → R.Carrier → R.Carrier → R.Carrier → SphereProjector R.Carrier
  unfolding least greatest zoom choose_zoom
  make_projector [] max_width max_height padding = record {
    padding = padding;
    min_lon = of_nat R 0;
    max_lat = of_nat R 0;
    zoom_coeff = of_nat R 0;
  }
  make_projector (c ∷ cs) max_width max_height padding =
      let min_lon = least c.lng (lngs cs) in
      let max_lon = greatest c.lng (lngs cs) in
      let min_lat = least c.lat (lats cs) in
      let max_lat = greatest c.lat (lats cs) in
      record {
        padding = padding;
        min_lon = min_lon;
        max_lat = max_lat;
        zoom_coeff =
            choose_zoom (zoom max_width padding (R.sub max_lon min_lon))
              (zoom max_height padding (R.sub max_lat min_lat));
      }

  -- `operator()`
  unfoldable pub project : SphereProjector R.Carrier → Coordinates R.Carrier → Point R.Carrier
  project p coords = record {
    x = R.add (R.mul (R.sub coords.lng p.min_lon) p.zoom_coeff) p.padding;
    y = R.add (R.mul (R.sub p.max_lat coords.lat) p.zoom_coeff) p.padding;
  }
