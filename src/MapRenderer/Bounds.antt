-- ===== src/MapRenderer/Bounds.antt =====
-- Where `SphereProjector` of TransportSystem/map_renderer.h puts the points that it was made from.
use transport_system.Prelude.{
  ℕ, zero, suc, ◌≡◌, ap, Bool-cases, true, false, some, List, [], ◌∷◌, inl, inr, get_elem?,
}
use transport_system.Real.{Real, of_nat}
use transport_system.Domain.{Coordinates}
use transport_system.MapRenderer.Projector.{
  lesser, greater, least, greatest, lats, lngs, zoom, choose_zoom, make_projector, project,
}

-- `!(b < a)`
abbrev pub AtMost : (R : Real) → R.Carrier → R.Carrier → Type 0
AtMost R a b = R.lt b a ≡ false

-- What the bounds need of the arithmetic; doubles obey it as far as they are exact.
pub record IsExact (R : Real) : Type 0 where
  pub lt_asym : (a b : R.Carrier) → R.lt a b ≡ true → R.lt b a ≡ false
  pub le_refl : (a : R.Carrier) → AtMost R a a
  pub le_trans : (a b c : R.Carrier) → AtMost R a b → AtMost R b c → AtMost R a c
  pub sub_mono : (a b m : R.Carrier) → AtMost R a b → AtMost R (R.sub a m) (R.sub b m)
  pub sub_anti : (a b m : R.Carrier) → AtMost R a b → AtMost R (R.sub m b) (R.sub m a)
  pub sub-zero_le : (a b : R.Carrier) → AtMost R a b → AtMost R (of_nat R 0) (R.sub b a)
  pub add_mono : (a b c : R.Carrier) → AtMost R a b → AtMost R (R.add a c) (R.add b c)
  pub zero_le-add : (a b : R.Carrier) → AtMost R (of_nat R 0) a → AtMost R b (R.add a b)
  pub mul_mono :
      (a b c d : R.Carrier)
      → AtMost R (of_nat R 0) a
      → AtMost R a b
      → AtMost R (of_nat R 0) c
      → AtMost R c d
      → AtMost R (R.mul a c) (R.mul b d)
  pub mul-zero_le :
      (a b : R.Carrier)
      → AtMost R (of_nat R 0) a
      → AtMost R (of_nat R 0) b
      → AtMost R (of_nat R 0) (R.mul a b)
  pub div-zero_le :
      (a b : R.Carrier)
      → AtMost R (of_nat R 0) a
      → AtMost R (of_nat R 0) b
      → AtMost R (of_nat R 0) (R.div a b)
  pub mul-div : (a b : R.Carrier) → R.is_zero b ≡ false → AtMost R (R.mul b (R.div a b)) a

module _ (R : Real) (E : IsExact R) where
  open E use {lt_asym, le_refl, le_trans}

  lesser_left : (a b : R.Carrier) → AtMost R (lesser R a b) a
  lesser_left a b = elim (Bool-cases (R.lt b a)) [
    | inl h ↦ rw h (lt_asym b a h)
    | inr h ↦ rw h (le_refl a)
  ]

  lesser_right : (a b : R.Carrier) → AtMost R (lesser R a b) b
  lesser_right a b = elim (Bool-cases (R.lt b a)) [ inl h ↦ rw h (le_refl b) | inr h ↦ rw h h ]

  greater_left : (a b : R.Carrier) → AtMost R a (greater R a b)
  greater_left a b = elim (Bool-cases (R.lt a b)) [
    | inl h ↦ rw h (lt_asym a b h)
    | inr h ↦ rw h (le_refl a)
  ]

  greater_right : (a b : R.Carrier) → AtMost R b (greater R a b)
  greater_right a b = elim (Bool-cases (R.lt a b)) [ inl h ↦ rw h (le_refl b) | inr h ↦ rw h h ]

  least_first : (a : R.Carrier) (bs : List R.Carrier) → AtMost R (least R a bs) a
  unfolding least
  least_first a [] = le_refl a
  least_first a (b ∷ bs) = le_trans _ _ _ (least_first (lesser R a b) bs) (lesser_left a b)

  greatest_first : (a : R.Carrier) (bs : List R.Carrier) → AtMost R a (greatest R a bs)
  unfolding greatest
  greatest_first a [] = le_refl a
  greatest_first a (b ∷ bs) = le_trans _ _ _ (greater_left a b) (greatest_first (greater R a b) bs)

  least_member :
      (a : R.Carrier) (bs : List R.Carrier) (i : ℕ) (x : R.Carrier)
      → get_elem? (a ∷ bs) i ≡ some x
      → AtMost R (least R a bs) x
  unfolding least
  least_member a bs zero x e = let same : a ≡ x = cc e in rw (← same) (least_first a bs)
  least_member a [] (suc i) x e = cc
  least_member a (b ∷ bs) (suc zero) x e =
      let same : b ≡ x = cc e in
      rw (← same) (le_trans _ _ _ (least_first (lesser R a b) bs) (lesser_right a b))
  least_member a (b ∷ bs) (suc (suc i)) x e = least_member (lesser R a b) bs (suc i) x e

  greatest_member :
      (a : R.Carrier) (bs : List R.Carrier) (i : ℕ) (x : R.Carrier)
      → get_elem? (a ∷ bs) i ≡ some x
      → AtMost R x (greatest R a bs)
  unfolding greatest
  greatest_member a bs zero x e = let same : a ≡ x = cc e in rw (← same) (greatest_first a bs)
  greatest_member a [] (suc i) x e = cc
  greatest_member a (b ∷ bs) (suc zero) x e =
      let same : b ≡ x = cc e in
      rw (← same) (le_trans _ _ _ (greater_right a b) (greatest_first (greater R a b) bs))
  greatest_member a (b ∷ bs) (suc (suc i)) x e = greatest_member (greater R a b) bs (suc i) x e

  get_elem?-lngs :
      (cs : List (Coordinates R.Carrier)) (i : ℕ) (c : Coordinates R.Carrier)
      → get_elem? cs i ≡ some c
      → get_elem? (lngs R cs) i ≡ some c.lng
  get_elem?-lngs [] i c e = cc
  get_elem?-lngs (d ∷ cs) zero c e = let same : d ≡ c = cc e in ap (λ x. some x.lng) same
  get_elem?-lngs (d ∷ cs) (suc i) c e = get_elem?-lngs cs i c e

  get_elem?-lats :
      (cs : List (Coordinates R.Carrier)) (i : ℕ) (c : Coordinates R.Carrier)
      → get_elem? cs i ≡ some c
      → get_elem? (lats R cs) i ≡ some c.lat
  get_elem?-lats [] i c e = cc
  get_elem?-lats (d ∷ cs) zero c e = let same : d ≡ c = cc e in ap (λ x. some x.lat) same
  get_elem?-lats (d ∷ cs) (suc i) c e = get_elem?-lats cs i c e

  -- A distance within the range, scaled by at most the zoom of the range.
  scaled-within :
      (d range extent z padding : R.Carrier)
      → AtMost R (of_nat R 0) d
      → AtMost R d range
      → AtMost R (of_nat R 0) z
      → AtMost R z (R.div extent range)
      → R.is_zero range ≡ false
      → AtMost R padding (R.add (R.mul d z) padding)
        × AtMost R (R.add (R.mul d z) padding) (R.add extent padding)
  scaled-within d range extent z padding d0 dr z0 ze wide = (
    E.zero_le-add _ _ (E.mul-zero_le d z d0 z0),
    E.add_mono _ _ padding (
        le_trans _ _ _ (E.mul_mono d range z (R.div extent range) d0 dr z0 ze)
          (E.mul-div extent range wide)),
  )

  lesser_zero_le :
      (a b : R.Carrier)
      → AtMost R (of_nat R 0) a
      → AtMost R (of_nat R 0) b
      → AtMost R (of_nat R 0) (lesser R a b)
  lesser_zero_le a b ha hb = elim (Bool-cases (R.lt b a)) [ inl h ↦ rw h hb | inr h ↦ rw h ha ]

  module _ (c : Coordinates R.Carrier) (cs : List (Coordinates R.Carrier))
      (width height padding : R.Carrier) where
    abbrev pub inner : R.Carrier → R.Carrier
    inner extent = R.sub extent (R.mul (of_nat R 2) padding)

    abbrev pub lng_range : R.Carrier
    lng_range = R.sub (greatest R c.lng (lngs R cs)) (least R c.lng (lngs R cs))

    abbrev pub lat_range : R.Carrier
    lat_range = R.sub (greatest R c.lat (lats R cs)) (least R c.lat (lats R cs))

    -- Every point that the projector was made from lands on the picture: its coordinates are at least
    -- the padding, and at most the inner width or height and the padding. The picture has room for the
    -- padding on both sides, and the points differ in longitude and in latitude.
    pub project-AtMost :
        (i : ℕ) (at : Coordinates R.Carrier)
        → get_elem? (c ∷ cs) i ≡ some at
        → AtMost R (of_nat R 0) (inner width)
        → AtMost R (of_nat R 0) (inner height)
        → R.is_zero lng_range ≡ false
        → R.is_zero lat_range ≡ false
        → AtMost R padding (project R (make_projector R (c ∷ cs) width height padding) at).x
          × AtMost R
              (project R (make_projector R (c ∷ cs) width height padding) at).x
              (R.add (inner width) padding)
          × AtMost R padding (project R (make_projector R (c ∷ cs) width height padding) at).y
          × AtMost R
              (project R (make_projector R (c ∷ cs) width height padding) at).y
              (R.add (inner height) padding)
    unfolding project make_projector zoom choose_zoom
    project-AtMost i at e w0 h0 wide tall =
        let at_lng = get_elem?-lngs (c ∷ cs) i at e in
        let at_lat = get_elem?-lats (c ∷ cs) i at e in
        let min_lng = least_member c.lng (lngs R cs) i at.lng at_lng in
        let max_lng = greatest_member c.lng (lngs R cs) i at.lng at_lng in
        let min_lat = least_member c.lat (lats R cs) i at.lat at_lat in
        let max_lat = greatest_member c.lat (lats R cs) i at.lat at_lat in
        let wz = R.div (inner width) lng_range in
        let hz = R.div (inner height) lat_range in
        let wz0 =
          E.div-zero_le (inner width) lng_range w0
            (E.sub-zero_le _ _ (le_trans _ _ _ min_lng max_lng)) in
        let hz0 =
          E.div-zero_le (inner height) lat_range h0
            (E.sub-zero_le _ _ (le_trans _ _ _ min_lat max_lat)) in
        let z0 = lesser_zero_le wz hz wz0 hz0 in
        let (x0, x1) =
          scaled-within _ lng_range (inner width) (lesser R wz hz) padding
            (E.sub-zero_le _ _ min_lng) (E.sub_mono _ _ _ max_lng) z0 (lesser_left wz hz) wide in
        let (y0, y1) =
          scaled-within _ lat_range (inner height) (lesser R wz hz) padding
            (E.sub-zero_le _ _ max_lat) (E.sub_anti _ _ _ min_lat) z0 (lesser_right wz hz) tall in
        rw (wide, tall) (x0, x1, y0, y1)
