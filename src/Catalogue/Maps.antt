-- ===== src/Catalogue/Maps.antt =====
-- The laws of the maps of TransportSystem/transport_catalogue.cpp.
use transport_system.Prelude.{
  ◌≡◌, refl, sym, ap, subst, true, false, Bool-cases, some, List, [], ◌∷◌, inl, inr, Str, str_eq,
  str_eq→eq, if◌then◌else◌, arith,
}
use transport_system.Catalogue.{lookup, assign}

str_eq-same : (k i j : Str) → str_eq j i ≡ true → str_eq k i ≡ str_eq k j
str_eq-same k i j e = ap (str_eq k) (sym (str_eq→eq j i e))

other_key : (k j i : Str) → str_eq j i ≡ false → str_eq k i ≡ true → str_eq k j ≡ false
other_key k j i e h = elim (Bool-cases (str_eq k j)) [
  | inl q ↦
      let same : k ≡ j = str_eq→eq k j q in
      let other : str_eq j i ≡ true = subst (λ x. str_eq x i ≡ true) same h in cc (other, e)
  | inr q ↦ q
]

module _ {A : Type 0} where
  -- What is found after `map[j] = a`.
  pub lookup-assign :
      (k j : Str) (a : A) (xs : List (Str × A))
      → lookup k (assign j a xs) ≡ (if str_eq k j then some a else lookup k xs)
  unfolding lookup assign
  lookup-assign k j a [] = refl
  lookup-assign k j a ((i, b) ∷ xs) = elim (Bool-cases (str_eq j i)) [
    | inl e ↦ rw (e, str_eq-same k i j e) (ground arith)
    | inr e ↦ rw (e, lookup-assign k j a xs) (ground (arith, other_key k j i e))
  ]
