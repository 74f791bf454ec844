-- ===== src/Json/Plain.antt =====
-- The documents that are printed and read back alike, and the laws of their parts.
use transport_system.Prelude.{
  ℕ, ◌≡◌, refl, ap, Bool, true, false, Option, none, some, [], ◌∷◌, ◌⊎◌, inl, inr, ℤ, pos, negsuc,
  IsInt, Str, str_eq, str_lt, str_eq→eq, str_lt_irrefl, str_lt_asym, Bool-cases, ◌==◌,
  if◌then◌else◌,
}
use transport_system.Json.{
  Node, Items, Fields, null, array, dict, bool, int, double, string, no_items, item, no_fields,
  field, push_back, find, emplace,
}
use transport_system.Json.Load.{is_digit}

abbrev pub AllDigits : Str → Type 0
AllDigits [] = Unit
AllDigits (c ∷ s) = (is_digit c ≡ true) × AllDigits s

-- A decimal numeral without superfluous zeros.
pub data IsDecimal : Str → Type 0 where
  zero_digit : IsDecimal (b'0' ∷ [])
  digits :
      (c : ℕ) (s : Str) → is_digit c ≡ true → (c == b'0') ≡ false → AllDigits s → IsDecimal (c ∷ s)

abbrev pub is_negative : ℤ → Bool
is_negative (pos n) = false
is_negative (negsuc n) = true

-- What is documented of `out << int` and `std::stoi`: for an int, a minus if it is negative and a
-- decimal numeral are written, and the value is read back. Nothing is said of a number that no int is:
-- there `std::stoi` throws.
pub record PrintsInts (show_int : ℤ → Str) (stoi : Str → Option ℤ) : Type 0 where
  pub numeral : ℤ → Str
  pub shape :
      (z : ℤ) → IsInt z → show_int z ≡ (if is_negative z then b'-' ∷ numeral z else numeral z)
  pub decimal : (z : ℤ) → IsInt z → IsDecimal (numeral z)
  pub read_back : (z : ℤ) → IsInt z → stoi (show_int z) ≡ some z

above_ne : (j k : Str) → str_lt j k ≡ true → str_eq k j ≡ false
above_ne j k h = elim (Bool-cases (str_eq k j)) [
  | inl e ↦ let same : k ≡ j = str_eq→eq k j e in cc (str_lt_irrefl k, same, h)
  | inr e ↦ e
]

module _ {D : Type 0} where
  abbrev pub AllKeys : (Str → Type 0) → Fields D → Type 0
  AllKeys P no_fields = Unit
  AllKeys P (field k v fs) = P k × AllKeys P fs

  -- No value is a double, each number is an int, and the keys of each dictionary ascend, as a std::map keeps them.
  abbrev mutual
    pub IsPlain : Node D → Type 0
    IsPlain null = Unit
    IsPlain (array xs) = ArePlain xs
    IsPlain (dict fs) = ArePlainFields fs
    IsPlain (bool b) = Unit
    IsPlain (int z) = IsInt z
    IsPlain (double x) = ⊥
    IsPlain (string s) = Unit

    pub ArePlain : Items D → Type 0
    ArePlain no_items = Unit
    ArePlain (item v xs) = IsPlain v × ArePlain xs

    pub ArePlainFields : Fields D → Type 0
    ArePlainFields no_fields = Unit
    ArePlainFields (field k v fs) =
        AllKeys (λ j. str_lt k j ≡ true) fs × IsPlain v × ArePlainFields fs

  abbrev pub join_items : Items D → Items D → Items D
  join_items no_items ys = ys
  join_items (item v xs) ys = item v (join_items xs ys)

  abbrev pub join : Fields D → Fields D → Fields D
  join no_fields gs = gs
  join (field k v fs) gs = field k v (join fs gs)

  pub join_items-push_back :
      (xs : Items D) (v : Node D) (ys : Items D)
      → join_items (push_back xs v) ys ≡ join_items xs (item v ys)
  join_items-push_back no_items v ys = refl
  join_items-push_back (item u xs) v ys = ap (item u) (join_items-push_back xs v ys)

  pub join_items-nil : (xs : Items D) → join_items xs no_items ≡ xs
  join_items-nil no_items = refl
  join_items-nil (item v xs) = ap (item v) (join_items-nil xs)

  pub join-nil : (fs : Fields D) → join fs no_fields ≡ fs
  join-nil no_fields = refl
  join-nil (field k v fs) = ap (field k v) (join-nil fs)

  pub join-join :
      (fs : Fields D) (k : Str) (v : Node D) (gs : Fields D)
      → join (join fs (field k v no_fields)) gs ≡ join fs (field k v gs)
  join-join no_fields k v gs = refl
  join-join (field j w fs) k v gs = ap (field j w) (join-join fs k v gs)

  -- Every key of `acc` is below every key of `fs`.
  abbrev pub Before : Fields D → Fields D → Type 0
  Before acc fs = AllKeys (λ j. AllKeys (λ k. str_lt j k ≡ true) fs) acc

  pub find-above :
      (k : Str) (v : Node D) (acc fs : Fields D) → Before acc (field k v fs) → find k acc ≡ none
  find-above k v no_fields fs h = refl
  find-above k v (field j w acc) fs h = rw (above_ne j k h.0.0) (find-above k v acc fs h.1)

  -- A key above all others goes to the end.
  pub emplace-above :
      (k : Str) (v : Node D) (acc fs : Fields D)
      → Before acc (field k v fs)
      → emplace k v acc ≡ join acc (field k v no_fields)
  emplace-above k v no_fields fs h = refl
  emplace-above k v (field j w acc) fs h =
      rw (above_ne j k h.0.0, str_lt_asym j k h.0.0) (ap (field j w) (emplace-above k v acc fs h.1))

  pub Before-join :
      (k : Str) (v : Node D) (acc fs : Fields D)
      → AllKeys (λ j. str_lt k j ≡ true) fs
      → Before acc (field k v fs)
      → Before (join acc (field k v no_fields)) fs
  Before-join k v no_fields fs above h = (above, tt)
  Before-join k v (field j w acc) fs above h = (h.0.1, Before-join k v acc fs above h.1)

-- What stands behind a printed value: nothing, a comma or a line break.
abbrev pub IsDelimited : Str → Type 0
IsDelimited [] = Unit
IsDelimited (c ∷ s) = (c ≡ b',') ⊎ (c ≡ b'\n')
