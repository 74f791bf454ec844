-- ===== src/Catalogue/Counting.antt =====
-- The numbers that `GetInfoBus` of TransportSystem/transport_catalogue.cpp reports.
use transport_system.Prelude.{
  ℕ, zero, suc, ◌+◌, ◌*◌, ◌≡◌, sym, ap, ◌∙◌, Bool-cases, List, [], ◌∷◌, reverse, inl, inr, pos,
  arith, ◌<◌, ◌%◌, ltb, true, refl, length, length-append, Result, ok, >>=-eq-ok,
}
use mathlib.Core.List.{reverse_aux}
use transport_system.Domain.{Bus, pop_back, there_and_back}
use transport_system.Catalogue.Info.{word, to_int, way, twice_less_one, quantity_stop}

module _ {A : Type 0} where
  length-reverse_aux : (xs ys : List A) → length (reverse_aux xs ys) ≡ length xs + length ys
  length-reverse_aux [] ys = omega arith
  length-reverse_aux (x ∷ xs) ys = omega (arith, length-reverse_aux xs (x ∷ ys))

  length-reverse : (xs : List A) → length (reverse xs) ≡ length xs
  length-reverse xs = length-reverse_aux xs [] ∙ omega arith

  ok_inj : {xs ys : List A} → ◌≡◌ {A = Result (List A)} (ok xs) (ok ys) → xs ≡ ys
  ok_inj h = cc

  length-pop_back : (xs front : List A) → pop_back xs ≡ ok front → length xs ≡ suc (length front)
  unfolding pop_back
  length-pop_back [] front h = cc
  length-pop_back (x ∷ []) front h = ap suc (ap length (ok_inj h))
  length-pop_back (x ∷ y ∷ xs) front h =
      let (rest, e, q) = >>=-eq-ok (pop_back (y ∷ xs)) _ h in
      ap suc (length-pop_back (y ∷ xs) rest e) ∙ ap (λ u. suc (length u)) (ok_inj q)

  length-there_and_back :
      (xs path : List A) → there_and_back xs ≡ ok path → length path + 1 ≡ length xs * 2
  unfolding there_and_back
  length-there_and_back xs path h =
      let (front, e, q) = >>=-eq-ok (pop_back xs) _ h in
      let grown : length path ≡ length xs + length (reverse front) =
        ap length (sym (ok_inj q)) ∙ length-append xs (reverse front) in
      omega (arith, grown, length-reverse front, length-pop_back xs front e)

twice_less_one-back :
    (count m : ℕ) → m + 1 ≡ count * 2 → count < 1073741824 → twice_less_one (pos count) ≡ ok (pos m)
unfolding twice_less_one
twice_less_one-back zero m h small = absurd (omega arith)
twice_less_one-back (suc n) m h small =
    let fits : ltb n 1073741823 ≡ true = ground (arith, small) in
    let same : n * 2 + 1 ≡ m = omega (arith, h) in rw (fits, same) refl

to_int-small : (n : ℕ) → n < 1073741824 → to_int (n % word) ≡ pos n
to_int-small n h =
    let same : n % word ≡ n = omega (arith, h) in
    let fits : ltb n 2147483648 ≡ true = ground (arith, h) in rw (same, fits) refl

-- The number of stops that is reported for a bus of fewer than 2 ^ 30 stops is the number of stops on
-- its way: the number is computed without an overflow.
pub quantity_stop-way :
    (bus : Bus) (path : List ℕ)
    → length bus.stops < 1073741824
    → way bus ≡ ok path
    → quantity_stop bus ≡ ok (pos (length path))
unfolding way quantity_stop
quantity_stop-way bus path small h =
    let count = to_int-small (length bus.stops) small in
    elim (Bool-cases bus.is_loop_trip) [
      | inl e ↦
          let same : bus.stops ≡ path = ok_inj (rw e at h) in
          rw (e, count) (ap (λ s. ok (pos (length s))) same)
      | inr e ↦
          rw (e, count)
            (twice_less_one-back (length bus.stops) (length path)
              (length-there_and_back bus.stops path (rw e at h)) small)
    ]
