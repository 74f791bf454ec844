-- ===== src/Tests/Numerals.antt =====
-- Decimal numerals of ints, which show that the hypotheses on `out << int` and `std::stoi` of
-- TransportSystem/json.cpp can hold.
use transport_system.Prelude.{
  ℕ, zero, suc, ◌+◌, ◌-◌, ◌*◌, ◌/◌, ◌%◌, ◌≤◌, ◌<◌, ◌≡◌, refl, sym, ap, ◌∙◌, Bool-cases, true, false,
  Option, none, some, [], ◌∷◌, inl, inr, arith, ℤ, pos, negsuc, IsInt, Str, codes, ltb, ◌==◌,
  if◌then◌else◌,
}
use transport_system.Json.Load.{is_digit}
use transport_system.Json.Plain.{is_negative, AllDigits, IsDecimal, zero_digit, digits, PrintsInts}
use transport_system.Json.RoundTrip.Chars.{decimal-start}

-- The digits of a number before others, as many as the fuel allows.
abbrev digits_before : ℕ → ℕ → Str → Str
digits_before zero n out = (b'0' + n % 10) ∷ out
digits_before (suc fuel) n out = elim (ltb n 10) [
  | true ↦ (b'0' + n) ∷ out
  | false ↦ digits_before fuel (n / 10) ((b'0' + n % 10) ∷ out)
]

abbrev decimal : ℕ → Str
decimal n = digits_before n n []

-- The value of the digits behind a number.
abbrev value_after : ℕ → Str → ℕ
value_after n [] = n
value_after n (c ∷ s) = value_after (n * 10 + (c - b'0')) s

abbrev numeral : ℤ → Str
numeral (pos n) = decimal n
numeral (negsuc n) = decimal (suc n)

abbrev pub show_int : ℤ → Str
show_int (pos n) = decimal n
show_int (negsuc n) = b'-' ∷ decimal (suc n)

abbrev negated : ℕ → Option ℤ
negated zero = some (pos 0)
negated (suc n) = if ltb n 2147483648 then some (negsuc n) else none

-- A number that no int is, is refused.
abbrev pub stoi : Str → Option ℤ
stoi [] = none
stoi (c ∷ s) =
    if c == b'-'
    then negated (value_after 0 s)
    else if ltb (value_after 0 (c ∷ s)) 2147483648
    then some (pos (value_after 0 (c ∷ s)))
    else none

value_after-digits_before :
    (fuel n : ℕ) (out : Str)
    → n ≤ fuel
    → value_after 0 (digits_before fuel n out) ≡ value_after n out
value_after-digits_before zero n out h =
    let same : 0 * 10 + (b'0' + n % 10 - b'0') ≡ n = omega (arith, h) in
    ap (λ x. value_after x out) same
value_after-digits_before (suc fuel) n out h = elim (Bool-cases (ltb n 10)) [
  | inl small ↦
      let same : 0 * 10 + (b'0' + n - b'0') ≡ n = omega arith in
      rw (digits_before, small) (ap (λ x. value_after x out) same)
  | inr large ↦
      let less : n / 10 ≤ fuel = ground (arith, h, large) in
      let same : n / 10 * 10 + (b'0' + n % 10 - b'0') ≡ n = omega arith in
      rw (digits_before, large)
        (value_after-digits_before fuel (n / 10) ((b'0' + n % 10) ∷ out) less
          ∙ ap (λ x. value_after x out) same)
]

digits_before-IsDecimal :
    (fuel n : ℕ) (out : Str)
    → n ≤ fuel
    → 0 < n
    → AllDigits out
    → IsDecimal (digits_before fuel n out)
digits_before-IsDecimal zero n out h some_digits all = absurd (omega arith)
digits_before-IsDecimal (suc fuel) n out h some_digits all = elim (Bool-cases (ltb n 10)) [
  | inl small ↦
      rw (digits_before, small)
        (digits (b'0' + n) out (ground (arith, small)) (ground (arith, some_digits)) all)
  | inr large ↦
      let less : n / 10 ≤ fuel = ground (arith, h, large) in
      let more : 0 < n / 10 = ground (arith, large) in
      let last : is_digit (b'0' + n % 10) ≡ true = ground arith in
      rw (digits_before, large) (digits_before-IsDecimal fuel (n / 10) _ less more (last, all))
]

decimal-IsDecimal : (n : ℕ) → IsDecimal (decimal n)
decimal-IsDecimal zero = zero_digit
decimal-IsDecimal (suc n) =
    digits_before-IsDecimal (suc n) (suc n) [] (omega arith) (omega arith) tt

value_after-decimal : (n : ℕ) → value_after 0 (decimal n) ≡ n
value_after-decimal n = value_after-digits_before n n [] (omega arith)

stoi-pos : (n : ℕ) → n < 2147483648 → stoi (decimal n) ≡ some (pos n)
stoi-pos n h =
    let (c, t, start, digit) = decimal-start (decimal n) (decimal-IsDecimal n) in
    let whole : value_after 0 (c ∷ t) ≡ n =
      ap (value_after 0) (sym start) ∙ value_after-decimal n in
    let plain : (c == b'-') ≡ false = ground (arith, digit) in
    let fits : ltb n 2147483648 ≡ true = ground (arith, h) in
    ap stoi start ∙ rw (plain, whole, fits) refl

stoi-show_int : (z : ℤ) → IsInt z → stoi (show_int z) ≡ some z
stoi-show_int (pos n) h = stoi-pos n h
stoi-show_int (negsuc n) h =
    let fits : ltb n 2147483648 ≡ true = ground (arith, h) in
    rw (value_after-decimal (suc n), fits) refl

show_int-shape : (z : ℤ) → show_int z ≡ (if is_negative z then b'-' ∷ numeral z else numeral z)
show_int-shape (pos n) = refl
show_int-shape (negsuc n) = refl

numeral-IsDecimal : (z : ℤ) → IsDecimal (numeral z)
numeral-IsDecimal (pos n) = decimal-IsDecimal n
numeral-IsDecimal (negsuc n) = decimal-IsDecimal (suc n)

pub numerals : PrintsInts show_int stoi
numerals = record {
  numeral = numeral;
  shape = λ z _. show_int-shape z;
  decimal = λ z _. numeral-IsDecimal z;
  read_back = stoi-show_int;
}

greatest : show_int (pos 2147) ≡ codes "2147"
greatest = refl

too_large : stoi (codes "2147483648") ≡ none
too_large = refl
