-- ===== src/Json/Load.antt =====
-- The reading half of TransportSystem/json.cpp. The stream is the list of bytes that are left; its
-- end is `[]`. `std::stoi` and `std::stod` are arguments, `none` where they throw. What a call
-- leaves of the stream is no part of it by its form, so each call of a loop takes fuel.
use transport_system.Prelude.{
  ℕ, zero, suc, ◌+◌, ◌*◌, Bool, true, false, Option, none, some, [], ◌∷◌, ◌++◌, ℤ, Str, codes,
  str_eq, leb, ◌==◌, ◌&&◌, ◌||◌, length, Result, ok, throw, parsing_error, out_of_fuel,
  if◌then◌else◌,
}
use transport_system.Json.{
  Node, Items, Fields, null, array, dict, bool, int, double, string, no_items, no_fields, push_back,
  find, emplace,
}

abbrev pub Parser {ℓ} : Type ℓ → Type ℓ
Parser A = Str → Result (A × Str)

infixl 5 ◌>>=◌
abbrev pub ◌>>=◌ {ℓ κ} : {A : Type ℓ} {B : Type κ} → Parser A → (A → Parser B) → Parser B
(p >>= f) input = elim (p input) [ ok (a, rest) ↦ f a rest | throw e ↦ throw e ]

abbrev pub pure {ℓ} : {A : Type ℓ} → A → Parser A
pure a input = ok (a, input)

-- `std::isspace`, `std::isalpha` and `std::isdigit` in the C locale
abbrev pub is_space : ℕ → Bool
is_space c = c == 32 || leb 9 c && leb c 13

abbrev pub is_alpha : ℕ → Bool
is_alpha c = leb b'a' c && leb c b'z' || leb b'A' c && leb c b'Z'

abbrev pub is_digit : ℕ → Bool
is_digit c = leb b'0' c && leb c b'9'

-- `input >> c` skips white space; `none` at the end of the stream.
unfoldable pub read_char : Str → Option (ℕ × Str)
read_char [] = none
read_char (c ∷ rest) = if is_space c then read_char rest else some (c, rest)

-- `input.peek()`, with 256 for the end of the stream, which is no byte.
abbrev pub peek : Str → ℕ
peek [] = 256
peek (c ∷ _) = c

-- The loop of `LoadLiteral`, and of `read_digits`: the longest prefix that passes the test.
abbrev pub span : (ℕ → Bool) → Str → Str × Str
span test [] = ([], [])
span test (c ∷ rest) =
    let (word, left) = span test rest in if test c then (c ∷ word, left) else ([], c ∷ rest)

unfoldable pub load_literal : Parser Str
load_literal input = ok (span is_alpha input)

-- The escape sequences; `none` for one that is not recognised.
abbrev pub unescape : ℕ → Option ℕ
unescape c =
    if c == b'n'
    then some b'\n'
    else if c == b't'
    then some b'\t'
    else if c == b'r'
    then some b'\r'
    else if c == b'"' || c == b'\\'
    then some c
    else none

abbrev pub prepend : ℕ → Result (Str × Str) → Result (Str × Str)
prepend c (ok (s, rest)) = ok (c ∷ s, rest)
prepend c (throw e) = throw e

abbrev pub escaped_by : Option ℕ → Result (Str × Str) → Result (Str × Str)
escaped_by none r = throw parsing_error
escaped_by (some x) r = prepend x r

-- The loop of `LoadString`, after the opening quote. With one character left the string ends or the
-- stream does.
unfoldable pub load_chars : Parser Str
load_chars [] = throw parsing_error
load_chars (c ∷ []) = if c == b'"' then ok ([], []) else throw parsing_error
load_chars (c ∷ e ∷ rest) =
    let plain = prepend c (load_chars (e ∷ rest)) in
    let escaped = escaped_by (unescape e) (load_chars rest) in
    if c == b'"'
    then ok ([], e ∷ rest)
    else if c == b'\\'
    then escaped
    else if c == b'\n' || c == b'\r'
    then throw parsing_error
    else plain

abbrev pub bool_of : {D : Type 0} → Str → Parser (Node D)
bool_of s input =
    if str_eq s (codes "true")
    then ok (bool true, input)
    else if str_eq s (codes "false")
    then ok (bool false, input)
    else throw parsing_error

unfoldable pub load_bool : {D : Type 0} → Parser (Node D)
load_bool = load_literal >>= bool_of

abbrev pub null_of : {D : Type 0} → Str → Parser (Node D)
null_of s input = if str_eq s (codes "null") then ok (null, input) else throw parsing_error

unfoldable pub load_null : {D : Type 0} → Parser (Node D)
load_null = load_literal >>= null_of

-- One character that is read if it passes the test.
abbrev pub take_if : (ℕ → Bool) → Parser Str
take_if test [] = ok ([], [])
take_if test (c ∷ rest) = if test c then ok (c ∷ [], rest) else ok ([], c ∷ rest)

abbrev pub read_digits : Parser Str
read_digits input = if is_digit (peek input) then ok (span is_digit input) else throw parsing_error

unfoldable pub load_whole : Parser Str
load_whole input = if peek input == b'0' then take_if (λ c. c == b'0') input else read_digits input

-- What follows the point, if there was one.
abbrev pub after_point : Str → Parser Str
after_point [] = pure []
after_point (c ∷ cs) = read_digits >>= λ ds. pure (c ∷ (cs ++ ds))

unfoldable pub load_fraction : Parser Str
load_fraction = take_if (λ c. c == b'.') >>= after_point

-- What follows the `e`, if there was one.
abbrev pub after_e : Str → Parser Str
after_e [] = pure []
after_e (c ∷ cs) = do
  sign ← take_if λ c. c == b'+' || c == b'-'
  ds ← read_digits
  pure (c ∷ (cs ++ (sign ++ ds)))

unfoldable pub load_exponent : Parser Str
load_exponent = take_if (λ c. c == b'e' || c == b'E') >>= after_e

abbrev pub is_empty : Str → Bool
is_empty [] = true
is_empty (_ ∷ _) = false

module _ {D : Type 0} (stoi : Str → Option ℤ) (stod : Str → Option D) where
  abbrev pub convert_double : Str → Parser (Node D)
  convert_double s input = elim (stod s) [
    | none ↦ throw parsing_error
    | some x ↦ ok (double x, input)
  ]

  -- `std::stoi` where the number has no point and no exponent, and `std::stod` where that throws.
  abbrev pub convert : Bool → Str → Parser (Node D)
  convert true s input = elim (stoi s) [
    | none ↦ convert_double s input
    | some z ↦ ok (int z, input)
  ]
  convert false s input = convert_double s input

  abbrev pub finish_number : Str → Str → Str → Str → Parser (Node D)
  finish_number sign whole fraction exponent =
      convert (is_empty fraction && is_empty exponent) (sign ++ (whole ++ (fraction ++ exponent)))

  abbrev pub read_exponent : Str → Str → Str → Parser (Node D)
  read_exponent sign whole fraction = load_exponent >>= finish_number sign whole fraction

  abbrev pub read_fraction : Str → Str → Parser (Node D)
  read_fraction sign whole = load_fraction >>= read_exponent sign whole

  abbrev pub read_whole : Str → Parser (Node D)
  read_whole sign = load_whole >>= read_fraction sign

  unfoldable pub load_number : Parser (Node D)
  load_number = take_if (λ c. c == b'-') >>= read_whole

  -- The cases of `LoadNode` that call no other loop, by the character that was read and put back.
  unfoldable pub load_scalar : ℕ → Parser (Node D)
  load_scalar c input =
      if c == b't' || c == b'f'
      then load_bool (c ∷ input)
      else if c == b'n'
      then load_null (c ∷ input)
      else load_number (c ∷ input)

  unfoldable mutual
    pub load_node : ℕ → Parser (Node D)
    load_node zero input = throw out_of_fuel
    load_node (suc fuel) input = elim (read_char input) [
      | none ↦ throw parsing_error
      | some (c, rest) ↦
          let elements = load_array fuel no_items rest in
          let entries = load_dict fuel no_fields rest in
          if c == b'['
          then elements
          else if c == b'{'
          then entries
          else if c == b'"'
          then (load_chars >>= λ s. pure (string s)) rest
          else load_scalar c rest
    ]

    pub load_array : ℕ → Items D → Parser (Node D)
    load_array zero result input = throw out_of_fuel
    load_array (suc fuel) result input = elim (read_char input) [
      | none ↦ throw parsing_error
      | some (c, rest) ↦
          let more =
            (load_node fuel >>= λ v. load_array fuel (push_back result v))
              (if c == b',' then rest else c ∷ rest) in
          if c == b']' then ok (array result, rest) else more
    ]

    pub load_dict : ℕ → Fields D → Parser (Node D)
    load_dict zero dict' input = throw out_of_fuel
    load_dict (suc fuel) dict' input = elim (read_char input) [
      | none ↦ throw parsing_error
      | some (c, rest) ↦
          let next = load_dict fuel dict' rest in
          let entry = (load_chars >>= λ key. load_entry fuel dict' key) rest in
          if c == b'}'
          then ok (dict dict', rest)
          else if c == b'"'
          then entry
          else if c == b','
          then next
          else throw parsing_error
    ]

    -- After the key of an entry.
    pub load_entry : ℕ → Fields D → Str → Parser (Node D)
    load_entry zero dict' key input = throw out_of_fuel
    load_entry (suc fuel) dict' key input = elim (read_char input) [
      | none ↦ throw parsing_error
      | some (c, rest) ↦
          let value = (load_node fuel >>= λ v. load_dict fuel (emplace key v dict')) rest in
          if c == b':'
          then elim (find key dict') [ none ↦ value | some _ ↦ throw parsing_error ]
          else throw parsing_error
    ]

  -- `Load`: the rest of the stream is left unread.
  unfoldable pub load : Parser (Node D)
  unfolding load_node
  load input = load_node (2 * length input + 1) input
