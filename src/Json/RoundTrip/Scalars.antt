-- ===== src/Json/RoundTrip/Scalars.antt =====
-- Values that are no containers, printed and read back (TransportSystem/json.cpp).
use transport_system.Prelude.{
  ℕ, zero, suc, ◌≡◌, refl, ◌∙◌, Bool, true, false, Option, some, [], ◌∷◌, ◌++◌, append_assoc,
  append-nil, inl, inr, Bool-cases, arith, ℤ, IsInt, Str, codes, ok, ◌==◌, if◌then◌else◌,
}
use transport_system.Json.{
  Node, Items, Fields, null, array, dict, bool, int, double, string, push_back,
}
use transport_system.Json.Print.{
  print_chars, print_string, print_indent, print_node, print_items, print_fields,
}
use transport_system.Json.Load.{
  ◌>>=◌, pure, read_char, take_if, is_space, load_chars, load_literal, load_bool, load_null,
  load_whole, load_fraction, load_exponent, convert, finish_number, read_exponent, read_fraction,
  read_whole, load_number, load_scalar, load_node, load_array,
}
use transport_system.Json.Plain.{is_negative, IsDecimal, PrintsInts, IsPlain, IsDelimited}
use transport_system.Json.RoundTrip.Chars.{
  >>=-ok, read_char-here, read_char-indent, load_chars-print_chars, span-delimited,
  load_whole-decimal, load_fraction-delimited, load_exponent-delimited, IsStart, decimal-start,
}

module _ {D : Type 0} (show_int : ℤ → Str) (show_double : D → Str) (stoi : Str → Option ℤ)
    (stod : Str → Option D) (p : PrintsInts show_int stoi) where
  pub finish_int :
      (sign s rest : Str) (z : ℤ)
      → stoi (sign ++ s) ≡ some z
      → finish_number stoi stod sign s [] [] rest ≡ ok (int z, rest)
  finish_int sign s rest z e = rw append-nil (rw (e, convert) refl)

  pub load_number-sign :
      (minus : Bool) (s rest : Str) (z : ℤ)
      → IsDelimited rest
      → IsDecimal s
      → stoi (if minus then b'-' ∷ s else s) ≡ some z
      → load_number stoi stod ((if minus then b'-' ∷ s else s) ++ rest) ≡ ok (int z, rest)
  unfolding load_number
  load_number-sign true s rest z d n e =
      >>=-ok (take_if (λ x. x == b'-')) (read_whole stoi stod) (b'-' ∷ (s ++ rest)) refl
      ∙ >>=-ok load_whole (read_fraction stoi stod (b'-' ∷ [])) (s ++ rest)
          (load_whole-decimal s rest d n)
      ∙ >>=-ok load_fraction (read_exponent stoi stod (b'-' ∷ []) s) rest
          (load_fraction-delimited rest d)
      ∙ >>=-ok load_exponent (finish_number stoi stod (b'-' ∷ []) s []) rest
          (load_exponent-delimited rest d)
      ∙ finish_int (b'-' ∷ []) s rest z e
  load_number-sign false s rest z d n e =
      let (c, t, start, digit) = decimal-start s n in
      let plain : take_if (λ x. x == b'-') (s ++ rest) ≡ ok ([], s ++ rest) =
        rw start (ground arith) in
      >>=-ok (take_if (λ x. x == b'-')) (read_whole stoi stod) (s ++ rest) plain
      ∙ >>=-ok load_whole (read_fraction stoi stod []) (s ++ rest) (load_whole-decimal s rest d n)
      ∙ >>=-ok load_fraction (read_exponent stoi stod [] s) rest (load_fraction-delimited rest d)
      ∙ >>=-ok load_exponent (finish_number stoi stod [] s []) rest (load_exponent-delimited rest d)
      ∙ finish_int [] s rest z e

  pub load_number-show_int :
      (z : ℤ) (rest : Str)
      → IsInt z
      → IsDelimited rest
      → load_number stoi stod (show_int z ++ rest) ≡ ok (int z, rest)
  load_number-show_int z rest h d = rw (p.shape z h) (
      load_number-sign (is_negative z) (p.numeral z) rest z d (p.decimal z h)
        (rw (p.shape z h) at (p.read_back z h)))

  pub show_int-IsStart : (z : ℤ) → IsInt z → (c : ℕ) × (t : Str) × (show_int z ≡ c ∷ t) × IsStart c
  show_int-IsStart z h =
      let (c, t, start, digit) = decimal-start (p.numeral z) (p.decimal z h) in
      elim (Bool-cases (is_negative z)) [
        | inl e ↦ (b'-', p.numeral z, rw (p.shape z h, e) refl, refl)
        | inr e ↦ (c, t, rw (p.shape z h, e) start, rw digit refl)
      ]

  pub load_int :
      (fuel : ℕ) (z : ℤ) (rest : Str)
      → IsInt z
      → IsDelimited rest
      → load_node stoi stod (suc fuel) (show_int z ++ rest) ≡ ok (int z, rest)
  unfolding load_node read_char load_scalar
  load_int fuel z rest h d =
      let (c, t, start, is_start) = show_int-IsStart z h in
      let whole : load_number stoi stod (c ∷ (t ++ rest)) ≡ ok (int z, rest) =
        rw start at (load_number-show_int z rest h d) in
      rw start (ground (arith, whole))

  abbrev node_text : ℕ → Node D → Str
  node_text = print_node show_int show_double

  abbrev items_text : ℕ → Bool → Items D → Str
  items_text = print_items show_int show_double

  abbrev fields_text : ℕ → Bool → Fields D → Str
  fields_text = print_fields show_int show_double

  -- How a printed value begins.
  abbrev pub IsFirst : ℕ → Type 0
  IsFirst c = (is_space c ≡ false) × ((c == b']') ≡ false) × ((c == b',') ≡ false)

  pub node_text-start :
      (i : ℕ) (v : Node D) → IsPlain v → (c : ℕ) × (t : Str) × (node_text i v ≡ c ∷ t) × IsFirst c
  unfolding print_node print_string
  node_text-start i null h = (b'n', _, refl, (refl, refl, refl))
  node_text-start i (array xs) h = (b'[', _, refl, (refl, refl, refl))
  node_text-start i (dict fs) h = (b'{', _, refl, (refl, refl, refl))
  node_text-start i (bool true) h = (b't', _, refl, (refl, refl, refl))
  node_text-start i (bool false) h = (b'f', _, refl, (refl, refl, refl))
  node_text-start i (int z) h =
      let (c, t, start, is_start) = show_int-IsStart z h in (c, t, start, (ground arith))
  node_text-start i (double x) h = absurd h
  node_text-start i (string s) h = (b'"', _, refl, (refl, refl, refl))

  -- The head of an array's loop where a value stands.
  pub array_first :
      (fuel i : ℕ) (acc : Items D) (v : Node D) (rest : Str)
      → IsPlain v
      → load_array stoi stod (suc fuel) acc (print_indent i ++ (node_text i v ++ rest))
        ≡ (load_node stoi stod fuel >>= λ w. load_array stoi stod fuel (push_back acc w))
            (node_text i v ++ rest)
  unfolding load_array
  array_first fuel i acc v rest h =
      let (c, t, start, (no_space, no_end, no_comma)) = node_text-start i v h in
      rw (read_char-indent i (node_text i v ++ rest), load_array)
        (rw (start, read_char-here c (t ++ rest) no_space, no_end, no_comma) refl)

  -- A value reads the same behind white space.
  pub load_node-indent :
      (fuel i : ℕ) (s : Str)
      → load_node stoi stod fuel (print_indent i ++ s) ≡ load_node stoi stod fuel s
  unfolding load_node
  load_node-indent zero i s = refl
  load_node-indent (suc fuel) i s = rw (read_char-indent i s, load_node) refl

  pub load_null_text :
      (fuel : ℕ) (rest : Str)
      → IsDelimited rest
      → load_node stoi stod (suc fuel) (codes "null" ++ rest) ≡ ok (null, rest)
  unfolding load_node read_char load_scalar load_null load_literal
  load_null_text fuel rest d = rw (span-delimited rest d) refl

  pub load_bool_text :
      (b : Bool) (fuel : ℕ) (rest : Str)
      → IsDelimited rest
      → load_node stoi stod (suc fuel) ((if b then codes "true" else codes "false") ++ rest)
        ≡ ok (bool b, rest)
  unfolding load_node read_char load_scalar load_bool load_literal
  load_bool_text true fuel rest d = rw (span-delimited rest d) refl
  load_bool_text false fuel rest d = rw (span-delimited rest d) refl

  pub load_string_text :
      (s : Str) (fuel : ℕ) (rest : Str)
      → load_node stoi stod (suc fuel) (print_string s ++ rest) ≡ ok (string s, rest)
  unfolding load_node read_char print_string
  load_string_text s fuel rest =
      >>=-ok load_chars (λ x. pure (string x)) ((print_chars s ++ b'"' ∷ []) ++ rest)
        (rw (append_assoc (print_chars s) (b'"' ∷ []) rest) (load_chars-print_chars s rest))
