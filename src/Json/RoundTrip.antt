-- ===== src/Json/RoundTrip.antt =====
-- Documents that TransportSystem/json.cpp prints and reads back.
pub mod Chars
pub mod Scalars
pub mod Loops
pub mod Entries
use transport_system.Prelude.{
  ℕ, zero, suc, ◌+◌, ◌*◌, ◌≤◌, ◌<◌, ◌≡◌, refl, sym, ap, ◌∙◌, Bool, true, false, Option, none, some,
  [], ◌∷◌, ◌++◌, append_assoc, append-nil, inl, inr, Bool-cases, arith, ℤ, Str, codes, length,
  length-append, ok, ◌==◌, ◌||◌, if◌then◌else◌,
}
use transport_system.Json.{
  Node, Items, Fields, null, array, dict, bool, int, double, string, no_items, item, no_fields,
  field, push_back, find, emplace,
}
use transport_system.Json.Print.{
  print_char, print_chars, print_string, print_indent, indent_step, print_node, print_items,
  print_fields, print,
}
use transport_system.Json.Load.{
  Parser, ◌>>=◌, pure, prepend, escaped_by, unescape, read_char, span, take_if, is_digit, is_alpha,
  is_space, peek, load_chars, load_literal, load_bool, load_null, load_whole, load_fraction,
  load_exponent, after_point, after_e, convert, finish_number, read_exponent, read_fraction,
  read_whole, load_number, load_scalar, load_node, load_array, load_dict, load_entry, load,
}
use transport_system.Json.Plain.{
  AllDigits, IsDecimal, zero_digit, digits, PrintsInts, IsPlain, ArePlain, ArePlainFields,
  join_items, join, join_items-push_back, join_items-nil, join-nil, join-join, Before, find-above,
  emplace-above, Before-join, IsDelimited,
}
use transport_system.Json.RoundTrip.Scalars.{
  load_int, load_null_text, load_bool_text, load_string_text,
}
use transport_system.Json.RoundTrip.Loops.{array_last, dict_last, load_array-line, load_dict-line}
use transport_system.Json.RoundTrip.Entries.{
  closing-append, items-IsDelimited, fields-IsDelimited, length-node_text, load_node-array,
  load_node-dict, length-items_text, length-fields_text, item_text, field_text,
}

module _ {D : Type 0} (show_int : ℤ → Str) (show_double : D → Str) (stoi : Str → Option ℤ)
    (stod : Str → Option D) (p : PrintsInts show_int stoi) where
  abbrev node_text : ℕ → Node D → Str
  node_text = print_node show_int show_double

  abbrev items_text : ℕ → Bool → Items D → Str
  items_text = print_items show_int show_double

  abbrev fields_text : ℕ → Bool → Fields D → Str
  fields_text = print_fields show_int show_double

  abbrev closing : ℕ → ℕ → Str → Str
  closing i bracket rest = b'\n' ∷ (print_indent i ++ bracket ∷ rest)

  mutual
    unfolding print_node

    load_node-text :
        (v : Node D) (i fuel : ℕ) (rest : Str)
        → IsPlain v
        → IsDelimited rest
        → 2 * length (node_text i v) < suc fuel
        → load_node stoi stod (suc fuel) (node_text i v ++ rest) ≡ ok (v, rest)
    load_node-text null i fuel rest h d f =
        (load_null_text show_int show_double stoi stod p) fuel rest d
    load_node-text (array xs) i fuel rest h d f =
        (load_node-array show_int show_double stoi stod p) fuel _
        ∙ (load_array-line show_int show_double stoi stod p) fuel no_items _
        ∙ ap (load_array stoi stod fuel no_items)
            ((closing-append show_int show_double stoi stod p) i b']' (items_text i true xs) rest)
        ∙ load_items-text xs true i fuel no_items rest h (omega (arith, length-append {A = ℕ}))
    load_node-text (dict fs) i fuel rest h d f =
        (load_node-dict show_int show_double stoi stod p) fuel _
        ∙ (load_dict-line show_int show_double stoi stod p) fuel no_fields _
        ∙ ap (load_dict stoi stod fuel no_fields)
            ((closing-append show_int show_double stoi stod p) i b'}' (fields_text i true fs) rest)
        ∙ load_fields-text fs true i fuel no_fields rest h tt (omega (arith, length-append {A = ℕ}))
    load_node-text (bool b) i fuel rest h d f =
        (load_bool_text show_int show_double stoi stod p) b fuel rest d
    load_node-text (int z) i fuel rest h d f =
        (load_int show_int show_double stoi stod p) fuel z rest h d
    load_node-text (double x) i fuel rest h d f = absurd h
    load_node-text (string s) i fuel rest h d f =
        (load_string_text show_int show_double stoi stod p) s fuel rest

    load_items-text :
        (xs : Items D) (first : Bool) (i fuel : ℕ) (acc : Items D) (rest : Str)
        → ArePlain xs
        → 2 * length (items_text i first xs) + 2 < fuel
        → load_array stoi stod fuel acc (items_text i first xs ++ closing i b']' rest)
          ≡ ok (array (join_items acc xs), rest)
    load_items-text no_items first i zero acc rest h f = absurd (omega arith)
    load_items-text no_items first i (suc fuel) acc rest h f =
        (array_last show_int show_double stoi stod p) fuel i acc rest
        ∙ ap (λ ys. ok (array ys, rest)) (sym (join_items-nil acc))
    load_items-text (item v xs) first i zero acc rest h f = absurd (omega arith)
    load_items-text (item v xs) first i (suc zero) acc rest h f = absurd (
        omega (
          arith,
          (length-items_text show_int show_double stoi stod p) first i v xs,
          (length-node_text show_int show_double stoi stod p) (i + indent_step) v h.0,
        ))
    load_items-text (item v xs) first i (suc (suc fuel)) acc rest h f =
        (item_text show_int show_double stoi stod p) first v xs i (suc fuel) acc rest h.0
          (load_node-text v (i + indent_step) fuel _ h.0
            ((items-IsDelimited show_int show_double stoi stod p) i b']' xs rest)
            (omega (arith, (length-items_text show_int show_double stoi stod p) first i v xs)))
          (load_items-text xs false i (suc fuel) (push_back acc v) rest h.1 (
            omega (
              arith,
              (length-items_text show_int show_double stoi stod p) first i v xs,
              (length-node_text show_int show_double stoi stod p) (i + indent_step) v h.0,
            )))

    load_fields-text :
        (fs : Fields D) (first : Bool) (i fuel : ℕ) (acc : Fields D) (rest : Str)
        → ArePlainFields fs
        → Before acc fs
        → 2 * length (fields_text i first fs) + 2 < fuel
        → load_dict stoi stod fuel acc (fields_text i first fs ++ closing i b'}' rest)
          ≡ ok (dict (join acc fs), rest)
    load_fields-text no_fields first i zero acc rest h b f = absurd (omega arith)
    load_fields-text no_fields first i (suc fuel) acc rest h b f =
        (dict_last show_int show_double stoi stod p) fuel i acc rest
        ∙ ap (λ gs. ok (dict gs, rest)) (sym (join-nil acc))
    load_fields-text (field k v fs) first i zero acc rest h b f = absurd (omega arith)
    load_fields-text (field k v fs) first i (suc zero) acc rest h b f =
        absurd (omega (arith, (length-fields_text show_int show_double stoi stod p) first i k v fs))
    load_fields-text (field k v fs) first i (suc (suc zero)) acc rest h b f =
        absurd (omega (arith, (length-fields_text show_int show_double stoi stod p) first i k v fs))
    load_fields-text (field k v fs) first i (suc (suc (suc zero))) acc rest h b f =
        absurd (omega (arith, (length-fields_text show_int show_double stoi stod p) first i k v fs))
    load_fields-text (field k v fs) first i (suc (suc (suc (suc fuel)))) acc rest
          (above, plain, others) b f =
        (field_text show_int show_double stoi stod p) first k v fs i fuel acc rest b
          (λ n bound.
            load_node-text v (i + indent_step) n _ plain
              ((fields-IsDelimited show_int show_double stoi stod p) i b'}' fs rest)
              (omega (
                arith,
                bound,
                (length-fields_text show_int show_double stoi stod p) first i k v fs,
              )))
          (λ n bound.
            load_fields-text fs false i n (join acc (field k v no_fields)) rest others
              (Before-join k v acc fs above b)
              (omega (
                arith,
                bound,
                (length-fields_text show_int show_double stoi stod p) first i k v fs,
              )))

-- A document of plain values is read back as it was printed, and its text is read to the end. What
-- is assumed of `out << int` and `std::stoi` is that they write and read decimal numerals of ints.
pub load-print :
    {D : Type 0} (show_int : ℤ → Str) (show_double : D → Str) (stoi : Str → Option ℤ)
    (stod : Str → Option D)
    → PrintsInts show_int stoi
    → (root : Node D) → IsPlain root
    → load stoi stod (print show_int show_double root) ≡ ok (root, [])
unfolding load print
load-print show_int show_double stoi stod p root h =
    let text = print_node show_int show_double 0 root in
    let fuel : 2 * length text + 1 ≡ suc (2 * length text) = omega arith in
    ap (load_node stoi stod (2 * length text + 1)) (sym (append-nil text))
    ∙ ap (λ n. load_node stoi stod n (text ++ [])) fuel
    ∙ load_node-text show_int show_double stoi stod p root 0 (2 * length text) [] h tt (omega arith)
