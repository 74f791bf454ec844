-- ===== src/Json/RoundTrip/Entries.antt =====
-- Entries of printed arrays and dictionaries, read by TransportSystem/json.cpp.
use transport_system.Prelude.{
  ℕ, zero, suc, ◌+◌, ◌≤◌, ◌<◌, ◌≡◌, refl, ap, ◌∙◌, Bool, true, false, Option, [], ◌∷◌, ◌++◌,
  append_assoc, inl, inr, arith, ℤ, Str, codes, length, length-append, ok,
}
use transport_system.Json.{
  Node, Items, Fields, array, dict, no_items, item, no_fields, field, push_back, emplace,
}
use transport_system.Json.Print.{
  print_string, print_indent, indent_step, print_node, print_items, print_fields,
}
use transport_system.Json.Load.{Parser, ◌>>=◌, read_char, load_node, load_array, load_dict}
use transport_system.Json.Plain.{
  PrintsInts, IsPlain, join_items, join, join_items-push_back, join-join, Before, find-above,
  emplace-above, IsDelimited,
}
use transport_system.Json.RoundTrip.Chars.{>>=-ok}
use transport_system.Json.RoundTrip.Scalars.{node_text-start, array_first, load_node-indent}
use transport_system.Json.RoundTrip.Loops.{array_next, load_node-line, entry_text, dict_next}

module _ {D : Type 0} (show_int : ℤ → Str) (show_double : D → Str) (stoi : Str → Option ℤ)
    (stod : Str → Option D) (p : PrintsInts show_int stoi) where
  abbrev node_text : ℕ → Node D → Str
  node_text = print_node show_int show_double

  abbrev items_text : ℕ → Bool → Items D → Str
  items_text = print_items show_int show_double

  abbrev fields_text : ℕ → Bool → Fields D → Str
  fields_text = print_fields show_int show_double

  -- What closes an array or a dictionary behind its last entry.
  abbrev closing : ℕ → ℕ → Str → Str
  closing i bracket rest = b'\n' ∷ (print_indent i ++ bracket ∷ rest)

  pub closing-append :
      (i bracket : ℕ) (s rest : Str)
      → (s ++ b'\n' ∷ (print_indent i ++ bracket ∷ [])) ++ rest ≡ s ++ closing i bracket rest
  closing-append i bracket s rest = simp append_assoc

  pub items-IsDelimited :
      (i bracket : ℕ) (xs : Items D) (rest : Str)
      → IsDelimited (items_text i false xs ++ closing i bracket rest)
  unfolding print_node
  items-IsDelimited i bracket no_items rest = inr refl
  items-IsDelimited i bracket (item v xs) rest = inl refl

  pub fields-IsDelimited :
      (i bracket : ℕ) (fs : Fields D) (rest : Str)
      → IsDelimited (fields_text i false fs ++ closing i bracket rest)
  unfolding print_node
  fields-IsDelimited i bracket no_fields rest = inr refl
  fields-IsDelimited i bracket (field k v fs) rest = inl refl

  pub length-node_text : (i : ℕ) (v : Node D) → IsPlain v → 0 < length (node_text i v)
  length-node_text i v h =
      let (c, t, start, _) = (node_text-start show_int show_double stoi stod p) i v h in
      rw start (omega arith)

  pub load_node-array :
      (fuel : ℕ) (t : Str)
      → load_node stoi stod (suc fuel) (b'[' ∷ t) ≡ load_array stoi stod fuel no_items t
  unfolding load_node read_char
  load_node-array fuel t = refl

  pub load_node-dict :
      (fuel : ℕ) (t : Str)
      → load_node stoi stod (suc fuel) (b'{' ∷ t) ≡ load_dict stoi stod fuel no_fields t
  unfolding load_node read_char
  load_node-dict fuel t = refl

  pub load_node-space :
      (fuel : ℕ) (s : Str) → load_node stoi stod fuel (b' ' ∷ s) ≡ load_node stoi stod fuel s
  unfolding load_node read_char
  load_node-space zero s = refl
  load_node-space (suc fuel) s = refl

  pub entry-append : (s t u v : Str) → (s ++ (t ++ u)) ++ v ≡ s ++ (t ++ (u ++ v))
  entry-append s t u v = simp append_assoc

  abbrev then_item : ℕ → Items D → Node D → Parser (Node D)
  then_item fuel acc w = load_array stoi stod fuel (push_back acc w)

  abbrev then_field : ℕ → Fields D → Str → Node D → Parser (Node D)
  then_field fuel acc k w = load_dict stoi stod fuel (emplace k w acc)

  pub load_node-behind :
      (fuel i : ℕ) (f : Node D → Parser (Node D)) (s : Str)
      → (load_node stoi stod fuel >>= f) (b'\n' ∷ (print_indent i ++ s))
        ≡ (load_node stoi stod fuel >>= f) s
  load_node-behind fuel i f s =
      rw
        (
          ◌>>=◌,
          (load_node-line show_int show_double stoi stod p) fuel (print_indent i ++ s),
          (load_node-indent show_int show_double stoi stod p) fuel i s,
        )
        refl

  pub load_node-gap :
      (fuel : ℕ) (f : Node D → Parser (Node D)) (s : Str)
      → (load_node stoi stod fuel >>= f) (b' ' ∷ s) ≡ (load_node stoi stod fuel >>= f) s
  load_node-gap fuel f s = rw (◌>>=◌, load_node-space fuel s) refl

  -- How long the text of the entries is.
  pub length-items_text :
      (first : Bool) (i : ℕ) (v : Node D) (xs : Items D)
      → length (node_text (i + indent_step) v) + length (items_text i false xs)
        ≤ length (items_text i first (item v xs))
  unfolding print_node
  length-items_text true i v xs = simp length-append (omega arith)
  length-items_text false i v xs = simp length-append (omega arith)

  pub length-fields_text :
      (first : Bool) (i : ℕ) (k : Str) (v : Node D) (fs : Fields D)
      → length (node_text (i + indent_step) v) + length (fields_text i false fs) + 4
        ≤ length (fields_text i first (field k v fs))
  unfolding print_node print_string
  length-fields_text true i k v fs = simp length-append (omega arith)
  length-fields_text false i k v fs = simp length-append (omega arith)

  -- The text of an entry with what follows it.
  abbrev entry_then : ℕ → Str → Node D → Str → Str
  entry_then i k v rest =
      print_indent i ++ (print_string k ++ (codes ": " ++ (node_text i v ++ rest)))

  pub entry_then-append :
      (i : ℕ) (k : Str) (v : Node D) (s rest : Str)
      → entry_then i k v s ++ rest ≡ entry_then i k v (s ++ rest)
  entry_then-append i k v s rest = simp append_assoc

  -- A value of an array with what follows it.
  pub item_then :
      (v : Node D) (xs : Items D) (i fuel : ℕ) (acc : Items D) (rest : Str)
      → load_node stoi stod fuel
          (node_text (i + indent_step) v ++ (items_text i false xs ++ closing i b']' rest))
        ≡ ok (v, items_text i false xs ++ closing i b']' rest)
      → load_array stoi stod fuel (push_back acc v) (items_text i false xs ++ closing i b']' rest)
        ≡ ok (array (join_items (push_back acc v) xs), rest)
      → (load_node stoi stod fuel >>= then_item fuel acc)
          (node_text (i + indent_step) v ++ (items_text i false xs ++ closing i b']' rest))
        ≡ ok (array (join_items acc (item v xs)), rest)
  item_then v xs i fuel acc rest value others =
      >>=-ok (load_node stoi stod fuel) (then_item fuel acc) _ value
      ∙ others
      ∙ ap (λ ys. ok (array ys, rest)) (join_items-push_back acc v xs)

  pub item_text :
      (first : Bool) (v : Node D) (xs : Items D) (i fuel : ℕ) (acc : Items D) (rest : Str)
      → IsPlain v
      → load_node stoi stod fuel
          (node_text (i + indent_step) v ++ (items_text i false xs ++ closing i b']' rest))
        ≡ ok (v, items_text i false xs ++ closing i b']' rest)
      → load_array stoi stod fuel (push_back acc v) (items_text i false xs ++ closing i b']' rest)
        ≡ ok (array (join_items (push_back acc v) xs), rest)
      → load_array stoi stod (suc fuel) acc (items_text i first (item v xs) ++ closing i b']' rest)
        ≡ ok (array (join_items acc (item v xs)), rest)
  unfolding print_node
  item_text true v xs i fuel acc rest h value others =
      ap (load_array stoi stod (suc fuel) acc) (
        entry-append (print_indent (i + indent_step)) (node_text (i + indent_step) v)
          (items_text i false xs) _)
      ∙ (array_first show_int show_double stoi stod p) fuel (i + indent_step) acc v _ h
      ∙ item_then v xs i fuel acc rest value others
  item_text false v xs i fuel acc rest h value others =
      ap (λ s. load_array stoi stod (suc fuel) acc (codes ",\n" ++ s))
        (entry-append (print_indent (i + indent_step)) (node_text (i + indent_step) v)
          (items_text i false xs) _)
      ∙ (array_next show_int show_double stoi stod p) fuel (i + indent_step) acc v _
      ∙ load_node-behind fuel (i + indent_step) (then_item fuel acc) _
      ∙ item_then v xs i fuel acc rest value others

  -- An entry of a dictionary with what follows it.
  pub field_then :
      (k : Str) (v : Node D) (fs : Fields D) (i fuel : ℕ) (acc : Fields D) (rest : Str)
      → Before acc (field k v fs)
      → load_node stoi stod fuel
          (node_text (i + indent_step) v ++ (fields_text i false fs ++ closing i b'}' rest))
        ≡ ok (v, fields_text i false fs ++ closing i b'}' rest)
      → load_dict stoi stod fuel
          (join acc (field k v no_fields))
          (fields_text i false fs ++ closing i b'}' rest)
        ≡ ok (dict (join (join acc (field k v no_fields)) fs), rest)
      → load_dict stoi stod
          (suc (suc fuel))
          acc
          (entry_then (i + indent_step) k v (fields_text i false fs) ++ closing i b'}' rest)
        ≡ ok (dict (join acc (field k v fs)), rest)
  field_then k v fs i fuel acc rest b value others =
      let more = fields_text i false fs ++ closing i b'}' rest in
      ap (load_dict stoi stod (suc (suc fuel)) acc)
        (entry_then-append (i + indent_step) k v (fields_text i false fs) (closing i b'}' rest))
      ∙ (entry_text show_int show_double stoi stod p) fuel (i + indent_step) acc k v more
          (find-above k v acc fs b)
      ∙ load_node-gap fuel (then_field fuel acc k) _
      ∙ >>=-ok (load_node stoi stod fuel) (then_field fuel acc k) _ value
      ∙ ap (λ gs. load_dict stoi stod fuel gs more) (emplace-above k v acc fs b)
      ∙ others
      ∙ ap (λ gs. ok (dict gs, rest)) (join-join acc k v fs)

  -- The fuel that is left depends on the comma.
  pub field_text :
      (first : Bool) (k : Str) (v : Node D) (fs : Fields D) (i fuel : ℕ) (acc : Fields D)
      (rest : Str)
      → Before acc (field k v fs)
      → ((n : ℕ)
          → fuel ≤ n
          → load_node stoi stod
              (suc n)
              (node_text (i + indent_step) v ++ (fields_text i false fs ++ closing i b'}' rest))
            ≡ ok (v, fields_text i false fs ++ closing i b'}' rest))
      → ((n : ℕ)
          → suc fuel ≤ n
          → load_dict stoi stod n
              (join acc (field k v no_fields))
              (fields_text i false fs ++ closing i b'}' rest)
            ≡ ok (dict (join (join acc (field k v no_fields)) fs), rest))
      → load_dict stoi stod
          (suc (suc (suc (suc fuel))))
          acc
          (fields_text i first (field k v fs) ++ closing i b'}' rest)
        ≡ ok (dict (join acc (field k v fs)), rest)
  unfolding print_node
  field_text true k v fs i fuel acc rest b value others =
      field_then k v fs i (suc (suc fuel)) acc rest b (value (suc fuel) (omega arith))
        (others (suc (suc fuel)) (omega arith))
  field_text false k v fs i fuel acc rest b value others =
      (dict_next show_int show_double stoi stod p) (suc (suc (suc fuel))) acc _
      ∙ field_then k v fs i (suc fuel) acc rest b (value fuel (omega arith))
          (others (suc fuel) (omega arith))
