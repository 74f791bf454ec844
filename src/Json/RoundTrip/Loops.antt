-- ===== src/Json/RoundTrip/Loops.antt =====
-- Single rounds of the loops of `LoadArray` and `LoadDict` (TransportSystem/json.cpp) on printed text.
use transport_system.Prelude.{
  ℕ, zero, suc, ◌≡◌, refl, ◌∙◌, Option, none, [], ◌∷◌, ◌++◌, append_assoc, ℤ, Str, codes, ok,
}
use transport_system.Json.{Node, Items, Fields, array, dict, push_back, find, emplace}
use transport_system.Json.Print.{print_chars, print_string, print_indent, print_node}
use transport_system.Json.Load.{
  ◌>>=◌, read_char, load_chars, load_node, load_array, load_dict, load_entry,
}
use transport_system.Json.Plain.{PrintsInts}
use transport_system.Json.RoundTrip.Chars.{>>=-ok, read_char-indent, load_chars-print_chars}

module _ {D : Type 0} (show_int : ℤ → Str) (show_double : D → Str) (stoi : Str → Option ℤ)
    (stod : Str → Option D) (p : PrintsInts show_int stoi) where
  abbrev node_text : ℕ → Node D → Str
  node_text = print_node show_int show_double

  -- The end of an array, and of a dictionary.
  pub array_last :
      (fuel i : ℕ) (acc : Items D) (rest : Str)
      → load_array stoi stod (suc fuel) acc (b'\n' ∷ (print_indent i ++ b']' ∷ rest))
        ≡ ok (array acc, rest)
  unfolding load_array read_char
  array_last fuel i acc rest =
      rw (read_char-indent i (b']' ∷ rest), load_array) (unfold read_char in refl)

  pub dict_last :
      (fuel i : ℕ) (acc : Fields D) (rest : Str)
      → load_dict stoi stod (suc fuel) acc (b'\n' ∷ (print_indent i ++ b'}' ∷ rest))
        ≡ ok (dict acc, rest)
  unfolding load_dict read_char
  dict_last fuel i acc rest =
      rw (read_char-indent i (b'}' ∷ rest), load_dict) (unfold read_char in refl)

  -- The rounds of the two loops after the first.
  pub array_next :
      (fuel i : ℕ) (acc : Items D) (v : Node D) (rest : Str)
      → load_array stoi stod
          (suc fuel)
          acc
          (codes ",\n" ++ (print_indent i ++ (node_text i v ++ rest)))
        ≡ (load_node stoi stod fuel >>= λ w. load_array stoi stod fuel (push_back acc w))
            (b'\n' ∷ (print_indent i ++ (node_text i v ++ rest)))
  unfolding load_array read_char
  array_next fuel i acc v rest = refl

  pub load_node-line :
      (fuel : ℕ) (s : Str) → load_node stoi stod fuel (b'\n' ∷ s) ≡ load_node stoi stod fuel s
  unfolding load_node read_char
  load_node-line zero s = refl
  load_node-line (suc fuel) s = refl

  pub entry_text :
      (fuel i : ℕ) (acc : Fields D) (k : Str) (v : Node D) (rest : Str)
      → find k acc ≡ none
      → load_dict stoi stod
          (suc (suc fuel))
          acc
          (print_indent i ++ (print_string k ++ (codes ": " ++ (node_text i v ++ rest))))
        ≡ (load_node stoi stod fuel >>= λ w. load_dict stoi stod fuel (emplace k w acc))
            (b' ' ∷ (node_text i v ++ rest))
  unfolding load_dict load_entry print_string
  entry_text fuel i acc k v rest h =
      let tail = codes ": " ++ (node_text i v ++ rest) in
      rw (read_char-indent i (print_string k ++ tail), load_dict)
        (unfold read_char in
          (>>=-ok load_chars (load_entry stoi stod (suc fuel) acc)
              ((print_chars k ++ b'"' ∷ []) ++ tail) {a = k} {rest = tail}
              (rw (append_assoc (print_chars k) (b'"' ∷ []) tail) (load_chars-print_chars k tail))
            ∙ rw (h, load_entry) refl))

  pub load_array-line :
      (fuel : ℕ) (acc : Items D) (s : Str)
      → load_array stoi stod fuel acc (b'\n' ∷ s) ≡ load_array stoi stod fuel acc s
  unfolding load_array read_char
  load_array-line zero acc s = refl
  load_array-line (suc fuel) acc s = refl

  pub load_dict-line :
      (fuel : ℕ) (acc : Fields D) (s : Str)
      → load_dict stoi stod fuel acc (b'\n' ∷ s) ≡ load_dict stoi stod fuel acc s
  unfolding load_dict read_char
  load_dict-line zero acc s = refl
  load_dict-line (suc fuel) acc s = refl

  pub dict_next :
      (fuel : ℕ) (acc : Fields D) (s : Str)
      → load_dict stoi stod (suc fuel) acc (codes ",\n" ++ s) ≡ load_dict stoi stod fuel acc s
  unfolding load_dict read_char
  dict_next zero acc s = refl
  dict_next (suc fuel) acc s = refl
