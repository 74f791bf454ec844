-- ===== src/Json/Print.antt =====
-- The printing half of TransportSystem/json.cpp. `out << int` and `out << double` are the
-- standard library's, and are arguments.
use transport_system.Prelude.{
  ℕ, ◌+◌, Bool, true, false, [], ◌∷◌, ◌++◌, ℤ, Str, codes, ◌==◌, ◌||◌, replicate, if◌then◌else◌,
}
use transport_system.Json.{
  Node, Items, Fields, null, array, dict, bool, int, double, string, no_items, item, no_fields,
  field,
}

-- The loop of `PrintString` for one character.
unfoldable pub print_char : ℕ → Str
print_char c =
    if c == b'\r'
    then codes "\\r"
    else if c == b'\n'
    then codes "\\n"
    else if c == b'"' || c == b'\\'
    then b'\\' ∷ c ∷ []
    else c ∷ []

unfoldable pub print_chars : Str → Str
print_chars [] = []
print_chars (c ∷ s) = print_char c ++ print_chars s

unfoldable pub print_string : Str → Str
print_string s = b'"' ∷ (print_chars s ++ b'"' ∷ [])

unfoldable pub print_indent : ℕ → Str
print_indent indent = replicate indent b' '

-- Before each entry but the first.
abbrev pub separator : Bool → Str
separator first = if first then [] else codes ",\n"

abbrev pub indent_step : ℕ
indent_step = 4

module _ {D : Type 0} (show_int : ℤ → Str) (show_double : D → Str) where
  unfoldable mutual
    unfolding print_indent print_string

    pub print_node : ℕ → Node D → Str
    print_node indent null = codes "null"
    print_node indent (array xs) =
        codes "[\n" ++ (print_items indent true xs ++ b'\n' ∷ (print_indent indent ++ b']' ∷ []))
    print_node indent (dict fs) =
        codes "{\n" ++ (print_fields indent true fs ++ b'\n' ∷ (print_indent indent ++ b'}' ∷ []))
    print_node indent (bool b) = if b then codes "true" else codes "false"
    print_node indent (int z) = show_int z
    print_node indent (double x) = show_double x
    print_node indent (string s) = print_string s

    pub print_items : ℕ → Bool → Items D → Str
    print_items indent first no_items = []
    print_items indent first (item v xs) =
        separator first
        ++ (print_indent (indent + indent_step)
            ++ (print_node (indent + indent_step) v ++ print_items indent false xs))

    pub print_fields : ℕ → Bool → Fields D → Str
    print_fields indent first no_fields = []
    print_fields indent first (field k v fs) =
        separator first
        ++ (print_indent (indent + indent_step)
            ++ (print_string k
                ++ (codes ": "
                    ++ (print_node (indent + indent_step) v ++ print_fields indent false fs))))

  -- `Print`
  unfoldable pub print : Node D → Str
  unfolding print_node
  print root = print_node 0 root
