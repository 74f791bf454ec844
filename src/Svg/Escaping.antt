-- ===== src/Svg/Escaping.antt =====
-- What `Text::SetData` of TransportSystem/svg.cpp makes of a text.
use transport_system.Prelude.{
  ℕ, ◌≡◌, refl, sym, ap, ◌∙◌, List, [], ◌∷◌, ◌++◌, append_assoc, arith, Str, codes, ◌==◌,
  if◌then◌else◌,
}
use transport_system.Svg.{Text}
use transport_system.Svg.Escape.{replace_all, characters_to_replace, replace_each, set_data}
use transport_system.Svg.Replacing.{replace_char, IsFree, replace_all-tail}

-- A character of SVG text, written so that no markup is read in it.
unfoldable pub escape_char : ℕ → Str
escape_char c =
    if c == b'&'
    then codes "&amp;"
    else if c == b'"'
    then codes "&quot;"
    else if c == 39
    then codes "&apos;"
    else if c == b'<'
    then codes "&lt;"
    else if c == b'>'
    then codes "&gt;"
    else c ∷ []

unfoldable pub escape : Str → Str
unfolding escape_char
escape [] = []
escape (c ∷ s) = escape_char c ++ escape s

-- All but the first character.
abbrev pub escape_tail : Str → Str
escape_tail [] = []
escape_tail (c ∷ s) = c ∷ escape s

replace_char-append :
    (c : ℕ) (to s t : Str) → replace_char c to (s ++ t) ≡ replace_char c to s ++ replace_char c to t
replace_char-append c to [] t = refl
replace_char-append c to (x ∷ s) t =
    ap (λ u. (if x == c then to else x ∷ []) ++ u) (replace_char-append c to s t)
    ∙ sym (append_assoc (if x == c then to else x ∷ []) (replace_char c to s) (replace_char c to t))

abbrev replace_chars : List (ℕ × Str) → Str → Str
replace_chars [] s = s
replace_chars ((c, to) ∷ table) s = replace_chars table (replace_char c to s)

replace_chars-append :
    (table : List (ℕ × Str)) (s t : Str)
    → replace_chars table (s ++ t) ≡ replace_chars table s ++ replace_chars table t
replace_chars-append [] s t = refl
replace_chars-append ((c, to) ∷ table) s t =
    ap (replace_chars table) (replace_char-append c to s t)
    ∙ replace_chars-append table (replace_char c to s) (replace_char c to t)

replace_chars-one : (x : ℕ) → replace_chars characters_to_replace (x ∷ []) ≡ escape_char x
unfolding escape_char
replace_chars-one x = ground arith

replace_chars-escape : (s : Str) → replace_chars characters_to_replace s ≡ escape s
unfolding escape
replace_chars-escape [] = refl
replace_chars-escape (x ∷ s) =
    replace_chars-append characters_to_replace (x ∷ []) s
    ∙ ap (λ u. u ++ replace_chars characters_to_replace s) (replace_chars-one x)
    ∙ ap (λ u. escape_char x ++ u) (replace_chars-escape s)

-- Every text that replaces a character begins with a character and holds no other copy of it.
abbrev IsTable : List (ℕ × Str) → Type 0
IsTable [] = Unit
IsTable ((c, []) ∷ table) = ⊥
IsTable ((c, h ∷ t) ∷ table) = IsFree c t × IsTable table

replace_each-tail :
    (table : List (ℕ × Str)) (x : ℕ) (s : Str)
    → IsTable table
    → replace_each table (x ∷ s) ≡ x ∷ replace_chars table s
unfolding replace_each
replace_each-tail [] x s k = refl
replace_each-tail ((c, []) ∷ table) x s k = absurd k
replace_each-tail ((c, h ∷ t) ∷ table) x s k =
    ap (replace_each table) (replace_all-tail c h t k.0 x s)
    ∙ replace_each-tail table x (replace_char c (h ∷ t) s) k.1

characters_to_replace-IsTable : IsTable characters_to_replace
characters_to_replace-IsTable = (
  (refl, (refl, (refl, (refl, tt)))),
  (
    (refl, (refl, (refl, (refl, (refl, tt))))),
    (
      (refl, (refl, (refl, (refl, (refl, tt))))),
      ((refl, (refl, (refl, tt))), ((refl, (refl, (refl, tt))), tt)),
    ),
  ),
)

-- `SetData` stores the text with all its characters escaped but the first, which it leaves as it is.
pub set_data-escape :
    {D : Type 0} (s : Str) (t : Text D) → set_data s t ≡ record t { data' = escape_tail s }
unfolding set_data
set_data-escape [] t = unfold replace_each replace_all in refl
set_data-escape (x ∷ s) t =
    ap (λ u. record t { data' = u })
      (replace_each-tail characters_to_replace x s characters_to_replace-IsTable
        ∙ ap (◌∷◌ x) (replace_chars-escape s))
