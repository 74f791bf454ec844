-- ===== src/Svg/Escape.antt =====
-- `Text::SetData` of TransportSystem/svg.cpp.
use transport_system.Prelude.{
  ℕ, zero, suc, Option, none, some, List, [], ◌∷◌, ◌++◌, Str, codes, length, ◌==◌, if◌then◌else◌,
}
use transport_system.Svg.{Text}

-- `data.find(c, from)`
unfoldable pub find : ℕ → ℕ → Str → Option ℕ
find c from [] = none
find c zero (x ∷ s) =
    if x == c then some zero else (elim (find c zero s) [ none ↦ none | some i ↦ some (suc i) ])
find c (suc from) (x ∷ s) = elim (find c from s) [ none ↦ none | some i ↦ some (suc i) ]

-- The characters before a place, and those behind it.
abbrev pub before : ℕ → Str → Str
before zero s = []
before (suc i) [] = []
before (suc i) (x ∷ s) = x ∷ before i s

-- `data.substr(i)`
abbrev pub substr : ℕ → Str → Str
substr zero s = s
substr (suc i) [] = []
substr (suc i) (x ∷ s) = substr i s

-- `data.replace(pos, npos, to + data.substr(pos + 1))`
unfoldable pub replace_at : ℕ → Str → Str → Str
replace_at pos to data' = before pos data' ++ (to ++ substr (suc pos) data')

-- The loop of one character. Each round passes a character of `data` as it was, so its length is
-- fuel enough.
unfoldable pub replace_all : ℕ → ℕ → Str → ℕ → Str → Str
unfolding find replace_at
replace_all zero symvol to pos data' = data'
replace_all (suc fuel) symvol to pos data' = elim (find symvol (suc pos) data') [
  | none ↦ data'
  | some next ↦ replace_all fuel symvol to next (replace_at next to data')
]

-- `characters_to_replace`
abbrev pub characters_to_replace : List (ℕ × Str)
characters_to_replace =
    (b'&', codes "&amp;")
    ∷ (b'"', codes "&quot;")
    ∷ (39, codes "&apos;")
    ∷ (b'<', codes "&lt;")
    ∷ (b'>', codes "&gt;")
    ∷ []

unfoldable pub replace_each : List (ℕ × Str) → Str → Str
unfolding replace_all
replace_each [] data' = data'
replace_each ((symvol, to) ∷ rest) data' =
    replace_each rest (replace_all (length data') symvol to 0 data')

unfoldable pub set_data : {D : Type 0} → Str → Text D → Text D
unfolding replace_each
set_data data' t = record t { data' = replace_each characters_to_replace data' }
