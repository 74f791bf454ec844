-- ===== src/Json/Total.antt =====
-- How much of the text the reader of TransportSystem/json.cpp takes, and how much fuel.
use transport_system.Prelude.{
  ℕ, zero, suc, ◌+◌, ◌*◌, ◌≤◌, ◌<◌, ◌≡◌, refl, Bool, true, false, Option, none, some, [], ◌∷◌, ◌⊎◌,
  inl, inr, Bool-cases, Option-cases, arith, ℤ, Str, codes, str_eq, length, Result, ok, throw,
  parsing_error, ◌==◌, ◌||◌, if◌then◌else◌,
}
use transport_system.Json.{Node, Items, Fields, no_items, no_fields, push_back, emplace, find}
use transport_system.Json.Load.{
  Parser, ◌>>=◌, prepend, escaped_by, bool_of, null_of, convert_double, finish_number,
  read_exponent, read_fraction, read_whole, read_char, span, take_if, read_digits, load_chars,
  load_bool, load_null, load_literal, load_whole, load_fraction, load_exponent, convert,
  load_number, load_scalar, after_point, after_e, is_alpha, load_node, load_array, load_dict,
  load_entry, load, unescape, is_digit,
}

-- A run that throws a ParsingError, or leaves at most `bound` bytes.
pub data Leaves {ℓ} {A : Type ℓ} (bound : ℕ) : Result (A × Str) → Type ℓ where
  stops : {a : A} {rest : Str} → length rest ≤ bound → Leaves bound (ok (a, rest))
  rejects : Leaves bound (throw parsing_error)

module _ {ℓ} {A : Type ℓ} where
  Leaves-mono : {m n : ℕ} {r : Result (A × Str)} → Leaves m r → m ≤ n → Leaves n r
  Leaves-mono (stops h) k = stops (omega arith)
  Leaves-mono rejects k = rejects

  Leaves-if :
      {n : ℕ} (b : Bool) {x y : Result (A × Str)}
      → Leaves n x
      → Leaves n y
      → Leaves n (if b then x else y)
  Leaves-if true h k = h
  Leaves-if false h k = k

  Leaves-bind {κ} :
      {B : Type κ} {m n : ℕ} (p : Parser A) (f : A → Parser B) (input : Str)
      → Leaves m (p input)
      → ((a : A) (rest : Str) → length rest ≤ m → Leaves n (f a rest))
      → Leaves n ((p >>= f) input)
  Leaves-bind {m = m} {n = n} p f input h k = go (p input) h
    where
      go :
          (r : Result (A × Str))
          → Leaves m r
          → Leaves n (elim r [ ok (a, rest) ↦ f a rest | throw e ↦ throw e ])
      go (ok (a, rest)) (stops h) = k a rest h
      go (throw e) rejects = rejects

prepend-Leaves :
    {m n : ℕ} (c : ℕ) (r : Result (Str × Str)) → Leaves m r → m ≤ n → Leaves n (prepend c r)
prepend-Leaves c (ok (s, rest)) (stops h) k = stops (omega arith)
prepend-Leaves c (throw e) rejects k = rejects

read_char-lt :
    (input : Str) {c : ℕ} {rest : Str}
    → read_char input ≡ some (c, rest)
    → length rest < length input
unfolding read_char
read_char-lt [] h = cc
read_char-lt (x ∷ input) {c} {rest} h = ground (arith, read_char-lt input {c = c} {rest = rest})

span-le : (test : ℕ → Bool) (input : Str) → length (span test input).1 ≤ length input
span-le test [] = omega arith
span-le test (c ∷ input) = ground (arith, span-le test input)

take_if-Leaves : (test : ℕ → Bool) (input : Str) → Leaves (length input) (take_if test input)
take_if-Leaves test [] = stops (omega arith)
take_if-Leaves test (c ∷ input) = Leaves-if (test c) (stops (omega arith)) (stops (omega arith))

read_digits-Leaves : (n : ℕ) (input : Str) → length input ≤ suc n → Leaves n (read_digits input)
read_digits-Leaves n [] h = rejects
read_digits-Leaves n (c ∷ input) h = elim (Bool-cases (is_digit c)) [
  | inl e ↦ rw e (stops (omega (arith, span-le is_digit input)))
  | inr e ↦ rw e rejects
]

load_whole-Leaves : (n : ℕ) (input : Str) → length input ≤ suc n → Leaves n (load_whole input)
unfolding load_whole
load_whole-Leaves n [] h = rejects
load_whole-Leaves n (c ∷ input) h = elim (Bool-cases (c == b'0')) [
  | inl e ↦ rw e (stops (omega arith))
  | inr e ↦ rw e (read_digits-Leaves n (c ∷ input) h)
]

after_point-Leaves : (n : ℕ) (dot input : Str) → length input ≤ n → Leaves n (after_point dot input)
after_point-Leaves n [] input h = stops h
after_point-Leaves n (c ∷ cs) input h =
    Leaves-bind read_digits _ input (read_digits-Leaves n input (omega arith)) λ ds left k. stops k

load_fraction-Leaves : (n : ℕ) (input : Str) → length input ≤ n → Leaves n (load_fraction input)
unfolding load_fraction
load_fraction-Leaves n input h =
    Leaves-bind (take_if (λ c. c == b'.')) after_point input (take_if-Leaves _ input)
      λ dot rest k. after_point-Leaves n dot rest (omega arith)

after_e-Leaves : (n : ℕ) (e input : Str) → length input ≤ n → Leaves n (after_e e input)
after_e-Leaves n [] input h = stops h
after_e-Leaves n (c ∷ cs) input h =
    Leaves-bind (take_if (λ c. c == b'+' || c == b'-')) _ input (take_if-Leaves _ input)
      λ sign rest k.
        Leaves-bind read_digits _ rest (read_digits-Leaves n rest (omega arith))
          λ ds left k'. stops k'

load_exponent-Leaves : (n : ℕ) (input : Str) → length input ≤ n → Leaves n (load_exponent input)
unfolding load_exponent
load_exponent-Leaves n input h =
    Leaves-bind (take_if (λ c. c == b'e' || c == b'E')) after_e input (take_if-Leaves _ input)
      λ e rest k. after_e-Leaves n e rest (omega arith)

load_literal-Leaves :
    (c : ℕ) (input : Str) → is_alpha c ≡ true → Leaves (length input) (load_literal (c ∷ input))
unfolding load_literal
load_literal-Leaves c input h = rw h (stops (span-le is_alpha input))

escaped_by-Leaves :
    {m n : ℕ} (o : Option ℕ) (r : Result (Str × Str))
    → Leaves m r
    → m ≤ n
    → Leaves n (escaped_by o r)
escaped_by-Leaves none r h k = rejects
escaped_by-Leaves (some x) r h k = prepend-Leaves x r h k

load_chars-Leaves : (input : Str) → Leaves (length input) (load_chars input)
unfolding load_chars
load_chars-Leaves [] = rejects
load_chars-Leaves (c ∷ []) = Leaves-if (c == b'"') (stops (omega arith)) rejects
load_chars-Leaves (c ∷ e ∷ rest) = Leaves-if (c == b'"') (stops (omega arith)) (
    Leaves-if (c == b'\\')
      (escaped_by-Leaves (unescape e) (load_chars rest) (load_chars-Leaves rest) (omega arith))
      (Leaves-if (c == b'\n' || c == b'\r') rejects
        (prepend-Leaves c (load_chars (e ∷ rest)) (load_chars-Leaves (e ∷ rest)) (omega arith))))

module _ {D : Type 0} where
  load_bool-Leaves :
      (c : ℕ) (input : Str)
      → is_alpha c ≡ true
      → Leaves (length input) (load_bool {D = D} (c ∷ input))
  unfolding load_bool
  load_bool-Leaves c input h =
      Leaves-bind load_literal bool_of (c ∷ input) (load_literal-Leaves c input h) λ s rest k.
        Leaves-if (str_eq s (codes "true")) (stops k)
          (Leaves-if (str_eq s (codes "false")) (stops k) rejects)

  load_null-Leaves :
      (c : ℕ) (input : Str)
      → is_alpha c ≡ true
      → Leaves (length input) (load_null {D = D} (c ∷ input))
  unfolding load_null
  load_null-Leaves c input h =
      Leaves-bind load_literal null_of (c ∷ input) (load_literal-Leaves c input h)
        λ s rest k. Leaves-if (str_eq s (codes "null")) (stops k) rejects

module _ {D : Type 0} (stoi : Str → Option ℤ) (stod : Str → Option D) where
  convert_double-Leaves :
      (n : ℕ) (s input : Str) → length input ≤ n → Leaves n (convert_double stoi stod s input)
  convert_double-Leaves n s input h = elim (Option-cases (stod s)) [
    | inl e ↦ rw (e, convert_double) rejects
    | inr (x, e) ↦ rw (e, convert_double) (stops h)
  ]

  convert-Leaves :
      (n : ℕ) (b : Bool) (s input : Str) → length input ≤ n → Leaves n (convert stoi stod b s input)
  convert-Leaves n true s input h = elim (Option-cases (stoi s)) [
    | inl e ↦ rw (e, convert) (convert_double-Leaves n s input h)
    | inr (x, e) ↦ rw (e, convert) (stops h)
  ]
  convert-Leaves n false s input h = convert_double-Leaves n s input h

  load_number-Leaves :
      (n : ℕ) (input : Str) → length input ≤ suc n → Leaves n (load_number stoi stod input)
  unfolding load_number
  load_number-Leaves n input h =
      Leaves-bind (take_if (λ c. c == b'-')) (read_whole stoi stod) input (take_if-Leaves _ input)
        λ sign i₁ k₁.
          Leaves-bind load_whole (read_fraction stoi stod sign) i₁
            (load_whole-Leaves n i₁ (omega arith))
            λ whole i₂ k₂.
              Leaves-bind load_fraction (read_exponent stoi stod sign whole) i₂
                (load_fraction-Leaves n i₂ k₂)
                λ fraction i₃ k₃.
                  Leaves-bind load_exponent (finish_number stoi stod sign whole fraction) i₃
                    (load_exponent-Leaves n i₃ k₃) λ exponent i₄ k₄. convert-Leaves n _ _ i₄ k₄

  load_scalar-Leaves : (c : ℕ) (input : Str) → Leaves (length input) (load_scalar stoi stod c input)
  unfolding load_scalar
  load_scalar-Leaves c input = elim (Bool-cases (c == b't' || c == b'f')) [
    | inl e ↦ rw e (load_bool-Leaves c input (ground arith))
    | inr e ↦ rw e (elim (Bool-cases (c == b'n')) [
      | inl e' ↦ rw e' (load_null-Leaves c input (ground arith))
      | inr e' ↦ rw e' (load_number-Leaves (length input) (c ∷ input) (omega arith))
    ])
  ]

  mutual
    unfolding load_node

    load_node-Leaves :
        (fuel : ℕ) (input : Str) (n : ℕ)
        → length input ≤ suc n
        → 2 * length input < fuel
        → Leaves n (load_node stoi stod fuel input)
    load_node-Leaves zero input n h f = absurd (omega arith)
    load_node-Leaves (suc fuel) input n h f = elim (Option-cases (read_char input)) [
      | inl e ↦ rw (e, load_node) rejects
      | inr ((c, rest), e) ↦
          let shorter = read_char-lt input e in
          rw (e, load_node)
            (Leaves-if (c == b'[')
              (load_array-Leaves fuel no_items rest n (omega arith) (omega arith))
              (Leaves-if (c == b'{')
                (load_dict-Leaves fuel no_fields rest n (omega arith) (omega arith))
                (Leaves-if (c == b'"')
                  (Leaves-bind load_chars _ rest (load_chars-Leaves rest)
                    λ s left k. stops (omega arith))
                  (Leaves-mono (load_scalar-Leaves c rest) (omega arith)))))
    ]

    load_array-Leaves :
        (fuel : ℕ) (result : Items D) (input : Str) (n : ℕ)
        → length input ≤ n
        → 2 * length input + 1 < fuel
        → Leaves n (load_array stoi stod fuel result input)
    load_array-Leaves zero result input n h f = absurd (omega arith)
    load_array-Leaves (suc fuel) result input n h f = elim (Option-cases (read_char input)) [
      | inl e ↦ rw (e, load_array) rejects
      | inr ((c, rest), e) ↦
          let shorter = read_char-lt input e in
          rw (e, load_array)
            (Leaves-if (c == b']') (stops (omega arith)) (
              Leaves-bind (load_node stoi stod fuel) _ (if c == b',' then rest else c ∷ rest)
                (load_node-Leaves fuel (if c == b',' then rest else c ∷ rest) (length rest)
                  (ground arith) (ground arith))
                λ v left k.
                  load_array-Leaves fuel (push_back result v) left n (omega arith) (omega arith)))
    ]

    load_dict-Leaves :
        (fuel : ℕ) (entries : Fields D) (input : Str) (n : ℕ)
        → length input ≤ n
        → 2 * length input + 1 < fuel
        → Leaves n (load_dict stoi stod fuel entries input)
    load_dict-Leaves zero entries input n h f = absurd (omega arith)
    load_dict-Leaves (suc fuel) entries input n h f = elim (Option-cases (read_char input)) [
      | inl e ↦ rw (e, load_dict) rejects
      | inr ((c, rest), e) ↦
          let shorter = read_char-lt input e in
          rw (e, load_dict)
            (Leaves-if (c == b'}') (stops (omega arith)) (
              Leaves-if (c == b'"')
                (Leaves-bind load_chars _ rest (load_chars-Leaves rest) λ key left k.
                  load_entry-Leaves fuel entries key left n (omega arith) (omega arith))
                (Leaves-if (c == b',')
                  (load_dict-Leaves fuel entries rest n (omega arith) (omega arith)) rejects)))
    ]

    load_entry-Leaves :
        (fuel : ℕ) (entries : Fields D) (key : Str) (input : Str) (n : ℕ)
        → length input ≤ n
        → 2 * length input + 1 < fuel
        → Leaves n (load_entry stoi stod fuel entries key input)
    load_entry-Leaves zero entries key input n h f = absurd (omega arith)
    load_entry-Leaves (suc fuel) entries key input n h f = elim (Option-cases (read_char input)) [
      | inl e ↦ rw (e, load_entry) rejects
      | inr ((c, rest), e) ↦
          let shorter = read_char-lt input e in
          let value : Leaves n (
              (load_node stoi stod fuel >>= λ v. load_dict stoi stod fuel (emplace key v entries))
                rest) =
            Leaves-bind (load_node stoi stod fuel) _ rest
              (load_node-Leaves fuel rest (length rest) (omega arith) (omega arith))
              λ v left k.
                load_dict-Leaves fuel (emplace key v entries) left n (omega arith) (omega arith) in
          rw (e, load_entry)
            (Leaves-if (c == b':')
              (elim (Option-cases (find key entries)) [
                | inl q ↦ rw (q) value
                | inr (w, q) ↦ rw (q) rejects
              ])
              rejects)
    ]

  -- Reading a document ends: Load returns a value and leaves fewer bytes than there were, or it
  -- throws a ParsingError. The fuel of the model never runs out.
  pub load_ends :
      (input : Str)
      → ((v : Node D) × (rest : Str) × (load stoi stod input ≡ ok (v, rest))
          × (length rest < length input))
        ⊎ (load stoi stod input ≡ throw parsing_error)
  unfolding load
  load_ends [] = inr (unfold load_node read_char in refl)
  load_ends (c ∷ input) =
      finished (load stoi stod (c ∷ input))
        (load_node-Leaves _ (c ∷ input) (length input) (omega arith) (omega arith))
    where
      finished :
          (r : Result (Node D × Str))
          → Leaves (length input) r
          → ((v : Node D) × (rest : Str) × (r ≡ ok (v, rest)) × (length rest < suc (length input)))
            ⊎ (r ≡ throw parsing_error)
      finished (ok (v, rest)) (stops h) = inl (v, rest, refl, omega arith)
      finished (throw e) rejects = inr refl
