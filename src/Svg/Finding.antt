-- ===== src/Svg/Finding.antt =====
-- `std::string::find` and `std::string::replace` as TransportSystem/svg.cpp uses them.
use transport_system.Prelude.{
  ℕ, suc, ◌+◌, ◌≡◌, refl, sym, ap, ◌∙◌, false, Option, none, some, [], ◌∷◌, ◌++◌, arith, Str,
  length, length-append, ◌==◌,
}
use transport_system.Svg.Escape.{find, before, substr, replace_at}

abbrev shift : ℕ → Option ℕ → Option ℕ
shift n none = none
shift n (some i) = some (n + i)

shift-suc :
    (n : ℕ) (o : Option ℕ)
    → (elim (shift n o) [ none ↦ none | some i ↦ some (suc i) ]) ≡ shift (suc n) o
shift-suc n none = refl
shift-suc n (some i) = ap some (omega arith)

shift-shift :
    (n : ℕ) (o : Option ℕ)
    → shift n (elim o [ none ↦ none | some i ↦ some (suc i) ]) ≡ shift (suc n) o
shift-shift n none = refl
shift-shift n (some i) = ap some (omega arith)

shift-zero : (o : Option ℕ) → shift 0 o ≡ o
shift-zero none = refl
shift-zero (some i) = ap some (omega arith)

pub find-append :
    (c : ℕ) (done rest : Str)
    → find c (length done) (done ++ rest) ≡ shift (length done) (find c 0 rest)
unfolding find
find-append c [] rest = sym (shift-zero (find c 0 rest))
find-append c (x ∷ done) rest =
    rw (find-append c done rest) (shift-suc (length done) (find c 0 rest))

-- A character that is not looked for is passed.
pub find-pass :
    (c x : ℕ) (done rest : Str)
    → (x == c) ≡ false
    → find c (length done) (done ++ x ∷ rest)
      ≡ find c (suc (length done)) ((done ++ x ∷ []) ++ rest)
unfolding find
find-pass c x done rest h =
    let behind : length (done ++ x ∷ []) ≡ suc (length done) =
      length-append done (x ∷ []) ∙ omega arith in
    let here : find c 0 (x ∷ rest)
        ≡ (elim (find c 0 rest) [ none ↦ none | some i ↦ some (suc i) ]) =
      rw h refl in
    find-append c done (x ∷ rest)
    ∙ ap (shift (length done)) here
    ∙ shift-shift (length done) (find c 0 rest)
    ∙ ap (λ n. shift n (find c 0 rest)) (sym behind)
    ∙ sym (find-append c (done ++ x ∷ []) rest)
    ∙ ap (λ n. find c n ((done ++ x ∷ []) ++ rest)) behind

pub find-here :
    (c : ℕ) (done rest : Str) → find c (length done) (done ++ c ∷ rest) ≡ some (length done)
unfolding find
find-here c done rest = find-append c done (c ∷ rest) ∙ ground (arith)

before-append : (done rest : Str) → before (length done) (done ++ rest) ≡ done
before-append [] rest = refl
before-append (x ∷ done) rest = ap (◌∷◌ x) (before-append done rest)

substr-append : (x : ℕ) (done rest : Str) → substr (suc (length done)) (done ++ x ∷ rest) ≡ rest
substr-append x [] rest = refl
substr-append x (y ∷ done) rest = substr-append x done rest

pub replace_at-append :
    (to done rest : Str) (x : ℕ)
    → replace_at (length done) to (done ++ x ∷ rest) ≡ done ++ (to ++ rest)
unfolding replace_at
replace_at-append to done rest x =
    rw (before-append done (x ∷ rest), substr-append x done rest) refl
