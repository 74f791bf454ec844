-- ===== src/Svg/Replacing.antt =====
-- The loop of `Text::SetData` (TransportSystem/svg.cpp) for one character.
use transport_system.Prelude.{
  ℕ, zero, suc, ◌+◌, ◌≤◌, ◌≡◌, refl, sym, ap, subst, ◌∙◌, false, Bool-cases, Option, none, some, [],
  ◌∷◌, ◌++◌, append_assoc, append-nil, inl, inr, arith, Str, length, length-append, ◌==◌,
  if◌then◌else◌,
}
use transport_system.Svg.Escape.{find, replace_at, replace_all}
use transport_system.Svg.Finding.{find-append, find-pass, find-here, replace_at-append}

-- Each occurrence of one character is replaced.
abbrev pub replace_char : ℕ → Str → Str → Str
replace_char c to [] = []
replace_char c to (x ∷ s) = (if x == c then to else x ∷ []) ++ replace_char c to s

abbrev pub IsFree : ℕ → Str → Type 0
IsFree c [] = Unit
IsFree c (x ∷ s) = ((x == c) ≡ false) × IsFree c s

module _ (c h : ℕ) (t : Str) (free : IsFree c t) where
  abbrev loop : ℕ → ℕ → Str → Str
  loop fuel = replace_all fuel c (h ∷ t)

  -- What a round does with what it found.
  abbrev round : ℕ → Str → Option ℕ → Str
  round fuel s o = elim o [ none ↦ s | some next ↦ loop fuel next (replace_at next (h ∷ t) s) ]

  loop-pass :
      (fuel pos x : ℕ) (done rest : Str)
      → length done ≡ suc pos
      → (x == c) ≡ false
      → loop fuel pos (done ++ x ∷ rest) ≡ loop fuel (suc pos) ((done ++ x ∷ []) ++ rest)
  unfolding replace_all
  loop-pass zero pos x done rest e k = sym (append_assoc done (x ∷ []) rest)
  loop-pass (suc fuel) pos x done rest e k =
      let assoc : (done ++ x ∷ []) ++ rest ≡ done ++ x ∷ rest = append_assoc done (x ∷ []) rest in
      let found : find c (suc pos) (done ++ x ∷ rest) ≡ find c (suc (suc pos)) (done ++ x ∷ rest) =
        subst (λ n. find c n (done ++ x ∷ rest) ≡ find c (suc n) (done ++ x ∷ rest)) e
          (find-pass c x done rest k ∙ ap (find c (suc (length done))) assoc) in
      ap (λ o. round fuel (done ++ x ∷ rest) o) found ∙ ap (loop (suc fuel) (suc pos)) (sym assoc)

  loop-free :
      (fuel pos : ℕ) (s done rest : Str)
      → length done ≡ suc pos
      → IsFree c s
      → loop fuel pos (done ++ (s ++ rest)) ≡ loop fuel (pos + length s) ((done ++ s) ++ rest)
  loop-free fuel pos [] done rest e k =
      ap (loop fuel pos) (ap (λ u. u ++ rest) (sym (append-nil done)))
      ∙ ap (λ n. loop fuel n ((done ++ []) ++ rest)) (omega arith)
  loop-free fuel pos (x ∷ s) done rest e k =
      let count : length (done ++ x ∷ []) ≡ suc (suc pos) =
        length-append done (x ∷ []) ∙ omega arith in
      let assoc : (done ++ x ∷ []) ++ s ≡ done ++ x ∷ s = append_assoc done (x ∷ []) s in
      loop-pass fuel pos x done (s ++ rest) e k.0
      ∙ loop-free fuel (suc pos) s (done ++ x ∷ []) rest count k.1
      ∙ ap (λ u. loop fuel (suc pos + length s) (u ++ rest)) assoc
      ∙ ap (λ n. loop fuel n ((done ++ x ∷ s) ++ rest)) (omega arith)

  -- A character that is replaced: the loop goes on behind what is put in its place.
  loop-found :
      (fuel pos : ℕ) (done rest : Str)
      → length done ≡ suc pos
      → loop (suc fuel) pos (done ++ c ∷ rest)
        ≡ loop fuel (suc pos + length t) ((done ++ h ∷ t) ++ rest)
  unfolding replace_all
  loop-found fuel pos done rest e =
      let found : find c (suc pos) (done ++ c ∷ rest) ≡ some (suc pos) =
        rw e at (find-here c done rest) in
      let count : length (done ++ h ∷ []) ≡ suc (suc pos) =
        length-append done (h ∷ []) ∙ omega arith in
      ap (λ o. round fuel (done ++ c ∷ rest) o) found
      ∙ ap (λ n. loop fuel (suc pos) (replace_at n (h ∷ t) (done ++ c ∷ rest))) (sym e)
      ∙ ap (loop fuel (suc pos))
          (replace_at-append (h ∷ t) done rest c ∙ sym (append_assoc done (h ∷ []) (t ++ rest)))
      ∙ loop-free fuel (suc pos) t (done ++ h ∷ []) rest count free
      ∙ ap (λ u. loop fuel (suc pos + length t) (u ++ rest)) (append_assoc done (h ∷ []) t)

  loop-end :
      (fuel pos : ℕ) (done : Str) → length done ≡ suc pos → loop fuel pos (done ++ []) ≡ done ++ []
  unfolding replace_all find
  loop-end zero pos done e = refl
  loop-end (suc fuel) pos done e =
      let found : find c (suc pos) (done ++ []) ≡ none = rw e at (find-append c done []) in
      ap (λ o. round fuel (done ++ []) o) found

  -- Behind the characters that are done, all occurrences are replaced.
  loop-replace_char :
      (rest done : Str) (fuel pos : ℕ)
      → length done ≡ suc pos
      → length rest ≤ fuel
      → loop fuel pos (done ++ rest) ≡ done ++ replace_char c (h ∷ t) rest
  loop-replace_char [] done fuel pos e f = loop-end fuel pos done e
  loop-replace_char (x ∷ rest) done zero pos e f = absurd (omega arith)
  loop-replace_char (x ∷ rest) done (suc fuel) pos e f = elim (Bool-cases (x == c)) [
    | inl k ↦
        let same : x ≡ c = ground (arith, k) in
        let count : length (done ++ h ∷ t) ≡ suc (suc pos + length t) =
          length-append done (h ∷ t) ∙ omega arith in
        ap (λ y. loop (suc fuel) pos (done ++ y ∷ rest)) same
        ∙ loop-found fuel pos done rest e
        ∙ loop-replace_char rest (done ++ h ∷ t) fuel (suc pos + length t) count (omega arith)
        ∙ append_assoc done (h ∷ t) (replace_char c (h ∷ t) rest)
        ∙ rw k refl
    | inr k ↦
        let count : length (done ++ x ∷ []) ≡ suc (suc pos) =
          length-append done (x ∷ []) ∙ omega arith in
        loop-pass (suc fuel) pos x done rest e k
        ∙ loop-replace_char rest (done ++ x ∷ []) (suc fuel) (suc pos) count (omega arith)
        ∙ append_assoc done (x ∷ []) (replace_char c (h ∷ t) rest)
        ∙ rw k refl
  ]

  -- The loop as the source runs it.
  pub replace_all-tail :
      (x : ℕ) (s : Str)
      → replace_all (length (x ∷ s)) c (h ∷ t) 0 (x ∷ s) ≡ x ∷ replace_char c (h ∷ t) s
  replace_all-tail x s = loop-replace_char s (x ∷ []) (length (x ∷ s)) 0 refl (omega arith)
