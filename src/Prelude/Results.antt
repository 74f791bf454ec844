-- ===== src/Prelude/Results.antt =====
-- Exceptions as values, for code that throws.
use mathlib.Core.Path.{◌≡◌, refl, sym, ap, ◌∙◌}
use mathlib.Core.Logic.{◌⊎◌, inl, inr}
use mathlib.Core.Option.{Option, none, some}

-- The exceptions that the sources throw, and two outcomes that no run of them reports:
-- `undefined` is undefined behaviour, `out_of_fuel` a loop that was cut short.
pub data Exception : Type 0 where
  out_of_range domain_error logic_error invalid_argument parsing_error : Exception
  undefined out_of_fuel : Exception

-- What a call of code that throws comes to.
pub data Result {ℓ} (Value : Type ℓ) : Type ℓ where
  throw : Exception → Result Value
  ok : Value → Result Value

infixl 5 ◌>>=◌
-- An exception skips what follows.
abbrev pub ◌>>=◌ {ℓ κ} :
    {Value : Type ℓ} {Next : Type κ} → Result Value → (Value → Result Next) → Result Next
throw e >>= next = throw e
ok v >>= next = next v

-- `at` and `*`: a missing value is an exception.
abbrev pub or_throw {ℓ} : {A : Type ℓ} → Exception → Option A → Result A
or_throw e none = throw e
or_throw e (some a) = ok a

module _ {ℓ κ} {Value : Type ℓ} {Next : Type κ} where
  -- What returns has returned at each of its steps.
  pub >>=-eq-ok :
      (first : Result Value) (next : Value → Result Next) {w : Next}
      → (first >>= next) ≡ ok w
      → (v : Value) × (first ≡ ok v) × (next v ≡ ok w)
  >>=-eq-ok (throw e) next returns = cc
  >>=-eq-ok (ok v) next returns = (v, refl, returns)

pub Result-cases {ℓ} :
    {A : Type ℓ} (m : Result A) → ((a : A) × (m ≡ ok a)) ⊎ ((e : Exception) × (m ≡ throw e))
Result-cases (ok a) = inl (a, refl)
Result-cases (throw e) = inr (e, refl)

-- What a result returned, when two equations say it.
pub ok_same {ℓ} : {A : Type ℓ} {r : Result A} {a b : A} → r ≡ ok a → r ≡ ok b → a ≡ b
ok_same {r = r} {a} {b} e f = let both : ok a ≡ ok b = sym e ∙ f in cc

pub throw_ok {ℓ} : {A : Type ℓ} {x : Exception} {a : A} → throw x ≡ ok a → ⊥
throw_ok h = cc

-- The same as a rule: to use that a chain has returned, use it for what its first step returned.
pub after {ℓ κ μ} :
    {Value : Type ℓ} {Next : Type κ} {Goal : Type μ} (first : Result Value)
    {next : Value → Result Next} {w : Next}
    → (first >>= next) ≡ ok w
    → ((v : Value) → first ≡ ok v → next v ≡ ok w → Goal)
    → Goal
after first {next} returns goal =
    let (v, at_v, rest) = >>=-eq-ok first next returns in goal v at_v rest

-- A step that returns goes on with what it returned.
pub >>=-of_ok {ℓ κ} :
    {Value : Type ℓ} {Next : Type κ} {first : Result Value} (next : Value → Result Next) {v : Value}
    {r : Result Next}
    → first ≡ ok v
    → next v ≡ r
    → (first >>= next) ≡ r
>>=-of_ok next e k = ap (λ x. x >>= next) e ∙ k
