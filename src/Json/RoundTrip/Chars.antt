-- ===== src/Json/RoundTrip/Chars.antt =====
-- Characters, strings and numerals that TransportSystem/json.cpp prints and reads back.
use transport_system.Prelude.{
  ℕ, zero, suc, ◌≡◌, refl, Bool, true, false, some, [], ◌∷◌, ◌++◌, append_assoc, inl, inr, arith,
  Str, ok, ◌==◌, ◌||◌,
}
use transport_system.Json.Print.{print_char, print_chars, print_indent}
use transport_system.Json.Load.{
  Parser, ◌>>=◌, prepend, escaped_by, unescape, read_char, span, take_if, is_digit, is_alpha,
  is_space, peek, load_chars, load_whole, load_fraction, load_exponent, after_point, after_e,
}
use transport_system.Json.Plain.{AllDigits, IsDecimal, zero_digit, digits, IsDelimited}

-- A step of a parser that returns.
pub >>=-ok {ℓ κ} :
    {A : Type ℓ} {B : Type κ} (p : Parser A) (f : A → Parser B) (input : Str) {a : A} {rest : Str}
    → p input ≡ ok (a, rest)
    → (p >>= f) input ≡ f a rest
>>=-ok p f input e = rw (e, ◌>>=◌) refl

pub read_char-here : (c : ℕ) (s : Str) → is_space c ≡ false → read_char (c ∷ s) ≡ some (c, s)
unfolding read_char
read_char-here c s h = rw h refl

pub read_char-indent : (i : ℕ) (s : Str) → read_char (print_indent i ++ s) ≡ read_char s
unfolding read_char print_indent
read_char-indent zero s = refl
read_char-indent (suc i) s = read_char-indent i s

pub load_chars-plain :
    (c : ℕ) (t : Str)
    → (c == b'"') ≡ false
    → (c == b'\\') ≡ false
    → (c == b'\n') ≡ false
    → (c == b'\r') ≡ false
    → load_chars (c ∷ t) ≡ prepend c (load_chars t)
unfolding load_chars
load_chars-plain c [] q b n r = rw q refl
load_chars-plain c (e ∷ t) q b n r = rw (q, b, n, r) refl

pub load_chars-escape :
    (e : ℕ) (t : Str) → load_chars (b'\\' ∷ e ∷ t) ≡ escaped_by (unescape e) (load_chars t)
unfolding load_chars
load_chars-escape e t = refl

pub load_chars-print_char :
    (c : ℕ) (t : Str) → load_chars (print_char c ++ t) ≡ prepend c (load_chars t)
unfolding print_char
load_chars-print_char c t = ground (
  arith,
  load_chars-plain c t,
  load_chars-escape b'r' t,
  load_chars-escape b'n' t,
  load_chars-escape c t,
)

pub load_chars-print_chars :
    (s rest : Str) → load_chars (print_chars s ++ b'"' ∷ rest) ≡ ok (s, rest)
unfolding print_chars
load_chars-print_chars [] [] = unfold load_chars in refl
load_chars-print_chars [] (c ∷ rest) = unfold load_chars in refl
load_chars-print_chars (c ∷ s) rest =
    rw
      (
        append_assoc (print_char c) (print_chars s) (b'"' ∷ rest),
        load_chars-print_char c (print_chars s ++ b'"' ∷ rest),
        load_chars-print_chars s rest,
      )
      refl

-- Numerals.
pub span-digits :
    (s rest : Str)
    → AllDigits s
    → is_digit (peek rest) ≡ false
    → span is_digit (s ++ rest) ≡ (s, rest)
span-digits [] [] h e = refl
span-digits [] (c ∷ rest) h e = rw e refl
span-digits (c ∷ s) rest h e = rw (h.0, span-digits s rest h.1 e) refl

pub peek-digit : (rest : Str) → IsDelimited rest → is_digit (peek rest) ≡ false
peek-digit [] d = refl
peek-digit (c ∷ rest) (inl e) = rw e refl
peek-digit (c ∷ rest) (inr e) = rw e refl

pub span-delimited : (rest : Str) → IsDelimited rest → span is_alpha rest ≡ ([], rest)
span-delimited [] d = refl
span-delimited (c ∷ rest) (inl e) = rw e refl
span-delimited (c ∷ rest) (inr e) = rw e refl

pub take_if-delimited :
    (test : ℕ → Bool) (rest : Str)
    → test b',' ≡ false
    → test b'\n' ≡ false
    → IsDelimited rest
    → take_if test rest ≡ ok ([], rest)
take_if-delimited test [] h k d = refl
take_if-delimited test (c ∷ rest) h k (inl e) = rw (e, h) refl
take_if-delimited test (c ∷ rest) h k (inr e) = rw (e, k) refl

pub load_whole-decimal :
    (s rest : Str) → IsDelimited rest → IsDecimal s → load_whole (s ++ rest) ≡ ok (s, rest)
unfolding load_whole
load_whole-decimal s rest d zero_digit = refl
load_whole-decimal s rest d (digits c t h nonzero all) =
    rw (nonzero, h, span-digits t rest all (peek-digit rest d)) refl

pub load_fraction-delimited : (rest : Str) → IsDelimited rest → load_fraction rest ≡ ok ([], rest)
unfolding load_fraction
load_fraction-delimited rest d =
    >>=-ok (take_if (λ c. c == b'.')) after_point rest (take_if-delimited _ rest refl refl d)

pub load_exponent-delimited : (rest : Str) → IsDelimited rest → load_exponent rest ≡ ok ([], rest)
unfolding load_exponent
load_exponent-delimited rest d =
    >>=-ok (take_if (λ c. c == b'e' || c == b'E')) after_e rest
      (take_if-delimited _ rest refl refl d)

-- The first character of a numeral.
abbrev pub IsStart : ℕ → Type 0
IsStart c = (is_digit c || c == b'-') ≡ true

pub decimal-start :
    (s : Str) → IsDecimal s → (c : ℕ) × (t : Str) × (s ≡ c ∷ t) × (is_digit c ≡ true)
decimal-start s zero_digit = (b'0', [], refl, refl)
decimal-start s (digits c t h nonzero all) = (c, t, refl, h)
