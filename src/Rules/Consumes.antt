-- ===== src/Rules/Consumes.antt =====
-- Every token takes some of the text.
use neta_agent.Prelude.{
  ℕ, zero, suc, ◌+◌, ◌*◌, ◌≤◌, ◌<◌, ◌≡◌, refl, Bool, true, false, ◌||◌, not, Option, none, some,
  ◌>>=◌, [], ◌∷◌, ◌++◌, Text, ◌==◌, nat_eq, length, is_empty, arith, Bool-cases, if◌then◌else◌, inl,
  inr, ltb,
}
use neta_agent.Prelude.Search.{skip_space, after_prefix}
use neta_agent.Rules.Lexer.{
  Mode, plain, escaped, unicode, push, unescape, hex_value, is_surrogate, append_utf8, string_body,
  parse_string, split_digits, some_digits, integer_part, fraction_part, exponent_digits,
  exponent_part, number_text, is_sign,
}
use neta_agent.Rules.Json.{next_is, consume}

pub skip_space-shorter : (s : Text) → length (skip_space s) ≤ length s
unfolding skip_space
skip_space-shorter [] = omega arith
skip_space-shorter (c ∷ s) = ground (arith, skip_space-shorter s)

next_is-shorter : (c : ℕ) (s r : Text) → next_is c s ≡ some r → length r < length s
unfolding next_is
next_is-shorter c [] r h = cc
next_is-shorter c (d ∷ s) r h = ground (arith, h)

pub consume-shorter : (c : ℕ) (s r : Text) → consume c s ≡ some r → length r < length s
unfolding consume
consume-shorter c s r h = omega (arith, skip_space-shorter s, next_is-shorter c (skip_space s) r h)

pub prefix-shorter : (p s r : Text) → after_prefix p s ≡ some r → length r + length p ≡ length s
unfolding after_prefix
prefix-shorter [] s r h = ground (arith, h)
prefix-shorter (a ∷ p) [] r h = cc
prefix-shorter (a ∷ p) (c ∷ s) r h = ground (arith, h, prefix-shorter p s r)

-- A token leaves a shorter text.
abbrev pub Shorter : ℕ → Option (Text × Text) → Type 0
Shorter n none = Unit
Shorter n (some (token, rest)) = length rest < n

push-Shorter :
    (front : Text) (n m : ℕ) (o : Option (Text × Text))
    → m ≤ n
    → Shorter m o
    → Shorter n (push front o)
push-Shorter front n m none le h = tt
push-Shorter front n m (some (token, rest)) le h = omega (arith, h, le)

weaker : (n m : ℕ) (o : Option (Text × Text)) → m ≤ n → Shorter m o → Shorter n o
weaker n m none le h = tt
weaker n m (some (token, rest)) le h = omega (arith, h, le)

if-Shorter :
    (n : ℕ) (b : Bool) (x y : Option (Text × Text))
    → Shorter n x
    → Shorter n y
    → Shorter n (if b then x else y)
if-Shorter n true x y h k = h
if-Shorter n false x y h k = k

elim-Shorter :
    (n : ℕ) (o : Option ℕ) (f : ℕ → Option (Text × Text))
    → ((d : ℕ) → Shorter n (f d))
    → Shorter n (elim o [ none ↦ none | some d ↦ f d ])
elim-Shorter n none f h = tt
elim-Shorter n (some d) f h = h d

pub string_body-Shorter : (m : Mode) (s : Text) → Shorter (length s) (string_body m s)
unfolding string_body
string_body-Shorter m [] = tt
string_body-Shorter plain (c ∷ s) =
    let here = push-Shorter (c ∷ []) _ _ _ (omega arith) (string_body-Shorter plain s) in
    let escape = weaker _ _ _ (omega arith) (string_body-Shorter escaped s) in
    if-Shorter _ (c == b'"') _ _ (omega arith)
      (if-Shorter _ (ltb c 32) _ _ tt (if-Shorter _ (not (c == b'\\')) _ _ here escape))
string_body-Shorter escaped (c ∷ s) =
    if-Shorter _ (c == b'u') _ _ (weaker _ _ _ (omega arith) (string_body-Shorter (unicode 3 0) s))
      (elim-Shorter _ (unescape c) _
        (λ d. push-Shorter (d ∷ []) _ _ _ (omega arith) (string_body-Shorter plain s)))
string_body-Shorter (unicode zero value) (c ∷ s) = elim-Shorter _ (hex_value c) _ (λ d.
    if-Shorter _ (is_surrogate (value * 16 + d)) _ _ tt (
      push-Shorter (append_utf8 (value * 16 + d)) _ _ _ (omega arith)
        (string_body-Shorter plain s)))
string_body-Shorter (unicode (suc left) value) (c ∷ s) =
    elim-Shorter _ (hex_value c) _
      (λ d. weaker _ _ _ (omega arith) (string_body-Shorter (unicode left (value * 16 + d)) s))

pub parse_string-Shorter : (s : Text) → Shorter (length s) (parse_string s)
unfolding parse_string
parse_string-Shorter [] = tt
parse_string-Shorter (c ∷ s) =
    if-Shorter _ (c == b'"') _ _ (weaker _ _ _ (omega arith) (string_body-Shorter plain s)) tt

split_digits-length : (s : Text) → length (split_digits s).0 + length (split_digits s).1 ≡ length s
unfolding split_digits
split_digits-length [] = refl
split_digits-length (c ∷ s) = ground (arith, split_digits-length s)

some_digits-Shorter : (front s : Text) → Shorter (length s) (some_digits front s)
unfolding some_digits
some_digits-Shorter front s = elim (Bool-cases (is_empty (split_digits s).0)) [
  | inl empty ↦ rw empty tt
  | inr more ↦ rw more (ground (arith, more, split_digits-length s))
]

integer_part-Shorter : (front s : Text) → Shorter (length s) (integer_part front s)
unfolding integer_part
integer_part-Shorter front [] = tt
integer_part-Shorter front (c ∷ s) =
    if-Shorter _ (c == b'0') _ _ (omega arith) (some_digits-Shorter front (c ∷ s))

fraction_part-Shorter : (p : Text × Text) → Shorter (suc (length p.1)) (fraction_part p)
unfolding fraction_part
fraction_part-Shorter (front, []) = omega arith
fraction_part-Shorter (front, c ∷ s) =
    if-Shorter _ (c == b'.') _ _
      (weaker _ _ _ (omega arith) (some_digits-Shorter (front ++ b'.' ∷ []) s)) (omega arith)

exponent_digits-Shorter : (front s : Text) → Shorter (length s) (exponent_digits front s)
unfolding exponent_digits
exponent_digits-Shorter front [] = tt
exponent_digits-Shorter front (c ∷ s) =
    if-Shorter _ (is_sign c) _ _
      (weaker _ _ _ (omega arith) (some_digits-Shorter (front ++ c ∷ []) s))
      (some_digits-Shorter front (c ∷ s))

exponent_part-Shorter : (p : Text × Text) → Shorter (suc (length p.1)) (exponent_part p)
unfolding exponent_part
exponent_part-Shorter (front, []) = omega arith
exponent_part-Shorter (front, c ∷ s) =
    if-Shorter _ (c == b'e' || c == b'E') _ _
      (weaker _ _ _ (omega arith) (exponent_digits-Shorter (front ++ c ∷ []) s)) (omega arith)

-- A step that takes no less than nothing, after one that took something.
bind-Shorter :
    (n : ℕ) (o : Option (Text × Text)) (f : Text × Text → Option (Text × Text))
    → Shorter n o
    → ((p : Text × Text) → Shorter (suc (length p.1)) (f p))
    → Shorter n (o >>= f)
bind-Shorter n none f h k = tt
bind-Shorter n (some p) f h k = weaker _ _ _ (omega (arith, h)) (k p)

pub number_text-Shorter : (s : Text) → Shorter (length s) (number_text s)
unfolding number_text
number_text-Shorter [] = tt
number_text-Shorter (c ∷ s) =
    let whole =
      if-Shorter _ (c == b'-') _ _ (weaker _ _ _ (omega arith) (integer_part-Shorter (b'-' ∷ []) s))
        (integer_part-Shorter [] (c ∷ s)) in
    bind-Shorter _ (if c == b'-' then integer_part (b'-' ∷ []) s else integer_part [] (c ∷ s)) _
      whole
      (λ p. bind-Shorter _ (fraction_part p) _ (fraction_part-Shorter p) exponent_part-Shorter)
