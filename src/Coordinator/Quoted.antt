-- ===== src/Coordinator/Quoted.antt =====
-- An answer as the coordinator writes it, and the members that the reader finds in it.
use neta_agent.Prelude.{
  ℕ, ◌≡◌, ◌≢◌, refl, Bool, true, false, ◌&&◌, ◌||◌, not, Option, none, some, List, [], ◌∷◌, ◌++◌,
  Text, bytes, ◌==◌, nat_eq, text_eq, arith, is_empty, if◌then◌else◌, any, leb,
}
use neta_agent.Prelude.Decimal.{to_string, all_digits}
use neta_agent.Prelude.Search.{find_after, after_prefix}
use neta_agent.Coordinator.Reader.{quoted}

pub data Value : Type 0 where
  str : Text → Value
  num : ℕ → Value

abbrev pub write_quoted : Text → Text → Text
write_quoted s rest = b'"' ∷ (s ++ b'"' ∷ rest)

abbrev pub write_value : Value → Text → Text
write_value (str s) rest = write_quoted s rest
write_value (num n) rest = to_string n ++ rest

abbrev pub write_member : Text × Value → Text → Text
write_member (key, v) rest = write_quoted key (b':' ∷ write_value v rest)

abbrev pub write_tail : List (Text × Value) → Text
write_tail [] = b'}' ∷ []
write_tail (f ∷ fs) = b',' ∷ write_member f (write_tail fs)

-- The JSON text of an object.
abbrev pub write_object : List (Text × Value) → Text
write_object [] = bytes "{}"
write_object (f ∷ fs) = b'{' ∷ write_member f (write_tail fs)

abbrev pub is_letter : ℕ → Bool
is_letter c = leb 65 c && leb c 90 || leb 97 c && leb c 122

abbrev pub is_name : Text → Bool
is_name [] = true
is_name (c ∷ s) = is_letter c && is_name s

-- A name that is not empty.
abbrev pub is_key : Text → Bool
is_key s = not (is_empty s) && is_name s

-- A text that JSON writes without an escape.
abbrev pub is_plain : Text → Bool
is_plain s = not (any (λ c. c == b'"' || c == b'\\') s)

-- The member does not hold the name as its value, and is written without an escape.
abbrev pub is_apart : Text → Text × Value → Bool
is_apart key (k, str s) = is_key k && is_plain s && not (key == s)
is_apart key (k, num n) = is_key k

abbrev pub get : Text → List (Text × Value) → Option Value
get key [] = none
get key ((k, v) ∷ fs) = if key == k then some v else get key fs

unfoldable pub quoteless : Text → Bool
quoteless s = not (any (λ c. c == b'"') s)

prefix-name :
    (key k t : Text)
    → is_name key ≡ true
    → quoteless k ≡ true
    → after_prefix (key ++ b'"' ∷ []) (k ++ b'"' ∷ t) ≡ (if key == k then some t else none)
unfolding after_prefix quoteless
prefix-name [] [] t p q = refl
prefix-name [] (d ∷ k) t p q = ground arith
prefix-name (c ∷ key) [] t p q = ground arith
prefix-name (c ∷ key) (d ∷ k) t p q = ground (arith, prefix-name key k t)

pub find-passes :
    (key s t : Text)
    → quoteless s ≡ true
    → find_after (quoted key) (s ++ t) ≡ find_after (quoted key) t
unfolding find_after after_prefix quoteless
find-passes key [] t q = refl
find-passes key (c ∷ s) t q = ground (arith, find-passes key s t)

-- The closing quote of another text is not the opening quote of the name.
find-closing :
    (key t : Text) (d : ℕ)
    → is_key key ≡ true
    → is_letter d ≡ false
    → d ≢ b'"'
    → find_after (quoted key) (b'"' ∷ d ∷ t) ≡ find_after (quoted key) t
unfolding find_after after_prefix
find-closing [] t d k l n = ground arith
find-closing (c ∷ key) t d k l n = ground arith

pub find-quoted :
    (key k t : Text) (d : ℕ)
    → is_key key ≡ true
    → quoteless k ≡ true
    → is_letter d ≡ false
    → d ≢ b'"'
    → find_after (quoted key) (write_quoted k (d ∷ t))
      ≡ (if key == k then some (d ∷ t) else find_after (quoted key) t)
unfolding find_after after_prefix
find-quoted key k t d n q l e = ground (
  arith,
  prefix-name key k (d ∷ t) (ground (arith, n)) q,
  find-passes key k (b'"' ∷ d ∷ t) q,
  find-closing key t d n l e,
)

pub digits-quoteless : (s : Text) → all_digits s ≡ true → quoteless s ≡ true
unfolding all_digits quoteless
digits-quoteless [] h = refl
digits-quoteless (c ∷ s) h = ground (arith, digits-quoteless s)

pub plain-quoteless : (s : Text) → is_plain s ≡ true → quoteless s ≡ true
unfolding quoteless
plain-quoteless [] h = refl
plain-quoteless (c ∷ s) h = ground (arith, plain-quoteless s)

pub name-quoteless : (s : Text) → is_name s ≡ true → quoteless s ≡ true
unfolding quoteless
name-quoteless [] h = refl
name-quoteless (c ∷ s) h = ground (arith, name-quoteless s)
