-- ===== src/Rules/Lexer.antt =====
-- The tokens of JSON: `parse_string`, `parse_number` and `parse_literal` of
-- include/neta/rules/json_parser.hpp, on the text from the current position on. An exception is
-- `none`; a token comes with the text after it.
use neta_agent.Prelude.{
  ℕ, zero, suc, ◌+◌, ◌-◌, ◌*◌, ◌/◌, ◌%◌, Bool, ◌&&◌, ◌||◌, not, Option, none, some, [], ◌∷◌, ◌++◌,
  Text, ◌==◌, nat_eq, leb, ltb, is_empty, if◌then◌else◌, ◌>>=◌,
}
use neta_agent.Prelude.Decimal.{is_digit}

-- Where the reader stands in a string: between characters, after a backslash, or within `\u`, with
-- the digits that are left and the value so far.
pub data Mode : Type 0 where
  plain : Mode
  escaped : Mode
  unicode : ℕ → ℕ → Mode

abbrev pub push : Text → Option (Text × Text) → Option (Text × Text)
push front none = none
push front (some (out, rest)) = some (front ++ out, rest)

abbrev pub unescape : ℕ → Option ℕ
unescape c =
    if c == b'"' || c == b'\\' || c == b'/'
    then some c
    else if c == b'b'
    then some 8
    else if c == b'f'
    then some 12
    else if c == b'n'
    then some 10
    else if c == b'r'
    then some 13
    else if c == b't'
    then some 9
    else none

abbrev pub hex_value : ℕ → Option ℕ
hex_value c =
    if leb 48 c && leb c 57
    then some (c - 48)
    else if leb 97 c && leb c 102
    then some (10 + (c - 97))
    else if leb 65 c && leb c 70
    then some (10 + (c - 65))
    else none

unfoldable pub append_utf8 : ℕ → Text
append_utf8 value =
    if leb value 127
    then value ∷ []
    else if leb value 2047
    then (192 + value / 64) ∷ (128 + value % 64) ∷ []
    else (224 + value / 4096) ∷ (128 + value / 64 % 64) ∷ (128 + value % 64) ∷ []

abbrev pub is_surrogate : ℕ → Bool
is_surrogate value = leb 55296 value && leb value 57343

-- The rest of a string, after its opening quote.
unfoldable pub string_body : Mode → Text → Option (Text × Text)
unfolding append_utf8
string_body m [] = none
string_body plain (c ∷ s) =
    let here = string_body plain s in
    let escape = string_body escaped s in
    if c == b'"'
    then some ([], s)
    else if ltb c 32
    then none
    else if not (c == b'\\')
    then push (c ∷ []) here
    else escape
string_body escaped (c ∷ s) =
    let here = string_body plain s in
    let digits = string_body (unicode 3 0) s in
    if c == b'u' then digits else elim (unescape c) [ none ↦ none | some d ↦ push (d ∷ []) here ]
string_body (unicode zero value) (c ∷ s) =
    let here = string_body plain s in
    elim (hex_value c) [
      | none ↦ none
      | some d ↦
          if is_surrogate (value * 16 + d) then none else push (append_utf8 (value * 16 + d)) here
    ]
string_body (unicode (suc left) value) (c ∷ s) = elim (hex_value c) [
  | none ↦ none
  | some d ↦ string_body (unicode left (value * 16 + d)) s
]

unfoldable pub parse_string : Text → Option (Text × Text)
unfolding string_body
parse_string [] = none
parse_string (c ∷ s) = if c == b'"' then string_body plain s else none

unfoldable pub split_digits : Text → Text × Text
split_digits [] = ([], [])
split_digits (c ∷ s) =
    let (digits, rest) = split_digits s in if is_digit c then (c ∷ digits, rest) else ([], c ∷ s)

-- At least one digit, after what stands before it.
unfoldable pub some_digits : Text → Text → Option (Text × Text)
unfolding split_digits
some_digits front s =
    let (digits, rest) = split_digits s in
    if is_empty digits then none else some (front ++ digits, rest)

unfoldable pub integer_part : Text → Text → Option (Text × Text)
unfolding some_digits
integer_part front [] = none
integer_part front (c ∷ s) =
    if c == b'0' then some (front ++ b'0' ∷ [], s) else some_digits front (c ∷ s)

unfoldable pub fraction_part : Text × Text → Option (Text × Text)
unfolding some_digits
fraction_part (front, []) = some (front, [])
fraction_part (front, c ∷ s) =
    if c == b'.' then some_digits (front ++ b'.' ∷ []) s else some (front, c ∷ s)

abbrev pub is_sign : ℕ → Bool
is_sign c = c == b'+' || c == b'-'

unfoldable pub exponent_digits : Text → Text → Option (Text × Text)
unfolding some_digits
exponent_digits front [] = none
exponent_digits front (c ∷ s) =
    if is_sign c then some_digits (front ++ c ∷ []) s else some_digits front (c ∷ s)

unfoldable pub exponent_part : Text × Text → Option (Text × Text)
unfolding exponent_digits
exponent_part (front, []) = some (front, [])
exponent_part (front, c ∷ s) =
    if c == b'e' || c == b'E' then exponent_digits (front ++ c ∷ []) s else some (front, c ∷ s)

-- The text of a number.
unfoldable pub number_text : Text → Option (Text × Text)
unfolding integer_part fraction_part exponent_part
number_text [] = none
number_text (c ∷ s) = do
  whole ← if c == b'-' then integer_part (b'-' ∷ []) s else integer_part [] (c ∷ s)
  fraction ← fraction_part whole
  exponent_part fraction
