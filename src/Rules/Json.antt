-- ===== src/Rules/Json.antt =====
-- `JsonValue` and `JsonParser` of include/neta/rules/json_value.hpp and json_parser.hpp. A parser
-- gives a value and the text after it; an exception is `bad`.
use neta_agent.Prelude.{
  ℕ, zero, suc, Bool, true, false, ◌||◌, Option, none, some, List, [], ◌∷◌, Text, bytes, ◌==◌,
  nat_eq, text_eq, length, is_empty, any, if◌then◌else◌,
}
use neta_agent.Prelude.Decimal.{is_digit}
use neta_agent.Prelude.Search.{after_prefix, skip_space}
use neta_agent.Rules.Lexer.{parse_string, number_text}

-- `std::strtod`, with `none` for a value that is not finite.
pub record Doubles : Type 1 where
  pub Double : Type 0
  pub strtod : Text → Option Double

-- `tired` is a parser whose fuel is spent.
pub data Parsed (A : Type 0) : Type 0 where
  done : A → Text → Parsed A
  bad : Parsed A
  tired : Parsed A

-- `consume(expected)`: the text after the character, if it comes next.
unfoldable pub next_is : ℕ → Text → Option Text
next_is expected [] = none
next_is expected (c ∷ s) = if c == expected then some s else none

unfoldable pub consume : ℕ → Text → Option Text
unfolding next_is skip_space
consume expected s = next_is expected (skip_space s)

module _ (doubles : Doubles) where
  mutual
    pub data JsonValue : Type 0 where
      null : JsonValue
      boolean : Bool → JsonValue
      number : doubles.Double → JsonValue
      string : Text → JsonValue
      array : Values → JsonValue
      object : Members → JsonValue

    pub data Values : Type 0 where
      no_values : Values
      value_then : JsonValue → Values → Values

    pub data Members : Type 0 where
      no_members : Members
      member_then : Text → JsonValue → Members → Members

  abbrev pub with_value : JsonValue → Parsed Values → Parsed Values
  with_value v (done vs rest) = done (value_then v vs) rest
  with_value v bad = bad
  with_value v tired = tired

  abbrev pub with_member : Text → JsonValue → Parsed Members → Parsed Members
  with_member key v (done ms rest) = done (member_then key v ms) rest
  with_member key v bad = bad
  with_member key v tired = tired

  -- The loop of `parse_array`, after the opening bracket.
  unfoldable pub elements : (Text → Parsed JsonValue) → ℕ → Text → Parsed Values
  unfolding consume
  elements self zero s = tired
  elements self (suc n) s = elim (self s) [
    | bad ↦ bad
    | tired ↦ tired
    | done v rest ↦ elim (consume b']' rest) [
      | some after ↦ done (value_then v no_values) after
      | none ↦ elim (consume b',' rest) [
        | none ↦ bad
        | some after ↦ with_value v (elements self n after)
      ]
    ]
  ]

  -- The loop of `parse_object`, after the opening brace, with the keys that are there.
  unfoldable pub members : (Text → Parsed JsonValue) → ℕ → List Text → Text → Parsed Members
  unfolding consume parse_string skip_space
  members self zero keys s = tired
  members self (suc n) keys s = elim (parse_string (skip_space s)) [
    | none ↦ bad
    | some named ↦ elim (consume b':' named.1) [
      | none ↦ bad
      | some from ↦ elim (self from) [
        | bad ↦ bad
        | tired ↦ tired
        | done v rest ↦ if any (λ key. key == named.0) keys then bad else elim (consume b'}' rest) [
          | some after ↦ done (member_then named.0 v no_members) after
          | none ↦ elim (consume b',' rest) [
            | none ↦ bad
            | some after ↦ with_member named.0 v (members self n (named.0 ∷ keys) after)
          ]
        ]
      ]
    ]
  ]

  abbrev pub to_array : Parsed Values → Parsed JsonValue
  to_array (done vs rest) = done (array vs) rest
  to_array bad = bad
  to_array tired = tired

  abbrev pub to_object : Parsed Members → Parsed JsonValue
  to_object (done ms rest) = done (object ms) rest
  to_object bad = bad
  to_object tired = tired

  unfoldable pub parse_array : (Text → Parsed JsonValue) → Text → Parsed JsonValue
  unfolding consume elements
  parse_array self s = elim (consume b']' s) [
    | some rest ↦ done (array no_values) rest
    | none ↦ to_array (elements self (suc (length s)) s)
  ]

  unfoldable pub parse_object : (Text → Parsed JsonValue) → Text → Parsed JsonValue
  unfolding consume members
  parse_object self s = elim (consume b'}' s) [
    | some rest ↦ done (object no_members) rest
    | none ↦ to_object (members self (suc (length s)) [] s)
  ]

  unfoldable pub parse_literal : Text → JsonValue → Text → Parsed JsonValue
  unfolding after_prefix
  parse_literal literal v s = elim (after_prefix literal s) [ none ↦ bad | some rest ↦ done v rest ]

  unfoldable pub parse_number : Text → Parsed JsonValue
  unfolding number_text
  parse_number s = elim (number_text s) [
    | none ↦ bad
    | some token ↦ elim (doubles.strtod token.0) [ none ↦ bad | some d ↦ done (number d) token.1 ]
  ]

  unfoldable pub parse_text : Text → Parsed JsonValue
  unfolding parse_string
  parse_text s = elim (parse_string s) [ none ↦ bad | some token ↦ done (string token.0) token.1 ]

  -- The `switch` of `parse_value`.
  unfoldable pub by_first : (Text → Parsed JsonValue) → Text → Parsed JsonValue
  unfolding parse_array parse_object parse_literal parse_number parse_text
  by_first self [] = bad
  by_first self (c ∷ s) =
      if c == b'{'
      then parse_object self s
      else if c == b'['
      then parse_array self s
      else if c == b'"'
      then parse_text (c ∷ s)
      else if c == b't'
      then parse_literal (bytes "true") (boolean true) (c ∷ s)
      else if c == b'f'
      then parse_literal (bytes "false") (boolean false) (c ∷ s)
      else if c == b'n'
      then parse_literal (bytes "null") null (c ∷ s)
      else if c == b'-' || is_digit c
      then parse_number (c ∷ s)
      else bad

  unfoldable pub parse_value : ℕ → Text → Parsed JsonValue
  unfolding by_first skip_space
  parse_value zero s = tired
  parse_value (suc n) s = by_first (parse_value n) (skip_space s)

  unfoldable pub parse : Text → Parsed JsonValue
  unfolding parse_value skip_space
  parse input = elim (parse_value (suc (length input)) input) [
    | bad ↦ bad
    | tired ↦ tired
    | done v rest ↦ if is_empty (skip_space rest) then done v [] else bad
  ]
