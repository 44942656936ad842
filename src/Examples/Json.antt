-- ===== src/Examples/Json.antt =====
-- The reader of rule sets at concrete inputs, where a number is its text.
use neta_agent.Prelude.{◌≡◌, ◌⊎◌, refl, true, some, [], ◌∷◌, ◌++◌, Text, bytes}
use neta_agent.Dispatch.Wording.{json_escape}
use neta_agent.Rules.Lexer.{parse_string}
use neta_agent.Rules.Json.{
  Doubles, bad, done, JsonValue, parse, object, array, member_then, no_members, value_then,
  no_values, number, boolean, string,
}
use neta_agent.Rules.Ends.{parse-ends}
use neta_agent.Rules.Escapes.{parse_string-json_escape}

abbrev doubles : Doubles
doubles = record { Double = Text; strtod = λ t. some t }

abbrev input : Text
input = bytes "{ \"a\": [1.5e3, true, \"x\\u0041\"] }"

read_input :
    parse doubles input
    ≡ done
        (object (
          member_then
            (bytes "a")
            (array (
              value_then
                (number (bytes "1.5e3"))
                (value_then (boolean true) (value_then (string (bytes "xA")) no_values))))
            no_members))
        []
unfolding parse
read_input = refl

read_twice : parse doubles (bytes "{\"a\":1,\"a\":2}") ≡ bad
unfolding parse
read_twice = refl

parse-ends_example :
    (parse doubles input ≡ bad) ⊎ ((v : JsonValue doubles) × (parse doubles input ≡ done v []))
parse-ends_example = parse-ends doubles input

parse_string-json_escape_example :
    parse_string (b'"' ∷ (json_escape (b'"' ∷ 10 ∷ 1 ∷ bytes "a") ++ b'"' ∷ bytes "}"))
    ≡ some (b'"' ∷ 10 ∷ 1 ∷ bytes "a", bytes "}")
parse_string-json_escape_example = parse_string-json_escape (b'"' ∷ 10 ∷ 1 ∷ bytes "a") (bytes "}")
