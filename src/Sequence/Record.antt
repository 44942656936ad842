-- ===== src/Sequence/Record.antt =====
-- The text of a sequence slot: `parse_decimal`, `make_record` and `parse_record` of
-- src/core/nap_sequence.cpp. An exception is `none`.
use neta_agent.Prelude.{
  ℕ, Bool, ◌||◌, Option, none, some, [], ◌∷◌, ◌++◌, Text, bytes, ◌==◌, text_eq, nat_eq, nat_beq,
  length, ltb, if◌then◌else◌, any,
}
use neta_agent.Prelude.Decimal.{to_string, from_chars}
use neta_agent.Prelude.Search.{starts_with, after_prefix}
use neta_agent.Crypto.{Sha256, sha256_hex}

abbrev pub max_legacy_sequence_bytes : ℕ
max_legacy_sequence_bytes = 64

abbrev pub max_sequence_record_bytes : ℕ
max_sequence_record_bytes = 256

-- `NETA-NAP-SEQUENCE/1\nsequence=`
abbrev pub record_header : Text
record_header = bytes "NETA-NAP-SEQUENCE/1" ++ b'\n' ∷ bytes "sequence="

-- `\nchecksum=sha256:`
abbrev pub checksum_prefix : Text
checksum_prefix = b'\n' ∷ bytes "checksum=sha256:"

-- `if (text.back() == c) text.pop_back()`
unfoldable pub pop_back : ℕ → Text → Text
pop_back c [] = []
pop_back c (d ∷ []) = if d == c then [] else d ∷ []
pop_back c (d ∷ e ∷ s) = d ∷ pop_back c (e ∷ s)

-- `from_chars` refuses the empty text and any other than a digit, as the tests before it do.
unfoldable pub parse_decimal : Text → Option ℕ
parse_decimal text =
    let digits = pop_back b'\r' (pop_back b'\n' text) in
    if ltb max_legacy_sequence_bytes (length digits) then none else from_chars digits

-- What stands before the first occurrence of the pattern, as `find` and `substr` give it.
unfoldable pub before : Text → Text → Option Text
unfolding starts_with
before pattern [] = if starts_with pattern [] then some [] else none
before pattern (c ∷ s) =
    let rest = before pattern s in
    if starts_with pattern (c ∷ s)
    then some []
    else elim rest [ none ↦ none | some front ↦ some (c ∷ front) ]

unfoldable pub contains_nul : Text → Bool
contains_nul s = any (λ c. nat_beq c 0) s

module _ (sha : Sha256) where
  abbrev pub record_body : ℕ → Text
  record_body sequence = record_header ++ to_string sequence ++ b'\n' ∷ []

  unfoldable pub make_record : ℕ → Text
  make_record sequence =
      record_body sequence
      ++ bytes "checksum=sha256:"
      ++ sha256_hex sha (record_body sequence)
      ++ b'\n' ∷ []

  -- The number between the header and the checksum, if the record made of it is the whole text.
  unfoldable pub checked : Text → Text → Option ℕ
  checked text [] = none
  checked text (d ∷ digits) = elim (parse_decimal (d ∷ digits)) [
    | none ↦ none
    | some sequence ↦ if text == make_record sequence then some sequence else none
  ]

  unfoldable pub parse_record : Text → Option ℕ
  unfolding checked contains_nul
  parse_record text =
      if nat_beq (length text) 0 || ltb max_sequence_record_bytes (length text)
      then none
      else if contains_nul text
      then none
      else elim (after_prefix record_header text) [
        | none ↦ none
        | some rest ↦ elim (before checksum_prefix rest) [
          | none ↦ none
          | some digits ↦ checked text digits
        ]
      ]
