-- ===== src/Examples/Sequences.antt =====
-- The sequence counter at concrete inputs, with a digest that depends on the length of the text.
use neta_agent.Prelude.{
  ℕ, zero, suc, ◌<◌, ◌%◌, ◌≡◌, inr, refl, Option, none, some, List, [], ◌∷◌, bytes, length, arith,
}
use neta_agent.Prelude.Decimal.{from_chars, value, all_digits}
use neta_agent.Crypto.{Sha256}
use neta_agent.Sequence.Record.{parse_decimal, pop_back, make_record, parse_record}
use neta_agent.Sequence.RoundTrip.{parse_record-make_record}
use neta_agent.Sequence.Crash.{next-Outcome}
use neta_agent.Sequence.Store.{Safe, Outcome}
use neta_agent.Sequence.Slots.{
  inspect_windows_sequence, read_slot, read_legacy, Files, Mirror, next_windows_sequence,
  initialize_windows_sequence,
}
use neta_agent.Sequence.Issue.{numbers_increase, next-inspect, issued, Ascending, HandedOut}

abbrev pub zeros : ℕ → List ℕ
zeros zero = []
zeros (suc n) = 0 ∷ zeros n

pub small_byte : (n : ℕ) → n % 256 < 256
small_byte n = omega arith

abbrev pub sha : Sha256
sha = record {
  digest = λ t. length t % 256 ∷ zeros 31;
  digest_length = λ t. refl;
  digest_bytes = λ t. (small_byte (length t), ground arith);
}

abbrev no_files : Files
no_files = record { slot0 = none; slot1 = none; legacy = none }

-- Two allocations, of which the first dies in its second write.
abbrev uses : List (Mirror × Option (ℕ × ℕ))
uses = (Mirror.written, some (1, 7)) ∷ (Mirror.refused, none) ∷ []

abbrev legacy_only : Files
legacy_only = record { slot0 = none; slot1 = none; legacy = some (bytes "41") }

numbers_increase_example : Ascending 5 (
    issued sha uses
      (initialize_windows_sequence sha 5 (record { files = no_files; dies = none })).1.files)
numbers_increase_example = numbers_increase sha 5 no_files uses (omega arith)

legacy_sequence : (inspect_windows_sequence sha legacy_only).sequence ≡ some 41
unfolding inspect_windows_sequence read_slot read_legacy parse_decimal pop_back from_chars value
    all_digits
legacy_sequence = refl

next-inspect_example :
    HandedOut sha 42
      (next_windows_sequence sha Mirror.written (record { files = legacy_only; dies = none }))
next-inspect_example = next-inspect sha Mirror.written 41 legacy_only legacy_sequence (omega arith)

legacy-Safe : Safe sha 40 legacy_only
unfolding read_slot read_legacy parse_decimal pop_back from_chars value all_digits
legacy-Safe = inr (inr (inr (refl, refl, omega arith)))

next-Outcome_example :
    Outcome sha 40 (
      next_windows_sequence sha
        (Mirror.cut 1)
        (record { files = legacy_only; dies = some (2, 30) }))
next-Outcome_example =
    next-Outcome sha 40 (Mirror.cut 1) (record { files = legacy_only; dies = some (2, 30) })
      legacy-Safe

parse_record-make_record_example : parse_record sha (make_record sha 124) ≡ some 124
parse_record-make_record_example = parse_record-make_record sha 124 (omega arith)
