-- ===== src/Sequence/Posix.antt =====
-- The branch of src/core/nap_sequence.cpp for POSIX systems, over the one file that holds the
-- counter; `none` is a missing file. The lock makes each call a step of its own.
use neta_agent.Prelude.{
  ℕ, ◌+◌, ◌^◌, ◌<◌, ◌≤◌, ◌≡◌, ◌⊎◌, inl, inr, refl, Option, none, some, [], ◌∷◌, ◌++◌, Text, ◌==◌,
  nat_eq, ltb, length, length-append, take, if◌then◌else◌, arith, Option-cases, Bool-cases,
}
use neta_agent.Prelude.Decimal.{to_string, max_u64, length-to_string}
use neta_agent.Sequence.Record.{parse_decimal, max_legacy_sequence_bytes}
use neta_agent.Sequence.RoundTrip.{parse_decimal-line, parse_decimal-lt}

unfoldable pub read_legacy_text : Option Text → Option Text
read_legacy_text none = none
read_legacy_text (some text) =
    if ltb max_legacy_sequence_bytes (length text) then none else some text

-- The number in the file.
unfoldable pub current_value : Option Text → Option ℕ
unfolding read_legacy_text parse_decimal
current_value file = elim (read_legacy_text file) [ none ↦ none | some text ↦ parse_decimal text ]

-- The file is cut to nothing and then written. Where the machine dies in the write, only the given
-- number of bytes is there.
unfoldable pub durable_write_legacy : Option ℕ → Text → Option (Unit {0}) × Option Text
durable_write_legacy none text = (some tt, some text)
durable_write_legacy (some written) text = (none, some (take written text))

unfoldable pub next_posix_sequence : Option ℕ → Option Text → Option ℕ × Option Text
unfolding current_value durable_write_legacy
next_posix_sequence dies file = elim (current_value file) [
  | none ↦ (none, file)
  | some current ↦
      if current == max_u64
      then (none, file)
      else let (finished, written) =
          durable_write_legacy dies (to_string (current + 1) ++ 10 ∷ []) in
        (elim finished [ none ↦ none | some u ↦ some (current + 1) ], written)
]

unfoldable pub initialize_posix_sequence : Option ℕ → ℕ → Option (Unit {0}) × Option Text
unfolding durable_write_legacy
initialize_posix_sequence dies initial = durable_write_legacy dies (to_string initial ++ 10 ∷ [])

-- No number up to this one is handed out from the file.
unfoldable pub Behind : ℕ → Option Text → Type 0
Behind last file =
    (current_value file ≡ none) ⊎ ((n : ℕ) × (current_value file ≡ some n) × (last ≤ n))

current-line : (n : ℕ) → n < 2 ^ 64 → current_value (some (to_string n ++ 10 ∷ [])) ≡ some n
unfolding current_value read_legacy_text
current-line n h =
    let size = length-append (to_string n) (10 ∷ []) in
    ground (arith, parse_decimal-line n h, size, length-to_string n h)

current-lt : (file : Option Text) (n : ℕ) → current_value file ≡ some n → n < 2 ^ 64
unfolding current_value
current-lt file n h = elim (Option-cases (read_legacy_text file)) [
  | inl bad ↦ absurd (ground (arith, bad, h))
  | inr (text, read) ↦ parse_decimal-lt text n (ground (arith, read, h))
]

-- On a machine that stays up, an allocation hands out nothing and leaves the file, or it hands out a
-- number above all those that are used, which is used then.
pub next_posix-Behind :
    (last : ℕ) (file : Option Text)
    → Behind last file
    → (((next_posix_sequence none file).0 ≡ none) × Behind last (next_posix_sequence none file).1)
      ⊎ ((n : ℕ) × ((next_posix_sequence none file).0 ≡ some n)
          × (last < n)
          × Behind n (next_posix_sequence none file).1)
unfolding next_posix_sequence Behind durable_write_legacy
next_posix-Behind last file safe = elim (Option-cases (current_value file)) [
  | inl bad ↦ rw (bad, next_posix_sequence) (inl (refl, inl bad))
  | inr (n, read) ↦ elim (Bool-cases (n == max_u64)) [
    | inl full ↦ rw (read, next_posix_sequence) (rw full (inl (refl, safe)))
    | inr more ↦
        let bound : n + 1 < 2 ^ 64 = ground (arith, more, current-lt file n read) in
        rw (read, next_posix_sequence)
          (rw more (
            inr (
              n + 1,
              refl,
              elim safe [
                | inl bad ↦ absurd (cc (bad, read))
                | inr (v, same, below) ↦ ground (arith, same, read, below)
              ],
              inr (n + 1, current-line (n + 1) bound, omega arith),
            )))
  ]
]
