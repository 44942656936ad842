-- ===== src/Sequence/RoundTrip.antt =====
-- A sequence record is read back as its number, and nothing else is read as a number.
use mathlib.Core.List.{append_assoc}
use neta_agent.Prelude.{
  ℕ, ◌≤◌, ◌<◌, ◌^◌, ◌≡◌, refl, inl, inr, true, false, some, [], ◌∷◌, ◌++◌, Text, bytes, text_eq,
  text_beq_iff, nat_beq, length, length-append, arith, any-append, Option-cases,
}
use neta_agent.Prelude.Decimal.{
  to_string, from_chars, from_chars-to_string, from_chars-lt, all_digits, all_digits-to_string,
  is_digit, length-to_string,
}
use neta_agent.Prelude.Search.{starts_with, after_prefix, starts_with-append, after_prefix-append}
use neta_agent.Crypto.{Sha256, sha256_hex, length-sha256_hex, sha256_hex-no_nul}
use neta_agent.Sequence.Record.{
  record_header, checksum_prefix, pop_back, parse_decimal, before, contains_nul, record_body,
  make_record, checked, parse_record,
}

before-here : (p s : Text) → starts_with p s ≡ true → before p s ≡ some []
unfolding before
before-here p [] h = rw h
before-here p (c ∷ s) h = rw h

-- The pattern begins with a line feed, which is no digit.
before-digits :
    (p d s : Text) → all_digits d ≡ true → before (b'\n' ∷ p) (d ++ ((b'\n' ∷ p) ++ s)) ≡ some d
unfolding before all_digits starts_with
before-digits p [] s h =
    before-here (b'\n' ∷ p) ((b'\n' ∷ p) ++ s) (starts_with-append (b'\n' ∷ p) s)
before-digits p (c ∷ d) s h = ground (arith, before-digits p d s)

pop_back-digits : (e : ℕ) (s : Text) → is_digit e ≡ false → all_digits s ≡ true → pop_back e s ≡ s
unfolding pop_back all_digits
pop_back-digits e [] x h = refl
pop_back-digits e (c ∷ []) x h = ground arith
pop_back-digits e (c ∷ d ∷ s) x h = ground (arith, pop_back-digits e (d ∷ s))

pub parse_decimal-to_string : (n : ℕ) → n < 2 ^ 64 → parse_decimal (to_string n) ≡ some n
unfolding parse_decimal
parse_decimal-to_string n h =
    let d = all_digits-to_string n in
    rw (pop_back-digits b'\n' (to_string n) refl d, pop_back-digits b'\r' (to_string n) refl d)
      (ground (arith, length-to_string n h, from_chars-to_string n h))

pop_back-append : (c : ℕ) (s : Text) → pop_back c (s ++ c ∷ []) ≡ s
unfolding pop_back
pop_back-append c [] = ground arith
pop_back-append c (d ∷ []) = ground arith
pop_back-append c (d ∷ e ∷ s) = ground (arith, pop_back-append c (e ∷ s))

-- A number on a line.
pub parse_decimal-line : (n : ℕ) → n < 2 ^ 64 → parse_decimal (to_string n ++ b'\n' ∷ []) ≡ some n
unfolding parse_decimal
parse_decimal-line n h =
    rw
      (
        pop_back-append b'\n' (to_string n),
        pop_back-digits b'\r' (to_string n) refl (all_digits-to_string n),
      )
      (ground (arith, length-to_string n h, from_chars-to_string n h))

pub parse_decimal-lt : (s : Text) (n : ℕ) → parse_decimal s ≡ some n → n < 2 ^ 64
unfolding parse_decimal
parse_decimal-lt s n h = ground (arith, from_chars-lt (pop_back b'\r' (pop_back b'\n' s)) n)

digits-no_nul : (s : Text) → all_digits s ≡ true → contains_nul s ≡ false
unfolding all_digits contains_nul
digits-no_nul [] h = refl
digits-no_nul (c ∷ s) h = ground (arith, digits-no_nul s)

no_nul-append :
    (s t : Text) → contains_nul s ≡ false → contains_nul t ≡ false → contains_nul (s ++ t) ≡ false
unfolding contains_nul
no_nul-append s t p q = any-append (λ c. nat_beq c 0) s t p q

sha-no_nul : (sha : Sha256) (s : Text) → contains_nul (sha256_hex sha s) ≡ false
unfolding contains_nul
sha-no_nul sha s = sha256_hex-no_nul sha s

literals_no_nul :
    (contains_nul record_header ≡ false)
    × (contains_nul checksum_prefix ≡ false)
    × (contains_nul (b'\n' ∷ []) ≡ false)
unfolding contains_nul
literals_no_nul = (refl, refl, refl)

module _ (sha : Sha256) where
  -- The record, grouped the way it is read.
  abbrev pub tail_of : ℕ → Text
  tail_of n = sha256_hex sha (record_body sha n) ++ b'\n' ∷ []

  pub make_record-parts :
      (n : ℕ) → make_record sha n ≡ record_header ++ (to_string n ++ (checksum_prefix ++ tail_of n))
  unfolding make_record
  make_record-parts n = simp append_assoc

  make_record-no_nul : (n : ℕ) → contains_nul (make_record sha n) ≡ false
  make_record-no_nul n =
      let (header, checksum, newline) = literals_no_nul in
      rw make_record-parts (
        no_nul-append record_header _ header (
          no_nul-append (to_string n) _ (digits-no_nul (to_string n) (all_digits-to_string n)) (
            no_nul-append checksum_prefix (tail_of n) checksum (
              no_nul-append (sha256_hex sha (record_body sha n)) (b'\n' ∷ [])
                (sha-no_nul sha (record_body sha n)) newline))))

  make_record-length :
      (n : ℕ) → n < 2 ^ 64 → (0 < length (make_record sha n)) × (length (make_record sha n) ≤ 256)
  make_record-length n h = rw make_record-parts (
      omega (
        arith,
        length-append (to_string n) (checksum_prefix ++ tail_of n),
        length-to_string n h,
        length-append (sha256_hex sha (record_body sha n)) (b'\n' ∷ []),
        length-sha256_hex sha (record_body sha n),
      ))

  checked_of :
      (t s : Text) (n : ℕ)
      → parse_decimal s ≡ some n
      → t ≡ make_record sha n
      → checked sha t s ≡ some n
  unfolding checked parse_decimal pop_back from_chars
  checked_of t [] n p e = cc
  checked_of t (c ∷ s) n p e = (ground (arith, text_beq_iff t (make_record sha n)))

  -- A slot written with a 64-bit number is read back as this number.
  pub parse_record-make_record :
      (n : ℕ) → n < 2 ^ 64 → parse_record sha (make_record sha n) ≡ some n
  unfolding parse_record
  parse_record-make_record n h =
      let rest = to_string n ++ (checksum_prefix ++ tail_of n) in
      let header : after_prefix record_header (make_record sha n) ≡ some rest =
        rw make_record-parts (after_prefix-append record_header rest) in
      let number =
        before-digits (bytes "checksum=sha256:") (to_string n) (tail_of n)
          (all_digits-to_string n) in
      let same =
        checked_of (make_record sha n) (to_string n) n (parse_decimal-to_string n h) refl in
      ground (arith, make_record-length n h, make_record-no_nul n, header, number, same)

  checked_sound :
      (t s : Text) (n : ℕ) → checked sha t s ≡ some n → (t ≡ make_record sha n) × (n < 2 ^ 64)
  unfolding checked
  checked_sound t [] n h = cc
  checked_sound t (c ∷ s) n h = elim (Option-cases (parse_decimal (c ∷ s))) [
    | inl bad ↦ absurd (ground arith)
    | inr (m, read) ↦
        ground (arith, text_beq_iff t (make_record sha m), parse_decimal-lt (c ∷ s) m read)
  ]

  -- Only the record of a 64-bit number is read as this number.
  pub parse_record_sound :
      (t : Text) (n : ℕ) → parse_record sha t ≡ some n → (t ≡ make_record sha n) × (n < 2 ^ 64)
  unfolding parse_record
  parse_record_sound t n h = elim (Option-cases (after_prefix record_header t)) [
    | inl bad ↦ absurd (ground arith)
    | inr (rest, header) ↦ elim (Option-cases (before checksum_prefix rest)) [
      | inl bad ↦ absurd (ground arith)
      | inr (digits, found) ↦ checked_sound t digits n (ground arith)
    ]
  ]
