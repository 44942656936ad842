-- ===== src/Sequence/Torn.antt =====
-- What a write of a slot leaves on the disk, completed or cut short.
use mathlib.Core.List.{append_assoc}
use neta_agent.Prelude.{
  ℕ, zero, suc, ◌<◌, ◌^◌, ◌≡◌, ◌≢◌, ◌⊎◌, refl, sym, ap, ◌∙◌, inl, inr, true, Option, none, some, [],
  ◌∷◌, ◌++◌, Text, ◌==◌, nat_eq, option_eq, length, length-append, arith, take, drop, Option-cases,
  eq_refl,
}
use neta_agent.Prelude.Decimal.{to_string, all_digits, all_digits-to_string, to_string-injective}
use neta_agent.Crypto.{Sha256}
use neta_agent.Sequence.Record.{record_header, checksum_prefix, make_record, parse_record}
use neta_agent.Sequence.RoundTrip.{
  make_record-parts, tail_of, parse_record-make_record, parse_record_sound,
}
use neta_agent.Sequence.Slots.{
  Files, Place, put, contents, Disk, durable_write_text, verify, write_slot,
}

digits-split :
    (d e x y : Text)
    → all_digits d ≡ true
    → all_digits e ≡ true
    → d ++ b'\n' ∷ x ≡ e ++ b'\n' ∷ y
    → d ≡ e
unfolding all_digits
digits-split [] [] x y p q h = refl
digits-split [] (c ∷ e) x y p q h = absurd (ground arith)
digits-split (c ∷ d) [] x y p q h = absurd (ground arith)
digits-split (b ∷ d) (c ∷ e) x y p q h = ground (arith, digits-split d e x y)

take-cases : (j : ℕ) (s : Text) → (take j s ≡ s) ⊎ ((c : ℕ) × (r : Text) × (s ≡ take j s ++ c ∷ r))
take-cases zero [] = inl refl
take-cases zero (c ∷ s) = inr (c, s, refl)
take-cases (suc j) [] = inl refl
take-cases (suc j) (c ∷ s) = elim (take-cases j s) [
  | inl whole ↦ inl (ap (λ t. c ∷ t) whole)
  | inr (b, r, e) ↦ inr (b, r, ap (λ t. c ∷ t) e)
]

longer : (s : Text) (c : ℕ) (r : Text) → s ≢ s ++ c ∷ r
longer s c r e = omega (arith, ap length e, length-append s (c ∷ r))

module _ (sha : Sha256) where
  -- A record that is cut short is no record at all.
  cut_record : (m n : ℕ) (c : ℕ) (r : Text) → make_record sha n ≡ make_record sha m ++ c ∷ r → ⊥
  cut_record m n c r e =
      let whole =
        sym (make_record-parts sha n) ∙ e ∙ ap (λ t. t ++ c ∷ r) (make_record-parts sha m) in
      let inside : to_string n ++ (checksum_prefix ++ tail_of sha n)
          ≡ (to_string m ++ (checksum_prefix ++ tail_of sha m)) ++ c ∷ r =
        ap (drop (length record_header)) whole in
      let digits =
        digits-split (to_string n) (to_string m) _ _ (all_digits-to_string n)
          (all_digits-to_string m)
          (inside ∙ append_assoc (to_string m) (checksum_prefix ++ tail_of sha m) (c ∷ r)) in
      longer (make_record sha n) c r
        (e ∙ ap (λ k. make_record sha k ++ c ∷ r) (sym (to_string-injective n m digits)))

  -- Any number of first bytes of the record of a 64-bit number is read as nothing or as this number.
  pub torn_record :
      (j n : ℕ)
      → n < 2 ^ 64
      → (parse_record sha (take j (make_record sha n)) ≡ none)
        ⊎ (parse_record sha (take j (make_record sha n)) ≡ some n)
  torn_record j n h = elim (take-cases j (make_record sha n)) [
    | inl whole ↦ inr (rw whole (parse_record-make_record sha n h))
    | inr (c, r, e) ↦ elim (Option-cases (parse_record sha (take j (make_record sha n)))) [
      | inl bad ↦ inl bad
      | inr (m, read) ↦
          let (same, small) = parse_record_sound sha (take j (make_record sha n)) m read in
          absurd (cut_record m n c r (e ∙ ap (λ t. t ++ c ∷ r) same))
    ]
  ]

  -- What a write of a slot leaves: the new record, or the machine dead and at most the new number
  -- in the slot.
  abbrev pub Wrote : Place → ℕ → Disk → Type 0
  Wrote p n d =
      (d' : Disk) × (write_slot sha p n d ≡ (some tt, d'))
      × (d'.files ≡ put p (make_record sha n) d.files)

  abbrev pub Tore : Place → ℕ → Disk → Type 0
  Tore p n d =
      (t : Text) × ((write_slot sha p n d).0 ≡ none)
      × ((write_slot sha p n d).1.files ≡ put p t d.files)
      × ((parse_record sha t ≡ none) ⊎ (parse_record sha t ≡ some n))

  pub contents-put : (p : Place) (t : Text) (f : Files) → contents p (put p t f) ≡ some t
  contents-put Place.file0 t f = refl
  contents-put Place.file1 t f = refl
  contents-put Place.mirror t f = refl

  pub verified_record :
      (n : ℕ) → n < 2 ^ 64 → (parse_record sha (make_record sha n) == some n) ≡ true
  verified_record n h = rw (parse_record-make_record sha n h) (eq_refl n)

  pub write_slot_cases : (p : Place) (n : ℕ) (d : Disk) → n < 2 ^ 64 → Wrote p n d ⊎ Tore p n d
  unfolding write_slot durable_write_text verify
  write_slot_cases p n d h = go d.dies refl
    where
      go : (o : Option (ℕ × ℕ)) → d.dies ≡ o → Wrote p n d ⊎ Tore p n d
      go none e = inl (
        record { files = put p (make_record sha n) d.files; dies = none },
        rw e (rw contents-put (rw (verified_record n h) refl)),
        refl,
      )
      go (some (zero, j)) e =
          inr (take j (make_record sha n), rw e refl, rw e refl, torn_record j n h)
      go (some (suc k, j)) e = inl (
        record { files = put p (make_record sha n) d.files; dies = some (k, j) },
        rw e (rw contents-put (rw (verified_record n h) refl)),
        refl,
      )
