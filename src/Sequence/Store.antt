-- ===== src/Sequence/Store.antt =====
-- Which files are safe for a number, and what storing the next number leaves of them.
use neta_agent.Prelude.{
  ℕ, ◌≤◌, ◌<◌, ◌^◌, ◌≡◌, ◌⊎◌, refl, inl, inr, true, false, Option, none, some, Text, nat_eq,
  option_eq, arith, Option-cases,
}
use neta_agent.Crypto.{Sha256}
use neta_agent.Sequence.Record.{make_record, parse_record, parse_decimal}
use neta_agent.Sequence.RoundTrip.{parse_record-make_record, parse_record_sound, parse_decimal-lt}
use neta_agent.Sequence.Torn.{write_slot_cases}
use neta_agent.Sequence.Slots.{
  Files, Mirror, Place, put, contents, holding, Disk, durable_write_text, write_mirror, read_slot,
  read_legacy, write_slot, store, ◌>>◌, pure,
}

-- The two slots, one way round or the other.
pub data Opposite : Place → Place → Type 0 where
  up : Opposite Place.file0 Place.file1
  down : Opposite Place.file1 Place.file0

module _ (sha : Sha256) where
  -- The slot holds a number from `last` on.
  abbrev pub Covers : ℕ → Option Text → Type 0
  Covers last o = ((read_slot sha o).valid ≡ true) × (last ≤ (read_slot sha o).value)

  -- No slot is readable, though one is there: allocation is refused for good.
  abbrev pub Dead : Files → Type 0
  Dead f =
      ((read_slot sha f.slot0).valid ≡ false)
      × ((read_slot sha f.slot1).valid ≡ false)
      × (((read_slot sha f.slot0).exists ≡ true) ⊎ ((read_slot sha f.slot1).exists ≡ true))

  -- There are no slots yet, and the old file is not behind.
  abbrev pub Fresh : ℕ → Files → Type 0
  Fresh last f =
      ((read_slot sha f.slot0).exists ≡ false)
      × ((read_slot sha f.slot1).exists ≡ false)
      × (last ≤ (read_legacy f.legacy).value)

  -- No number up to `last` can be handed out from these files.
  abbrev pub Safe : ℕ → Files → Type 0
  Safe last f = Covers last f.slot0 ⊎ (Covers last f.slot1 ⊎ (Dead f ⊎ Fresh last f))

  abbrev pub Outcome : ℕ → Option ℕ × Disk → Type 0
  Outcome last r =
      ((r.0 ≡ none) × Safe last r.1.files)
      ⊎ ((n : ℕ) × (r.0 ≡ some n) × (last < n) × Safe n r.1.files)

  pub reading_new : (n : ℕ) → n < 2 ^ 64 → read_slot sha (some (make_record sha n)) ≡ holding n
  unfolding read_slot
  reading_new n h = rw (parse_record-make_record sha n h, read_slot) refl

  pub reading_lt : (o : Option Text) → (read_slot sha o).value < 2 ^ 64
  unfolding read_slot
  reading_lt none = omega arith
  reading_lt (some t) = elim (Option-cases (parse_record sha t)) [
    | inl bad ↦ rw (bad, read_slot) (omega arith)
    | inr (v, read) ↦ rw (read, read_slot) ((parse_record_sound sha t v read).1)
  ]

  pub legacy_lt : (o : Option Text) → (read_legacy o).value < 2 ^ 64
  unfolding read_legacy
  legacy_lt none = omega arith
  legacy_lt (some t) = elim (Option-cases (parse_decimal t)) [
    | inl bad ↦ ground arith
    | inr (v, read) ↦ ground (arith, parse_decimal-lt t v read)
  ]

  pub mirror_keeps :
      (m : Mirror) (n : ℕ) (d : Disk)
      → (((write_mirror m n d).0 ≡ none) ⊎ ((write_mirror m n d).0 ≡ some tt))
        × ((write_mirror m n d).1.files.slot0 ≡ d.files.slot0)
        × ((write_mirror m n d).1.files.slot1 ≡ d.files.slot1)
  unfolding write_mirror durable_write_text
  mirror_keeps Mirror.written n d = ground arith
  mirror_keeps Mirror.refused n d = (inr refl, refl, refl)
  mirror_keeps (Mirror.cut j) n d = (inr refl, refl, refl)

  put_keeps :
      {p q : Place} (t : Text) (f : Files) → Opposite p q → contents q (put p t f) ≡ contents q f
  put_keeps t f up = refl
  put_keeps t f down = refl

  put_other :
      {p q : Place} (t : Text) (f : Files) → Opposite p q → contents p (put q t f) ≡ contents p f
  put_other t f up = refl
  put_other t f down = refl

  put_self : {p q : Place} (t : Text) (f : Files) → Opposite p q → contents p (put p t f) ≡ some t
  put_self t f up = refl
  put_self t f down = refl

  first-Safe :
      {p q : Place} (last : ℕ) (f : Files) → Opposite p q → Covers last (contents p f) → Safe last f
  first-Safe last f up c = inl c
  first-Safe last f down c = inr (inl c)

  second-Safe :
      {p q : Place} (last : ℕ) (f : Files) → Opposite p q → Covers last (contents q f) → Safe last f
  second-Safe last f up c = inr (inl c)
  second-Safe last f down c = inl c

  mirror_same :
      {p q : Place} (m : Mirror) (n : ℕ) (d : Disk)
      → Opposite p q
      → contents p (write_mirror m n d).1.files ≡ contents p d.files
  mirror_same m n d up = (mirror_keeps m n d).1
  mirror_same m n d down = (mirror_keeps m n d).2

  pub Covers-new : (last n : ℕ) → n < 2 ^ 64 → last ≤ n → Covers last (some (make_record sha n))
  Covers-new last n small le = rw (reading_new n small) (refl, le)

  finish :
      {p q : Place} (last next : ℕ) (m : Mirror) (d : Disk)
      → Opposite p q
      → last < next
      → Covers next (contents p d.files)
      → Outcome last ((write_mirror m next >> pure next) d)
  finish {p} {q} last next m d opp lt c =
      let kept : Covers next (contents p (write_mirror m next d).1.files) =
        rw (mirror_same m next d opp) c in
      elim (mirror_keeps m next d).0 [
        | inl dead ↦ inl (
          rw dead refl,
          rw dead
              (first-Safe last (write_mirror m next d).1.files opp (kept.0, omega (arith, kept.1))),
        )
        | inr did ↦ inr (
          next,
          rw did refl,
          lt,
          rw did (first-Safe next (write_mirror m next d).1.files opp kept),
        )
      ]

  -- The staler slot is written first; the other still holds a number from `last` on.
  pub store-Outcome :
      {p q : Place} (last next : ℕ) (m : Mirror) (d : Disk)
      → Opposite p q
      → next < 2 ^ 64
      → last < next
      → Covers last (contents q d.files)
      → Outcome last (store sha p q m next d)
  unfolding store
  store-Outcome {p} {q} last next m d opp small lt other =
      elim (write_slot_cases sha p next d small) [
        | inr (t, dead, left, read) ↦ inl (
          rw dead refl,
          rw dead (
              second-Safe last (write_slot sha p next d).1.files opp
                (rw left (rw (put_keeps t d.files opp) other))),
        )
        | inl (d1, did1, left1) ↦
            let new1 : Covers next (contents p d1.files) = rw left1 (
              rw (put_self (make_record sha next) d.files opp)
                (Covers-new next next small (omega arith))) in
            elim (write_slot_cases sha q next d1 small) [
              | inr (t, dead, left, read) ↦
                  let safe : Covers next (contents p (write_slot sha q next d1).1.files) =
                    rw left (rw (put_other t d1.files opp) new1) in
                  inl (
                    rw did1 (rw dead refl),
                    rw did1 (
                        rw dead (
                          first-Safe last (write_slot sha q next d1).1.files opp
                            (safe.0, omega (arith, safe.1)))),
                  )
              | inl (d2, did2, left2) ↦
                  let new2 : Covers next (contents p d2.files) =
                    rw left2 (rw (put_other (make_record sha next) d1.files opp) new1) in
                  rw did1 (rw did2 (finish last next m d2 opp lt new2))
            ]
      ]
