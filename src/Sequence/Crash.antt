-- ===== src/Sequence/Crash.antt =====
-- No number is handed out twice, wherever the machine dies.
use neta_agent.Prelude.{
  ℕ, ◌+◌, ◌≤◌, ◌<◌, ◌^◌, ◌≡◌, ◌⊎◌, refl, inl, inr, true, false, Option, none, some, Text, ◌==◌,
  nat_eq, option_eq, arith, Bool-cases, leb, max,
}
use neta_agent.Prelude.Decimal.{max_u64}
use neta_agent.Crypto.{Sha256}
use neta_agent.Sequence.Record.{parse_record}
use neta_agent.Sequence.Torn.{write_slot_cases}
use neta_agent.Sequence.Slots.{
  Files, Mirror, Place, put, holding, Disk, Current, read_slot, read_legacy, both_at, migrate,
  repair, recover, advance, next_windows_sequence, pure,
}
use neta_agent.Sequence.Store.{
  up, down, Covers, Safe, Outcome, reading_new, reading_lt, legacy_lt, store-Outcome,
}

module _ (sha : Sha256) where
  -- Both slots are readable, and go on from the larger number.
  record Ready (last : ℕ) (c : Current) (f : Files) : Type 0 where
    slot0 : read_slot sha f.slot0 ≡ holding c.value0
    slot1 : read_slot sha f.slot1 ≡ holding c.value1
    top : c.current ≡ max c.value0 c.value1
    from : last ≤ c.current
    small : c.current < 2 ^ 64

  Covers-holding :
      (last n : ℕ) (o : Option Text) → read_slot sha o ≡ holding n → last ≤ n → Covers sha last o
  Covers-holding last n o e le = rw e (refl, le)

  advance-Outcome :
      (last : ℕ) (m : Mirror) (c : Current) (d : Disk)
      → Ready last c d.files
      → Outcome sha last (advance sha m c d)
  unfolding advance
  advance-Outcome last m c d r = elim (Bool-cases (leb c.value0 c.value1)) [
    | inl le ↦
        let other =
          Covers-holding last c.value1 d.files.slot1 r.slot1 (ground (arith, r.top, r.from)) in
        elim (Bool-cases (c.current == max_u64)) [
          | inl full ↦ rw full (inl (refl, inr (inl other)))
          | inr room ↦ rw room (
              rw le (
                store-Outcome sha last (c.current + 1) m d up (ground (arith, r.small))
                  (omega (arith, r.from)) other))
        ]
    | inr gt ↦
        let other =
          Covers-holding last c.value0 d.files.slot0 r.slot0 (ground (arith, r.top, r.from)) in
        elim (Bool-cases (c.current == max_u64)) [
          | inl full ↦ rw full (inl (refl, inl other))
          | inr room ↦ rw room (
              rw gt (
                store-Outcome sha last (c.current + 1) m d down (ground (arith, r.small))
                  (omega (arith, r.from)) other))
        ]
  ]

  reading_exists : (t : Text) → (read_slot sha (some t)).exists ≡ true
  unfolding read_slot
  reading_exists t = ground arith

  reading_valid :
      (o : Option Text) → (read_slot sha o).valid ≡ true → (read_slot sha o).exists ≡ true
  unfolding read_slot
  reading_valid none h = cc
  reading_valid (some t) h = ground arith

  reading_holding :
      (o : Option Text)
      → (read_slot sha o).valid ≡ true
      → read_slot sha o ≡ holding (read_slot sha o).value
  unfolding read_slot
  reading_holding none h = cc
  reading_holding (some t) h = ground arith

  abbrev Recovered : ℕ → Option Current × Disk → Type 0
  Recovered last r =
      ((r.0 ≡ none) × Safe sha last r.1.files)
      ⊎ ((c : Current) × (r.0 ≡ some c) × Ready last c r.1.files)

  both_at-Ready :
      (last n : ℕ) (f : Files)
      → read_slot sha f.slot0 ≡ holding n
      → read_slot sha f.slot1 ≡ holding n
      → last ≤ n
      → n < 2 ^ 64
      → Ready last (both_at n) f
  both_at-Ready last n f r0 r1 le small = record {
    slot0 = r0;
    slot1 = r1;
    top = omega arith;
    from = le;
    small = small;
  }

  repair1-Recovered :
      (last n : ℕ) (d : Disk)
      → read_slot sha d.files.slot0 ≡ holding n
      → last ≤ n
      → n < 2 ^ 64
      → Recovered last (repair sha Place.file1 n d)
  unfolding repair
  repair1-Recovered last n d good le small = elim (write_slot_cases sha Place.file1 n d small) [
    | inr (t, dead, left, read) ↦
        inl (rw dead refl, rw dead (rw left (inl (Covers-holding last n d.files.slot0 good le))))
    | inl (d1, did, left) ↦ inr (
      both_at n,
      rw did refl,
      rw did (rw left (both_at-Ready last n _ good (reading_new sha n small) le small)),
    )
  ]

  repair0-Recovered :
      (last n : ℕ) (d : Disk)
      → read_slot sha d.files.slot1 ≡ holding n
      → last ≤ n
      → n < 2 ^ 64
      → Recovered last (repair sha Place.file0 n d)
  unfolding repair
  repair0-Recovered last n d good le small = elim (write_slot_cases sha Place.file0 n d small) [
    | inr (t, dead, left, read) ↦
        inl (
          rw dead refl,
          rw dead (rw left (inr (inl (Covers-holding last n d.files.slot1 good le)))),
        )
    | inl (d1, did, left) ↦ inr (
      both_at n,
      rw did refl,
      rw did (rw left (both_at-Ready last n _ (reading_new sha n small) good le small)),
    )
  ]

  -- A first slot that is torn is either complete or unreadable.
  torn_first :
      (last n : ℕ) (t : Text) (f : Files)
      → (parse_record sha t ≡ none) ⊎ (parse_record sha t ≡ some n)
      → (read_slot sha f.slot1).valid ≡ false
      → last ≤ n
      → Safe sha last (put Place.file0 t f)
  unfolding read_slot
  torn_first last n t f (inl bad) invalid le =
      inr (inr (inl (ground arith, invalid, inl (ground arith))))
  torn_first last n t f (inr read) invalid le = inl (ground arith, ground arith)

  migrate-Recovered :
      (last n : ℕ) (d : Disk)
      → (read_slot sha d.files.slot1).valid ≡ false
      → last ≤ n
      → n < 2 ^ 64
      → Recovered last (migrate sha n d)
  unfolding migrate
  migrate-Recovered last n d none1 le small = elim (write_slot_cases sha Place.file0 n d small) [
    | inr (t, dead, left, read) ↦
        inl (rw dead refl, rw dead (rw left (torn_first last n t d.files read none1 le)))
    | inl (d1, did1, left1) ↦
        let new1 : read_slot sha d1.files.slot0 ≡ holding n = rw left1 (reading_new sha n small) in
        elim (write_slot_cases sha Place.file1 n d1 small) [
          | inr (t, dead, left, read) ↦ inl (
            rw did1 (rw dead refl),
            rw did1 (rw dead (rw left (inl (Covers-holding last n d1.files.slot0 new1 le)))),
          )
          | inl (d2, did2, left2) ↦ inr (
            both_at n,
            rw did1 (rw did2 refl),
            rw did1 (
                rw did2
                  (rw left2 (both_at-Ready last n _ new1 (reading_new sha n small) le small))),
          )
        ]
  ]

  both-Recovered :
      (last : ℕ) (d : Disk)
      → (read_slot sha d.files.slot0).valid ≡ true
      → (read_slot sha d.files.slot1).valid ≡ true
      → Safe sha last d.files
      → let v0 = (read_slot sha d.files.slot0).value in
        let v1 = (read_slot sha d.files.slot1).value in
        Recovered last (pure (record { current = max v0 v1; value0 = v0; value1 = v1 }) d)
  both-Recovered last d good0 good1 safe =
      let e0 = reading_valid d.files.slot0 good0 in
      let e1 = reading_valid d.files.slot1 good1 in
      inr (
        _,
        refl,
        record {
          slot0 = reading_holding d.files.slot0 good0;
          slot1 = reading_holding d.files.slot1 good1;
          top = refl;
          from = ground (arith, e0, e1);
          small = ground (arith, reading_lt sha d.files.slot0, reading_lt sha d.files.slot1);
        },
      )

  recover-Recovered :
      (last : ℕ) (d : Disk)
      → Safe sha last d.files
      → let f = d.files in
        Recovered last
          (recover sha (read_slot sha f.slot0) (read_slot sha f.slot1) (read_legacy f.legacy) d)
  unfolding recover
  recover-Recovered last d safe =
      let f = d.files in
      let e0 = reading_valid f.slot0 in
      let e1 = reading_valid f.slot1 in
      elim (Bool-cases (read_slot sha f.slot0).valid) [
        | inl v0 ↦ elim (Bool-cases (read_slot sha f.slot1).valid) [
          | inl v1 ↦ rw v0 (rw v1 (both-Recovered last d v0 v1 safe))
          | inr n1 ↦ rw v0 (
              rw n1 (
                repair1-Recovered last _ d (reading_holding f.slot0 v0) (ground (arith, e0))
                  (reading_lt sha f.slot0)))
        ]
        | inr n0 ↦ elim (Bool-cases (read_slot sha f.slot1).valid) [
          | inl v1 ↦ rw n0 (
              rw v1 (
                repair0-Recovered last _ d (reading_holding f.slot1 v1) (ground (arith, e1))
                  (reading_lt sha f.slot1)))
          | inr n1 ↦ elim (Bool-cases (read_slot sha f.slot0).exists) [
            | inl x0 ↦ rw (n0, n1, x0) (inl (refl, safe))
            | inr m0 ↦ elim (Bool-cases (read_slot sha f.slot1).exists) [
              | inl x1 ↦ rw (n0, n1, m0, x1) (inl (refl, safe))
              | inr m1 ↦ elim (Bool-cases (read_legacy f.legacy).valid) [
                | inl good ↦
                    rw (n0, n1, m0, m1, good)
                      (migrate-Recovered last (read_legacy f.legacy).value d n1 (ground arith)
                        (legacy_lt sha f.legacy))
                | inr bad ↦ rw (n0, n1, m0, m1, bad) (inl (refl, safe))
              ]
            ]
          ]
        ]
      ]

  -- Allocation from safe files, wherever the machine dies: either no number is handed out, or the
  -- number is larger than `last`; and the files stay safe for what has been handed out.
  pub next-Outcome :
      (last : ℕ) (m : Mirror) (d : Disk)
      → Safe sha last d.files
      → Outcome sha last (next_windows_sequence sha m d)
  unfolding next_windows_sequence
  next-Outcome last m d safe = elim (recover-Recovered last d safe) [
    | inl (dead, still) ↦ inl (rw dead refl, rw dead still)
    | inr (c, found, ready) ↦ rw found (advance-Outcome last m c _ ready)
  ]
