-- ===== src/Sequence/Issue.antt =====
-- Histories of allocations, and what an allocation on a machine that stays up gives.
use neta_agent.Prelude.{
  subst, ℕ, ◌+◌, ◌<◌, ◌^◌, ◌≡◌, refl, ◌∙◌, inl, inr, true, false, Option, none, some, List, [], ◌∷◌,
  ◌++◌, ◌==◌, nat_eq, option_eq, arith, Bool-cases, leb, max,
}
use neta_agent.Prelude.Decimal.{to_string, max_u64}
use neta_agent.Crypto.{Sha256}
use neta_agent.Sequence.Record.{make_record}
use neta_agent.Sequence.Torn.{contents-put, verified_record}
use neta_agent.Sequence.Slots.{
  Current, both_at, ◌>>◌, pure, Files, Mirror, Place, put, Disk, durable_write_text, write_mirror,
  read_slot, read_legacy, verify, write_slot, migrate, repair, recover, store, advance,
  next_windows_sequence, initialize_windows_sequence, inspect_windows_sequence,
}
use neta_agent.Sequence.Crash.{next-Outcome}
use neta_agent.Sequence.Store.{
  Safe, Covers-new, reading_lt, legacy_lt, mirror_keeps, Opposite, up, down,
}

-- The numbers grow, from one above the given one.
pub data Ascending : ℕ → List ℕ → Type 0 where
  stop : {last : ℕ} → Ascending last []
  step : {last n : ℕ} {ns : List ℕ} → last < n → Ascending n ns → Ascending last (n ∷ ns)

module _ (sha : Sha256) where
  -- The numbers handed out by a history of allocations, each on the files the one before it left,
  -- each with its own mirror and its own death.
  unfoldable pub issued : List (Mirror × Option (ℕ × ℕ)) → Files → List ℕ
  unfolding next_windows_sequence
  issued [] f = []
  issued ((mirrored, dies) ∷ uses) f =
      let r = next_windows_sequence sha mirrored (record { files = f; dies = dies }) in
      let later = issued uses r.1.files in elim r.0 [ none ↦ later | some n ↦ n ∷ later ]

  issued-Ascending :
      (last : ℕ) (uses : List (Mirror × Option (ℕ × ℕ))) (f : Files)
      → Safe sha last f
      → Ascending last (issued uses f)
  unfolding issued
  issued-Ascending last [] f safe = stop
  issued-Ascending last ((mirrored, dies) ∷ uses) f safe =
      elim (next-Outcome sha last mirrored (record { files = f; dies = dies }) safe) [
        | inl (dead, still) ↦ rw (dead, issued) (issued-Ascending last uses _ still)
        | inr (n, got, above, still) ↦
            rw (got, issued) (step above (issued-Ascending n uses _ still))
      ]

  stay_up : Files → Disk
  stay_up f = record { files = f; dies = none }

  pub write_up :
      (p : Place) (n : ℕ) (f : Files)
      → n < 2 ^ 64
      → write_slot sha p n (record { files = f; dies = none })
        ≡ (some tt, record { files = put p (make_record sha n) f; dies = none })
  unfolding write_slot durable_write_text verify
  write_up p n f h = rw contents-put (rw (verified_record sha n h) refl)

  initialized :
      (initial : ℕ) (f : Files)
      → initial < 2 ^ 64
      → initialize_windows_sequence sha initial (record { files = f; dies = none }) ≡ (
        some tt,
        record {
          files = record {
            slot0 = some (make_record sha initial);
            slot1 = some (make_record sha initial);
            legacy = some (to_string initial ++ b'\n' ∷ []);
          };
          dies = none;
        },
      )
  unfolding initialize_windows_sequence durable_write_text
  initialized initial f h =
      rw (write_up Place.file0 initial f h) (rw (write_up Place.file1 initial _ h) refl)

  -- On the Windows slots, after an initialization that completed, the numbers handed out by any history of allocations
  -- grow from above the initial number, whatever files were there before, whichever allocations
  -- die, and wherever in their writes they do; the initial number fits 64 bits.
  pub numbers_increase :
      (initial : ℕ) (f : Files) (uses : List (Mirror × Option (ℕ × ℕ)))
      → initial < 2 ^ 64
      → Ascending initial (
          issued uses
            (initialize_windows_sequence sha initial (record { files = f; dies = none })).1.files)
  numbers_increase initial f uses h =
      rw (initialized initial f h)
        (issued-Ascending initial uses _ (inl (Covers-new sha initial initial h (omega arith))))

  mirror_up :
      (m : Mirror) (n : ℕ) (f : Files)
      → (write_mirror m n (record { files = f; dies = none })).0 ≡ some tt
  unfolding write_mirror durable_write_text
  mirror_up Mirror.written n f = refl
  mirror_up Mirror.refused n f = refl
  mirror_up (Mirror.cut j) n f = refl

  -- The number was handed out, and both slots hold it.
  unfoldable pub HandedOut : ℕ → Option ℕ × Disk → Type 0
  HandedOut n r =
      (r.0 ≡ some n)
      × (r.1.files.slot0 ≡ some (make_record sha n))
      × (r.1.files.slot1 ≡ some (make_record sha n))

  finish_up :
      (m : Mirror) (n : ℕ) (f : Files)
      → f.slot0 ≡ some (make_record sha n)
      → f.slot1 ≡ some (make_record sha n)
      → HandedOut n ((write_mirror m n >> pure n) (record { files = f; dies = none }))
  unfolding HandedOut
  finish_up m n f e0 e1 =
      let (_, k0, k1) = mirror_keeps sha m n (record { files = f; dies = none }) in
      rw (mirror_up m n f) (refl, k0 ∙ e0, k1 ∙ e1)

  store_up :
      {p q : Place} (m : Mirror) (n : ℕ) (f : Files)
      → Opposite p q
      → n < 2 ^ 64
      → HandedOut n (store sha p q m n (record { files = f; dies = none }))
  unfolding store
  store_up m n f up h =
      rw (write_up Place.file0 n f h) (rw (write_up Place.file1 n _ h) (finish_up m n _ refl refl))
  store_up m n f down h =
      rw (write_up Place.file1 n f h) (rw (write_up Place.file0 n _ h) (finish_up m n _ refl refl))

  advance_up :
      (m : Mirror) (c v0 v1 : ℕ) (f : Files)
      → c < max_u64
      → HandedOut (c + 1) (
          advance sha m
            (record { current = c; value0 = v0; value1 = v1 })
            (record { files = f; dies = none }))
  unfolding advance
  advance_up m c v0 v1 f h =
      let room : (c == max_u64) ≡ false = ground arith in
      rw room (elim (Bool-cases (leb v0 v1)) [
        | inl le ↦ rw le (store_up m (c + 1) f up (omega arith))
        | inr gt ↦ rw gt (store_up m (c + 1) f down (omega arith))
      ])

  -- What recovery gives on a machine that stays up.
  recover_up :
      (n : ℕ) (f : Files)
      → (inspect_windows_sequence sha f).sequence ≡ some n
      → (c : Current) × (g : Files) × (c.current ≡ n)
        × (recover sha
              (read_slot sha f.slot0)
              (read_slot sha f.slot1)
              (read_legacy f.legacy)
              (record { files = f; dies = none })
            ≡ (some c, record { files = g; dies = none }))
  unfolding recover repair migrate inspect_windows_sequence
  recover_up n f e = elim (Bool-cases (read_slot sha f.slot0).valid) [
    | inl v0 ↦ elim (Bool-cases (read_slot sha f.slot1).valid) [
      | inl v1 ↦
          let c : Current = record {
            current = max (read_slot sha f.slot0).value (read_slot sha f.slot1).value;
            value0 = (read_slot sha f.slot0).value;
            value1 = (read_slot sha f.slot1).value;
          } in
          (c, f, ground arith, rw v0 (rw v1 refl))
      | inr n1 ↦ (
        both_at (read_slot sha f.slot0).value,
        put Place.file1 (make_record sha (read_slot sha f.slot0).value) f,
        ground arith,
        rw v0 (rw n1 (rw (write_up Place.file1 _ f (reading_lt sha f.slot0)) refl)),
      )
    ]
    | inr n0 ↦ elim (Bool-cases (read_slot sha f.slot1).valid) [
      | inl v1 ↦ (
        both_at (read_slot sha f.slot1).value,
        put Place.file0 (make_record sha (read_slot sha f.slot1).value) f,
        ground arith,
        rw n0 (rw v1 (rw (write_up Place.file0 _ f (reading_lt sha f.slot1)) refl)),
      )
      | inr n1 ↦
          let m0 : (read_slot sha f.slot0).exists ≡ false = ground arith in
          let m1 : (read_slot sha f.slot1).exists ≡ false = ground arith in
          let good : (read_legacy f.legacy).valid ≡ true = ground arith in
          let small = legacy_lt sha f.legacy in
          (
            both_at (read_legacy f.legacy).value,
            put Place.file1 (make_record sha (read_legacy f.legacy).value)
                (put Place.file0 (make_record sha (read_legacy f.legacy).value) f),
            ground arith,
            rw (n0, n1, m0, m1, good)
                (rw (write_up Place.file0 _ f small) (rw (write_up Place.file1 _ _ small) refl)),
          )
    ]
  ]

  -- Where `inspect_windows_sequence` reports a number below the largest, the next allocation on a
  -- machine that stays up hands out the number after it, and leaves this number in both slots.
  pub next-inspect :
      (m : Mirror) (n : ℕ) (f : Files)
      → (inspect_windows_sequence sha f).sequence ≡ some n
      → n < max_u64
      → HandedOut (n + 1) (next_windows_sequence sha m (record { files = f; dies = none }))
  unfolding next_windows_sequence
  next-inspect m n f e h =
      let (c, g, same, done) = recover_up n f e in
      rw done (
        subst (λ k. HandedOut (k + 1) (advance sha m c (record { files = g; dies = none }))) same
          (advance_up m c.current c.value0 c.value1 g (omega (arith, same, h))))
