-- ===== src/Sequence/Slots.antt =====
-- `next_windows_sequence`, `initialize_windows_sequence` and `inspect_windows_sequence` of
-- src/core/nap_sequence.cpp, over the three files that hold the counter. The interprocess lock
-- makes each call a step of its own; log lines, event reports and the recovery marker are left out.
use neta_agent.Prelude.{
  ℕ, zero, suc, ◌+◌, Bool, true, false, ◌&&◌, ◌||◌, not, Option, none, some, [], ◌∷◌, ◌++◌, Text,
  ◌==◌, nat_eq, option_eq, leb, ltb, max, length, take, if◌then◌else◌,
}
use neta_agent.Prelude.Decimal.{to_string, max_u64}
use neta_agent.Crypto.{Sha256}
use neta_agent.Sequence.Record.{make_record, parse_record, parse_decimal, max_legacy_sequence_bytes}

-- `sequence.0`, `sequence.1` and the compatibility mirror `sequence`; `none` is a missing file.
pub record Files : Type 0 where
  pub slot0 : Option Text
  pub slot1 : Option Text
  pub legacy : Option Text

pub data Place : Type 0 where
  file0 file1 mirror : Place

abbrev pub put : Place → Text → Files → Files
put Place.file0 t f = record f { slot0 = some t }
put Place.file1 t f = record f { slot1 = some t }
put Place.mirror t f = record f { legacy = some t }

abbrev pub contents : Place → Files → Option Text
contents Place.file0 f = f.slot0
contents Place.file1 f = f.slot1
contents Place.mirror f = f.legacy

pub record SlotState : Type 0 where
  pub exists : Bool
  pub valid : Bool
  pub value : ℕ

abbrev pub absent : SlotState
absent = record { exists = false; valid = false; value = 0 }

abbrev pub unreadable : SlotState
unreadable = record { exists = true; valid = false; value = 0 }

abbrev pub holding : ℕ → SlotState
holding n = record { exists = true; valid = true; value = n }

-- The machine: its files, and how many writes are completed before it dies in the next one, of
-- which only the given number of bytes reaches the disk. `none` is a machine that stays up.
pub record Disk : Type 0 where
  pub files : Files
  pub dies : Option (ℕ × ℕ)

-- An exception, or the death of the machine, is `none`; what was written stays written.
abbrev pub M : Type 0 → Type 0
M A = Disk → Option A × Disk

abbrev pub continue : {A B : Type 0} → Option A → (A → M B) → M B
continue none f d = (none, d)
continue (some a) f d = f a d

infixl 5 ◌>>=◌ ◌>>◌
abbrev pub ◌>>=◌ : {A B : Type 0} → M A → (A → M B) → M B
◌>>=◌ m f d = continue (m d).0 f (m d).1

abbrev pub ◌>>◌ : {B : Type 0} → M (Unit {0}) → M B → M B
m >> k = m >>= λ _. k

abbrev pub pure : {A : Type 0} → A → M A
pure a d = (some a, d)

abbrev pub fail : {A : Type 0} → M A
fail d = (none, d)

-- The file is truncated, then written.
abbrev pub durable_write : Option (ℕ × ℕ) → Place → Text → Files → Option (Unit {0}) × Disk
durable_write none p t f = (some tt, record { files = put p t f; dies = none })
durable_write (some (zero, torn)) p t f =
    (none, record { files = put p (take torn t) f; dies = none })
durable_write (some (suc k, torn)) p t f =
    (some tt, record { files = put p t f; dies = some (k, torn) })

unfoldable pub durable_write_text : Place → Text → M (Unit {0})
durable_write_text p t d = durable_write d.dies p t d.files

-- The mirror is best effort: its write is completed, cannot begin, or fails after some bytes, and
-- then the exception is caught.
pub data Mirror : Type 0 where
  written refused : Mirror
  cut : ℕ → Mirror

unfoldable pub write_mirror : Mirror → ℕ → M (Unit {0})
unfolding durable_write_text
write_mirror Mirror.written next d =
    durable_write_text Place.mirror (to_string next ++ b'\n' ∷ []) d
write_mirror Mirror.refused next d = (some tt, d)
write_mirror (Mirror.cut j) next d = (
  some tt,
  record {
    files = put Place.mirror (take j (to_string next ++ b'\n' ∷ [])) d.files;
    dies = d.dies;
  },
)

-- The number to go on from, and the values of the two slots.
pub record Current : Type 0 where
  pub current : ℕ
  pub value0 : ℕ
  pub value1 : ℕ

pub data NapSequenceHealth : Type 0 where
  healthy recovered legacy_migration_required unrecoverable : NapSequenceHealth

-- The texts that describe the status are left out.
pub record NapSequenceStatus : Type 0 where
  pub health : NapSequenceHealth
  pub sequence : Option ℕ
  pub slot0_valid : Bool
  pub slot1_valid : Bool
  pub legacy_valid : Bool

unfoldable pub read_legacy : Option Text → SlotState
read_legacy none = absent
read_legacy (some t) =
    if ltb max_legacy_sequence_bytes (length t)
    then unreadable
    else elim (parse_decimal t) [ none ↦ unreadable | some v ↦ holding v ]

abbrev pub both_at : ℕ → Current
both_at n = record { current = n; value0 = n; value1 = n }

module _ (sha : Sha256) where
  unfoldable pub read_slot : Option Text → SlotState
  read_slot none = absent
  read_slot (some t) = elim (parse_record sha t) [ none ↦ unreadable | some v ↦ holding v ]

  -- What was written is read again and must be the number.
  abbrev pub verified : Option Text → ℕ → Bool
  verified none n = false
  verified (some t) n = parse_record sha t == some n

  unfoldable pub verify : Place → ℕ → M (Unit {0})
  verify p n d = if verified (contents p d.files) n then (some tt, d) else (none, d)

  unfoldable pub write_slot : Place → ℕ → M (Unit {0})
  unfolding durable_write_text verify
  write_slot p n = durable_write_text p (make_record sha n) >> verify p n

  unfoldable pub migrate : ℕ → M Current
  unfolding write_slot
  migrate n = do write_slot Place.file0 n; write_slot Place.file1 n; pure (both_at n)

  unfoldable pub repair : Place → ℕ → M Current
  unfolding write_slot
  repair p n = do write_slot p n; pure (both_at n)

  unfoldable pub recover : SlotState → SlotState → SlotState → M Current
  unfolding migrate repair
  recover s0 s1 legacy =
      if not s0.valid && not s1.valid
      then (if s0.exists || s1.exists
          then fail
          else if not legacy.valid
          then fail
          else migrate legacy.value)
      else if s0.valid && not s1.valid
      then repair Place.file1 s0.value
      else if not s0.valid && s1.valid
      then repair Place.file0 s1.value
      else pure (record { current = max s0.value s1.value; value0 = s0.value; value1 = s1.value })

  -- Both slots get the next number, the staler one first.
  unfoldable pub store : Place → Place → Mirror → ℕ → M ℕ
  unfolding write_slot write_mirror
  store first second mirrored next = do
    write_slot first next
    write_slot second next
    write_mirror mirrored next
    pure next

  unfoldable pub advance : Mirror → Current → M ℕ
  unfolding store
  advance mirrored c =
      if c.current == max_u64
      then fail
      else if leb c.value0 c.value1
      then store Place.file0 Place.file1 mirrored (c.current + 1)
      else store Place.file1 Place.file0 mirrored (c.current + 1)

  unfoldable pub next_windows_sequence : Mirror → M ℕ
  unfolding recover advance read_slot read_legacy
  next_windows_sequence mirrored d =
      (recover (read_slot d.files.slot0) (read_slot d.files.slot1) (read_legacy d.files.legacy)
          >>= advance mirrored)
        d

  unfoldable pub initialize_windows_sequence : ℕ → M (Unit {0})
  unfolding write_slot durable_write_text
  initialize_windows_sequence initial = do
    write_slot Place.file0 initial
    write_slot Place.file1 initial
    durable_write_text Place.mirror (to_string initial ++ b'\n' ∷ [])

  unfoldable pub inspect_windows_sequence : Files → NapSequenceStatus
  unfolding read_slot read_legacy
  inspect_windows_sequence f =
      let s0 = read_slot f.slot0 in
      let s1 = read_slot f.slot1 in
      let legacy = read_legacy f.legacy in
      let status = λ (h : NapSequenceHealth) (n : Option ℕ).
        let r : NapSequenceStatus = record {
          health = h;
          sequence = n;
          slot0_valid = s0.valid;
          slot1_valid = s1.valid;
          legacy_valid = legacy.valid;
        } in
        r in
      if s0.valid && s1.valid
      then status NapSequenceHealth.healthy (some (max s0.value s1.value))
      else if s0.valid || s1.valid
      then status NapSequenceHealth.recovered (some (if s0.valid then s0.value else s1.value))
      else if not s0.exists && not s1.exists && legacy.valid
      then status NapSequenceHealth.legacy_migration_required (some legacy.value)
      else status NapSequenceHealth.unrecoverable none
