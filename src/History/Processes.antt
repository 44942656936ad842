-- ===== src/History/Processes.antt =====
-- `upsert_process` of src/core/history_store.cpp, and what identifies a stored process.
use neta_agent.Prelude.{
  ℕ, ℤ, pos, negsuc, suc, Bool, ◌&&◌, Option, none, some, List, [], ◌∷◌, ◌++◌, ◌==◌, nat_eq, int_eq,
  if◌then◌else◌, find, max, ltb, ◌-◌, ◌^◌,
}
use neta_agent.Model.{ProcessIdentity}
use neta_agent.History.Tables.{ProcessRow, next_rowid}

-- A 64-bit number as the signed one with the same bits.
abbrev pub to_signed : ℕ → ℤ
to_signed n = if ltb n (2 ^ 63) then pos n else negsuc (2 ^ 64 - 1 - n)

abbrev pub process_ids : List ProcessRow → List ℕ
process_ids [] = []
process_ids (r ∷ rows) = r.id ∷ process_ids rows

-- `-MIN(start_ticks)` of the rows of a pid with a negative start, 0 where there is none; the next
-- such start is one less, so that the first is -1.
unfoldable pub lowest_start : ℤ → List ProcessRow → ℕ
lowest_start pid [] = 0
lowest_start pid (r ∷ rows) =
    let rest = lowest_start pid rows in
    if r.pid == pid then elim r.start_ticks [ pos n ↦ rest | negsuc n ↦ max (suc n) rest ] else rest

-- The row that a durable start time stands for.
abbrev pub same_start : ℤ → ℤ → ProcessRow → Bool
same_start pid start r = (r.pid == pid) && (r.start_ticks == start)

-- `ON CONFLICT(pid,start_ticks) DO UPDATE`
abbrev pub refreshed : ProcessIdentity → ℕ → ProcessRow → ProcessRow
refreshed p ticks r = record r {
  uid = p.uid;
  start_ticks_observed = some ticks;
  comm = p.comm;
  executable_path = p.executable_path;
}

abbrev pub write_process :
    (ProcessRow → Bool) → (ProcessRow → ProcessRow) → List ProcessRow → List ProcessRow
write_process hit f [] = []
write_process hit f (r ∷ rows) = (if hit r then f r else r) ∷ write_process hit f rows

abbrev pub durable_start : ProcessIdentity → Option ℕ
durable_start p = elim p.start_ticks [ none ↦ none | some n ↦ if n == 0 then none else some n ]

abbrev pub process_row : ℕ → ProcessIdentity → ℤ → Option ℕ → ProcessRow
process_row id p start observed = record {
  id = id;
  pid = p.pid;
  uid = p.uid;
  start_ticks = start;
  start_ticks_observed = observed;
  comm = p.comm;
  executable_path = p.executable_path;
}

unfoldable pub upsert_process : ProcessIdentity → List ProcessRow → ℕ × List ProcessRow
unfolding lowest_start
upsert_process p rows =
    let fresh = next_rowid (process_ids rows) in
    elim (durable_start p) [
      | some ticks ↦
          let start = to_signed ticks in
          elim (find (same_start p.pid start) rows) [
            | some r ↦ (r.id, write_process (same_start p.pid start) (refreshed p ticks) rows)
            | none ↦ (fresh, rows ++ process_row fresh p start (some ticks) ∷ [])
          ]
      | none ↦ (fresh, rows ++ process_row fresh p (negsuc (lowest_start p.pid rows)) none ∷ [])
    ]
