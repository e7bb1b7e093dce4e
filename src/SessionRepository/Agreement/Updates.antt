-- ===== src/SessionRepository/Agreement/Updates.antt =====
-- `settleRun` on both repositories.
use wknowledge.Base.{
  ◌≡◌, refl, sym, ap, subst, Text, units, true, false, Option, none, some, List, [], ◌∷◌, map, ok,
  arith, All, if◌then◌else◌, set,
}
use mathlib.Core.Option
use wknowledge.SessionRepository.{is_blank_code, FinalStatus, completed, failed, stopped, done}
use wknowledge.SessionRepository.Ids.{IsGiven}
use wknowledge.SessionRepository.Memory
use wknowledge.SessionRepository.Memory.{MemoryRepository, MemoryRun, Outcome, add}
use wknowledge.SessionRepository.Sqlite
use wknowledge.SessionRepository.Sqlite.{
  SqliteRepository, SessionRow, RunRow, session_key, message_key, run_key, event_key, is_running,
  after_insert, insert_run, insert_event, settled_status, empty_tables,
}
use wknowledge.SessionRepository.Tables.{by_id, update_by_id}
use wknowledge.SessionRepository.Agreement.{forget, memory_run, run_entry, IsSound, Agree, if-Agree}

not_running : (status : FinalStatus) → is_running (settled_status status) ≡ false
not_running completed = refl
not_running failed = refl
not_running stopped = refl

module _ (run_id : Text) (status : FinalStatus) (error_code : Option Text) where
  abbrev settle : RunRow → RunRow
  settle row = record row { status = settled_status status; error_code = error_code }

  set-entries :
      (row : RunRow) (rows : List RunRow)
      → by_id run_key run_id rows ≡ some row
      → set run_id (record (memory_run row) { settled = true }) (map run_entry rows)
        ≡ map run_entry (update_by_id run_key run_id settle rows)
  unfolding set by_id update_by_id
  set-entries row [] e = cc
  set-entries row (first ∷ rows) e = ground (arith, set-entries row rows, not_running status, e)

  keys-update :
      (rows : List RunRow)
      → map run_key (update_by_id run_key run_id settle rows) ≡ map run_key rows
  unfolding update_by_id
  keys-update [] = refl
  keys-update (first ∷ rows) = ground (arith, keys-update rows)

  pub settle_found_agrees :
      (found : Option RunRow) (tables : SqliteRepository)
      → IsSound tables
      → is_blank_code error_code ≡ false
      → by_id run_key run_id tables.runs ≡ found
      → Agree
          (Memory.settle_found run_id error_code (Option.map memory_run found) (forget tables))
          (Sqlite.settle_found run_id status error_code found tables)
  unfolding Memory.settle_found Sqlite.settle_found
  settle_found_agrees none tables sound worded e = (refl, sound)
  settle_found_agrees (some row) tables sound worded e =
      let settled = update_by_id run_key run_id settle tables.runs in
      let left : Outcome MemoryRepository = (
        record (forget tables) {
          runs =
              set run_id (record (memory_run row) { settled = true }) (map run_entry tables.runs);
        },
        ok done,
      ) in
      if-Agree _ _ refl _ (if is_blank_code error_code then _ else left) _
        (if is_blank_code error_code then _ else (record tables { runs = settled }, ok done))
        (refl, sound)
        (rw worded (
          ap (λ entries. (record (forget tables) { runs = entries }, ok done))
              (set-entries row tables.runs e),
          record {
            sessions_given = sound.sessions_given;
            messages_given = sound.messages_given;
            runs_given =
                subst (All (IsGiven (units "run") tables.sequence)) (sym (keys-update tables.runs))
                  sound.runs_given;
            events_given = sound.events_given;
            events_numbered = sound.events_numbered;
            messages_rising = sound.messages_rising;
          },
        ))
