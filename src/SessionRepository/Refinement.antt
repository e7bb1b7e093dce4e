-- ===== src/SessionRepository/Refinement.antt =====
-- The repository on SQLite against the one in memory, its reference, over sequences of calls.
use wknowledge.Base.{
  ℕ, suc, ◌≡◌, refl, sym, ap, ◌∙◌, subst, Text, true, false, Option, some, List, [], ◌∷◌, map, ok,
  err, arith, keep, ◌===◌, ltb, get, set, get-set_self,
}
use mathlib.Core.Option
use wknowledge.SessionRepository.{
  RunEvent, EventInput, is_blank_code, Call, creates_session, appends_message, FinalStatus,
  begins_run, appends_event, settles_run, lists_events, lists_messages, events, session_messages,
  run_invalid, run_settled,
}
use wknowledge.SessionRepository.Memory
use wknowledge.SessionRepository.Memory.{
  MemoryRepository, empty_repository, MemoryRun, Outcome, add,
}
use wknowledge.SessionRepository.Sqlite
use wknowledge.SessionRepository.Sqlite.{
  SqliteRepository, SessionRow, RunRow, session_key, message_key, run_key, event_key, is_running,
  after_insert, insert_run, insert_event, settled_status, empty_tables,
}
use wknowledge.SessionRepository.Tables.{by_id, order_by, place}
use wknowledge.SessionRepository.Order.{keep-IsRising, order_by-IsRising}
use wknowledge.SessionRepository.Sequences.{IsConsecutive}
use wknowledge.SessionRepository.Agreement.{
  forget, memory_run, run_entry, IsSound, Agree, IsAdmitted,
}
use wknowledge.SessionRepository.Agreement.Inserts.{
  create_session_agrees, append_message_agrees, begin_run_agrees, append_found_agrees, get-entries,
}
use wknowledge.SessionRepository.Agreement.Updates.{settle_found_agrees}

-- Events whose numbers follow each other are in the order of their numbers.
order_by-IsConsecutive :
    (n : ℕ) (es : List RunEvent)
    → IsConsecutive n es
    → order_by (λ e f. ltb e.sequence f.sequence) es ≡ es
unfolding order_by place
order_by-IsConsecutive n [] h = refl
order_by-IsConsecutive n (e ∷ []) h = refl
order_by-IsConsecutive n (e ∷ f ∷ es) (h, (k, hs)) =
    let rest = order_by-IsConsecutive (suc n) (f ∷ es) (k, hs) in
    let in_order : ltb f.sequence e.sequence ≡ false = ground (arith, h, k) in
    ap (place (λ x y. ltb x.sequence y.sequence) e) rest ∙ rw in_order refl

exec_agrees :
    (call : Call) (tables : SqliteRepository)
    → IsSound tables
    → IsAdmitted call tables
    → Agree (Memory.exec call (forget tables)) (Sqlite.exec call tables)
unfolding Memory.exec Sqlite.exec Memory.append_run_event Sqlite.append_run_event Memory.settle_run
    Sqlite.settle_run Memory.list_run_events Sqlite.list_run_events Sqlite.events_by_run
    Memory.list_session_messages Sqlite.list_session_messages
exec_agrees (creates_session owner_id title now) tables sound admitted =
    create_session_agrees owner_id title now tables sound
exec_agrees (appends_message session_id role content now) tables sound admitted =
    append_message_agrees session_id role content now tables sound
exec_agrees (begins_run session_id user_message_id) tables sound admitted =
    begin_run_agrees session_id user_message_id tables sound admitted
exec_agrees (appends_event input) tables sound admitted =
    subst
      (λ found.
        Agree (Memory.append_found input found (forget tables))
          (Sqlite.append_run_event input tables))
      (sym (get-entries input.run_id tables.runs))
      (append_found_agrees input (by_id run_key input.run_id tables.runs) tables sound)
exec_agrees (settles_run run_id status error_code) tables sound admitted =
    subst
      (λ found.
        Agree (Memory.settle_found run_id error_code found (forget tables))
          (Sqlite.settle_run run_id status error_code tables))
      (sym (get-entries run_id tables.runs))
      (settle_found_agrees run_id status error_code (by_id run_key run_id tables.runs) tables sound
        admitted refl)
exec_agrees (lists_events run_id) tables sound admitted = (
  ap (λ es. (forget tables, ok (events es)))
      (sym (
        order_by-IsConsecutive 1 (keep (λ e. e.run_id === run_id) tables.events)
          (sound.events_numbered run_id))),
  sound,
)
exec_agrees (lists_messages session_id) tables sound admitted = (
  ap (λ ms. (forget tables, ok (session_messages ms)))
      (sym (
        order_by-IsRising 0 tables.sequence
          (keep (λ m. m.session_id === session_id) tables.messages) admitted
          (keep-IsRising (λ m. m.session_id === session_id) 0 tables.sequence tables.messages
            sound.messages_rising))),
  sound,
)

-- Every call is admitted on the tables that the calls before it have left.
abbrev pub AreAdmitted : List Call → SqliteRepository → Type 0
AreAdmitted [] tables = Unit
AreAdmitted (call ∷ calls) tables =
    IsAdmitted call tables × AreAdmitted calls (Sqlite.exec call tables).0

answers_agree_from :
    (calls : List Call) (tables : SqliteRepository)
    → IsSound tables
    → AreAdmitted calls tables
    → Sqlite.answers calls tables ≡ Memory.answers calls (forget tables)
unfolding Memory.answers Sqlite.answers
answers_agree_from [] tables sound admitted = refl
answers_agree_from (call ∷ calls) tables sound (admitted, later) =
    let (same, sound_after) = exec_agrees call tables sound admitted in
    let rest = answers_agree_from calls (Sqlite.exec call tables).0 sound_after later in
    rw same (ap (λ others. (Sqlite.exec call tables).1 ∷ others) rest)

-- From the empty repository and the empty tables, both repositories give the same answers, thrown errors
-- among them, to every sequence of calls of the port in which a run is begun only for a message that is
-- kept, no run is settled with a blank error code, and the messages of a session are listed only
-- while the counter of the ids is below 100,000,000.
pub answers_agree :
    (calls : List Call)
    → AreAdmitted calls empty_tables
    → Sqlite.answers calls empty_tables ≡ Memory.answers calls empty_repository
unfolding Memory.list_run_events
answers_agree calls admitted =
    answers_agree_from calls empty_tables
      (record {
        sessions_given = tt;
        messages_given = tt;
        runs_given = tt;
        events_given = tt;
        events_numbered = λ r. tt;
        messages_rising = tt;
      })
      admitted

-- For a run that is kept and running, a settle with a blank error code throws the same error on
-- both repositories. The tables are then as before, but the repository in memory has settled the run:
-- it refuses every later event of the run as settled.
pub blank_code_settles_in_memory :
    (run_id : Text) (status : FinalStatus) (error_code : Option Text) (row : RunRow)
    (input : EventInput) (tables : SqliteRepository)
    → by_id run_key run_id tables.runs ≡ some row
    → is_running row.status ≡ true
    → is_blank_code error_code ≡ true
    → input.run_id ≡ run_id
    → let left = Memory.settle_run run_id error_code (forget tables) in
      (Sqlite.settle_run run_id status error_code tables ≡ (tables, err run_invalid))
      × (left.1 ≡ err run_invalid)
      × ((Memory.append_run_event input left.0).1 ≡ err run_settled)
unfolding Memory.append_run_event Sqlite.settle_run Memory.settle_run Sqlite.settle_found
    Memory.settle_found Memory.append_found
blank_code_settles_in_memory run_id status error_code row input tables kept runs blank same =
    let found : get run_id (map run_entry tables.runs) ≡ some (memory_run row) =
      get-entries run_id tables.runs ∙ ap (Option.map memory_run) kept in
    let entries =
      set run_id (record (memory_run row) { settled = true }) (map run_entry tables.runs) in
    let marked : MemoryRepository = record (forget tables) { runs = entries } in
    let settled : Memory.settle_run run_id error_code (forget tables) ≡ (marked, err run_invalid) =
      ap (λ o. Memory.settle_found run_id error_code o (forget tables)) found
      ∙ rw (runs, blank) refl in
    let refused : (Memory.append_run_event input marked).1 ≡ err run_settled =
      ap (λ o. (Memory.append_found input o marked).1)
        (ap (λ id. get id entries) same
          ∙ get-set_self run_id (record (memory_run row) { settled = true })
              (map run_entry tables.runs)) in
    (
      ap (λ o. Sqlite.settle_found run_id status error_code o tables) kept ∙ rw (runs, blank) refl,
      ap (λ o. o.1) settled,
      ap (λ o. (Memory.append_run_event input o.0).1) settled ∙ refused,
    )
