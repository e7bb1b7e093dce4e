-- ===== src/Examples/Sessions.antt =====
-- The session repositories on concrete calls.
use wknowledge.Base.{
  ℕ, ◌≡◌, refl, Text, units, true, false, Option, none, some, List, [], ◌∷◌, ok, err,
}
use wknowledge.SessionRepository.{
  user, SessionMessage, EventInput, run_started, tool_completed, running, completed, Call,
  creates_session, appends_message, begins_run, appends_event, settles_run, lists_events,
  lists_messages, run_invalid, run_settled,
}
use wknowledge.SessionRepository.Memory
use wknowledge.SessionRepository.Memory.{empty_repository}
use wknowledge.SessionRepository.Sqlite
use wknowledge.SessionRepository.Sqlite.{SqliteRepository, RunRow, empty_tables}
use wknowledge.SessionRepository.Sequences.{IsConsecutive, after, listed_events_numbered}
use wknowledge.SessionRepository.Agreement.{forget}
use wknowledge.SessionRepository.Refinement.{
  AreAdmitted, answers_agree, blank_code_settles_in_memory,
}

abbrev first_session : Text
first_session = units "session-00000001"

abbrev first_run : Text
first_run = units "run-00000004"

abbrev started : EventInput
started = record {
  run_id = first_run;
  type = run_started;
  tool = none;
  input_summary = none;
  output_summary = none;
  status = none;
}

abbrev calls : List Call
calls =
    creates_session (units "u") (units "title") 5
    ∷ appends_message first_session user (units "hello") 6
    ∷ appends_message first_session user (units "again") 7
    ∷ lists_messages first_session
    ∷ begins_run first_session (units "message-00000002")
    ∷ appends_event started
    ∷ appends_event started
    ∷ settles_run first_run completed none
    ∷ appends_event started
    ∷ lists_events first_run
    ∷ []

listed_events_numbered_example :
    IsConsecutive 1 (Memory.list_run_events first_run (after calls empty_repository).events)
listed_events_numbered_example = listed_events_numbered calls first_run

admitted : AreAdmitted calls empty_tables
unfolding wknowledge.SessionRepository.Tables.by_id Sqlite.exec Sqlite.append_message
    Sqlite.create_session wknowledge.Base.is_blank wknowledge.Base.◌===◌
    wknowledge.SessionRepository.Ids.next_id wknowledge.Base.Decimal.pad_start
    wknowledge.Base.Decimal.to_string
admitted =
    (tt, (tt, (tt, (omega wknowledge.Base.arith, (refl, (tt, (tt, (refl, (tt, (tt, tt))))))))))

answers_agree_example : Sqlite.answers calls empty_tables ≡ Memory.answers calls empty_repository
answers_agree_example = answers_agree calls admitted

abbrev row : RunRow
row = record {
  id = first_run;
  session_id = first_session;
  user_message_id = units "message-00000002";
  status = running;
  error_code = none;
}

abbrev tables : SqliteRepository
tables = record { sessions = []; messages = []; runs = row ∷ []; events = []; sequence = 3 }

blank_code_settles_in_memory_example :
    (Sqlite.settle_run first_run completed (some (units " ")) tables ≡ (tables, err run_invalid))
    × ((Memory.settle_run first_run (some (units " ")) (forget tables)).1 ≡ err run_invalid)
    × ((Memory.append_run_event started
          (Memory.settle_run first_run (some (units " ")) (forget tables)).0).1
        ≡ err run_settled)
unfolding wknowledge.SessionRepository.Tables.by_id wknowledge.Base.◌===◌ wknowledge.Base.is_blank
blank_code_settles_in_memory_example =
    blank_code_settles_in_memory first_run completed (some (units " ")) row started tables refl refl
      refl refl
