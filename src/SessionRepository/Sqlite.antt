-- ===== src/SessionRepository/Sqlite.antt =====
-- packages/core/src/sqlite-agent-session-repository.ts: `createSqliteAgentSessionRepository`. The
-- tables and the counter are the state. An insert that a constraint refuses throws after the
-- counter has moved: a primary key, the UNIQUE (run_id, sequence) of the events, and the user
-- message that a run references. The other references are read before the insert.
use wknowledge.Base.{
  ℕ, ◌+◌, Text, units, Bool, true, false, not, ◌||◌, Option, none, some, is_some, List, [], ◌∷◌,
  Result, ok, err, if◌then◌else◌, ◌===◌, ◌==◌, is_blank, keep, any, length, ltb,
}
use wknowledge.SessionRepository.{
  Role, SessionMessage, RunEvent, EventInput, EventStatus, running, completed, failed, stopped,
  FinalStatus, RepositoryError, session_invalid, session_not_found, message_invalid, run_not_found,
  run_settled, run_invalid, constraint_failed, assert_event_input, new_event, is_blank_code, Call,
  creates_session, appends_message, begins_run, appends_event, settles_run, lists_events,
  lists_messages, Answer, new_id, message, event, done, events, session_messages,
}
use wknowledge.SessionRepository.Ids.{next_id}
use wknowledge.SessionRepository.Memory.{Outcome}
use wknowledge.SessionRepository.Tables.{by_id, insert_row, update_by_id, order_by, text_before}

pub record SessionRow : Type 0 where
  pub id : Text
  pub owner_id : Text
  pub title : Text
  pub created_at : ℕ

pub record RunRow : Type 0 where
  pub id : Text
  pub session_id : Text
  pub user_message_id : Text
  pub status : EventStatus
  pub error_code : Option Text

pub record SqliteRepository : Type 0 where
  pub sessions : List SessionRow
  pub messages : List SessionMessage
  pub runs : List RunRow
  pub events : List RunEvent
  pub sequence : ℕ

abbrev pub empty_tables : SqliteRepository
empty_tables = record { sessions = []; messages = []; runs = []; events = []; sequence = 0 }

abbrev pub session_key : SessionRow → Text
session_key row = row.id

abbrev pub message_key : SessionMessage → Text
message_key row = row.id

abbrev pub run_key : RunRow → Text
run_key row = row.id

abbrev pub event_key : RunEvent → Text
event_key row = row.id

abbrev pub is_running : EventStatus → Bool
is_running running = true
is_running _ = false

abbrev pub settled_status : FinalStatus → EventStatus
settled_status completed = completed
settled_status failed = failed
settled_status stopped = stopped

-- A call that ends with an insert: what it is for the rows after it, or the constraint's error.
abbrev pub after_insert {ℓ} :
    {A : Type ℓ}
    → SqliteRepository
    → (List A → SqliteRepository)
    → Answer
    → Option (List A)
    → Outcome SqliteRepository
after_insert counted write answer none = (counted, err constraint_failed)
after_insert counted write answer (some rows) = (write rows, ok answer)

unfoldable pub create_session : Text → Text → ℕ → SqliteRepository → Outcome SqliteRepository
unfolding insert_row
create_session owner_id title now repository =
    let counted = record repository { sequence = repository.sequence + 1 } in
    let id = next_id (units "session") counted.sequence in
    let row : SessionRow = record {
      id = id;
      owner_id = owner_id;
      title = title;
      created_at = now;
    } in
    if is_blank owner_id || is_blank title
    then (repository, err session_invalid)
    else after_insert counted (λ rows. record counted { sessions = rows }) (new_id id)
        (insert_row session_key row repository.sessions)

unfoldable pub append_message : Text → Role → Text → ℕ → SqliteRepository → Outcome SqliteRepository
append_message session_id role content now repository =
    let counted = record repository { sequence = repository.sequence + 1 } in
    let row : SessionMessage = record {
      id = next_id (units "message") counted.sequence;
      session_id = session_id;
      role = role;
      content = content;
      created_at = now;
    } in
    if not (is_some (by_id session_key session_id repository.sessions))
    then (repository, err session_not_found)
    else if is_blank content
    then (repository, err message_invalid)
    else after_insert counted (λ rows. record counted { messages = rows }) (message row)
        (insert_row message_key row repository.messages)

-- `INSERT INTO agent_run`, with the reference to `agent_message`
abbrev pub insert_run : List SessionMessage → RunRow → List RunRow → Option (List RunRow)
insert_run messages row rows =
    if is_some (by_id message_key row.user_message_id messages)
    then insert_row run_key row rows
    else none

unfoldable pub begin_run : Text → Text → SqliteRepository → Outcome SqliteRepository
begin_run session_id user_message_id repository =
    let counted = record repository { sequence = repository.sequence + 1 } in
    let id = next_id (units "run") counted.sequence in
    let row : RunRow = record {
      id = id;
      session_id = session_id;
      user_message_id = user_message_id;
      status = running;
      error_code = none;
    } in
    if not (is_some (by_id session_key session_id repository.sessions))
    then (repository, err session_not_found)
    else after_insert counted (λ rows. record counted { runs = rows }) (new_id id)
        (insert_run repository.messages row repository.runs)

-- `WHERE run_id = ?`
unfoldable pub events_by_run : Text → List RunEvent → List RunEvent
events_by_run run_id = keep (λ e. e.run_id === run_id)

-- `INSERT INTO agent_run_event`, with UNIQUE (run_id, sequence)
abbrev pub insert_event : RunEvent → List RunEvent → Option (List RunEvent)
insert_event row rows =
    if any (λ e. e.sequence == row.sequence) (events_by_run row.run_id rows)
    then none
    else insert_row event_key row rows

-- `appendRunEvent` from the check of its input
unfoldable pub append_checked :
    EventInput → Result RepositoryError (Unit {0}) → SqliteRepository → Outcome SqliteRepository
append_checked input (err thrown) repository = (repository, err thrown)
append_checked input (ok checked) repository =
    let counted = record repository { sequence = repository.sequence + 1 } in
    let total = length (events_by_run input.run_id repository.events) in
    let row = new_event (next_id (units "event") counted.sequence) (total + 1) input in
    after_insert counted (λ rows. record counted { events = rows }) (event row)
      (insert_event row repository.events)

unfoldable pub append_found :
    EventInput → Option RunRow → SqliteRepository → Outcome SqliteRepository
append_found input none repository = (repository, err run_not_found)
append_found input (some run) repository =
    if not (is_running run.status)
    then (repository, err run_settled)
    else append_checked input (assert_event_input input) repository

unfoldable pub append_run_event : EventInput → SqliteRepository → Outcome SqliteRepository
append_run_event input repository =
    append_found input (by_id run_key input.run_id repository.runs) repository

unfoldable pub settle_found :
    Text → FinalStatus → Option Text → Option RunRow → SqliteRepository → Outcome SqliteRepository
settle_found run_id status error_code none repository = (repository, err run_not_found)
settle_found run_id status error_code (some run) repository =
    let settle : RunRow → RunRow =
      λ row. record row { status = settled_status status; error_code = error_code } in
    if not (is_running run.status)
    then (repository, err run_settled)
    else if is_blank_code error_code
    then (repository, err run_invalid)
    else (record repository { runs = update_by_id run_key run_id settle repository.runs }, ok done)

unfoldable pub settle_run :
    Text → FinalStatus → Option Text → SqliteRepository → Outcome SqliteRepository
settle_run run_id status error_code repository =
    settle_found run_id status error_code (by_id run_key run_id repository.runs) repository

-- `listRunEvents`: `ORDER BY sequence`
unfoldable pub list_run_events : Text → List RunEvent → List RunEvent
list_run_events run_id rows =
    order_by (λ e f. ltb e.sequence f.sequence) (events_by_run run_id rows)

-- `listSessionMessages`: `ORDER BY id`
unfoldable pub list_session_messages : Text → List SessionMessage → List SessionMessage
list_session_messages session_id rows =
    order_by (λ m n. text_before m.id n.id) (keep (λ m. m.session_id === session_id) rows)

unfoldable pub exec : Call → SqliteRepository → Outcome SqliteRepository
exec (creates_session owner_id title now) repository = create_session owner_id title now repository
exec (appends_message session_id role content now) repository =
    append_message session_id role content now repository
exec (begins_run session_id user_message_id) repository =
    begin_run session_id user_message_id repository
exec (appends_event input) repository = append_run_event input repository
exec (settles_run run_id status error_code) repository =
    settle_run run_id status error_code repository
exec (lists_events run_id) repository =
    (repository, ok (events (list_run_events run_id repository.events)))
exec (lists_messages session_id) repository =
    (repository, ok (session_messages (list_session_messages session_id repository.messages)))

unfoldable pub answers : List Call → SqliteRepository → List (Result RepositoryError Answer)
answers [] repository = []
answers (call ∷ calls) repository =
    (exec call repository).1 ∷ answers calls (exec call repository).0
