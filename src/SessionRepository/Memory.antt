-- ===== src/SessionRepository/Memory.antt =====
-- packages/core/src/agent-session-repository-port.ts: `createInMemoryAgentSessionRepository`. Its
-- variables are the state; a call gives the state after it and what it returns or throws, and a
-- throw keeps what was written before it.
use wknowledge.Base.{
  ℕ, ◌+◌, Text, units, Bool, true, false, not, ◌||◌, Option, none, some, List, [], ◌∷◌, ◌++◌,
  Result, ok, err, if◌then◌else◌, ◌===◌, is_blank, has, get, set, keep, length,
}
use wknowledge.SessionRepository.{
  Role, SessionMessage, RunEvent, EventInput, RepositoryError, session_invalid, session_not_found,
  message_invalid, run_not_found, run_settled, run_invalid, assert_event_input, new_event,
  is_blank_code, Call, creates_session, appends_message, begins_run, appends_event, settles_run,
  lists_events, lists_messages, Answer, new_id, message, event, done, events, session_messages,
}
use wknowledge.SessionRepository.Ids.{next_id}

pub record MemoryRun : Type 0 where
  pub session_id : Text
  pub settled : Bool

pub record MemoryRepository : Type 0 where
  pub sessions : List Text
  pub messages : List SessionMessage
  pub runs : List (Text × MemoryRun)
  pub events : List RunEvent
  pub sequence : ℕ

abbrev pub empty_repository : MemoryRepository
empty_repository = record { sessions = []; messages = []; runs = []; events = []; sequence = 0 }

-- `Set.prototype.add`
unfoldable pub add : Text → List Text → List Text
unfolding has
add k ks = if has k ks then ks else ks ++ k ∷ []

abbrev pub Outcome : Type 0 → Type 0
Outcome R = R × Result RepositoryError Answer

unfoldable pub create_session : Text → Text → MemoryRepository → Outcome MemoryRepository
unfolding add next_id
create_session owner_id title repository =
    let sequence = repository.sequence + 1 in
    let id = next_id (units "session") sequence in
    if is_blank owner_id || is_blank title then (repository, err session_invalid) else (
      record repository { sequence = sequence; sessions = add id repository.sessions },
      ok (new_id id),
    )

unfoldable pub append_message : Text → Role → Text → ℕ → MemoryRepository → Outcome MemoryRepository
append_message session_id role content now repository =
    let sequence = repository.sequence + 1 in
    let added : SessionMessage = record {
      id = next_id (units "message") sequence;
      session_id = session_id;
      role = role;
      content = content;
      created_at = now;
    } in
    if not (has session_id repository.sessions)
    then (repository, err session_not_found)
    else if is_blank content
    then (repository, err message_invalid)
    else (
      record repository { sequence = sequence; messages = repository.messages ++ added ∷ [] },
      ok (message added),
    )

unfoldable pub begin_run : Text → MemoryRepository → Outcome MemoryRepository
begin_run session_id repository =
    let sequence = repository.sequence + 1 in
    let id = next_id (units "run") sequence in
    let run : MemoryRun = record { session_id = session_id; settled = false } in
    if not (has session_id repository.sessions) then (repository, err session_not_found) else (
      record repository { sequence = sequence; runs = set id run repository.runs },
      ok (new_id id),
    )

-- `listRunEvents`
unfoldable pub list_run_events : Text → List RunEvent → List RunEvent
list_run_events run_id = keep (λ e. e.run_id === run_id)

-- `listSessionMessages`
unfoldable pub list_session_messages : Text → List SessionMessage → List SessionMessage
list_session_messages session_id = keep (λ m. m.session_id === session_id)

-- `appendRunEvent` from the check of its input
unfoldable pub append_checked :
    EventInput → Result RepositoryError (Unit {0}) → MemoryRepository → Outcome MemoryRepository
append_checked input (err thrown) repository = (repository, err thrown)
append_checked input (ok checked) repository =
    let sequence = repository.sequence + 1 in
    let count = length (list_run_events input.run_id repository.events) in
    let added = new_event (next_id (units "event") sequence) (count + 1) input in
    (
      record repository { sequence = sequence; events = repository.events ++ added ∷ [] },
      ok (event added),
    )

unfoldable pub append_found :
    EventInput → Option MemoryRun → MemoryRepository → Outcome MemoryRepository
append_found input none repository = (repository, err run_not_found)
append_found input (some run) repository =
    if run.settled
    then (repository, err run_settled)
    else append_checked input (assert_event_input input) repository

unfoldable pub append_run_event : EventInput → MemoryRepository → Outcome MemoryRepository
append_run_event input repository = append_found input (get input.run_id repository.runs) repository

-- The run is marked before the error code is looked at.
unfoldable pub settle_found :
    Text → Option Text → Option MemoryRun → MemoryRepository → Outcome MemoryRepository
settle_found run_id error_code none repository = (repository, err run_not_found)
settle_found run_id error_code (some run) repository =
    let marked = record repository {
      runs = set run_id (record run { settled = true }) repository.runs;
    } in
    if run.settled
    then (repository, err run_settled)
    else if is_blank_code error_code
    then (marked, err run_invalid)
    else (marked, ok done)

unfoldable pub settle_run : Text → Option Text → MemoryRepository → Outcome MemoryRepository
settle_run run_id error_code repository =
    settle_found run_id error_code (get run_id repository.runs) repository

unfoldable pub exec : Call → MemoryRepository → Outcome MemoryRepository
exec (creates_session owner_id title now) repository = create_session owner_id title repository
exec (appends_message session_id role content now) repository =
    append_message session_id role content now repository
exec (begins_run session_id user_message_id) repository = begin_run session_id repository
exec (appends_event input) repository = append_run_event input repository
exec (settles_run run_id status error_code) repository = settle_run run_id error_code repository
exec (lists_events run_id) repository =
    (repository, ok (events (list_run_events run_id repository.events)))
exec (lists_messages session_id) repository =
    (repository, ok (session_messages (list_session_messages session_id repository.messages)))

-- The answers of the calls, one after the other.
unfoldable pub answers : List Call → MemoryRepository → List (Result RepositoryError Answer)
answers [] repository = []
answers (call ∷ calls) repository =
    (exec call repository).1 ∷ answers calls (exec call repository).0
