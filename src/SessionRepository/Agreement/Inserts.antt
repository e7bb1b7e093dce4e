-- ===== src/SessionRepository/Agreement/Inserts.antt =====
-- The calls that insert a row, on both repositories.
use wknowledge.Base.{
  ℕ, ◌+◌, ◌≡◌, refl, sym, ap, ◌∙◌, Text, units, true, false, not, ◌||◌, Option, none, some, is_some,
  List, [], ◌∷◌, ◌++◌, map, map-append, Result, ok, err, arith, length, keep, any, if◌then◌else◌,
  ◌===◌, ◌==◌, is_blank, has, get, set, set_new,
}
use mathlib.Core.Option
use wknowledge.SessionRepository.{
  Role, SessionMessage, RunEvent, EventInput, RepositoryError, assert_event_input, new_event,
  running, new_id, message, event,
}
use wknowledge.SessionRepository.Ids.{next_id}
use wknowledge.SessionRepository.Memory
use wknowledge.SessionRepository.Memory.{MemoryRepository, MemoryRun, Outcome, add}
use wknowledge.SessionRepository.Sqlite
use wknowledge.SessionRepository.Sqlite.{
  SqliteRepository, SessionRow, RunRow, session_key, message_key, run_key, event_key, is_running,
  after_insert, insert_run, insert_event, settled_status, empty_tables,
}
use wknowledge.SessionRepository.Order.{add-IsRising}
use wknowledge.SessionRepository.Tables.{by_id, insert_row, is_some-by_id, insert_row-new}
use wknowledge.SessionRepository.Sequences.{add-IsNumbered, later_number_new}
use wknowledge.SessionRepository.Agreement.{
  forget, memory_run, run_entry, IsSound, Agree, if-Agree, later-IsSound, add_given, key_new,
  insert_given, insert-Agree,
}

add_new : (k : Text) (ks : List Text) → has k ks ≡ false → add k ks ≡ ks ++ k ∷ []
unfolding add
add_new k ks h = rw h refl

pub create_session_agrees :
    (owner_id title : Text) (now : ℕ) (tables : SqliteRepository)
    → IsSound tables
    → Agree
        (Memory.create_session owner_id title (forget tables))
        (Sqlite.create_session owner_id title now tables)
unfolding Memory.create_session Sqlite.create_session
create_session_agrees owner_id title now tables sound =
    let later = later-IsSound tables sound in
    let counted = record tables { sequence = tables.sequence + 1 } in
    let id = next_id (units "session") (tables.sequence + 1) in
    let row : SessionRow = record {
      id = id;
      owner_id = owner_id;
      title = title;
      created_at = now;
    } in
    let refused = is_blank owner_id || is_blank title in
    let ids = map session_key tables.sessions in
    let left : Outcome MemoryRepository =
      (record (forget counted) { sessions = add id ids }, ok (new_id id)) in
    let write : List SessionRow → SqliteRepository = λ rows. record counted { sessions = rows } in
    let inserted = insert_row session_key row tables.sessions in
    let is_new =
      key_new (units "session") session_key row tables.sessions tables.sequence refl
        sound.sessions_given in
    if-Agree refused refused refl _ left _ (after_insert counted write (new_id id) inserted)
      (refl, sound)
      (insert-Agree counted write (new_id id) (tables.sessions ++ row ∷ []) inserted left
        (insert_row-new session_key row tables.sessions is_new)
        (
          ap (λ ks. (record (forget counted) { sessions = ks }, ok (new_id id)))
              (add_new id ids is_new ∙ sym (map-append session_key tables.sessions (row ∷ []))),
          record {
            sessions_given =
                add_given (units "session") session_key row tables.sessions tables.sequence refl
                  sound.sessions_given;
            messages_given = later.messages_given;
            runs_given = later.runs_given;
            events_given = later.events_given;
            events_numbered = later.events_numbered;
            messages_rising = later.messages_rising;
          },
        ))

pub append_message_agrees :
    (session_id : Text) (role : Role) (content : Text) (now : ℕ) (tables : SqliteRepository)
    → IsSound tables
    → Agree
        (Memory.append_message session_id role content now (forget tables))
        (Sqlite.append_message session_id role content now tables)
unfolding Memory.append_message Sqlite.append_message
append_message_agrees session_id role content now tables sound =
    let later = later-IsSound tables sound in
    let counted = record tables { sequence = tables.sequence + 1 } in
    let row : SessionMessage = record {
      id = next_id (units "message") (tables.sequence + 1);
      session_id = session_id;
      role = role;
      content = content;
      created_at = now;
    } in
    let left : Outcome MemoryRepository =
      (record (forget counted) { messages = tables.messages ++ row ∷ [] }, ok (message row)) in
    let write : List SessionMessage → SqliteRepository =
      λ rows. record counted { messages = rows } in
    let inserted = insert_row message_key row tables.messages in
    let right = after_insert counted write (message row) inserted in
    let known = is_some-by_id session_key session_id tables.sessions in
    let blank = is_blank content in
    if-Agree _ _ (ap not known) _ (if blank then _ else left) _ (if blank then _ else right)
      (refl, sound)
      (if-Agree blank blank refl _ left _ right (refl, sound)
        (insert-Agree counted write (message row) (tables.messages ++ row ∷ []) inserted left
          (insert_given (units "message") message_key row tables.messages tables.sequence refl
            sound.messages_given)
          (
            refl,
            record {
              sessions_given = later.sessions_given;
              messages_given =
                  add_given (units "message") message_key row tables.messages tables.sequence refl
                    sound.messages_given;
              runs_given = later.runs_given;
              events_given = later.events_given;
              events_numbered = later.events_numbered;
              messages_rising =
                  add-IsRising 0 tables.sequence tables.messages row (omega arith) refl
                    sound.messages_rising;
            },
          )))

pub get-entries :
    (id : Text) (rows : List RunRow)
    → get id (map run_entry rows) ≡ Option.map memory_run (by_id run_key id rows)
unfolding get by_id
get-entries id [] = refl
get-entries id (row ∷ rows) = ground (arith, get-entries id rows)

entry_new :
    (id : Text) (rows : List RunRow)
    → has id (map run_key rows) ≡ false
    → get id (map run_entry rows) ≡ none
unfolding get has
entry_new id [] h = refl
entry_new id (row ∷ rows) h = ground (arith, entry_new id rows)

pub begin_run_agrees :
    (session_id user_message_id : Text) (tables : SqliteRepository)
    → IsSound tables
    → is_some (by_id message_key user_message_id tables.messages) ≡ true
    → Agree
        (Memory.begin_run session_id (forget tables))
        (Sqlite.begin_run session_id user_message_id tables)
unfolding Memory.begin_run Sqlite.begin_run
begin_run_agrees session_id user_message_id tables sound kept =
    let later = later-IsSound tables sound in
    let counted = record tables { sequence = tables.sequence + 1 } in
    let id = next_id (units "run") (tables.sequence + 1) in
    let row : RunRow = record {
      id = id;
      session_id = session_id;
      user_message_id = user_message_id;
      status = running;
      error_code = none;
    } in
    let left : Outcome MemoryRepository = (
      record (forget counted) { runs = set id (memory_run row) (map run_entry tables.runs) },
      ok (new_id id),
    ) in
    let write : List RunRow → SqliteRepository = λ rows. record counted { runs = rows } in
    let inserted = insert_run tables.messages row tables.runs in
    let is_new =
      key_new (units "run") run_key row tables.runs tables.sequence refl sound.runs_given in
    let done_insert : inserted ≡ some (tables.runs ++ row ∷ []) =
      rw kept (insert_row-new run_key row tables.runs is_new) in
    if-Agree _ _ (ap not (is_some-by_id session_key session_id tables.sessions)) _ left _
      (after_insert counted write (new_id id) inserted) (refl, sound)
      (insert-Agree counted write (new_id id) (tables.runs ++ row ∷ []) inserted left done_insert (
        ap (λ entries. (record (forget counted) { runs = entries }, ok (new_id id)))
            (set_new id (memory_run row) (map run_entry tables.runs)
                (entry_new id tables.runs is_new)
              ∙ sym (map-append run_entry tables.runs (row ∷ []))),
        record {
          sessions_given = later.sessions_given;
          messages_given = later.messages_given;
          runs_given =
              add_given (units "run") run_key row tables.runs tables.sequence refl sound.runs_given;
          events_given = later.events_given;
          events_numbered = later.events_numbered;
          messages_rising = later.messages_rising;
        },
      ))

append_checked_agrees :
    (input : EventInput) (checked : Result RepositoryError (Unit {0})) (tables : SqliteRepository)
    → IsSound tables
    → Agree
        (Memory.append_checked input checked (forget tables))
        (Sqlite.append_checked input checked tables)
unfolding Memory.append_checked Sqlite.append_checked Memory.list_run_events Sqlite.events_by_run
append_checked_agrees input (err thrown) tables sound = (refl, sound)
append_checked_agrees input (ok u) tables sound =
    let later = later-IsSound tables sound in
    let counted = record tables { sequence = tables.sequence + 1 } in
    let id = next_id (units "event") (tables.sequence + 1) in
    let listed = keep (λ e. e.run_id === input.run_id) tables.events in
    let row : RunEvent = new_event id (length listed + 1) input in
    let left : Outcome MemoryRepository =
      (record (forget counted) { events = tables.events ++ row ∷ [] }, ok (event row)) in
    let write : List RunEvent → SqliteRepository = λ rows. record counted { events = rows } in
    let number_new : any (λ e. e.sequence == length listed + 1) listed ≡ false =
      later_number_new 1 (length listed + 1) listed (sound.events_numbered input.run_id)
        (omega arith) in
    let inserted : insert_event row tables.events ≡ some (tables.events ++ row ∷ []) =
      rw number_new (
        insert_given (units "event") event_key row tables.events tables.sequence refl
          sound.events_given) in
    insert-Agree counted write (event row) (tables.events ++ row ∷ [])
      (insert_event row tables.events) left inserted
      (
        refl,
        record {
          sessions_given = later.sessions_given;
          messages_given = later.messages_given;
          runs_given = later.runs_given;
          events_given =
              add_given (units "event") event_key row tables.events tables.sequence refl
                sound.events_given;
          events_numbered = add-IsNumbered tables.events row sound.events_numbered refl;
          messages_rising = later.messages_rising;
        },
      )

pub append_found_agrees :
    (input : EventInput) (found : Option RunRow) (tables : SqliteRepository)
    → IsSound tables
    → Agree
        (Memory.append_found input (Option.map memory_run found) (forget tables))
        (Sqlite.append_found input found tables)
unfolding Memory.append_found Sqlite.append_found
append_found_agrees input none tables sound = (refl, sound)
append_found_agrees input (some run) tables sound =
    if-Agree _ _ refl _ (Memory.append_checked input (assert_event_input input) (forget tables)) _
      (Sqlite.append_checked input (assert_event_input input) tables) (refl, sound)
      (append_checked_agrees input (assert_event_input input) tables sound)
