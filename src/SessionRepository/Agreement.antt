-- ===== src/SessionRepository/Agreement.antt =====
-- The two repositories side by side: what the one in memory keeps of the tables, and the calls on
-- which both give the same answers.
pub mod Inserts
pub mod Updates
use wknowledge.Base.{
  ℕ, zero, suc, ◌+◌, ◌≤◌, ◌<◌, ◌≡◌, refl, sym, ap, ◌∙◌, subst, Text, units, Bool, true, false, not,
  ◌||◌, Option, none, some, is_some, List, [], ◌∷◌, ◌++◌, map, map-append, Result, ok, err, arith,
  length, keep, any, All, All-append, if◌then◌else◌, Bool-cases, Option-cases, inl, inr, ◌===◌,
  ◌==◌, ltb, is_blank, has, get, set, set_new,
}
use mathlib.Core.Option
use wknowledge.SessionRepository.{
  Role, SessionMessage, RunEvent, EventInput, RepositoryError, assert_event_input, new_event,
  is_blank_code, Call, creates_session, appends_message, FinalStatus, running, completed, failed,
  stopped, begins_run, appends_event, settles_run, lists_events, lists_messages, Answer, new_id,
  message, event, done, events,
}
use wknowledge.SessionRepository.Ids.{next_id, IsGiven, later-IsGiven, next_id_fresh}
use wknowledge.SessionRepository.Memory
use wknowledge.SessionRepository.Memory.{MemoryRepository, MemoryRun, Outcome, add}
use wknowledge.SessionRepository.Sqlite
use wknowledge.SessionRepository.Sqlite.{
  SqliteRepository, SessionRow, RunRow, session_key, message_key, run_key, event_key, is_running,
  after_insert, insert_run, insert_event, settled_status, empty_tables,
}
use wknowledge.SessionRepository.Tables.{
  by_id, insert_row, update_by_id, order_by, place, is_some-by_id, insert_row-new,
}
use wknowledge.SessionRepository.Order.{IsRising, later-IsRising}
use wknowledge.Base.Decimal.{power_of_ten}
use wknowledge.SessionRepository.Sequences.{
  IsConsecutive, IsNumbered, add-IsNumbered, later_number_new,
}

abbrev pub memory_run : RunRow → MemoryRun
memory_run row = record { session_id = row.session_id; settled = not (is_running row.status) }

abbrev pub run_entry : RunRow → Text × MemoryRun
run_entry row = (row.id, memory_run row)

-- What the repository in memory keeps of the tables
abbrev pub forget : SqliteRepository → MemoryRepository
forget tables = record {
  sessions = map session_key tables.sessions;
  messages = tables.messages;
  runs = map run_entry tables.runs;
  events = tables.events;
  sequence = tables.sequence;
}

-- The keys of a table are ids that the counter has given out.
abbrev pub HasGivenIds {ℓ} : {A : Type ℓ} → Text → ℕ → (A → Text) → List A → Type 0
HasGivenIds prefix sequence id_of rows = All (IsGiven prefix sequence) (map id_of rows)

pub record IsSound (tables : SqliteRepository) : Type 0 where
  pub sessions_given : HasGivenIds (units "session") tables.sequence session_key tables.sessions
  pub messages_given : HasGivenIds (units "message") tables.sequence message_key tables.messages
  pub runs_given : HasGivenIds (units "run") tables.sequence run_key tables.runs
  pub events_given : HasGivenIds (units "event") tables.sequence event_key tables.events
  pub events_numbered : IsNumbered tables.events
  pub messages_rising : IsRising 0 tables.sequence tables.messages

-- A run is begun for a message that is kept and settled without a blank error code, and the messages
-- are listed while the counter has at most eight digits.
abbrev pub IsAdmitted : Call → SqliteRepository → Type 0
IsAdmitted (begins_run session_id user_message_id) tables =
    is_some (by_id message_key user_message_id tables.messages) ≡ true
IsAdmitted (settles_run run_id status error_code) tables = is_blank_code error_code ≡ false
IsAdmitted (lists_messages session_id) tables = tables.sequence < power_of_ten 8
IsAdmitted _ tables = Unit

module _ {A : Type 0} (prefix : Text) (id_of : A → Text) (row : A) (rows : List A) (sequence : ℕ)
    (is_next : id_of row ≡ next_id prefix (sequence + 1))
    (given : HasGivenIds prefix sequence id_of rows) where
  pub add_given : HasGivenIds prefix (sequence + 1) id_of (rows ++ row ∷ [])
  add_given = subst (All (IsGiven prefix (sequence + 1))) (sym (map-append id_of rows (row ∷ []))) (
      All-append (IsGiven prefix (sequence + 1)) (map id_of rows) (id_of row ∷ [])
        (later-IsGiven prefix sequence (sequence + 1) (map id_of rows) (omega arith) given)
        ((sequence + 1, omega arith, is_next), tt))

  pub key_new : has (id_of row) (map id_of rows) ≡ false
  key_new =
      ap (λ id. has id (map id_of rows)) is_next
      ∙ next_id_fresh prefix sequence (map id_of rows) given

  pub insert_given : insert_row id_of row rows ≡ some (rows ++ row ∷ [])
  insert_given = insert_row-new id_of row rows key_new

-- Both answer the same, and what the one keeps is what it keeps of the other's tables.
abbrev pub Agree : Outcome MemoryRepository → Outcome SqliteRepository → Type 0
Agree left right = (left ≡ (forget right.0, right.1)) × IsSound right.0

pub if-Agree :
    (a b : Bool) (p : a ≡ b) (x y : Outcome MemoryRepository) (u v : Outcome SqliteRepository)
    → Agree x u
    → Agree y v
    → Agree (if a then x else y) (if b then u else v)
if-Agree true true p x y u v first second = first
if-Agree false false p x y u v first second = second
if-Agree true false p x y u v first second = cc
if-Agree false true p x y u v first second = cc

pub insert-Agree {ℓ} :
    {A : Type ℓ} (counted : SqliteRepository) (write : List A → SqliteRepository) (answer : Answer)
    (rows : List A) (inserted : Option (List A)) (left : Outcome MemoryRepository)
    → inserted ≡ some rows
    → Agree left (write rows, ok answer)
    → Agree left (after_insert counted write answer inserted)
insert-Agree counted write answer rows inserted left e h =
    subst (λ i. Agree left (after_insert counted write answer i)) (sym e) h

pub later-IsSound :
    (tables : SqliteRepository)
    → IsSound tables
    → IsSound (record tables { sequence = tables.sequence + 1 })
later-IsSound tables sound =
    let later : (prefix : Text) (ids : List Text)
        → All (IsGiven prefix tables.sequence) ids
        → All (IsGiven prefix (tables.sequence + 1)) ids =
      λ prefix ids. later-IsGiven prefix tables.sequence (tables.sequence + 1) ids (omega arith) in
    record {
      sessions_given =
          later (units "session") (map session_key tables.sessions) sound.sessions_given;
      messages_given =
          later (units "message") (map message_key tables.messages) sound.messages_given;
      runs_given = later (units "run") (map run_key tables.runs) sound.runs_given;
      events_given = later (units "event") (map event_key tables.events) sound.events_given;
      events_numbered = sound.events_numbered;
      messages_rising = later-IsRising 0 tables.sequence tables.messages sound.messages_rising;
    }
