-- ===== src/SessionRepository.antt =====
-- packages/core/src/agent-session-repository-port.ts: what both repositories of the local profile keep
-- and check. A session, a message, a run and an event have ids of one counter; `null` is `none`.
pub mod Ids
pub mod Tables
pub mod Order
pub mod Memory
pub mod Sqlite
pub mod Sequences
pub mod Agreement
pub mod Refinement
use wknowledge.Base.{
  ℕ, Text, Bool, true, false, not, ◌||◌, ◌&&◌, Option, none, some, Result, ok, err, ◌>>=◌, ◌>>◌,
  reject_if, ltb, length, is_blank, is_some, List,
}

pub data Role : Type 0 where
  user assistant : Role

pub record SessionMessage : Type 0 where
  pub id : Text
  pub session_id : Text
  pub role : Role
  pub content : Text
  pub created_at : ℕ

pub data EventType : Type 0 where
  run_started tool_requested tool_completed run_completed run_failed run_stopped : EventType

pub data EventStatus : Type 0 where
  running completed failed stopped : EventStatus

pub record RunEvent : Type 0 where
  pub id : Text
  pub run_id : Text
  pub sequence : ℕ
  pub type : EventType
  pub tool : Option Text
  pub input_summary : Option Text
  pub output_summary : Option Text
  pub status : EventStatus

-- `input` of `appendRunEvent`
pub record EventInput : Type 0 where
  pub run_id : Text
  pub type : EventType
  pub tool : Option Text
  pub input_summary : Option Text
  pub output_summary : Option Text
  pub status : Option EventStatus

-- The statuses in which a run is settled.
pub data FinalStatus : Type 0 where
  completed failed stopped : FinalStatus

pub data RepositoryError : Type 0 where
  session_invalid session_not_found message_invalid run_not_found run_settled event_invalid :
      RepositoryError
  run_invalid constraint_failed : RepositoryError

abbrev pub max_summary_length : ℕ
max_summary_length = 300

abbrev pub is_bad_summary : Option Text → Bool
is_bad_summary none = false
is_bad_summary (some summary) = is_blank summary || ltb max_summary_length (length summary)

abbrev pub is_request : EventType → Bool
is_request tool_requested = true
is_request _ = false

unfoldable pub assert_event_input : EventInput → Result RepositoryError (Unit {0})
assert_event_input input = do
  reject_if (is_bad_summary input.input_summary || is_bad_summary input.output_summary)
      event_invalid
  reject_if
      (is_request input.type && (not (is_some input.tool) || not (is_some input.input_summary)))
      event_invalid

abbrev pub status_or_running : Option EventStatus → EventStatus
status_or_running none = running
status_or_running (some status) = status

-- The event that `appendRunEvent` builds.
abbrev pub new_event : Text → ℕ → EventInput → RunEvent
new_event id sequence input = record {
  id = id;
  run_id = input.run_id;
  sequence = sequence;
  type = input.type;
  tool = input.tool;
  input_summary = input.input_summary;
  output_summary = input.output_summary;
  status = status_or_running input.status;
}

abbrev pub is_blank_code : Option Text → Bool
is_blank_code none = false
is_blank_code (some code) = is_blank code

-- A call of the port, with the reading of the clock that it makes, and what it answers.
pub data Call : Type 0 where
  creates_session : (owner_id title : Text) (now : ℕ) → Call
  appends_message : (session_id : Text) (role : Role) (content : Text) (now : ℕ) → Call
  begins_run : (session_id user_message_id : Text) → Call
  appends_event : EventInput → Call
  settles_run : (run_id : Text) → FinalStatus → (error_code : Option Text) → Call
  lists_events : (run_id : Text) → Call
  lists_messages : (session_id : Text) → Call

pub data Answer : Type 0 where
  new_id : Text → Answer
  message : SessionMessage → Answer
  event : RunEvent → Answer
  done : Answer
  events : List RunEvent → Answer
  session_messages : List SessionMessage → Answer
