-- ===== src/Projection.antt =====
-- packages/core/src/agent-run-event-projection.ts: what is kept of a run. The function runs in one
-- transaction with the run's row locked, so it either throws and the tables are as before, or
-- returns the tables that it leaves. `now` is the clock's reading for `completedAt`.
pub mod Checks
pub mod Settlement
use wknowledge.Base.{
  ℕ, suc, ◌+◌, max, Text, units, Bool, true, false, not, ◌||◌, ◌&&◌, Option, none, some, List, [],
  ◌∷◌, ◌++◌, Result, ok, err, ◌>>=◌, ◌>>◌, reject_if, ltb, ◌==◌, if◌then◌else◌, has, get, set,
  length, is_blank, is_some, keep, any, ◌===◌,
}
use wknowledge.AgentCore.{
  ScriptEvent, assistant_delta, tool_requested, tool_completed, run_completed, run_failed, CoreKind,
  run_started, run_stopped, scripted, CoreEvent,
}

pub data ProjectionError : Type 0 where
  projection_invalid run_not_found run_already_settled run_already_projected : ProjectionError

pub data RunStatus : Type 0 where
  running completed stopped failed : RunStatus

pub data RowType : Type 0 where
  started requested finished completed failed stopped : RowType

pub record RunRow : Type 0 where
  pub status : RunStatus
  pub error_code : Option Text
  pub completed_at : Option ℕ

pub record EventRow : Type 0 where
  pub agent_run_id : Text
  pub sequence : ℕ
  pub type : RowType
  pub tool : Option Text
  pub input_summary : Option Text
  pub output_summary : Option Text
  pub status : Option RunStatus

-- The tables `agent_run` and `agent_run_event`.
pub record Tables : Type 0 where
  pub runs : List (Text × RunRow)
  pub events : List EventRow

pub data Terminal : Type 0 where
  completes stops : Terminal
  fails : (code : Text) → Terminal

pub record Outcome : Type 0 where
  pub persisted : ℕ
  pub terminal : Terminal
  pub error_code : Option Text

abbrev pub demand : Bool → Result ProjectionError (Unit {0})
demand good = reject_if (not good) projection_invalid

unfoldable pub is_persisted_tool : Text → Bool
is_persisted_tool tool = tool === units "knowledge.search" || tool === units "knowledge.read"

unfoldable pub is_kept_summary : Text → Bool
is_kept_summary s = not (is_blank s || ltb 300 (length s))

unfoldable pub is_code : Text → Bool
is_code s = not (is_blank s || ltb 200 (length s))

-- The variables of the loop that checks the events.
pub record Checked : Type 0 where
  pub requested : List Text
  pub completed : List Text
  pub tool_by_call_id : List (Text × Text)
  pub terminal : Option Terminal

abbrev pub nothing_checked : Checked
nothing_checked = record { requested = []; completed = []; tool_by_call_id = []; terminal = none }

-- The `switch`.
unfoldable pub check_kind : CoreKind → Checked → Result ProjectionError Checked
check_kind run_started c = do demand (length c.requested == 0 && length c.completed == 0); ok c
check_kind (scripted (assistant_delta text)) c = ok c
check_kind (scripted (tool_requested id tool summary)) c = do
  demand (is_persisted_tool tool)
  demand (not (has id c.requested))
  demand (is_kept_summary summary)
  ok (record c { requested = id ∷ c.requested; tool_by_call_id = set id tool c.tool_by_call_id })
check_kind (scripted (tool_completed id summary)) c = do
  demand (has id c.requested && not (has id c.completed))
  demand (is_kept_summary summary)
  ok (record c { completed = id ∷ c.completed })
check_kind (scripted (run_failed code)) c = do
  demand (is_code code)
  ok (record c { terminal = some (fails code) })
check_kind (scripted run_completed) c = ok (record c { terminal = some completes })
check_kind run_stopped c = ok (record c { terminal = some stops })

unfoldable pub check_events : Text → List CoreEvent → Checked → Result ProjectionError Checked
unfolding check_kind
check_events run_id [] c = ok c
check_events run_id (event ∷ events) c = do
  demand (event.run_id === run_id)
  demand (not (is_some c.terminal))
  c' ← check_kind event.kind c
  check_events run_id events c'

abbrev pub starts : List CoreEvent → Bool
starts [] = false
starts (event ∷ events) = elim event.kind [ run_started ↦ true | _ ↦ false ]

-- The checks that come before the transaction; the terminal event and the tools by call.
unfoldable pub check_trace :
    Text → List CoreEvent → Result ProjectionError (Terminal × List (Text × Text))
unfolding check_events
check_trace run_id events = do
  demand (starts events)
  c ← check_events run_id events nothing_checked
  elim c.terminal [
    | none ↦ err projection_invalid
    | some terminal ↦ do
      demand (length c.requested == length c.completed)
      ok (terminal, c.tool_by_call_id)
  ]

abbrev pub is_running : RunStatus → Bool
is_running running = true
is_running _ = false

abbrev pub is_started : RowType → Bool
is_started started = true
is_started _ = false

abbrev blank_row : Text → ℕ → RowType → EventRow
blank_row run_id sequence type = record {
  agent_run_id = run_id;
  sequence = sequence;
  type = type;
  tool = none;
  input_summary = none;
  output_summary = none;
  status = none;
}

-- The row of an event, if it is kept.
unfoldable pub row_of : Text → List (Text × Text) → Bool → ℕ → CoreKind → Option EventRow
row_of run_id tools has_started sequence run_started =
    if has_started
    then none
    else some (record (blank_row run_id sequence started) { status = some running })
row_of run_id tools has_started sequence (scripted (assistant_delta text)) = none
row_of run_id tools has_started sequence (scripted (tool_requested id tool summary)) =
    some (record (blank_row run_id sequence requested) {
      tool = some tool;
      input_summary = some summary;
    })
row_of run_id tools has_started sequence (scripted (tool_completed id summary)) =
    some (record (blank_row run_id sequence finished) {
      tool = get id tools;
      output_summary = some summary;
    })
row_of run_id tools has_started sequence (scripted run_completed) =
    some (record (blank_row run_id sequence completed) { status = some completed })
row_of run_id tools has_started sequence (scripted (run_failed code)) =
    some (record (blank_row run_id sequence failed) { status = some failed })
row_of run_id tools has_started sequence run_stopped =
    some (record (blank_row run_id sequence stopped) { status = some stopped })

-- The loop that inserts, with the rows that it inserts; `sequence` is the last number given out.
unfoldable pub rows_from : Text → List (Text × Text) → Bool → ℕ → List CoreEvent → List EventRow
unfolding row_of
rows_from run_id tools has_started sequence [] = []
rows_from run_id tools has_started sequence (event ∷ events) =
    elim (row_of run_id tools has_started (sequence + 1) event.kind) [
      | none ↦ rows_from run_id tools has_started sequence events
      | some row ↦ row ∷ rows_from run_id tools has_started (sequence + 1) events
    ]

-- `existingEvents.at(-1)?.sequence ?? 0` of the rows in the order of `sequence`
abbrev pub last_sequence : List EventRow → ℕ
last_sequence [] = 0
last_sequence (row ∷ rows) = max row.sequence (last_sequence rows)

abbrev pub settled_status : Terminal → RunStatus
settled_status completes = completed
settled_status (fails code) = failed
settled_status stops = stopped

abbrev pub failure_code : Terminal → Option Text
failure_code (fails code) = some code
failure_code _ = none

-- `errorCode` is written only when there is one.
abbrev pub settle_run : ℕ → Terminal → RunRow → RunRow
settle_run now terminal row = record row {
  status = settled_status terminal;
  error_code = if is_some (failure_code terminal) then failure_code terminal else row.error_code;
  completed_at = some now;
}

unfoldable pub persist_agent_core_event_projection :
    Text → List CoreEvent → ℕ → Tables → Result ProjectionError (Tables × Outcome)
unfolding check_trace rows_from
persist_agent_core_event_projection run_id events now tables = do
  (terminal, tools) ← check_trace run_id events
  elim (get run_id tables.runs) [
    | none ↦ err run_not_found
    | some run ↦ do
      reject_if (not (is_running run.status)) run_already_settled
      let existing = keep (λ row. row.agent_run_id === run_id) tables.events
      reject_if (any (λ row. not (is_started row.type)) existing) run_already_projected
      let has_started = any (λ row. is_started row.type) existing
      let rows = rows_from run_id tools has_started (last_sequence existing) events
      ok (
        record {
          runs = set run_id (settle_run now terminal run) tables.runs;
          events = tables.events ++ rows;
        },
        record { persisted = length rows; terminal = terminal; error_code = failure_code terminal },
      )
  ]
