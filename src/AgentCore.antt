-- ===== src/AgentCore.antt =====
-- packages/agent-runtime/src/agent-core.ts: the script of an agent run, its validator and the
-- adapter that plays it. An `AbortSignal` is what it says at each reading.
pub mod Trace
use wknowledge.Base.{
  ℕ, zero, suc, ◌+◌, Text, Bool, true, false, not, ◌||◌, ◌&&◌, Option, none, some, List, [], ◌∷◌,
  ◌++◌, map, Result, ok, err, ◌>>=◌, ◌>>◌, reject_if, ltb, leb, ◌==◌, if◌then◌else◌, has, length,
  is_blank, is_lower, is_digit, all,
}

pub data ScriptEvent : Type 0 where
  assistant_delta : (text : Text) → ScriptEvent
  tool_requested : (tool_call_id tool input_summary : Text) → ScriptEvent
  tool_completed : (tool_call_id output_summary : Text) → ScriptEvent
  run_completed : ScriptEvent
  run_failed : (code : Text) → ScriptEvent

-- What a run emits: `{ ...event, runId }`.
pub data CoreKind : Type 0 where
  run_started run_stopped : CoreKind
  scripted : ScriptEvent → CoreKind

pub record CoreEvent : Type 0 where
  pub run_id : Text
  pub kind : CoreKind

pub data TraceError : Type 0 where
  agent_core_trace_invalid : TraceError

abbrev pub require : Bool → Result TraceError (Unit {0})
require good = reject_if (not good) agent_core_trace_invalid

unfoldable pub is_run_id : Text → Bool
is_run_id s = not (is_blank s || ltb 200 (length s))

unfoldable pub is_summary : Text → Bool
is_summary s = not (is_blank s || ltb 2000 (length s))

-- `/^[a-z][a-z0-9.-]{0,99}$/` and `/^[a-z][a-z0-9_-]{0,99}$/`
unfoldable pub is_tool_name : Text → Bool
unfolding is_lower is_digit
is_tool_name [] = false
is_tool_name (c ∷ s) =
    is_lower c
    && leb (length s) 99
    && all (λ d. is_lower d || is_digit d || d == b'.' || d == b'-') s

unfoldable pub is_tool_call_id : Text → Bool
unfolding is_lower is_digit
is_tool_call_id [] = false
is_tool_call_id (c ∷ s) =
    is_lower c
    && leb (length s) 99
    && all (λ d. is_lower d || is_digit d || d == b'_' || d == b'-') s

-- The variables of `validateAgentCoreScript`. An id is added to a set only when it is new, so the
-- size of a set is the length of its list.
pub record Progress : Type 0 where
  pub requested : List Text
  pub completed : List Text
  pub terminal : Bool

abbrev pub start : Progress
start = record { requested = []; completed = []; terminal = false }

-- The `switch`.
unfoldable pub check_event : ScriptEvent → Progress → Result TraceError Progress
check_event (assistant_delta text) p = do require (is_summary text); ok p
check_event (tool_requested id tool summary) p = do
  require (is_tool_call_id id)
  require (is_tool_name tool)
  require (is_summary summary)
  require (not (has id p.requested))
  ok (record p { requested = id ∷ p.requested })
check_event (tool_completed id summary) p = do
  require (is_tool_call_id id)
  require (is_summary summary)
  require (has id p.requested && not (has id p.completed))
  ok (record p { completed = id ∷ p.completed })
check_event run_completed p = do
  require (length p.requested == length p.completed)
  ok (record p { terminal = true })
check_event (run_failed code) p = do require (is_summary code); ok (record p { terminal = true })

unfoldable pub validate_from :
    Progress → List ScriptEvent → List ScriptEvent → Result TraceError (List ScriptEvent)
unfolding check_event
validate_from p validated [] = do require p.terminal; ok validated
validate_from p validated (event ∷ script) = do
  require (not p.terminal)
  p' ← check_event event p
  validate_from p' (validated ++ event ∷ []) script

unfoldable pub validate_agent_core_script : List ScriptEvent → Result TraceError (List ScriptEvent)
unfolding validate_from
validate_agent_core_script script = validate_from start [] script

-- The loop of `run`; `aborted n` is what the signal says before the n-th event of the script.
unfoldable pub play : Text → (ℕ → Bool) → ℕ → List ScriptEvent → List CoreEvent
play run_id aborted n [] = []
play run_id aborted n (event ∷ script) =
    let rest = play run_id aborted (suc n) script in
    if aborted n
    then record { run_id = run_id; kind = run_stopped } ∷ []
    else record { run_id = run_id; kind = scripted event } ∷ rest

-- `InternalAgentCoreAdapter.run`: the events that it yields, and whether it then throws.
unfoldable pub run :
    Text → Bool → (ℕ → Bool) → List ScriptEvent → List CoreEvent × Option TraceError
unfolding play validate_agent_core_script is_run_id
run run_id aborted_first aborted script =
    if not (is_run_id run_id)
    then ([], some agent_core_trace_invalid)
    else if aborted_first
    then (record { run_id = run_id; kind = run_stopped } ∷ [], none)
    else elim (validate_agent_core_script script) [
      | err e ↦ (record { run_id = run_id; kind = run_started } ∷ [], some e)
      | ok validated ↦
          (record { run_id = run_id; kind = run_started } ∷ play run_id aborted 0 validated, none)
    ]

-- `collectAgentCoreEvents` of this adapter: the events, or what the run throws.
unfoldable pub collect_agent_core_events :
    Text → Bool → (ℕ → Bool) → List ScriptEvent → Result TraceError (List CoreEvent)
unfolding run
collect_agent_core_events run_id aborted_first aborted script =
    let (events, thrown) = run run_id aborted_first aborted script in
    elim thrown [ none ↦ ok events | some e ↦ err e ]
