-- ===== src/Examples/Runs.antt =====
-- Agent runs, their projection, the skills' policy, the outbox and an upgrade on concrete inputs.
use wknowledge.Base.{
  IsDistinct, ℕ, suc, ◌+◌, ◌≤◌, ◌<◌, ◌≡◌, ◌≢◌, ◌↔◌, ◌⊎◌, refl, Text, units, Bool, true, false,
  Option, none, some, List, [], ◌∷◌, ◌++◌, ok, err, All, any, arith, get, if◌then◌else◌, ◌===◌, inl,
  length, ◌==◌, map, replicate, is_blank, has,
}
use wknowledge.AgentCore.{
  ScriptEvent, assistant_delta, tool_requested, tool_completed, run_completed, run_failed, CoreKind,
  run_started, run_stopped, scripted, CoreEvent, validate_agent_core_script, validate_from,
  check_event, is_run_id, is_tool_call_id, is_tool_name, is_summary, play,
}
use wknowledge.AgentCore.Trace.{validate_iff, IsTrace, is_shaped, EndsOnce, run-EndsOnce}
use wknowledge.Projection.{
  RunRow, running, completed, EventRow, Tables, Outcome, completes,
  persist_agent_core_event_projection, check_trace, check_events, check_kind, rows_from, row_of,
  is_persisted_tool, is_kept_summary, projection_invalid,
}
use wknowledge.Projection.Settlement.{
  IsProjected, outstanding_rejected, projection_settles, settled_once,
}
use wknowledge.SkillPolicy.{
  Permissions, whole_space, always, BindingScope, space, evaluate_skill_policy,
  verify_skill_permission, deny, ask, has_duplicate, scope_too_narrow,
}
use wknowledge.SkillPolicy.Decisions.{
  Suits, SpansSpace, granted-IsSuitable, granted-verified, is_ask,
}

abbrev search_script : List ScriptEvent
search_script =
    tool_requested (units "c1") (units "knowledge.search") (units "q")
    ∷ tool_completed (units "c1") (units "2 hits")
    ∷ run_completed
    ∷ []

validate_iff_example : (validate_agent_core_script search_script ≡ ok search_script) ↔ (
    (search_script ≡ search_script)
    × IsTrace [] [] search_script
    × All (λ e. is_shaped e ≡ true) search_script)
validate_iff_example = validate_iff search_script search_script

abbrev run_name : Text
run_name = units "run-1"

no_throw : (wknowledge.AgentCore.run run_name false (λ n. n == 1) search_script).1 ≡ none
unfolding wknowledge.AgentCore.run is_run_id validate_agent_core_script validate_from check_event
    is_blank is_tool_call_id is_tool_name is_summary has ◌===◌
no_throw = refl

run-EndsOnce_example :
    EndsOnce (wknowledge.AgentCore.run run_name false (λ n. n == 1) search_script).0
run-EndsOnce_example = run-EndsOnce run_name false (λ n. n == 1) search_script no_throw

abbrev event : CoreKind → CoreEvent
event kind = record { run_id = run_name; kind = kind }

abbrev trace : List CoreEvent
trace = event run_started ∷ map (λ e. event (scripted e)) search_script

abbrev live : Tables
live = record {
  runs = (run_name, record { status = running; error_code = none; completed_at = none }) ∷ [];
  events = [];
}

abbrev settled_run : RunRow
settled_run = record { status = completed; error_code = none; completed_at = some 9 }

abbrev kept_rows : List EventRow
kept_rows = rows_from run_name ((units "c1", units "knowledge.search") ∷ []) false 0 trace

abbrev settled : Tables
settled = record { runs = (run_name, settled_run) ∷ []; events = kept_rows }

abbrev outcome : Outcome
outcome = record { persisted = 4; terminal = completes; error_code = none }

projected : persist_agent_core_event_projection run_name trace 9 live ≡ ok (settled, outcome)
unfolding persist_agent_core_event_projection check_trace check_events check_kind rows_from row_of
    is_persisted_tool is_kept_summary ◌===◌ has is_blank get wknowledge.Base.set
projected = refl

projection_settles_example : IsProjected run_name trace 9 live settled outcome
projection_settles_example = projection_settles run_name trace 9 live settled outcome projected

settled_once_example :
    persist_agent_core_event_projection run_name trace 10 settled ≢ ok (settled, outcome)
settled_once_example =
    settled_once run_name trace trace 9 10 live settled outcome (settled, outcome) projected

abbrev stopped_trace : List CoreEvent
stopped_trace =
    event run_started
    ∷ event (scripted (tool_requested (units "c1") (units "knowledge.search") (units "q")))
    ∷ event run_stopped
    ∷ []

outstanding_rejected_example :
    persist_agent_core_event_projection run_name stopped_trace 9 live ≡ err projection_invalid
unfolding ◌===◌
outstanding_rejected_example =
    outstanding_rejected (units "c1") run_name stopped_trace 9 live refl refl

abbrev careful : Permissions
careful = record { resources = whole_space; approval = always }

abbrev scopes : List (Text × BindingScope)
scopes = (units "b", space) ∷ []

asks : (evaluate_skill_policy careful true (units "b" ∷ []) (units "b" ∷ []) (some scopes)).0 ≡ ask
unfolding evaluate_skill_policy has_duplicate scope_too_narrow has ◌===◌ get
asks = refl

asked :
    (evaluate_skill_policy careful true (units "b" ∷ []) (units "b" ∷ []) (some scopes)).0 ≢ deny
asked e = cc (asks, e)

granted-IsSuitable_example :
    (true ≡ true)
    × IsDistinct (units "b" ∷ [])
    × All (λ id. has id (units "b" ∷ []) ≡ true) (units "b" ∷ [])
    × Suits whole_space (units "b" ∷ [])
    × SpansSpace whole_space (some scopes) (units "b" ∷ [])
granted-IsSuitable_example =
    granted-IsSuitable careful true (units "b" ∷ []) (units "b" ∷ []) (some scopes) asked

granted-verified_example :
    verify_skill_permission careful
      (is_ask
        (evaluate_skill_policy careful true (units "b" ∷ []) (units "b" ∷ []) (some scopes)).0)
      (units "b" ∷ [])
    ≡ ok tt
granted-verified_example =
    granted-verified careful true (units "b" ∷ []) (units "b" ∷ []) (some scopes) asked
