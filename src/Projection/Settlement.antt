-- ===== src/Projection/Settlement.antt =====
-- How the projection settles a run.
use wknowledge.Base.{
  passed-eq-ok, ℕ, suc, ◌+◌, ◌≡◌, ◌≢◌, refl, sym, ◌∙◌, ap, subst, Text, Bool, true, false, not,
  Option, none, some, List, [], ◌∷◌, ◌++◌, Bool-cases, Option-cases, inl, inr, arith, All, ok, err,
  ok-injective, >>=-eq-ok, get, set, get-set, length, if◌then◌else◌, ◌===◌, ===_refl, keep, any,
  ◌==◌,
}
use wknowledge.AgentCore.{
  assistant_delta, tool_requested, tool_completed, run_completed, run_failed, CoreKind, run_started,
  run_stopped, scripted, CoreEvent,
}
use wknowledge.Projection.{
  projection_invalid, run_already_settled, run_already_projected, RunStatus, RunRow, EventRow,
  Tables, Outcome, Terminal, completes, fails, stops, nothing_checked, check_events, starts,
  check_trace, is_running, is_started, row_of, rows_from, last_sequence, settled_status,
  failure_code, settle_run, persist_agent_core_event_projection,
}
use wknowledge.Projection.{started, requested, finished, running, completed, failed, stopped}
use wknowledge.Projection.Checks.{
  Ends, with_completion, with_failure, with_stop, IsLast, is_requested, is_completed, tool_after,
  check_events-cases, balanced_completed, check_events-IsLast, check_events-tools,
}

-- A run that leaves a requested call without completion is rejected, whatever its terminal event:
-- where an event requests the call and none completes it, the projection throws before it reads the
-- tables.
pub outstanding_rejected :
    (id run_id : Text) (events : List CoreEvent) (now : ℕ) (tables : Tables)
    → is_requested id events ≡ true
    → is_completed id events ≡ false
    → persist_agent_core_event_projection run_id events now tables ≡ err projection_invalid
unfolding persist_agent_core_event_projection check_trace
outstanding_rejected id run_id events now tables asked still_open =
    elim (Bool-cases (starts events)) [
      | inr bad ↦ rw bad refl
      | inl good ↦ elim (check_events-cases run_id events nothing_checked) [
        | inr bad ↦ rw (good, bad) refl
        | inl (c, done) ↦ elim (Option-cases c.terminal) [
          | inl missing ↦ rw (good, done, missing) refl
          | inr (t, found) ↦ elim (Bool-cases (length c.requested == length c.completed)) [
            | inr apart ↦ rw (good, done, found, apart) refl
            | inl same ↦
                let closed =
                  balanced_completed id run_id events c done (ground (arith, same)) asked in
                cc (closed, still_open)
          ]
        ]
      ]
    ]

abbrev pub IsConsecutive : ℕ → List EventRow → Type 0
IsConsecutive n [] = Unit
IsConsecutive n (row ∷ rows) = (row.sequence ≡ suc n) × IsConsecutive (suc n) rows

row_of-sequence :
    (run_id : Text) (tools : List (Text × Text)) (has_started : Bool) (n : ℕ) (k : CoreKind)
    (row : EventRow)
    → row_of run_id tools has_started n k ≡ some row
    → (row.sequence ≡ n) × (row.agent_run_id ≡ run_id)
unfolding row_of
row_of-sequence run_id tools b n run_started row h = (ground arith, ground arith)
row_of-sequence run_id tools b n run_stopped row h = (ground arith, ground arith)
row_of-sequence run_id tools b n (scripted (assistant_delta t)) row h = cc
row_of-sequence run_id tools b n (scripted (tool_requested i t s)) row h =
    (ground arith, ground arith)
row_of-sequence run_id tools b n (scripted (tool_completed i s)) row h =
    (ground arith, ground arith)
row_of-sequence run_id tools b n (scripted run_completed) row h = (ground arith, ground arith)
row_of-sequence run_id tools b n (scripted (run_failed d)) row h = (ground arith, ground arith)

next-IsConsecutive :
    (n : ℕ) (rows : List EventRow) → IsConsecutive (n + 1) rows → IsConsecutive (suc n) rows
next-IsConsecutive n rows h =
    let e : n + 1 ≡ suc n = omega arith in subst (λ k. IsConsecutive k rows) e h

rows_from-IsConsecutive :
    (run_id : Text) (tools : List (Text × Text)) (b : Bool) (n : ℕ) (events : List CoreEvent)
    → IsConsecutive n (rows_from run_id tools b n events)
      × All (λ row. row.agent_run_id ≡ run_id) (rows_from run_id tools b n events)
unfolding rows_from
rows_from-IsConsecutive run_id tools b n [] = (tt, tt)
rows_from-IsConsecutive run_id tools b n (e ∷ es) =
    elim (Option-cases (row_of run_id tools b (n + 1) e.kind)) [
      | inl skipped ↦ rw (rows_from, skipped) (rows_from-IsConsecutive run_id tools b n es)
      | inr (row, kept) ↦
          let (same, owner) = row_of-sequence run_id tools b (n + 1) e.kind row kept in
          let (order, owners) = rows_from-IsConsecutive run_id tools b (n + 1) es in
          rw (rows_from, kept) ((same ∙ omega arith, next-IsConsecutive n _ order), (owner, owners))
    ]

-- The rows that the run had before.
abbrev pub rows_of_run : Text → Tables → List EventRow
rows_of_run run_id tables = keep (λ row. row.agent_run_id === run_id) tables.events

-- What the row of an event says, where `tool_of` gives the tool of a call.
abbrev pub IsRowOf : (Text → Option Text) → CoreKind → EventRow → Type 0
IsRowOf tool_of run_started row = (row.type ≡ started) × (row.status ≡ some running)
IsRowOf tool_of (scripted (assistant_delta text)) row = ⊥
IsRowOf tool_of (scripted (tool_requested id tool summary)) row =
    (row.type ≡ requested) × (row.tool ≡ some tool) × (row.input_summary ≡ some summary)
IsRowOf tool_of (scripted (tool_completed id summary)) row =
    (row.type ≡ finished) × (row.tool ≡ tool_of id) × (row.output_summary ≡ some summary)
IsRowOf tool_of (scripted run_completed) row =
    (row.type ≡ completed) × (row.status ≡ some completed)
IsRowOf tool_of (scripted (run_failed code)) row = (row.type ≡ failed) × (row.status ≡ some failed)
IsRowOf tool_of run_stopped row = (row.type ≡ stopped) × (row.status ≡ some stopped)

-- Text gets no row, nor does the start of a run that has one.
abbrev pub is_left_out : Bool → CoreKind → Bool
is_left_out has_started (scripted (assistant_delta text)) = true
is_left_out has_started run_started = has_started
is_left_out has_started _ = false

-- The rows are those of the events, in their order.
pub data Records (tool_of : Text → Option Text) (has_started : Bool)
    : List CoreEvent → List EventRow → Type 0 where
  no_events : Records tool_of has_started [] []
  left_out :
      {e : CoreEvent} {es : List CoreEvent} {rows : List EventRow}
      → is_left_out has_started e.kind ≡ true
      → Records tool_of has_started es rows
      → Records tool_of has_started (e ∷ es) rows
  kept :
      {e : CoreEvent} {es : List CoreEvent} {row : EventRow} {rows : List EventRow}
      → is_left_out has_started e.kind ≡ false
      → IsRowOf tool_of e.kind row
      → Records tool_of has_started es rows
      → Records tool_of has_started (e ∷ es) (row ∷ rows)

module _ (tool_of : Text → Option Text) (run_id : Text) (tools : List (Text × Text))
    (named : (id : Text) → get id tools ≡ tool_of id) (has_started : Bool) where
  row_of-none :
      (n : ℕ) (k : CoreKind)
      → row_of run_id tools has_started n k ≡ none
      → is_left_out has_started k ≡ true
  unfolding row_of
  row_of-none n run_started h = ground arith
  row_of-none n run_stopped h = cc h
  row_of-none n (scripted (assistant_delta t)) h = refl
  row_of-none n (scripted (tool_requested i t s)) h = cc h
  row_of-none n (scripted (tool_completed i s)) h = cc h
  row_of-none n (scripted run_completed) h = cc h
  row_of-none n (scripted (run_failed d)) h = cc h

  row_of-IsRowOf :
      (n : ℕ) (k : CoreKind) (row : EventRow)
      → row_of run_id tools has_started n k ≡ some row
      → (is_left_out has_started k ≡ false) × IsRowOf tool_of k row
  unfolding row_of
  row_of-IsRowOf n run_started row h = (ground arith, (ground arith, ground arith))
  row_of-IsRowOf n run_stopped row h = (refl, (ground arith, ground arith))
  row_of-IsRowOf n (scripted (assistant_delta t)) row h = cc h
  row_of-IsRowOf n (scripted (tool_requested i t s)) row h =
      (refl, (ground arith, ground arith, ground arith))
  row_of-IsRowOf n (scripted (tool_completed i s)) row h =
      (refl, (ground arith, ground (arith, named i), ground arith))
  row_of-IsRowOf n (scripted run_completed) row h = (refl, (ground arith, ground arith))
  row_of-IsRowOf n (scripted (run_failed d)) row h = (refl, (ground arith, ground arith))

  rows_from-Records :
      (n : ℕ) (events : List CoreEvent)
      → Records tool_of has_started events (rows_from run_id tools has_started n events)
  unfolding rows_from
  rows_from-Records n [] = no_events
  rows_from-Records n (e ∷ es) =
      elim (Option-cases (row_of run_id tools has_started (n + 1) e.kind)) [
        | inl skipped ↦
            rw (rows_from, skipped)
              (left_out (row_of-none (n + 1) e.kind skipped) (rows_from-Records n es))
        | inr (row, made) ↦
            let (stays, says) = row_of-IsRowOf (n + 1) e.kind row made in
            rw (rows_from, made) (kept stays says (rows_from-Records (n + 1) es))
      ]

-- The error code that a run has, once one is written or none is.
abbrev pub code_after : Option Text → Option Text → Option Text
code_after none before = before
code_after (some code) before = some code

settle_run-code_after :
    (t : Terminal) (now : ℕ) (run : RunRow)
    → settle_run now t run ≡ record {
      status = settled_status t;
      error_code = code_after (failure_code t) run.error_code;
      completed_at = some now;
    }
settle_run-code_after completes now run = refl
settle_run-code_after stops now run = refl
settle_run-code_after (fails code) now run = refl

-- What `check_trace` gives when it returns.
check_trace-facts :
    (run_id : Text) (events : List CoreEvent) (terminal : Terminal) (tools : List (Text × Text))
    → check_trace run_id events ≡ ok (terminal, tools)
    → IsLast events terminal × ((id : Text) → get id tools ≡ tool_after id none events)
unfolding check_trace get
check_trace-facts run_id events terminal tools h =
    let (good, h1) = passed-eq-ok (not (starts events)) projection_invalid _ h in
    let (c, done, h2) = >>=-eq-ok (check_events run_id events nothing_checked) _ h1 in
    elim (Option-cases c.terminal) [
      | inl missing ↦ let e = rw missing at h2 in cc e
      | inr (t, found) ↦
          let (balanced, h3) =
            passed-eq-ok (not (length c.requested == length c.completed)) projection_invalid _
              (rw found at h2) in
          let e = ok-injective (t, c.tool_by_call_id) (terminal, tools) h3 in
          subst
            (λ (x : Terminal × List (Text × Text)).
              IsLast events x.0 × ((id : Text) → get id x.1 ≡ tool_after id none events))
            e
            (
              check_events-IsLast run_id events nothing_checked c t done refl found,
              λ id. check_events-tools id run_id events nothing_checked c done,
            )
    ]

abbrev pub is_start_kept : Text → Tables → Bool
is_start_kept run_id tables = any (λ row. is_started row.type) (rows_of_run run_id tables)

-- The rows that a projection appends, and how the run was before.
pub record IsProjected (run_id : Text) (events : List CoreEvent) (now : ℕ) (tables tables' : Tables)
    (o : Outcome) : Type 0 where
  pub run : RunRow
  pub found : get run_id tables.runs ≡ some run
  pub was_running : is_running run.status ≡ true
  pub earlier : List CoreEvent
  pub last : CoreEvent
  pub split : events ≡ earlier ++ last ∷ []
  pub status : RunStatus
  pub code : Option Text
  pub ends : Ends last.kind status code
  pub reported : o.error_code ≡ code
  pub named : settled_status o.terminal ≡ status
  pub settles :
      (k : Text)
      → get k tables'.runs ≡ (
          if run_id === k
          then some (record {
            status = status;
            error_code = code_after code run.error_code;
            completed_at = some now;
          })
          else get k tables.runs)
  pub rows : List EventRow
  pub appended : tables'.events ≡ tables.events ++ rows
  pub counted : o.persisted ≡ length rows
  pub ordered : IsConsecutive (last_sequence (rows_of_run run_id tables)) rows
  pub owned : All (λ row. row.agent_run_id ≡ run_id) rows
  pub recorded : Records (λ id. tool_after id none events) (is_start_kept run_id tables) events rows

-- A projection that succeeds found the run running. The last event is a terminal one: the run is left with
-- its status, with the code of a failure as the error code, and completed at the clock's reading; every
-- other run is as it was. The status and the code are those that it returns. It appends the rows of the events in their order, all but those of texts and of
-- a start that has a row: each says the type, the tool that was requested, the summary and the status of
-- its event. The rows are of this run alone and numbered without a gap from its last number on.
pub projection_settles :
    (run_id : Text) (events : List CoreEvent) (now : ℕ) (tables tables' : Tables) (o : Outcome)
    → persist_agent_core_event_projection run_id events now tables ≡ ok (tables', o)
    → IsProjected run_id events now tables tables' o
unfolding persist_agent_core_event_projection
projection_settles run_id events now tables tables' o h =
    let ((terminal, tools), checked, rest) = >>=-eq-ok (check_trace run_id events) _ h in
    let (ending, named) = check_trace-facts run_id events terminal tools checked in
    elim (Option-cases (get run_id tables.runs)) [
      | inl missing ↦ let e = rw missing at rest in cc e
      | inr (run, found) ↦
          let existing = rows_of_run run_id tables in
          let (live, rest') =
            passed-eq-ok (not (is_running run.status)) run_already_settled _ (rw found at rest) in
          let (fresh, done) =
            passed-eq-ok (any (λ row. not (is_started row.type)) existing) run_already_projected _
              rest' in
          let has_started = is_start_kept run_id tables in
          let rows = rows_from run_id tools has_started (last_sequence existing) events in
          let e =
            ok-injective
              (
                record {
                  runs = set run_id (settle_run now terminal run) tables.runs;
                  events = tables.events ++ rows;
                },
                record {
                  persisted = length rows;
                  terminal = terminal;
                  error_code = failure_code terminal;
                },
              )
              (tables', o) done in
          let (order, owners) =
            rows_from-IsConsecutive run_id tools has_started (last_sequence existing) events in
          record {
            run = run;
            found = found;
            was_running = ground (arith, live);
            earlier = ending.earlier;
            last = ending.last;
            split = ending.split;
            status = settled_status terminal;
            code = failure_code terminal;
            ends = ending.ends;
            reported = ap (λ (x : Tables × Outcome). x.1.error_code) (sym e);
            named = ap (λ (x : Tables × Outcome). settled_status x.1.terminal) (sym e);
            settles = λ k.
                ap (λ (x : Tables × Outcome). get k x.0.runs) (sym e)
                ∙ get-set run_id k (settle_run now terminal run) tables.runs
                ∙ ap (λ r. if run_id === k then some r else get k tables.runs)
                    (settle_run-code_after terminal now run);
            rows = rows;
            appended = ap (λ (x : Tables × Outcome). x.0.events) (sym e);
            counted = ap (λ (x : Tables × Outcome). x.1.persisted) (sym e);
            ordered = order;
            owned = owners;
            recorded =
                rows_from-Records (λ id. tool_after id none events) run_id tools named has_started
                  (last_sequence existing) events;
          }
    ]

abbrev status_or : RunStatus → Option RunRow → RunStatus
status_or st none = st
status_or st (some r) = r.status

Ends-not_running :
    (k : CoreKind) (status : RunStatus) (code : Option Text)
    → Ends k status code
    → is_running status ≡ false
Ends-not_running k status code with_completion = refl
Ends-not_running k status code (with_failure c) = refl
Ends-not_running k status code with_stop = refl

-- A settled run is not settled again: after a projection that succeeded, every further one of the
-- same run throws.
pub settled_once :
    (run_id : Text) (events events' : List CoreEvent) (now now' : ℕ) (tables tables' : Tables)
    (outcome : Outcome) (again : Tables × Outcome)
    → persist_agent_core_event_projection run_id events now tables ≡ ok (tables', outcome)
    → persist_agent_core_event_projection run_id events' now' tables' ≢ ok again
unfolding persist_agent_core_event_projection
settled_once run_id events events' now now' tables tables' outcome again h g =
    let first = projection_settles run_id events now tables tables' outcome h in
    let second = projection_settles run_id events' now' tables' again.0 again.1 g in
    let st = second.run.status in
    let kept : some second.run ≡ _ = sym second.found ∙ first.settles run_id in
    let same : second.run.status ≡ first.status =
      ap (status_or st) kept ∙ rw (===_refl run_id) refl in
    let over = Ends-not_running first.last.kind first.status first.code first.ends in
    let still = subst (λ x. is_running x ≡ true) same second.was_running in cc (over, still)
