-- ===== src/Projection/Checks.antt =====
-- What the checks of a trace establish before the transaction.
use wknowledge.Base.{
  ◌&&◌, ◌≡◌, ◌⊎◌, refl, sym, ◌∙◌, ap, subst, Text, Bool, true, false, not, Option, none, some, List,
  [], ◌∷◌, ◌++◌, Bool-cases, inl, inr, arith, ok, err, ok-injective, >>=-eq-ok, Result-cases, get,
  get-set, length, if◌then◌else◌, ◌===◌, any, ◌==◌, is_some, passed-eq-ok, IsDistinct, Within,
  long_enough, has, ◌||◌, get-set,
}
use wknowledge.AgentCore.{
  assistant_delta, tool_requested, tool_completed, run_completed, run_failed, CoreKind, run_started,
  run_stopped, scripted, CoreEvent,
}
use mathlib.Core.Option.{some-injective}
use wknowledge.Projection.{
  completed, failed, stopped, ProjectionError, projection_invalid, RunStatus, Terminal, completes,
  fails, stops, Checked, nothing_checked, is_persisted_tool, is_kept_summary, is_code, check_kind,
  check_events, settled_status, failure_code,
}

check_kind-err :
    (k : CoreKind) (c : Checked) (e : ProjectionError)
    → check_kind k c ≡ err e
    → e ≡ projection_invalid
unfolding check_kind
check_kind-err run_started c e h = ground arith
check_kind-err run_stopped c e h = cc
check_kind-err (scripted (assistant_delta t)) c e h = cc
check_kind-err (scripted (tool_requested i t s)) c e h = ground arith
check_kind-err (scripted (tool_completed i s)) c e h = ground arith
check_kind-err (scripted run_completed) c e h = cc
check_kind-err (scripted (run_failed d)) c e h = ground arith

pub check_events-cases :
    (run_id : Text) (es : List CoreEvent) (c : Checked)
    → ((c' : Checked) × (check_events run_id es c ≡ ok c'))
      ⊎ (check_events run_id es c ≡ err projection_invalid)
unfolding check_events
check_events-cases run_id [] c = inl (c, refl)
check_events-cases run_id (e ∷ es) c = elim (Bool-cases (e.run_id === run_id)) [
  | inr other ↦ inr (rw other refl)
  | inl same ↦ elim (Bool-cases (is_some c.terminal)) [
    | inl over ↦ inr (rw (same, over) refl)
    | inr open_run ↦ elim (Result-cases (check_kind e.kind c)) [
      | inr (x, bad) ↦ inr (rw (same, open_run, bad) (ap err (check_kind-err e.kind c x bad)))
      | inl (c1, good) ↦ elim (check_events-cases run_id es c1) [
        | inl (c2, done) ↦ inl (c2, rw (same, open_run, good) done)
        | inr bad ↦ inr (rw (same, open_run, good) bad)
      ]
    ]
  ]
]

pub check_events-cons :
    (run_id : Text) (e : CoreEvent) (es : List CoreEvent) (c c' : Checked)
    → check_events run_id (e ∷ es) c ≡ ok c'
    → (c1 : Checked) × (is_some c.terminal ≡ false)
      × (check_kind e.kind c ≡ ok c1)
      × (check_events run_id es c1 ≡ ok c')
unfolding check_events
check_events-cons run_id e es c c' h =
    let (same, h1) = passed-eq-ok (not (e.run_id === run_id)) projection_invalid _ h in
    let (open_run, h2) = passed-eq-ok (not (not (is_some c.terminal))) projection_invalid _ h1 in
    let (c1, kind, h3) = >>=-eq-ok (check_kind e.kind c) _ h2 in
    (c1, ground (arith, open_run), kind, h3)

-- The event requests this call, and completes it.
abbrev pub requests : Text → CoreKind → Bool
requests id (scripted (tool_requested i tool summary)) = i === id
requests id _ = false

abbrev pub completes_call : Text → CoreKind → Bool
completes_call id (scripted (tool_completed i summary)) = i === id
completes_call id _ = false

-- The completed calls are different ones, and were requested.
record IsTracked (c : Checked) : Type 0 where
  distinct : IsDistinct c.completed
  within : Within c.completed c.requested

Within-cons : (x : Text) (xs ys : List Text) → Within xs ys → Within xs (x ∷ ys)
unfolding has
Within-cons x [] ys h = tt
Within-cons x (k ∷ xs) ys (here, there) = (ground (arith, here), Within-cons x xs ys there)

check_kind-IsTracked :
    (k : CoreKind) (c c' : Checked) → check_kind k c ≡ ok c' → IsTracked c → IsTracked c'
unfolding check_kind
check_kind-IsTracked run_started c c' h t =
    let (p, done) =
      passed-eq-ok (not (length c.requested == 0 && length c.completed == 0)) projection_invalid _
        h in
    subst IsTracked (ok-injective c c' done) t
check_kind-IsTracked run_stopped c c' h t =
    subst IsTracked (ok-injective _ c' h) (record { distinct = t.distinct; within = t.within })
check_kind-IsTracked (scripted (assistant_delta x)) c c' h t =
    subst IsTracked (ok-injective c c' h) t
check_kind-IsTracked (scripted (tool_requested i tool s)) c c' h t =
    let (p1, h1) = passed-eq-ok (not (is_persisted_tool tool)) projection_invalid _ h in
    let (p2, h2) = passed-eq-ok (not (not (has i c.requested))) projection_invalid _ h1 in
    let (p3, h3) = passed-eq-ok (not (is_kept_summary s)) projection_invalid _ h2 in
    subst IsTracked (ok-injective _ c' h3)
      (record { distinct = t.distinct; within = Within-cons i c.completed c.requested t.within })
check_kind-IsTracked (scripted (tool_completed i s)) c c' h t =
    let (p1, h1) =
      passed-eq-ok (not (has i c.requested && not (has i c.completed))) projection_invalid _ h in
    let (p2, h2) = passed-eq-ok (not (is_kept_summary s)) projection_invalid _ h1 in
    subst IsTracked (ok-injective _ c' h2) (record {
      distinct = (ground (arith, p1), t.distinct);
      within = (ground (arith, p1), t.within);
    })
check_kind-IsTracked (scripted run_completed) c c' h t =
    subst IsTracked (ok-injective _ c' h) (record { distinct = t.distinct; within = t.within })
check_kind-IsTracked (scripted (run_failed code)) c c' h t =
    let (p, h1) = passed-eq-ok (not (is_code code)) projection_invalid _ h in
    subst IsTracked (ok-injective _ c' h1) (record { distinct = t.distinct; within = t.within })

-- A call is among the requested and the completed ones by its events.
check_kind-requested :
    (id : Text) (k : CoreKind) (c c' : Checked)
    → check_kind k c ≡ ok c'
    → has id c'.requested ≡ (requests id k || has id c.requested)
unfolding check_kind has
check_kind-requested id run_started c c' h = ground arith
check_kind-requested id run_stopped c c' h = ground arith
check_kind-requested id (scripted (assistant_delta t)) c c' h = ground arith
check_kind-requested id (scripted (tool_requested i t s)) c c' h = ground arith
check_kind-requested id (scripted (tool_completed i s)) c c' h = ground arith
check_kind-requested id (scripted run_completed) c c' h = ground arith
check_kind-requested id (scripted (run_failed d)) c c' h = ground arith

check_kind-completed :
    (id : Text) (k : CoreKind) (c c' : Checked)
    → check_kind k c ≡ ok c'
    → has id c'.completed ≡ (completes_call id k || has id c.completed)
unfolding check_kind has
check_kind-completed id run_started c c' h = ground arith
check_kind-completed id run_stopped c c' h = ground arith
check_kind-completed id (scripted (assistant_delta t)) c c' h = ground arith
check_kind-completed id (scripted (tool_requested i t s)) c c' h = ground arith
check_kind-completed id (scripted (tool_completed i s)) c c' h = ground arith
check_kind-completed id (scripted run_completed) c c' h = ground arith
check_kind-completed id (scripted (run_failed d)) c c' h = ground arith

abbrev pub is_requested : Text → List CoreEvent → Bool
is_requested id = any (λ e. requests id e.kind)

abbrev pub is_completed : Text → List CoreEvent → Bool
is_completed id = any (λ e. completes_call id e.kind)

check_events-members :
    (id run_id : Text) (es : List CoreEvent) (c c' : Checked)
    → check_events run_id es c ≡ ok c'
    → IsTracked c
    → IsTracked c'
      × (has id c'.requested ≡ (is_requested id es || has id c.requested))
      × (has id c'.completed ≡ (is_completed id es || has id c.completed))
unfolding check_events
check_events-members id run_id [] c c' h t =
    let e = ok-injective c c' h in
    (
      subst IsTracked e t,
      ap (λ x. has id x.requested) (sym e),
      ap (λ x. has id x.completed) (sym e),
    )
check_events-members id run_id (e ∷ es) c c' h t =
    let (c1, not_over, kind, rest) = check_events-cons run_id e es c c' h in
    let (t', asked, done) =
      check_events-members id run_id es c1 c' rest (check_kind-IsTracked e.kind c c1 kind t) in
    let first = check_kind-requested id e.kind c c1 kind in
    let second = check_kind-completed id e.kind c c1 kind in
    (t', ground (arith, asked, first), ground (arith, done, second))

-- If as many calls are completed as requested, then each requested one is completed.
pub balanced_completed :
    (id run_id : Text) (es : List CoreEvent) (c' : Checked)
    → check_events run_id es nothing_checked ≡ ok c'
    → length c'.requested ≡ length c'.completed
    → is_requested id es ≡ true
    → is_completed id es ≡ true
unfolding has
balanced_completed id run_id es c' h balance asked =
    let start : IsTracked nothing_checked = record { distinct = tt; within = tt } in
    let (t, r, d) = check_events-members id run_id es nothing_checked c' h start in
    let held : has id c'.requested ≡ true = ground (arith, r, asked) in
    let closed =
      long_enough c'.completed c'.requested id t.distinct t.within (omega (arith, balance)) held in
    ground (arith, closed, d)

-- The event ends a run with this status, and with this error code if there is one.
pub data Ends : CoreKind → RunStatus → Option Text → Type 0 where
  with_completion : Ends (scripted run_completed) completed none
  with_failure : (code : Text) → Ends (scripted (run_failed code)) failed (some code)
  with_stop : Ends run_stopped stopped none

-- A kind of event that sets the terminal, or leaves it.
check_kind-terminal :
    (k : CoreKind) (c c' : Checked)
    → check_kind k c ≡ ok c'
    → ((t : Terminal) × (c'.terminal ≡ some t) × Ends k (settled_status t) (failure_code t))
      ⊎ (c'.terminal ≡ c.terminal)
unfolding check_kind
check_kind-terminal run_started c c' h = inr (ground arith)
check_kind-terminal run_stopped c c' h = inl (stops, ground arith, with_stop)
check_kind-terminal (scripted (assistant_delta t)) c c' h = inr (ground arith)
check_kind-terminal (scripted (tool_requested i t s)) c c' h = inr (ground arith)
check_kind-terminal (scripted (tool_completed i s)) c c' h = inr (ground arith)
check_kind-terminal (scripted run_completed) c c' h = inl (completes, ground arith, with_completion)
check_kind-terminal (scripted (run_failed d)) c c' h = inl (fails d, ground arith, with_failure d)

-- The terminal comes from the last event.
pub record IsLast (es : List CoreEvent) (t : Terminal) : Type 0 where
  pub earlier : List CoreEvent
  pub last : CoreEvent
  pub split : es ≡ earlier ++ last ∷ []
  pub ends : Ends last.kind (settled_status t) (failure_code t)

check_events-over :
    (run_id : Text) (es : List CoreEvent) (c c' : Checked)
    → check_events run_id es c ≡ ok c'
    → is_some c.terminal ≡ true
    → (es ≡ []) × (c ≡ c')
unfolding check_events
check_events-over run_id [] c c' h over = (refl, ok-injective c c' h)
check_events-over run_id (e ∷ es) c c' h over =
    let (c1, not_over, kind, rest) = check_events-cons run_id e es c c' h in cc (not_over, over)

pub check_events-IsLast :
    (run_id : Text) (es : List CoreEvent) (c c' : Checked) (t : Terminal)
    → check_events run_id es c ≡ ok c'
    → c.terminal ≡ none
    → c'.terminal ≡ some t
    → IsLast es t
unfolding check_events
check_events-IsLast run_id [] c c' t h absent found =
    let e = ok-injective c c' h in cc (ap (λ x. x.terminal) e, absent, found)
check_events-IsLast run_id (e ∷ es) c c' t h absent found =
    let (c1, not_over, kind, rest) = check_events-cons run_id e es c c' h in
    elim (check_kind-terminal e.kind c c1 kind) [
      | inr same ↦
          let later = check_events-IsLast run_id es c1 c' t rest (same ∙ absent) found in
          record {
            earlier = e ∷ later.earlier;
            last = later.last;
            split = ap (λ x. e ∷ x) later.split;
            ends = later.ends;
          }
      | inl (u, set_to, ends) ↦
          let (no_more, same) = check_events-over run_id es c1 c' rest (ap is_some set_to) in
          let u_is_t : u ≡ t =
            some-injective u t (sym set_to ∙ ap (λ x. x.terminal) same ∙ found) in
          record {
            earlier = [];
            last = e;
            split = ap (λ x. e ∷ x) no_more;
            ends = subst (λ x. Ends e.kind (settled_status x) (failure_code x)) u_is_t ends;
          }
    ]

-- The tool that the events name for this call
abbrev pub tool_named : Text → CoreKind → Option Text → Option Text
tool_named id (scripted (tool_requested i tool summary)) seen = if i === id then some tool else seen
tool_named id _ seen = seen

abbrev pub tool_after : Text → Option Text → List CoreEvent → Option Text
tool_after id seen [] = seen
tool_after id seen (e ∷ es) = tool_after id (tool_named id e.kind seen) es

check_kind-tools :
    (id : Text) (k : CoreKind) (c c' : Checked)
    → check_kind k c ≡ ok c'
    → get id c'.tool_by_call_id ≡ tool_named id k (get id c.tool_by_call_id)
unfolding check_kind
check_kind-tools id run_started c c' h = ground arith
check_kind-tools id run_stopped c c' h = ground arith
check_kind-tools id (scripted (assistant_delta t)) c c' h = ground arith
check_kind-tools id (scripted (tool_requested i t s)) c c' h =
    ground (arith, get-set i id t c.tool_by_call_id)
check_kind-tools id (scripted (tool_completed i s)) c c' h = ground arith
check_kind-tools id (scripted run_completed) c c' h = ground arith
check_kind-tools id (scripted (run_failed d)) c c' h = ground arith

pub check_events-tools :
    (id run_id : Text) (es : List CoreEvent) (c c' : Checked)
    → check_events run_id es c ≡ ok c'
    → get id c'.tool_by_call_id ≡ tool_after id (get id c.tool_by_call_id) es
unfolding check_events
check_events-tools id run_id [] c c' h =
    ap (λ x. get id x.tool_by_call_id) (sym (ok-injective c c' h))
check_events-tools id run_id (e ∷ es) c c' h =
    let (c1, not_over, kind, rest) = check_events-cons run_id e es c c' h in
    check_events-tools id run_id es c1 c' rest
    ∙ ap (λ seen. tool_after id seen es) (check_kind-tools id e.kind c c1 kind)
