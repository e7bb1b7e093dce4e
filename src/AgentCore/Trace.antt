-- ===== src/AgentCore/Trace.antt =====
-- What the validator accepts, and how a run ends.
use wknowledge.Base.{
  ℕ, suc, ◌≡◌, ◌↔◌, refl, sym, ◌∙◌, ap, subst, Text, Bool, true, false, ◌&&◌, none, List, [], ◌∷◌,
  ◌++◌, append_assoc, Bool-cases, inl, inr, arith, All, ok, ok-injective, >>=-eq-ok, Result-cases,
  has, length, ◌==◌,
}
use wknowledge.AgentCore.{
  ScriptEvent, assistant_delta, tool_requested, tool_completed, run_completed, run_failed, CoreKind,
  run_stopped, scripted, CoreEvent, Progress, is_run_id, is_summary, is_tool_name, is_tool_call_id,
  check_event, validate_from, validate_agent_core_script, play, run,
}

-- The protocol of a script, given the calls requested and completed before it: a call is requested
-- once, and completed once and only after its request; the script ends with its one terminal event,
-- and ends as completed only when every requested call is.
abbrev pub IsTrace : List Text → List Text → List ScriptEvent → Type 0
IsTrace requested completed [] = ⊥
IsTrace requested completed (assistant_delta text ∷ script) = IsTrace requested completed script
IsTrace requested completed (tool_requested id tool summary ∷ script) =
    (has id requested ≡ false) × IsTrace (id ∷ requested) completed script
IsTrace requested completed (tool_completed id summary ∷ script) =
    (has id requested ≡ true)
    × (has id completed ≡ false)
    × IsTrace requested (id ∷ completed) script
IsTrace requested completed (run_completed ∷ script) =
    (length requested ≡ length completed) × (script ≡ [])
IsTrace requested completed (run_failed code ∷ script) = script ≡ []

-- The texts of an event have the required shapes.
abbrev pub is_shaped : ScriptEvent → Bool
is_shaped (assistant_delta text) = is_summary text
is_shaped (tool_requested id tool summary) =
    is_tool_call_id id && is_tool_name tool && is_summary summary
is_shaped (tool_completed id summary) = is_tool_call_id id && is_summary summary
is_shaped run_completed = true
is_shaped (run_failed code) = is_summary code

abbrev going : List Text → List Text → Progress
going requested completed = record {
  requested = requested;
  completed = completed;
  terminal = false;
}

abbrev ended : List Text → List Text → Progress
ended requested completed = record { requested = requested; completed = completed; terminal = true }

after_end :
    (r c : List Text) (validated script out : List ScriptEvent)
    → validate_from (ended r c) validated script ≡ ok out
    → (script ≡ []) × (out ≡ validated)
unfolding validate_from
after_end r c validated [] out h = (refl, sym (ok-injective validated out h))
after_end r c validated (e ∷ es) out h = cc

-- One event that is accepted, with what remains to be validated.
validate_from-cons :
    (r c : List Text) (validated : List ScriptEvent) (e : ScriptEvent)
    (script out : List ScriptEvent)
    → validate_from (going r c) validated (e ∷ script) ≡ ok out
    → (p : Progress) × (check_event e (going r c) ≡ ok p)
      × (validate_from p (validated ++ e ∷ []) script ≡ ok out)
unfolding validate_from
validate_from-cons r c validated e script out h =
    >>=-eq-ok (check_event e (going r c)) (λ p. validate_from p (validated ++ e ∷ []) script) h

accepted_delta :
    (r c : List Text) (text : Text) (p : Progress)
    → check_event (assistant_delta text) (going r c) ≡ ok p
    → (is_summary text ≡ true) × (p ≡ going r c)
unfolding check_event
accepted_delta r c text p h = (ground arith, ground arith)

accepted_request :
    (r c : List Text) (id tool summary : Text) (p : Progress)
    → check_event (tool_requested id tool summary) (going r c) ≡ ok p
    → (is_shaped (tool_requested id tool summary) ≡ true)
      × (has id r ≡ false)
      × (p ≡ going (id ∷ r) c)
unfolding check_event
accepted_request r c id tool summary p h = (ground arith, ground arith, ground arith)

accepted_completion :
    (r c : List Text) (id summary : Text) (p : Progress)
    → check_event (tool_completed id summary) (going r c) ≡ ok p
    → (is_shaped (tool_completed id summary) ≡ true)
      × (has id r ≡ true)
      × (has id c ≡ false)
      × (p ≡ going r (id ∷ c))
unfolding check_event
accepted_completion r c id summary p h = (ground arith, ground arith, ground arith, ground arith)

accepted_end :
    (r c : List Text) (p : Progress)
    → check_event run_completed (going r c) ≡ ok p
    → (length r ≡ length c) × (p ≡ ended r c)
unfolding check_event
accepted_end r c p h = (ground arith, ground arith)

accepted_failure :
    (r c : List Text) (code : Text) (p : Progress)
    → check_event (run_failed code) (going r c) ≡ ok p
    → (is_summary code ≡ true) × (p ≡ ended r c)
unfolding check_event
accepted_failure r c code p h = (ground arith, ground arith)

module _ (validated out : List ScriptEvent) where
  later :
      (p p' : Progress) (script : List ScriptEvent)
      → p ≡ p'
      → validate_from p validated script ≡ ok out
      → validate_from p' validated script ≡ ok out
  later p p' script e h = subst (λ q. validate_from q validated script ≡ ok out) e h

validate_from_sound :
    (script validated out : List ScriptEvent) (r c : List Text)
    → validate_from (going r c) validated script ≡ ok out
    → (out ≡ validated ++ script) × IsTrace r c script × All (λ e. is_shaped e ≡ true) script
unfolding validate_from
validate_from_sound [] validated out r c h = cc
validate_from_sound (assistant_delta t ∷ script) validated out r c h =
    let (p, checked, rest) = validate_from-cons r c validated (assistant_delta t) script out h in
    let (shaped, e) = accepted_delta r c t p checked in
    let (same, trace, shapes) =
      validate_from_sound script (validated ++ assistant_delta t ∷ []) out r c
        (later (validated ++ assistant_delta t ∷ []) out p (going r c) script e rest) in
    (same ∙ append_assoc validated (assistant_delta t ∷ []) script, trace, (shaped, shapes))
validate_from_sound (tool_requested i t s ∷ script) validated out r c h =
    let (p, checked, rest) = validate_from-cons r c validated (tool_requested i t s) script out h in
    let (shaped, fresh, e) = accepted_request r c i t s p checked in
    let (same, trace, shapes) =
      validate_from_sound script (validated ++ tool_requested i t s ∷ []) out (i ∷ r) c
        (later (validated ++ tool_requested i t s ∷ []) out p (going (i ∷ r) c) script e rest) in
    (
      same ∙ append_assoc validated (tool_requested i t s ∷ []) script,
      (fresh, trace),
      (shaped, shapes),
    )
validate_from_sound (tool_completed i s ∷ script) validated out r c h =
    let (p, checked, rest) = validate_from-cons r c validated (tool_completed i s) script out h in
    let (shaped, asked, fresh, e) = accepted_completion r c i s p checked in
    let (same, trace, shapes) =
      validate_from_sound script (validated ++ tool_completed i s ∷ []) out r (i ∷ c)
        (later (validated ++ tool_completed i s ∷ []) out p (going r (i ∷ c)) script e rest) in
    (
      same ∙ append_assoc validated (tool_completed i s ∷ []) script,
      (asked, fresh, trace),
      (shaped, shapes),
    )
validate_from_sound (run_completed ∷ script) validated out r c h =
    let (p, checked, rest) = validate_from-cons r c validated run_completed script out h in
    let (all_done, e) = accepted_end r c p checked in
    let (none_left, same) =
      after_end r c (validated ++ run_completed ∷ []) script out
        (later (validated ++ run_completed ∷ []) out p (ended r c) script e rest) in
    (rw none_left same, (all_done, none_left), (refl, rw none_left tt))
validate_from_sound (run_failed d ∷ script) validated out r c h =
    let (p, checked, rest) = validate_from-cons r c validated (run_failed d) script out h in
    let (shaped, e) = accepted_failure r c d p checked in
    let (none_left, same) =
      after_end r c (validated ++ run_failed d ∷ []) script out
        (later (validated ++ run_failed d ∷ []) out p (ended r c) script e rest) in
    (rw none_left same, none_left, (shaped, rw none_left tt))

request_shape :
    (i n x : Text)
    → is_shaped (tool_requested i n x) ≡ true
    → (is_tool_call_id i ≡ true) × (is_tool_name n ≡ true) × (is_summary x ≡ true)
request_shape i n x h = (ground arith, ground arith, ground arith)

validate_from_complete :
    (script validated : List ScriptEvent) (r c : List Text)
    → IsTrace r c script
    → All (λ e. is_shaped e ≡ true) script
    → validate_from (going r c) validated script ≡ ok (validated ++ script)
unfolding validate_from check_event
validate_from_complete [] validated r c t s = absurd t
validate_from_complete (assistant_delta x ∷ script) validated r c t s = rw s.0 (
    validate_from_complete script (validated ++ assistant_delta x ∷ []) r c t s.1
    ∙ ap ok (append_assoc validated (assistant_delta x ∷ []) script))
validate_from_complete (tool_requested i n x ∷ script) validated r c t s =
    let (a, b, d) = request_shape i n x s.0 in
    rw (a, b, d, t.0)
      (validate_from_complete script (validated ++ tool_requested i n x ∷ []) (i ∷ r) c t.1 s.1
        ∙ ap ok (append_assoc validated (tool_requested i n x ∷ []) script))
validate_from_complete (tool_completed i x ∷ script) validated r c t s =
    let a : is_tool_call_id i ≡ true = ground arith in
    let b : is_summary x ≡ true = ground arith in
    rw (a, b, t.0, t.1)
      (validate_from_complete script (validated ++ tool_completed i x ∷ []) r (i ∷ c) t.2 s.1
        ∙ ap ok (append_assoc validated (tool_completed i x ∷ []) script))
validate_from_complete (run_completed ∷ script) validated r c t s =
    let same : (length r == length c) ≡ true = ground arith in rw (same, t.1) refl
validate_from_complete (run_failed d ∷ script) validated r c t s = rw (s.0, t) refl

-- The validator accepts exactly the scripts that follow the protocol of `IsTrace` and whose texts
-- have the required shapes, and returns them as they are.
pub validate_iff :
    (script out : List ScriptEvent)
    → (validate_agent_core_script script ≡ ok out)
      ↔ ((out ≡ script) × IsTrace [] [] script × All (λ e. is_shaped e ≡ true) script)
unfolding validate_agent_core_script
validate_iff script out = (
  validate_from_sound script [] out [] [],
  λ h. validate_from_complete script [] [] [] h.1 h.2 ∙ ap ok (sym h.0),
)

abbrev pub is_end : CoreKind → Bool
is_end run_stopped = true
is_end (scripted run_completed) = true
is_end (scripted (run_failed code)) = true
is_end _ = false

-- One terminal event, and nothing after it.
abbrev pub EndsOnce : List CoreEvent → Type 0
EndsOnce [] = ⊥
EndsOnce (e ∷ es) = elim (is_end e.kind) [ true ↦ es ≡ [] | false ↦ EndsOnce es ]

-- The tail of a run after an event that was played.
tail-EndsOnce :
    (e : ScriptEvent) (script : List ScriptEvent) (tail : List CoreEvent) (r c : List Text)
    → IsTrace r c (e ∷ script)
    → ((r' c' : List Text) → IsTrace r' c' script → EndsOnce tail)
    → (script ≡ [] → tail ≡ [])
    → elim (is_end (scripted e)) as (λ _. Type 0) [ true ↦ tail ≡ [] | false ↦ EndsOnce tail ]
tail-EndsOnce (assistant_delta x) script tail r c t more over = more r c t
tail-EndsOnce (tool_requested i n x) script tail r c t more over = more (i ∷ r) c t.1
tail-EndsOnce (tool_completed i x) script tail r c t more over = more r (i ∷ c) t.2
tail-EndsOnce run_completed script tail r c t more over = over t.1
tail-EndsOnce (run_failed d) script tail r c t more over = over t

play_nothing :
    (run_id : Text) (aborted : ℕ → Bool) (n : ℕ) (script : List ScriptEvent)
    → script ≡ []
    → play run_id aborted n script ≡ []
unfolding play
play_nothing run_id aborted n [] e = refl
play_nothing run_id aborted n (x ∷ xs) e = cc

play-EndsOnce :
    (run_id : Text) (aborted : ℕ → Bool) (n : ℕ) (script : List ScriptEvent) (r c : List Text)
    → IsTrace r c script
    → EndsOnce (play run_id aborted n script)
unfolding play
play-EndsOnce run_id aborted n [] r c t = absurd t
play-EndsOnce run_id aborted n (e ∷ script) r c t = elim (Bool-cases (aborted n)) [
  | inl stop ↦ rw stop refl
  | inr on ↦ rw on (
      tail-EndsOnce e script (play run_id aborted (suc n) script) r c t
        (λ r' c' t'. play-EndsOnce run_id aborted (suc n) script r' c' t')
        (play_nothing run_id aborted (suc n) script))
]

-- Whenever the signal is raised, a run of the adapter that does not throw emits exactly one
-- terminal event, as its last.
pub run-EndsOnce :
    (run_id : Text) (aborted_first : Bool) (aborted : ℕ → Bool) (script : List ScriptEvent)
    → (run run_id aborted_first aborted script).1 ≡ none
    → EndsOnce (run run_id aborted_first aborted script).0
unfolding run
run-EndsOnce run_id aborted_first aborted script h = elim (Bool-cases (is_run_id run_id)) [
  | inr bad ↦ let e = rw bad at h in cc e
  | inl good ↦ elim (Bool-cases aborted_first) [
    | inl stop ↦ rw (good, stop) refl
    | inr on ↦ elim (Result-cases (validate_agent_core_script script)) [
      | inr (x, bad) ↦ let e = rw (good, on, bad) at h in cc e
      | inl (out, valid) ↦
          let (same, t, _) = (validate_iff script out).0 valid in
          rw (good, on, valid)
            (subst (λ l. EndsOnce (play run_id aborted 0 l)) (sym same)
              (play-EndsOnce run_id aborted 0 script [] [] t))
    ]
  ]
]
