-- ===== src/SessionRepository/Sequences.antt =====
-- The sequence numbers that `appendRunEvent` gives to the events of a run, over any calls.
use wknowledge.Base.{
  ℕ, suc, ◌+◌, ◌≤◌, ◌≡◌, refl, subst, Text, false, not, ◌||◌, Option, none, some, List, [], ◌∷◌,
  ◌++◌, append-nil, Result, ok, err, arith, length, keep, any, keep-append, if_both, Bool-cases,
  inl, inr, ◌===◌, ===_sound, ◌==◌, is_blank, has, get,
}
use wknowledge.SessionRepository.{
  RunEvent, EventInput, RepositoryError, assert_event_input, is_blank_code, Call, creates_session,
  appends_message, begins_run, appends_event, settles_run, lists_events, lists_messages,
}
use wknowledge.SessionRepository.Memory.{
  MemoryRepository, MemoryRun, append_found, settle_found, empty_repository, Outcome,
  create_session, append_message, begin_run, append_checked, append_run_event, settle_run,
  list_run_events, exec,
}

-- The events have the numbers from n on, without a gap.
abbrev pub IsConsecutive : ℕ → List RunEvent → Type 0
IsConsecutive n [] = Unit
IsConsecutive n (e ∷ es) = (e.sequence ≡ n) × IsConsecutive (suc n) es

add-IsConsecutive :
    (n : ℕ) (es : List RunEvent) (e : RunEvent)
    → IsConsecutive n es
    → e.sequence ≡ n + length es
    → IsConsecutive n (es ++ e ∷ [])
add-IsConsecutive n [] e h p = (omega (arith, p), tt)
add-IsConsecutive n (d ∷ es) e (h, hs) p = (h, add-IsConsecutive (suc n) es e hs (omega (arith, p)))

-- A number after the last one is new.
pub later_number_new :
    (n k : ℕ) (es : List RunEvent)
    → IsConsecutive n es
    → n + length es ≤ k
    → any (λ e. e.sequence == k) es ≡ false
later_number_new n k [] h le = refl
later_number_new n k (e ∷ es) (h, hs) le =
    ground (arith, later_number_new (suc n) k es hs (omega (arith, le)), h, le)

-- The events of each run have the numbers from 1 on.
abbrev pub IsNumbered : List RunEvent → Type 0
IsNumbered events = (run_id : Text) → IsConsecutive 1 (list_run_events run_id events)

pub add-IsNumbered :
    (events : List RunEvent) (e : RunEvent)
    → IsNumbered events
    → e.sequence ≡ length (list_run_events e.run_id events) + 1
    → IsNumbered (events ++ e ∷ [])
unfolding list_run_events
add-IsNumbered events e h p run_id =
    rw (keep-append (λ d. d.run_id === run_id) events (e ∷ []))
      (elim (Bool-cases (e.run_id === run_id)) [
        | inl same ↦ rw same (
            add-IsConsecutive 1 (keep (λ d. d.run_id === run_id) events) e (h run_id) (
              subst (λ r. e.sequence ≡ 1 + length (keep (λ d. d.run_id === r) events))
                (===_sound e.run_id run_id same) (omega (arith, p))))
        | inr other ↦ rw (other, append-nil) (h run_id)
      ])

-- The repository after a call that leaves the numbers in order.
abbrev Keeps : Outcome MemoryRepository → Type 0
Keeps outcome = IsNumbered outcome.0.events

append_checked-IsNumbered :
    (input : EventInput) (checked : Result RepositoryError (Unit {0}))
    (repository : MemoryRepository)
    → IsNumbered repository.events
    → Keeps (append_checked input checked repository)
unfolding append_checked
append_checked-IsNumbered input (err thrown) repository h = h
append_checked-IsNumbered input (ok u) repository h = add-IsNumbered repository.events _ h refl

append_found-IsNumbered :
    (input : EventInput) (found : Option MemoryRun) (repository : MemoryRepository)
    → IsNumbered repository.events
    → Keeps (append_found input found repository)
unfolding append_found
append_found-IsNumbered input none repository h = h
append_found-IsNumbered input (some run) repository h =
    if_both Keeps run.settled _ _ h
      (append_checked-IsNumbered input (assert_event_input input) repository h)

settle_found-IsNumbered :
    (run_id : Text) (error_code : Option Text) (found : Option MemoryRun)
    (repository : MemoryRepository)
    → IsNumbered repository.events
    → Keeps (settle_found run_id error_code found repository)
unfolding settle_found
settle_found-IsNumbered run_id error_code none repository h = h
settle_found-IsNumbered run_id error_code (some run) repository h =
    if_both Keeps run.settled _ _ h (if_both Keeps (is_blank_code error_code) _ _ h h)

exec-IsNumbered :
    (call : Call) (repository : MemoryRepository)
    → IsNumbered repository.events
    → IsNumbered (exec call repository).0.events
unfolding exec create_session append_message begin_run append_run_event settle_run
exec-IsNumbered (creates_session owner_id title now) repository h =
    if_both Keeps (is_blank owner_id || is_blank title) _ _ h h
exec-IsNumbered (appends_message session_id role content now) repository h =
    if_both Keeps (not (has session_id repository.sessions)) _ _ h
      (if_both Keeps (is_blank content) _ _ h h)
exec-IsNumbered (begins_run session_id user_message_id) repository h =
    if_both Keeps (not (has session_id repository.sessions)) _ _ h h
exec-IsNumbered (appends_event input) repository h =
    append_found-IsNumbered input (get input.run_id repository.runs) repository h
exec-IsNumbered (settles_run run_id status error_code) repository h =
    settle_found-IsNumbered run_id error_code (get run_id repository.runs) repository h
exec-IsNumbered (lists_events run_id) repository h = h
exec-IsNumbered (lists_messages session_id) repository h = h

-- The repository after some calls, one after the other.
abbrev pub after : List Call → MemoryRepository → MemoryRepository
after [] repository = repository
after (call ∷ calls) repository = after calls (exec call repository).0

after-IsNumbered :
    (calls : List Call) (repository : MemoryRepository)
    → IsNumbered repository.events
    → IsNumbered (after calls repository).events
after-IsNumbered [] repository h = h
after-IsNumbered (call ∷ calls) repository h =
    after-IsNumbered calls (exec call repository).0 (exec-IsNumbered call repository h)

-- After any calls on an empty repository in memory, refused ones among them, the events listed for
-- a run have the sequence numbers 1, 2, 3 and so on, without a gap or a repetition.
pub listed_events_numbered :
    (calls : List Call) (run_id : Text)
    → IsConsecutive 1 (list_run_events run_id (after calls empty_repository).events)
unfolding list_run_events
listed_events_numbered calls run_id = after-IsNumbered calls empty_repository (λ r. tt) run_id
