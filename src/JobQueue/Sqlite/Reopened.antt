-- ===== src/JobQueue/Sqlite/Reopened.antt =====
-- What becomes of the jobs that are enqueued after a database file was opened again.
use wknowledge.Base.{
  ℕ, ◌+◌, ◌≤◌, ◌<◌, ◌≡◌, refl, ap, false, none, some, List, [], ◌∷◌, Result, err, All, length,
  arith,
}
use mathlib.Core.Option.{get_or}
use wknowledge.JobQueue.{
  QueuedJob, EnqueueInput, JobError, unique_constraint, default_max_attempts, attempts_invalid,
}
use wknowledge.JobQueue.Ids.{job_id}
use wknowledge.JobQueue.Memory.{is_empty}
use wknowledge.JobQueue.Sqlite.{
  SqliteQueue, by_id, insert_row, new_row, reusable_row, add_row, enqueue_row, reopen,
}

module _ {P : Type 0} where
  -- A good input, without an idempotency key
  abbrev pub IsKeyless : EnqueueInput P → Type 0
  IsKeyless input =
      (is_empty input.queue ≡ false)
      × (attempts_invalid (get_or input.max_attempts default_max_attempts) ≡ false)
      × (input.idempotency_key ≡ none)

  -- The rows have the first n ids, as the rows do of a port that has enqueued n jobs.
  abbrev pub HasFirstIds : ℕ → List (QueuedJob P) → Type 0
  HasFirstIds n rows =
      (k : ℕ) → 0 < k → k ≤ n → (row : QueuedJob P) × (by_id (job_id k) rows ≡ some row)

module _ {P : Type 0} (json : P → P) (stamp : ℕ) where
  -- The answers to enqueues, one after the other
  abbrev pub answers : List (EnqueueInput P) → SqliteQueue P → List (Result JobError (QueuedJob P))
  answers [] s = []
  answers (input ∷ inputs) s =
      (enqueue_row json input stamp s).1 ∷ answers inputs (enqueue_row json input stamp s).0

  taken_id-enqueue_row :
      (input : EnqueueInput P) (s : SqliteQueue P) (row : QueuedJob P)
      → IsKeyless input
      → by_id (job_id (s.sequence + 1)) s.rows ≡ some row
      → enqueue_row json input stamp s
        ≡ (record s { sequence = s.sequence + 1 }, err unique_constraint)
  unfolding enqueue_row add_row reusable_row insert_row new_row
  taken_id-enqueue_row input s row (queue, attempts, keyless) e =
      let refused : insert_row (new_row json input (s.sequence + 1) stamp) s.rows
          ≡ err unique_constraint =
        rw (insert_row, new_row, e) refl in
      let none_reused : reusable_row input.queue input.idempotency_key s.rows ≡ none =
        ap (λ key. reusable_row input.queue key s.rows) keyless in
      let added : add_row json input stamp s
          ≡ (record s { sequence = s.sequence + 1 }, err unique_constraint) =
        rw (add_row, refused) refl in
      rw (queue, attempts) (rw (enqueue_row, none_reused) added)

  answers-fail :
      (inputs : List (EnqueueInput P)) (s : SqliteQueue P) (n : ℕ)
      → HasFirstIds n s.rows
      → All IsKeyless inputs
      → s.sequence + length inputs ≤ n
      → All (λ answer. answer ≡ err unique_constraint) (answers inputs s)
  answers-fail [] s n ids good few = tt
  answers-fail (input ∷ inputs) s n ids (plain, good) few =
      let (row, taken) = ids (s.sequence + 1) (omega arith) (omega (arith, few)) in
      let failed = taken_id-enqueue_row input s row plain taken in
      rw failed (
        refl,
        answers-fail inputs (record s { sequence = s.sequence + 1 }) n ids good
            (omega (arith, few)),
      )

  -- Once a file that holds the jobs with the first n ids is opened again, each of the next n enqueues
  -- of good inputs without an idempotency key throws the error of the UNIQUE constraint.
  pub reopened-answers-fail :
      (inputs : List (EnqueueInput P)) (s : SqliteQueue P) (n : ℕ)
      → HasFirstIds n s.rows
      → All IsKeyless inputs
      → length inputs ≤ n
      → All (λ answer. answer ≡ err unique_constraint) (answers inputs (reopen s))
  unfolding reopen
  reopened-answers-fail inputs s n ids good few =
      answers-fail inputs (reopen s) n ids good (omega (arith, few))
