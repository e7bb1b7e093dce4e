-- ===== src/JobQueue/Sqlite.antt =====
-- packages/core/src/sqlite-job-queue.ts: `createSqliteJobQueuePort`. The table is its rows in the
-- order of `seq`; `toRecord` reads a row as a job with the same fields, so a row is a `QueuedJob`.
-- Each prepared statement is a function on the rows. `json` stands for what the payload column
-- gives back: `JSON.parse` of `JSON.stringify(payload ?? null)`.
pub mod Reopened
use wknowledge.Base.{
  ℕ, ◌+◌, Text, Bool, true, false, not, ◌||◌, ◌&&◌, Option, none, some, List, [], ◌∷◌, ◌++◌, Result,
  ok, err, ◌>>=◌, ◌>>◌, reject_if, ltb, if◌then◌else◌, ◌===◌, units,
}
use wknowledge.JobQueue.{
  queued, JobError, job_not_found, job_not_active, job_queue_invalid, job_attempts_invalid,
  job_lease_invalid, unique_constraint, QueuedJob, EnqueueInput, default_max_attempts, is_terminal,
  is_queued, is_active, is_completed, is_failed, attempts_invalid,
}
use wknowledge.JobQueue.Ids.{job_id}
use wknowledge.JobQueue.Memory.{
  is_empty, holds_lease, complete_patch, fail_patch, cancel_patch, claim_patch,
}
use mathlib.Core.Option.{get_or}

pub record SqliteQueue (P : Type 0) : Type 0 where
  pub rows : List (QueuedJob P)
  pub sequence : ℕ

-- `row.updated_at = ?`
abbrev pub touched : {P : Type 0} → ℕ → QueuedJob P → QueuedJob P
touched now row = record row { updated_at = now }

-- `idempotency_key = ?`, which NULL does not satisfy
abbrev pub has_key : Text → Option Text → Bool
has_key key none = false
has_key key (some k) = k === key

module _ {P : Type 0} where
  -- `SELECT * ... WHERE id = ?`
  unfoldable pub by_id : Text → List (QueuedJob P) → Option (QueuedJob P)
  by_id id [] = none
  by_id id (row ∷ rows) = if row.id === id then some row else by_id id rows

  -- `UPDATE ... WHERE id = ?`; `id` is unique
  unfoldable pub update_by_id :
      Text → (QueuedJob P → QueuedJob P) → List (QueuedJob P) → List (QueuedJob P)
  update_by_id id patch [] = []
  update_by_id id patch (row ∷ rows) =
      if row.id === id then patch row ∷ rows else row ∷ update_by_id id patch rows

  -- `... WHERE queue = ? AND idempotency_key = ? ORDER BY seq DESC LIMIT 1`
  unfoldable pub by_idempotency_key : Text → Text → List (QueuedJob P) → Option (QueuedJob P)
  by_idempotency_key queue key [] = none
  by_idempotency_key queue key (row ∷ rows) = elim (by_idempotency_key queue key rows) [
    | some later ↦ some later
    | none ↦ if row.queue === queue && has_key key row.idempotency_key then some row else none
  ]

  -- `SELECT id ... WHERE queue = ? AND state = 'queued' ORDER BY seq LIMIT 1`
  unfoldable pub first_queued_row : Text → List (QueuedJob P) → Option (QueuedJob P)
  first_queued_row queue [] = none
  first_queued_row queue (row ∷ rows) =
      if row.queue === queue && is_queued row.state then some row else first_queued_row queue rows

  -- `INSERT`, with `id TEXT NOT NULL UNIQUE`
  unfoldable pub insert_row :
      QueuedJob P → List (QueuedJob P) → Result JobError (List (QueuedJob P))
  unfolding by_id
  insert_row row rows = elim (by_id row.id rows) [
    | none ↦ ok (rows ++ row ∷ [])
    | some other ↦ err unique_constraint
  ]

  -- `UPDATE ... WHERE state = 'active' AND leased_until IS NOT NULL AND leased_until <= ?`, with
  -- the rows that `RETURNING *` gives
  unfoldable pub recover_rows : ℕ → List (QueuedJob P) → List (QueuedJob P) × ℕ
  unfolding holds_lease
  recover_rows at [] = ([], 0)
  recover_rows at (row ∷ rows) =
      let (rest, changes) = recover_rows at rows in
      if holds_lease at row.state row.leased_until
      then (row ∷ rest, changes)
      else (touched at (fail_patch (units "JOB_LEASE_EXPIRED") row) ∷ rest, changes + 1)

  -- The row that `enqueue` returns again.
  unfoldable pub reusable_row : Text → Option Text → List (QueuedJob P) → Option (QueuedJob P)
  unfolding by_idempotency_key is_terminal
  reusable_row queue none rows = none
  reusable_row queue (some key) rows = elim (by_idempotency_key queue key rows) [
    | none ↦ none
    | some existing ↦
        if not (is_terminal existing.state) || is_completed existing.state
        then some existing
        else none
  ]

  unfoldable pub new_row : (P → P) → EnqueueInput P → ℕ → ℕ → QueuedJob P
  new_row json input sequence stamp = record {
    id = job_id sequence;
    queue = input.queue;
    payload = json input.payload;
    state = queued;
    attempts = 0;
    max_attempts = get_or input.max_attempts default_max_attempts;
    leased_until = none;
    last_error = none;
    idempotency_key = input.idempotency_key;
    created_at = stamp;
    updated_at = stamp;
  }

  -- `sequence` has grown by the time the insertion throws.
  unfoldable pub add_row :
      (P → P) → EnqueueInput P → ℕ → SqliteQueue P → SqliteQueue P × Result JobError (QueuedJob P)
  unfolding new_row insert_row
  add_row json input stamp s =
      let sequence = s.sequence + 1 in
      let row = new_row json input sequence stamp in
      elim (insert_row row s.rows) [
        | err error ↦ (record s { sequence = sequence }, err error)
        | ok rows ↦ (record { rows = rows; sequence = sequence }, ok row)
      ]

  unfoldable pub enqueue_row :
      (P → P) → EnqueueInput P → ℕ → SqliteQueue P → SqliteQueue P × Result JobError (QueuedJob P)
  unfolding attempts_invalid
  enqueue_row json input stamp s =
      if is_empty input.queue
      then (s, err job_queue_invalid)
      else if attempts_invalid (get_or input.max_attempts default_max_attempts)
      then (s, err job_attempts_invalid)
      else elim (reusable_row input.queue input.idempotency_key s.rows) [
        | none ↦ add_row json input stamp s
        | some existing ↦ (s, ok existing)
      ]

  unfoldable pub claim_row :
      Text → ℕ → ℕ → SqliteQueue P → Result JobError (SqliteQueue P × Option (QueuedJob P))
  claim_row queue lease_ms current s = do
    reject_if (ltb lease_ms 1) job_lease_invalid
    elim (first_queued_row queue s.rows) [
      | none ↦ ok (s, none)
      | some row ↦
          let patch = λ (r : QueuedJob P). touched current (claim_patch (current + lease_ms) r) in
          ok (record s { rows = update_by_id row.id patch s.rows }, some (patch row))
    ]

  unfoldable pub find_row : Text → SqliteQueue P → Result JobError (QueuedJob P)
  find_row id s = elim (by_id id s.rows) [ none ↦ err job_not_found | some row ↦ ok row ]

  unfoldable pub complete_row : Text → ℕ → SqliteQueue P → Result JobError (SqliteQueue P)
  unfolding find_row
  complete_row id now s = do
    row ← find_row id s
    if is_completed row.state then ok s else (do
      reject_if (not (is_active row.state)) job_not_active
      ok (record s { rows = update_by_id id (λ r. touched now (complete_patch r)) s.rows }))

  unfoldable pub fail_row : Text → Text → ℕ → SqliteQueue P → Result JobError (SqliteQueue P)
  unfolding find_row
  fail_row id error now s = do
    row ← find_row id s
    if is_failed row.state then ok s else (do
      reject_if (not (is_active row.state)) job_not_active
      ok (record s { rows = update_by_id id (λ r. touched now (fail_patch error r)) s.rows }))

  -- `UPDATE ... WHERE id = ? AND state = 'queued' RETURNING *`
  unfoldable pub cancel_row : Text → ℕ → SqliteQueue P → Result JobError (SqliteQueue P × Bool)
  unfolding find_row
  cancel_row id now s = do
    row ← find_row id s
    if is_queued row.state
        then ok
            (record s { rows = update_by_id id (λ r. touched now (cancel_patch r)) s.rows }, true)
        else ok (s, false)

  unfoldable pub recover_expired_rows : ℕ → SqliteQueue P → SqliteQueue P × ℕ
  unfolding recover_rows
  recover_expired_rows at s =
      let (rows, changes) = recover_rows at s.rows in (record s { rows = rows }, changes)

-- What a process that opens an existing database file starts from: the rows stay and `sequence`
-- is 0 again.
unfoldable pub reopen : {P : Type 0} → SqliteQueue P → SqliteQueue P
reopen s = record { rows = s.rows; sequence = 0 }
