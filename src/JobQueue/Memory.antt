-- ===== src/JobQueue/Memory.antt =====
-- packages/core/src/job-queue-port.ts: `createInMemoryJobQueuePort`. The closure's variables are
-- the record `MemoryQueue`. A method returns the new state and its result, or throws; every throw
-- stands before the first write, so a call that throws leaves the state as it was. A method reads
-- the clock as often as the source does: each reading is an argument.
pub mod Defs
pub mod Patches
pub mod Find
pub mod Recovery
pub mod Invariant
pub mod Guarantees
pub mod Lifecycle
use wknowledge.Base.{
  ℕ, zero, suc, ◌+◌, Text, Bool, true, false, not, ◌||◌, ◌&&◌, Option, none, some, List, [], ◌∷◌,
  ◌++◌, Result, ok, err, ◌>>=◌, ◌>>◌, reject_if, ltb, leb, if◌then◌else◌, ◌===◌, units, get, set,
  values, length,
}
use wknowledge.JobQueue.{
  JobState, queued, active, completed, failed, cancelled, JobError, job_not_found, job_not_active,
  job_queue_invalid, job_attempts_invalid, job_lease_invalid, QueuedJob, EnqueueInput,
  default_max_attempts, is_terminal, is_queued, is_active, is_completed, is_failed, after_failure,
  attempts_invalid,
}
use wknowledge.JobQueue.Ids.{job_id}
use mathlib.Core.Option.{get_or}

pub record MemoryQueue (P : Type 0) : Type 0 where
  pub jobs : List (Text × QueuedJob P)
  pub by_idempotency_key : List (Text × Text)
  pub sequence : ℕ

abbrev pub empty : {P : Type 0} → MemoryQueue P
empty = record { jobs = []; by_idempotency_key = []; sequence = 0 }

abbrev pub is_empty : Text → Bool
is_empty [] = true
is_empty (c ∷ s) = false

-- `${input.queue}::${key}`
unfoldable pub composite_key : Text → Text → Text
composite_key queue key = queue ++ (b':' ∷ b':' ∷ key)

-- `job.state !== "active" || job.leasedUntil === null`, or the lease still runs
unfoldable pub holds_lease : ℕ → JobState → Option ℕ → Bool
holds_lease recover_at active (some until) = ltb recover_at until
holds_lease recover_at _ _ = true

-- `if (key !== null) byIdempotencyKey.set(...)`
unfoldable pub remember_key : Text → Option Text → Text → List (Text × Text) → List (Text × Text)
unfolding composite_key
remember_key queue none id keys = keys
remember_key queue (some key) id keys = set (composite_key queue key) id keys

module _ {P : Type 0} where
  -- `jobs.get(id)`, or the error of a job that is not there
  unfoldable pub find_job : Text → MemoryQueue P → Result JobError (QueuedJob P)
  find_job id s = elim (get id s.jobs) [ none ↦ err job_not_found | some job ↦ ok job ]

  unfoldable pub stamp :
      Text
      → ℕ
      → (QueuedJob P → QueuedJob P)
      → MemoryQueue P
      → Result JobError (MemoryQueue P × QueuedJob P)
  unfolding find_job
  stamp id now patch s = do
    current ← find_job id s
    let updated = record (patch current) { updated_at = now }
    ok (record s { jobs = set id updated s.jobs }, updated)

  -- The job that `enqueue` returns again: one with the same key that is not terminal, or completed.
  unfoldable pub reusable : Text → Option Text → MemoryQueue P → Option (QueuedJob P)
  unfolding composite_key is_terminal
  reusable queue none s = none
  reusable queue (some key) s = elim (get (composite_key queue key) s.by_idempotency_key) [
    | none ↦ none
    | some existing_id ↦ elim (get existing_id s.jobs) [
      | none ↦ none
      | some existing ↦
          if not (is_terminal existing.state) || is_completed existing.state
          then some existing
          else none
    ]
  ]

  unfoldable pub new_job : EnqueueInput P → ℕ → ℕ → ℕ → QueuedJob P
  new_job input sequence created updated = record {
    id = job_id sequence;
    queue = input.queue;
    payload = input.payload;
    state = queued;
    attempts = 0;
    max_attempts = get_or input.max_attempts default_max_attempts;
    leased_until = none;
    last_error = none;
    idempotency_key = input.idempotency_key;
    created_at = created;
    updated_at = updated;
  }

  unfoldable pub add_job : EnqueueInput P → ℕ → ℕ → MemoryQueue P → MemoryQueue P × QueuedJob P
  unfolding new_job remember_key
  add_job input created updated s =
      let sequence = s.sequence + 1 in
      let job = new_job input sequence created updated in
      (
        record {
          jobs = set job.id job s.jobs;
          by_idempotency_key =
              remember_key input.queue input.idempotency_key job.id s.by_idempotency_key;
          sequence = sequence;
        },
        job,
      )

  unfoldable pub enqueue :
      EnqueueInput P → ℕ → ℕ → MemoryQueue P → Result JobError (MemoryQueue P × QueuedJob P)
  unfolding attempts_invalid
  enqueue input created updated s = do
    reject_if (is_empty input.queue) job_queue_invalid
    reject_if (attempts_invalid (get_or input.max_attempts default_max_attempts))
        job_attempts_invalid
    elim (reusable input.queue input.idempotency_key s) [
      | none ↦ ok (add_job input created updated s)
      | some existing ↦ ok (s, existing)
    ]

  -- `[...].sort((a, b) => a.createdAt.localeCompare(b.createdAt))`, a stable sort
  unfoldable pub insert_by_created : QueuedJob P → List (QueuedJob P) → List (QueuedJob P)
  insert_by_created job [] = job ∷ []
  insert_by_created job (other ∷ rest) =
      if leb job.created_at other.created_at
      then job ∷ other ∷ rest
      else other ∷ insert_by_created job rest

  unfoldable pub sort_by_created : List (QueuedJob P) → List (QueuedJob P)
  unfolding insert_by_created
  sort_by_created [] = []
  sort_by_created (job ∷ rest) = insert_by_created job (sort_by_created rest)

  -- The loop of `claim`, up to the job that it takes.
  unfoldable pub first_queued : Text → List (QueuedJob P) → Option (QueuedJob P)
  first_queued queue [] = none
  first_queued queue (job ∷ rest) =
      if not (job.queue === queue) || not (is_queued job.state)
      then first_queued queue rest
      else some job

  abbrev pub claim_patch : ℕ → QueuedJob P → QueuedJob P
  claim_patch leased_until job = record job {
    state = active;
    attempts = job.attempts + 1;
    leased_until = some leased_until;
  }

  -- `current` is `input.now`, or the clock.
  unfoldable pub claim :
      Text → ℕ → ℕ → ℕ → MemoryQueue P → Result JobError (MemoryQueue P × Option (QueuedJob P))
  unfolding stamp
  claim queue lease_ms current now s = do
    reject_if (ltb lease_ms 1) job_lease_invalid
    elim (first_queued queue (sort_by_created (values s.jobs))) [
      | none ↦ ok (s, none)
      | some job ↦ do
        (s', claimed) ← stamp job.id now (claim_patch (current + lease_ms)) s
        ok (s', some claimed)
    ]

  abbrev pub complete_patch : QueuedJob P → QueuedJob P
  complete_patch job = record job { state = completed; leased_until = none; last_error = none }

  unfoldable pub complete : Text → ℕ → MemoryQueue P → Result JobError (MemoryQueue P)
  unfolding stamp
  complete id now s = do
    job ← find_job id s
    if is_completed job.state then ok s else (do
      reject_if (not (is_active job.state)) job_not_active
      (s', _) ← stamp id now complete_patch s
      ok s')

  abbrev pub fail_patch : Text → QueuedJob P → QueuedJob P
  fail_patch error job = record job {
    state = after_failure job.attempts job.max_attempts;
    leased_until = none;
    last_error = some error;
  }

  unfoldable pub fail : Text → Text → ℕ → MemoryQueue P → Result JobError (MemoryQueue P)
  unfolding stamp
  fail id error now s = do
    job ← find_job id s
    if is_failed job.state then ok s else (do
      reject_if (not (is_active job.state)) job_not_active
      (s', _) ← stamp id now (fail_patch error) s
      ok s')

  abbrev pub cancel_patch : QueuedJob P → QueuedJob P
  cancel_patch job = record job { state = cancelled }

  unfoldable pub cancel : Text → ℕ → MemoryQueue P → Result JobError (MemoryQueue P × Bool)
  unfolding stamp
  cancel id now s = do
    job ← find_job id s
    if not (is_queued job.state)
        then ok (s, false)
        else (do (s', _) ← stamp id now cancel_patch s; ok (s', true))

  -- The loop over the jobs that were there when `recoverExpiredLeases` was called; `clock n` is
  -- the clock when `n` jobs have been recovered.
  unfoldable pub recover_loop :
      (ℕ → ℕ) → ℕ → List (QueuedJob P) → ℕ → MemoryQueue P → Result JobError (MemoryQueue P × ℕ)
  unfolding stamp
  recover_loop clock recover_at [] recovered s = ok (s, recovered)
  recover_loop clock recover_at (job ∷ rest) recovered s =
      elim (holds_lease recover_at job.state job.leased_until) [
        | true ↦ recover_loop clock recover_at rest recovered s
        | false ↦ do
          (s', _) ← stamp job.id (clock recovered) (fail_patch (units "JOB_LEASE_EXPIRED")) s
          recover_loop clock recover_at rest (recovered + 1) s'
      ]

  unfoldable pub recover_expired_leases :
      (ℕ → ℕ) → ℕ → MemoryQueue P → Result JobError (MemoryQueue P × ℕ)
  unfolding recover_loop
  recover_expired_leases clock recover_at s = recover_loop clock recover_at (values s.jobs) 0 s

-- A call of the port, with the clock's readings that it makes.
pub data Call (P : Type 0) : Type 0 where
  enqueues : EnqueueInput P → (created updated : ℕ) → Call P
  claims : (queue : Text) (lease_ms current now : ℕ) → Call P
  completes : (id : Text) (now : ℕ) → Call P
  fails : (id error : Text) (now : ℕ) → Call P
  cancels : (id : Text) (now : ℕ) → Call P
  recovers : (clock : ℕ → ℕ) (recover_at : ℕ) → Call P

module _ {P : Type 0} where
  -- The state after a call; one that throws leaves it as it was.
  abbrev pub settle :
      {A : Type 0} → MemoryQueue P → Result JobError (MemoryQueue P × A) → MemoryQueue P
  settle s (ok (s', a)) = s'
  settle s (err e) = s

  abbrev pub settle_unit : MemoryQueue P → Result JobError (MemoryQueue P) → MemoryQueue P
  settle_unit s (ok s') = s'
  settle_unit s (err e) = s

  unfoldable pub step : MemoryQueue P → Call P → MemoryQueue P
  step s (enqueues input created updated) = settle s (enqueue input created updated s)
  step s (claims queue lease_ms current now) = settle s (claim queue lease_ms current now s)
  step s (completes id now) = settle_unit s (complete id now s)
  step s (fails id error now) = settle_unit s (fail id error now s)
  step s (cancels id now) = settle s (cancel id now s)
  step s (recovers clock recover_at) = settle s (recover_expired_leases clock recover_at s)

  unfoldable pub run : MemoryQueue P → List (Call P) → MemoryQueue P
  run s [] = s
  run s (c ∷ cs) = run (step s c) cs
