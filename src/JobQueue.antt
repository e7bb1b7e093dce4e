-- ===== src/JobQueue.antt =====
-- packages/core/src/job-queue-port.ts: the job record and the errors of the JobQueue port, which
-- both adapters share. A point in time is its number of milliseconds: `createdAt` and `updatedAt`
-- are ISO texts in the source, whose order is that of the numbers. A payload is a value of any
-- type `P`. `leaseMs` and `maxAttempts` are numbers of which only the positive integers pass the
-- guards: 0 stands for every other value.
pub mod Ids
pub mod Numbered
pub mod Memory
pub mod Sqlite
use wknowledge.Base.{ℕ, Text, Bool, true, false, Option, ◌||◌, ltb, leb, if◌then◌else◌}

pub data JobState : Type 0 where
  queued active completed failed cancelled : JobState

pub data JobError : Type 0 where
  job_not_found job_not_active job_queue_invalid job_attempts_invalid job_lease_invalid : JobError
  unique_constraint : JobError

pub record QueuedJob (P : Type 0) : Type 0 where
  pub id : Text
  pub queue : Text
  pub payload : P
  pub state : JobState
  pub attempts : ℕ
  pub max_attempts : ℕ
  pub leased_until : Option ℕ
  pub last_error : Option Text
  pub idempotency_key : Option Text
  pub created_at : ℕ
  pub updated_at : ℕ

-- `input` of `enqueue`
pub record EnqueueInput (P : Type 0) : Type 0 where
  pub queue : Text
  pub payload : P
  pub idempotency_key : Option Text
  pub max_attempts : Option ℕ

abbrev pub default_max_attempts : ℕ
default_max_attempts = 3

unfoldable pub is_terminal : JobState → Bool
is_terminal completed = true
is_terminal failed = true
is_terminal cancelled = true
is_terminal _ = false

-- `state === "queued"` and the like
abbrev pub is_queued : JobState → Bool
is_queued queued = true
is_queued _ = false

abbrev pub is_active : JobState → Bool
is_active active = true
is_active _ = false

abbrev pub is_completed : JobState → Bool
is_completed completed = true
is_completed _ = false

abbrev pub is_failed : JobState → Bool
is_failed failed = true
is_failed _ = false

-- `jobToFail.attempts >= jobToFail.maxAttempts ? "failed" : "queued"`
unfoldable pub after_failure : ℕ → ℕ → JobState
after_failure attempts max = if leb max attempts then failed else queued

-- The guard of `enqueue` on `maxAttempts`.
unfoldable pub attempts_invalid : ℕ → Bool
attempts_invalid n = ltb n 1 || ltb 20 n
