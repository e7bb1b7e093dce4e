-- ===== src/ProcessingLease.antt =====
-- packages/database/src/processing-execution-lease.ts: which worker may execute a processing job.
-- The table is its rows; each statement is an `UPDATE ... WHERE id = ... AND ...` with `RETURNING`,
-- which changes at most the row with that id (the primary key) and says whether it did. A function
-- takes each reading of the clock that the source makes, in milliseconds. `leaseMs` is a number of
-- which only the integers from 1000 on pass the guard.
pub mod Rows
pub mod Exclusion
use wknowledge.Base.{
  ℕ, ◌+◌, Text, units, Bool, true, false, ◌&&◌, Option, none, some, List, [], ◌∷◌, Result, ok, err,
  ◌>>=◌, ◌>>◌, reject_if, ltb, if◌then◌else◌, ◌===◌, keep, is_some,
}

pub data JobStatus : Type 0 where
  queued processing cancel_requested cancelled completed failed : JobStatus

pub record ProcessingJob : Type 0 where
  pub id : Text
  pub status : JobStatus
  pub stage : Text
  pub progress : ℕ
  pub error_code : Option Text
  pub error_message : Option Text
  pub started_at : Option ℕ
  pub finished_at : Option ℕ
  pub queue_job_id : Option Text
  pub execution_token : Option Text
  pub execution_lease_expires_at : Option ℕ
  pub updated_at : ℕ

pub data LeaseError : Type 0 where
  processing_lease_invalid : LeaseError

abbrev pub default_processing_lease_ms : ℕ
default_processing_lease_ms = 120000

abbrev pub is_queued : JobStatus → Bool
is_queued queued = true
is_queued _ = false

abbrev pub is_processing : JobStatus → Bool
is_processing processing = true
is_processing _ = false

abbrev pub is_cancel_requested : JobStatus → Bool
is_cancel_requested cancel_requested = true
is_cancel_requested _ = false

-- Comparisons with a column, which are not satisfied by NULL.
abbrev pub is_text : Option Text → Text → Bool
is_text none t = false
is_text (some s) t = s === t

abbrev pub is_before : Option ℕ → ℕ → Bool
is_before none now = false
is_before (some e) now = ltb e now

abbrev pub is_after : Option ℕ → ℕ → Bool
is_after none now = false
is_after (some e) now = ltb now e

unfoldable pub find_job : Text → List ProcessingJob → Option ProcessingJob
find_job id [] = none
find_job id (job ∷ jobs) = if job.id === id then some job else find_job id jobs

unfoldable pub update_where :
    Text
    → (ProcessingJob → Bool)
    → (ProcessingJob → ProcessingJob)
    → List ProcessingJob
    → List ProcessingJob × Bool
update_where id test set [] = ([], false)
update_where id test set (job ∷ jobs) =
    let (rest, found) = update_where id test set jobs in
    if job.id === id
    then (if test job then (set job ∷ jobs, true) else (job ∷ jobs, false))
    else (job ∷ rest, found)

unfoldable pub lease_expiry : ℕ → ℕ → Result LeaseError ℕ
lease_expiry lease_ms now =
    if ltb lease_ms 1000 then err processing_lease_invalid else ok (now + lease_ms)

-- `update` of `claimProcessingExecution`
abbrev pub claim_update : Text → ℕ → ℕ → ℕ → ProcessingJob → ProcessingJob
claim_update token expiry started updated job = record job {
  status = processing;
  stage = units "parsing";
  progress = 10;
  error_code = none;
  error_message = none;
  finished_at = none;
  started_at = some started;
  execution_token = some token;
  execution_lease_expires_at = some expiry;
  updated_at = updated;
}

-- The first statement of `claimProcessingExecution`, and the second.
unfoldable pub claim_queued :
    Text → Text → ℕ → ℕ → ℕ → List ProcessingJob → List ProcessingJob × Bool
unfolding update_where
claim_queued id token expiry started updated =
    update_where id (λ job. is_queued job.status) (claim_update token expiry started updated)

unfoldable pub claim_stale :
    Text → Text → ℕ → ℕ → ℕ → ℕ → List ProcessingJob → List ProcessingJob × Bool
unfolding update_where
claim_stale id token expiry started updated now =
    update_where id
      (λ job. is_processing job.status && is_before job.execution_lease_expires_at now)
      (claim_update token expiry started updated)

unfoldable pub claim_processing_execution :
    Text
    → Text
    → ℕ
    → (started now updated later : ℕ) → List ProcessingJob
    → Result LeaseError (List ProcessingJob × Bool)
unfolding claim_queued claim_stale lease_expiry
claim_processing_execution id token lease_ms started now updated later jobs = do
  expiry ← lease_expiry lease_ms now
  let (jobs', taken) = claim_queued id token expiry started updated jobs
  ok (if taken then (jobs', true) else claim_stale id token expiry started updated later jobs')

-- `status = 'processing' AND execution_token = ? AND execution_lease_expires_at > ?`
abbrev pub owns : Text → ℕ → ProcessingJob → Bool
owns token now job =
    is_processing job.status
    && is_text job.execution_token token
    && is_after job.execution_lease_expires_at now

unfoldable pub refresh_processing_execution :
    Text
    → Text
    → ℕ
    → (now updated later : ℕ) → List ProcessingJob
    → Result LeaseError (List ProcessingJob × Bool)
unfolding update_where lease_expiry
refresh_processing_execution id token lease_ms now updated later jobs = do
  expiry ← lease_expiry lease_ms now
  ok (
      update_where id (owns token later)
        (λ job. record job { execution_lease_expires_at = some expiry; updated_at = updated }) jobs)

unfoldable pub update_processing_execution_stage :
    Text
    → Text
    → Text
    → ℕ
    → ℕ
    → (now updated later : ℕ) → List ProcessingJob
    → Result LeaseError (List ProcessingJob × Bool)
unfolding update_where lease_expiry
update_processing_execution_stage id token stage progress lease_ms now updated later jobs = do
  expiry ← lease_expiry lease_ms now
  ok (
      update_where id (owns token later)
        (λ job. record job {
          stage = stage;
          progress = progress;
          execution_lease_expires_at = some expiry;
          updated_at = updated;
        })
        jobs)

abbrev pub is_executing : JobStatus → Bool
is_executing processing = true
is_executing cancel_requested = true
is_executing _ = false

unfoldable pub list_expired_processing_executions : ℕ → List ProcessingJob → List ProcessingJob
list_expired_processing_executions now =
    keep (λ job. is_executing job.status && is_before job.execution_lease_expires_at now)

unfoldable pub claim_expired_processing_for_recovery :
    Text
    → Text
    → ℕ
    → (now updated later : ℕ) → List ProcessingJob
    → Result LeaseError (List ProcessingJob × Bool)
unfolding update_where lease_expiry
claim_expired_processing_for_recovery id token lease_ms now updated later jobs = do
  expiry ← lease_expiry lease_ms now
  ok (
      update_where id
        (λ job. is_processing job.status && is_before job.execution_lease_expires_at later)
        (λ job. record job {
          stage = units "recovery_pending";
          execution_token = some token;
          execution_lease_expires_at = some expiry;
          updated_at = updated;
        })
        jobs)

unfoldable pub release_recovered_processing_execution :
    Text → Text → Text → ℕ → List ProcessingJob → List ProcessingJob × Bool
unfolding update_where
release_recovered_processing_execution id token queue_job_id updated =
    update_where id (λ job. is_processing job.status && is_text job.execution_token token)
      (λ job. record job {
        status = queued;
        stage = units "queued";
        progress = 0;
        queue_job_id = some queue_job_id;
        execution_token = none;
        execution_lease_expires_at = none;
        updated_at = updated;
      })

unfoldable pub clear_cancelled_expired_execution :
    Text → (finished updated now : ℕ) → List ProcessingJob → List ProcessingJob × Bool
unfolding update_where
clear_cancelled_expired_execution id finished updated now =
    update_where id
      (λ job. is_cancel_requested job.status && is_before job.execution_lease_expires_at now)
      (λ job. record job {
        status = cancelled;
        stage = units "cancelled";
        finished_at = some finished;
        execution_token = none;
        execution_lease_expires_at = none;
        updated_at = updated;
      })
