-- ===== src/ProcessingControl/Worker.antt =====
-- apps/worker/src/index.ts: `markProcessingCancelled`, `markProcessingCompleted` and `markProcessingFailed`,
-- and `claimProcessingExecution` on the rows of a processing job as `processResource` calls it.
use wknowledge.Base.{
  ℕ, Text, units, take, Bool, true, false, not, ◌||◌, ◌&&◌, none, some, List, Result, ok, ◌>>◌,
  reject_if, ltb, if◌then◌else◌,
}
use wknowledge.ProcessingLease
use wknowledge.ProcessingLease.{
  ProcessingJob, completed, owns, is_queued, is_processing, is_before, claim_update,
}
use wknowledge.ProcessingControl
use wknowledge.ProcessingControl.{JobRow, Tables, find_job, update_job, set_resource, ready}

pub data WorkerError : Type 0 where
  lease_lost : WorkerError

-- Whether the row with this id satisfies the rest of the `WHERE`, so that `RETURNING` gives it.
unfoldable pub hits : Text → (ProcessingJob → Bool) → List JobRow → Bool
unfolding find_job
hits id guard rows = elim (find_job id rows) [ none ↦ false | some row ↦ guard row.job ]

abbrev pub cancelled_patch : ℕ → ProcessingJob → ProcessingJob
cancelled_patch now job = record job {
  status = ProcessingLease.cancelled;
  stage = units "cancelled";
  finished_at = some now;
  execution_token = none;
  execution_lease_expires_at = none;
  updated_at = now;
}

unfoldable pub mark_processing_cancelled : (job_id resource_id : Text) (now : ℕ) → Tables → Tables
mark_processing_cancelled job_id resource_id now tables = record tables {
  jobs = update_job job_id (λ job. true) (cancelled_patch now) tables.jobs;
  resources = set_resource resource_id ProcessingControl.cancelled now tables.resources;
}

abbrev pub completed_patch : ℕ → ProcessingJob → ProcessingJob
completed_patch now job = record job {
  status = completed;
  stage = units "completed";
  progress = 100;
  finished_at = some now;
  execution_token = none;
  execution_lease_expires_at = none;
  updated_at = now;
}

unfoldable pub mark_processing_completed :
    (job_id resource_id token : Text) (now : ℕ) → Tables → Result WorkerError Tables
mark_processing_completed job_id resource_id token now tables = do
  reject_if (not (hits job_id (owns token now) tables.jobs)) lease_lost
  ok (record tables {
    jobs = update_job job_id (owns token now) (completed_patch now) tables.jobs;
    resources = set_resource resource_id ready now tables.resources;
  })

abbrev pub failed_patch :
    (retries : Bool) (error_code message : Text) → ℕ → ProcessingJob → ProcessingJob
failed_patch retries error_code message now job = record job {
  status = if retries then ProcessingLease.queued else ProcessingLease.failed;
  stage = if retries then units "retry_wait" else units "failed";
  error_code = some error_code;
  error_message = some (take 2000 message);
  finished_at = if retries then none else some now;
  execution_token = none;
  execution_lease_expires_at = none;
  updated_at = now;
}

unfoldable pub mark_processing_failed :
    (job_id resource_id token : Text) (retry_count retry_limit : ℕ) (message error_code : Text)
    (now : ℕ)
    → Tables
    → Result WorkerError Tables
mark_processing_failed job_id resource_id token retry_count retry_limit message error_code now
      tables =
    let retries = ltb retry_count retry_limit in
    do
      reject_if (not (hits job_id (owns token now) tables.jobs)) lease_lost
      ok (record tables {
        jobs =
            update_job job_id (owns token now) (failed_patch retries error_code message now)
              tables.jobs;
        resources =
            set_resource resource_id
              (if retries then ProcessingControl.queued else ProcessingControl.failed) now
              tables.resources;
      })

-- The rows that either statement of a claim may take: queued ones, and those whose lease has run out.
abbrev pub is_claimable : ℕ → ProcessingJob → Bool
is_claimable now job =
    is_queued job.status
    || (is_processing job.status && is_before job.execution_lease_expires_at now)

-- `claimProcessingExecution` in `processResource`, which then marks the resource
unfoldable pub claim_for_processing :
    (job_id resource_id token : Text) (expiry now : ℕ) → Tables → Tables
claim_for_processing job_id resource_id token expiry now tables =
    if hits job_id (is_claimable now) tables.jobs
    then record tables {
      jobs = update_job job_id (is_claimable now) (claim_update token expiry now now) tables.jobs;
      resources = set_resource resource_id ProcessingControl.processing now tables.resources;
    }
    else tables
