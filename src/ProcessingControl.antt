-- ===== src/ProcessingControl.antt =====
-- packages/core/src/index.ts: `retryProcessingJob`, `cancelProcessingJob` and `resumeProcessingJob`, with the
-- worker's statements in ProcessingControl/Worker. A call is its transaction: what it leaves of
-- the tables and returns, or the error with which it rolls back. `id` is the primary key, so a lookup
-- and an update by it stop at the first row. New ids and readings of the clock are arguments. The dispatch of
-- the outbox that follows is in Outbox; what the queue answers to `resume` is an argument.
pub mod Worker
pub mod OneActive
pub mod Interleaved
pub mod Restart
use wknowledge.Base.{
  ℕ, ◌+◌, Text, units, Bool, true, false, not, ◌||◌, ◌&&◌, Option, none, some, is_some, List, [],
  ◌∷◌, ◌++◌, Result, ok, err, ◌>>=◌, ◌>>◌, reject_if, ltb, any, if◌then◌else◌, ◌===◌,
}
use wknowledge.ProcessingLease
use wknowledge.ProcessingLease.{
  JobStatus, cancel_requested, completed, ProcessingJob, is_queued, is_processing,
  is_cancel_requested, is_text,
}
use wknowledge.Outbox.{OutboxRow, pending, resource_process}

-- A row of `processing_job`: the columns of the lease's statements, and the rest.
pub record JobRow : Type 0 where
  pub job : ProcessingJob
  pub space_id : Text
  pub resource_version_id : Option Text
  pub kind : Text

pub record VersionRow : Type 0 where
  pub id : Text
  pub resource_id : Text

pub data ResourceStatus : Type 0 where
  uploaded queued processing ready cancelled failed : ResourceStatus

pub record ResourceRow : Type 0 where
  pub id : Text
  pub status : ResourceStatus
  pub updated_at : ℕ

pub record Tables : Type 0 where
  pub jobs : List JobRow
  pub versions : List VersionRow
  pub resources : List ResourceRow
  pub outbox : List OutboxRow

pub data ControlError : Type 0 where
  job_not_found job_not_retryable job_retry_already_active job_not_cancellable : ControlError
  job_not_resumable job_resume_already_active constraint_failed : ControlError

abbrev pub is_cancelled : JobStatus → Bool
is_cancelled ProcessingLease.cancelled = true
is_cancelled _ = false

abbrev pub is_failed : JobStatus → Bool
is_failed ProcessingLease.failed = true
is_failed _ = false

-- `inArray(status, ["queued", "processing"])`
abbrev pub is_active : JobStatus → Bool
is_active status = is_queued status || is_processing status

abbrev pub is_open : JobStatus → Bool
is_open status = is_active status || is_cancel_requested status

unfoldable pub find_job : Text → List JobRow → Option JobRow
find_job id [] = none
find_job id (row ∷ rows) = if row.job.id === id then some row else find_job id rows

unfoldable pub find_version : Text → List VersionRow → Option VersionRow
find_version id [] = none
find_version id (row ∷ rows) = if row.id === id then some row else find_version id rows

unfoldable pub find_resource : Text → List ResourceRow → Option ResourceRow
find_resource id [] = none
find_resource id (row ∷ rows) = if row.id === id then some row else find_resource id rows

-- `UPDATE processing_job ... WHERE id = ? AND ...`
unfoldable pub update_job :
    Text → (ProcessingJob → Bool) → (ProcessingJob → ProcessingJob) → List JobRow → List JobRow
update_job id guard patch [] = []
update_job id guard patch (row ∷ rows) =
    if row.job.id === id
    then (if guard row.job then record row { job = patch row.job } else row) ∷ rows
    else row ∷ update_job id guard patch rows

-- `UPDATE resource SET status = ?, updated_at = ? WHERE id = ?`
unfoldable pub set_resource : Text → ResourceStatus → ℕ → List ResourceRow → List ResourceRow
set_resource id status now [] = []
set_resource id status now (row ∷ rows) =
    if row.id === id
    then record row { status = status; updated_at = now } ∷ rows
    else row ∷ set_resource id status now rows

-- The row that the three calls select, joined with its version and its resource.
pub record Original : Type 0 where
  pub row : JobRow
  pub version : VersionRow
  pub resource : ResourceRow

abbrev pub found {ℓ} : {A : Type ℓ} → Option A → Result ControlError A
found none = err job_not_found
found (some a) = ok a

-- The join on `resource_version_id`, which NULL does not satisfy
unfoldable pub version_of : Option Text → List VersionRow → Option VersionRow
unfolding find_version
version_of none versions = none
version_of (some id) versions = find_version id versions

unfoldable pub select_original : (job_id space_id : Text) → Tables → Result ControlError Original
select_original job_id space_id tables = do
  row ← found (find_job job_id tables.jobs)
  reject_if (not (row.space_id === space_id)) job_not_found
  version ← found (version_of row.resource_version_id tables.versions)
  resource ← found (find_resource version.resource_id tables.resources)
  ok (record { row = row; version = version; resource = resource })

-- A job of the version in one of these statuses
abbrev pub has_job : Text → (JobStatus → Bool) → List JobRow → Bool
has_job version_id in_status rows =
    any (λ row. is_text row.resource_version_id version_id && in_status row.job.status) rows

-- The columns' defaults
abbrev pub new_job : (id space_id version_id kind : Text) → ℕ → JobRow
new_job id space_id version_id kind now = record {
  job = record {
    id = id;
    status = ProcessingLease.queued;
    stage = units "queued";
    progress = 0;
    error_code = none;
    error_message = none;
    started_at = none;
    finished_at = none;
    queue_job_id = none;
    execution_token = none;
    execution_lease_expires_at = none;
    updated_at = now;
  };
  space_id = space_id;
  resource_version_id = some version_id;
  kind = kind;
}

abbrev pub new_outbox_row : (id job_id version_id : Text) → ℕ → OutboxRow
new_outbox_row id job_id version_id now = record {
  id = id;
  processing_job_id = job_id;
  kind = resource_process;
  upload_id = none;
  resource_version_id = some version_id;
  status = pending;
  attempt_count = 0;
  dispatch_token = none;
  dispatch_lease_expires_at = none;
  queue_job_id = none;
  sent_at = none;
  last_error_code = none;
  last_error_at = none;
  created_at = now;
  updated_at = now;
}

-- `retryProcessingJob`; an id that is taken is refused by its constraint
unfoldable pub retry_processing_job :
    (job_id space_id new_id outbox_id : Text) (now : ℕ)
    → Tables
    → Result ControlError (Tables × JobRow)
retry_processing_job job_id space_id new_id outbox_id now tables = do
  original ← select_original job_id space_id tables
  reject_if (not (is_failed original.row.job.status)) job_not_retryable
  reject_if (has_job original.version.id is_active tables.jobs) job_retry_already_active
  reject_if (is_some (find_job new_id tables.jobs)) constraint_failed
  reject_if (any (λ row. row.processing_job_id === new_id) tables.outbox) constraint_failed
  let job = new_job new_id space_id original.version.id original.row.kind now
  ok (
    record tables {
      jobs = tables.jobs ++ job ∷ [];
      outbox = tables.outbox ++ new_outbox_row outbox_id new_id original.version.id now ∷ [];
      resources = set_resource original.resource.id queued now tables.resources;
    },
    job,
  )

abbrev pub cancel_patch : ℕ → ProcessingJob → ProcessingJob
cancel_patch now job =
    if is_queued job.status
    then record job {
      status = ProcessingLease.cancelled;
      stage = units "cancelled";
      finished_at = some now;
      updated_at = now;
    }
    else record job {
      status = cancel_requested;
      stage = units "cancel_requested";
      updated_at = now;
    }

-- `cancelProcessingJob`, with the queue's job that it then asks the queue to cancel
unfoldable pub cancel_processing_job :
    (job_id space_id : Text) (now : ℕ) → Tables → Result ControlError (Tables × Option Text)
cancel_processing_job job_id space_id now tables = do
  original ← select_original job_id space_id tables
  reject_if (not (is_active original.row.job.status)) job_not_cancellable
  ok (
    record tables {
      jobs = update_job job_id (λ job. true) (cancel_patch now) tables.jobs;
      resources =
          if is_queued original.row.job.status
          then set_resource original.resource.id cancelled now tables.resources
          else tables.resources;
    },
    original.row.job.queue_job_id,
  )

abbrev pub resume_patch : ℕ → ProcessingJob → ProcessingJob
resume_patch now job = record job {
  status = ProcessingLease.queued;
  stage = units "queued";
  progress = 0;
  error_code = none;
  error_message = none;
  started_at = none;
  finished_at = none;
  updated_at = now;
}

-- `set` of `onConflictDoUpdate`
abbrev pub pending_again : ℕ → OutboxRow → OutboxRow
pending_again now row = record row {
  status = pending;
  dispatch_token = none;
  dispatch_lease_expires_at = none;
  queue_job_id = none;
  sent_at = none;
  last_error_code = none;
  last_error_at = none;
  updated_at = now;
}

-- `insert(...).onConflictDoUpdate(...)`, whose target is the processing job
unfoldable pub put_in_outbox : OutboxRow → ℕ → List OutboxRow → List OutboxRow
put_in_outbox new now [] = new ∷ []
put_in_outbox new now (row ∷ rows) =
    if row.processing_job_id === new.processing_job_id
    then pending_again now row ∷ rows
    else row ∷ put_in_outbox new now rows

-- `resumed`: the queue is asked for the job that it has, if any.
abbrev pub is_resumed : (Text → Bool) → Option Text → Bool
is_resumed resume none = false
is_resumed resume (some queue_job_id) = resume queue_job_id

-- `resumeProcessingJob`
unfoldable pub resume_processing_job :
    (job_id space_id outbox_id : Text) (resume : Text → Bool) (now : ℕ)
    → Tables
    → Result ControlError (Tables × Bool)
resume_processing_job job_id space_id outbox_id resume now tables = do
  original ← select_original job_id space_id tables
  reject_if (not (is_cancelled original.row.job.status)) job_not_resumable
  reject_if (has_job original.version.id is_open tables.jobs) job_resume_already_active
  let resumed = is_resumed resume original.row.job.queue_job_id
  ok (
    record tables {
      jobs = update_job job_id (λ job. is_cancelled job.status) (resume_patch now) tables.jobs;
      resources = set_resource original.resource.id queued now tables.resources;
      outbox =
          if resumed
          then tables.outbox
          else put_in_outbox (new_outbox_row outbox_id job_id original.version.id now) now
              tables.outbox;
    },
    resumed,
  )
