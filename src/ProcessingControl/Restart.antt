-- ===== src/ProcessingControl/Restart.antt =====
-- What a call of `resumeProcessingJob` that returns has done.
use wknowledge.ProcessingLease.{is_queued}
use wknowledge.Base.{units, Option}
use wknowledge.Base.{ℕ, ◌≡◌, Text, Bool, true, not, ◌&&◌, none, some, is_some, List, any, ◌===◌}
use wknowledge.ProcessingLease.{ProcessingJob}
use wknowledge.Outbox.{OutboxRow, is_pending}
use wknowledge.ProcessingControl.{JobRow}

-- The outbox has a row of the job that waits to be dispatched.
abbrev pub IsWaiting : Text → List OutboxRow → Type 0
IsWaiting job_id rows =
    any
      (λ row.
        row.processing_job_id === job_id
        && (is_pending row.status && not (is_some row.dispatch_token)))
      rows
    ≡ true

abbrev pub with_patch : (ProcessingJob → ProcessingJob) → JobRow → JobRow
with_patch patch row = record row { job = patch row.job }

-- A job that starts again: queued, with nothing of its last execution but the queue's id and the lease.
pub record IsRestarted (now : ℕ) (before after : JobRow) : Type 0 where
  same_job : after.job.id ≡ before.job.id
  same_space : after.space_id ≡ before.space_id
  same_version : after.resource_version_id ≡ before.resource_version_id
  same_message : after.job.queue_job_id ≡ before.job.queue_job_id
  is_queued_now : is_queued after.job.status ≡ true
  stage_reset : after.job.stage ≡ units "queued"
  progress_reset : after.job.progress ≡ 0
  error_code_gone : after.job.error_code ≡ none
  error_message_gone : after.job.error_message ≡ none
  not_started : after.job.started_at ≡ none
  not_finished : after.job.finished_at ≡ none
  touched_now : after.job.updated_at ≡ now

-- The queue has a message of the job and has said that it resumed it.
abbrev pub IsResumedByQueue : (Text → Bool) → JobRow → Type 0
IsResumedByQueue resume row =
    (queue_job_id : Text) × (row.job.queue_job_id ≡ some queue_job_id)
    × (resume queue_job_id ≡ true)
