-- ===== src/JobQueue/Memory/Patches.antt =====
-- Each change that the queue makes to a job keeps the job valid.
use wknowledge.Base.{ℕ, Text, ◌≡◌, false, Option, arith}
use wknowledge.JobQueue.{
  JobState, queued, active, QueuedJob, EnqueueInput, after_failure, attempts_invalid,
  default_max_attempts,
}
use mathlib.Core.Option.{get_or}
use wknowledge.JobQueue.Memory.{
  claim_patch, complete_patch, fail_patch, cancel_patch, new_job, holds_lease,
}
use wknowledge.JobQueue.Memory.Defs.{IsValidJob}

module _ {P : Type 0} where
  -- A stamp changes `updatedAt` alone.
  pub stamped-IsValidJob :
      (job : QueuedJob P) (now : ℕ) → IsValidJob job → IsValidJob (record job { updated_at = now })
  stamped-IsValidJob job now v = record {
    at_least_one = v.at_least_one;
    at_most_twenty = v.at_most_twenty;
    consistent = v.consistent;
  }

  pub new_job-IsValidJob :
      (input : EnqueueInput P) (sequence created updated : ℕ)
      → attempts_invalid (get_or input.max_attempts default_max_attempts) ≡ false
      → IsValidJob (new_job input sequence created updated)
  unfolding new_job attempts_invalid
  new_job-IsValidJob input sequence created updated h = ground arith

  pub claim_patch-IsValidJob :
      (job : QueuedJob P) (until : ℕ)
      → job.state ≡ queued
      → IsValidJob job
      → IsValidJob (claim_patch until job)
  claim_patch-IsValidJob job until e v = ground arith

  pub complete_patch-IsValidJob :
      (job : QueuedJob P) → job.state ≡ active → IsValidJob job → IsValidJob (complete_patch job)
  complete_patch-IsValidJob job e v = ground arith

  pub fail_patch-IsValidJob :
      (job : QueuedJob P) (error : Text)
      → job.state ≡ active
      → IsValidJob job
      → IsValidJob (fail_patch error job)
  unfolding after_failure
  fail_patch-IsValidJob job error e v = ground arith

  pub cancel_patch-IsValidJob :
      (job : QueuedJob P) → job.state ≡ queued → IsValidJob job → IsValidJob (cancel_patch job)
  cancel_patch-IsValidJob job e v = ground arith

pub not-holds_lease :
    (at : ℕ) (state : JobState) (lease : Option ℕ)
    → holds_lease at state lease ≡ false
    → state ≡ active
unfolding holds_lease
not-holds_lease at state lease h = ground arith
