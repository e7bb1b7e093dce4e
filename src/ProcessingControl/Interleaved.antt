-- ===== src/ProcessingControl/Interleaved.antt =====
-- The calls of the service and of the workers, one after the other in any order.
use wknowledge.Base.{
  ℕ, ◌≤◌, ◌≡◌, refl, Text, Bool, true, false, List, [], ◌∷◌, Result, ok, err, inl, inr, arith,
  subst, Bool-cases, passed-eq-ok, ok-injective, not, ltb,
}
use wknowledge.ProcessingLease.{ProcessingJob, owns, claim_update}
use wknowledge.ProcessingControl.{
  Tables, retry_processing_job, cancel_processing_job, resume_processing_job, update_job, is_active,
}
use wknowledge.ProcessingControl.Worker.{
  lease_lost, hits, cancelled_patch, completed_patch, failed_patch, is_claimable,
  mark_processing_cancelled, mark_processing_completed, mark_processing_failed,
  claim_for_processing,
}
use wknowledge.ProcessingControl.OneActive.{
  count_active, IsOneActive, count_active-update_job-le, retry-le, cancel-le, resume-le,
}

pub data ControlCall : Type 0 where
  retries : (job_id space_id new_id outbox_id : Text) (now : ℕ) → ControlCall
  cancels : (job_id space_id : Text) (now : ℕ) → ControlCall
  resumes : (job_id space_id outbox_id : Text) (resume : Text → Bool) (now : ℕ) → ControlCall
  claims : (job_id resource_id token : Text) (expiry now : ℕ) → ControlCall
  marks_cancelled : (job_id resource_id : Text) (now : ℕ) → ControlCall
  marks_completed : (job_id resource_id token : Text) (now : ℕ) → ControlCall
  marks_failed :
      (job_id resource_id token : Text) (retry_count retry_limit : ℕ) (message error_code : Text)
      (now : ℕ)
      → ControlCall

-- The tables after a transaction, which an error rolls back
abbrev pub committed {ℓ κ} : {E : Type ℓ} {A : Type κ} → Tables → (A → Tables) → Result E A → Tables
committed before tables_of (ok a) = tables_of a
committed before tables_of (err e) = before

unfoldable pub step : ControlCall → Tables → Tables
step (retries job_id space_id new_id outbox_id now) tables =
    committed tables (λ out. out.0)
      (retry_processing_job job_id space_id new_id outbox_id now tables)
step (cancels job_id space_id now) tables =
    committed tables (λ out. out.0) (cancel_processing_job job_id space_id now tables)
step (resumes job_id space_id outbox_id resume now) tables =
    committed tables (λ out. out.0)
      (resume_processing_job job_id space_id outbox_id resume now tables)
step (claims job_id resource_id token expiry now) tables =
    claim_for_processing job_id resource_id token expiry now tables
step (marks_cancelled job_id resource_id now) tables =
    mark_processing_cancelled job_id resource_id now tables
step (marks_completed job_id resource_id token now) tables =
    committed tables (λ out. out) (mark_processing_completed job_id resource_id token now tables)
step (marks_failed job_id resource_id token retry_count retry_limit message error_code now) tables =
    committed tables (λ out. out)
      (mark_processing_failed job_id resource_id token retry_count retry_limit message error_code
        now tables)

abbrev pub run : List ControlCall → Tables → Tables
run [] tables = tables
run (call ∷ calls) tables = run calls (step call tables)

committed-le {ℓ κ} :
    {E : Type ℓ} {A : Type κ} (v : Text) (before : Tables) (tables_of : A → Tables)
    (result : Result E A)
    → count_active v before.jobs ≤ 1
    → ((a : A) → result ≡ ok a → count_active v (tables_of a).jobs ≤ 1)
    → count_active v (committed before tables_of result).jobs ≤ 1
committed-le v before tables_of (ok a) one h = h a refl
committed-le v before tables_of (err e) one h = one

module _ (v : Text) (tables : Tables) (one : count_active v tables.jobs ≤ 1) where
  -- A statement of a worker, which makes no job active
  worker-le :
      (job_id : Text) (guard : ProcessingJob → Bool) (patch : ProcessingJob → ProcessingJob)
      → ((job : ProcessingJob)
          → guard job ≡ true
          → is_active job.status ≡ false
          → is_active (patch job).status ≡ false)
      → count_active v (update_job job_id guard patch tables.jobs) ≤ 1
  worker-le job_id guard patch h =
      let fewer = count_active-update_job-le v job_id guard patch tables.jobs h in
      omega (arith, fewer, one)

  step-le : (call : ControlCall) → count_active v (step call tables).jobs ≤ 1
  unfolding step claim_for_processing mark_processing_cancelled mark_processing_completed
      mark_processing_failed
  step-le (retries job_id space_id new_id outbox_id now) =
      committed-le v tables (λ out. out.0)
        (retry_processing_job job_id space_id new_id outbox_id now tables) one
        (λ out. retry-le v tables job_id space_id new_id outbox_id now out one)
  step-le (cancels job_id space_id now) =
      committed-le v tables (λ out. out.0) (cancel_processing_job job_id space_id now tables) one
        (λ out. cancel-le v tables job_id space_id now out one)
  step-le (resumes job_id space_id outbox_id resume now) =
      committed-le v tables (λ out. out.0)
        (resume_processing_job job_id space_id outbox_id resume now tables) one
        (λ out. resume-le v tables job_id space_id outbox_id resume now out one)
  step-le (claims job_id resource_id token expiry now) =
      elim (Bool-cases (hits job_id (is_claimable now) tables.jobs)) [
        | inl hit ↦ rw hit (
            worker-le job_id (is_claimable now) (claim_update token expiry now now)
              (λ job held inactive. ground (arith, held, inactive)))
        | inr miss ↦ rw miss one
      ]
  step-le (marks_cancelled job_id resource_id now) =
      worker-le job_id (λ job. true) (cancelled_patch now) (λ job held inactive. refl)
  step-le (marks_completed job_id resource_id token now) =
      committed-le v tables (λ out. out)
        (mark_processing_completed job_id resource_id token now tables) one
        (λ out e.
          let (held, done) =
            passed-eq-ok (not (hits job_id (owns token now) tables.jobs)) lease_lost _ e in
          subst (λ t. count_active v t.jobs ≤ 1) (ok-injective _ out done)
            (worker-le job_id (owns token now) (completed_patch now) (λ job held' inactive. refl)))
  step-le (marks_failed job_id resource_id token retry_count retry_limit message error_code now) =
      committed-le v tables (λ out. out)
        (mark_processing_failed job_id resource_id token retry_count retry_limit message error_code
          now tables)
        one
        (λ out e.
          let (held, done) =
            passed-eq-ok (not (hits job_id (owns token now) tables.jobs)) lease_lost _ e in
          subst (λ t. count_active v t.jobs ≤ 1) (ok-injective _ out done)
            (worker-le job_id (owns token now)
              (failed_patch (ltb retry_count retry_limit) error_code message now)
              (λ job held' inactive. ground (arith, held', inactive))))

-- If every resource version has at most one job that is queued or processing, then this is so after any
-- calls, one after the other: retries, cancellations and resumptions of any jobs, and claims and
-- endings of any workers, the refused ones among them.
pub run-IsOneActive :
    (calls : List ControlCall) (tables : Tables)
    → IsOneActive tables.jobs
    → IsOneActive (run calls tables).jobs
run-IsOneActive [] tables one = one
run-IsOneActive (call ∷ calls) tables one =
    run-IsOneActive calls (step call tables) (λ v. step-le v tables (one v) call)
