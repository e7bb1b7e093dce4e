-- ===== src/ProcessingLease/Exclusion.antt =====
-- A worker's lease keeps every other worker off its job until it runs out.
use wknowledge.Base.{
  ℕ, ◌+◌, ◌≤◌, ◌≡◌, refl, sym, ◌∙◌, ap, subst, Text, Bool, true, false, some, List, [], ◌∷◌, ◌===◌,
  Bool-cases, inl, inr, arith, All, Result, ok, err, ok-injective, ltb,
}
use mathlib.Core.Option.{some-injective}
use wknowledge.ProcessingLease.{
  claim_update, ProcessingJob, LeaseError, is_executing, is_text, find_job, claim_queued,
  claim_stale, claim_processing_execution, refresh_processing_execution,
  update_processing_execution_stage, claim_expired_processing_for_recovery,
  release_recovered_processing_execution, clear_cancelled_expired_execution,
}
use wknowledge.ProcessingLease.Rows.{find-update_failed, update_where-false, update_where-true}

-- A statement that some worker sends, with the clock's readings; the two statements of
-- `claimProcessingExecution` are calls of their own, so that others may come between them.
pub data Call : Type 0 where
  claims_queued : (id token : Text) (expiry started updated : ℕ) → Call
  claims_stale : (id token : Text) (expiry started updated now : ℕ) → Call
  refreshes : (id token : Text) (lease_ms now updated later : ℕ) → Call
  stages : (id token stage : Text) (progress lease_ms now updated later : ℕ) → Call
  recovers : (id token : Text) (lease_ms now updated later : ℕ) → Call
  releases : (id token queue_job_id : Text) (updated : ℕ) → Call
  clears : (id : Text) (finished updated now : ℕ) → Call

abbrev settle :
    List ProcessingJob → Result LeaseError (List ProcessingJob × Bool) → List ProcessingJob
settle jobs (ok (jobs', done)) = jobs'
settle jobs (err e) = jobs

pub exec : List ProcessingJob → Call → List ProcessingJob
exec jobs (claims_queued id token expiry started updated) =
    (claim_queued id token expiry started updated jobs).0
exec jobs (claims_stale id token expiry started updated now) =
    (claim_stale id token expiry started updated now jobs).0
exec jobs (refreshes id token lease_ms now updated later) =
    settle jobs (refresh_processing_execution id token lease_ms now updated later jobs)
exec jobs (stages id token stage progress lease_ms now updated later) =
    settle jobs
      (update_processing_execution_stage id token stage progress lease_ms now updated later jobs)
exec jobs (recovers id token lease_ms now updated later) =
    settle jobs (claim_expired_processing_for_recovery id token lease_ms now updated later jobs)
exec jobs (releases id token queue_job_id updated) =
    (release_recovered_processing_execution id token queue_job_id updated jobs).0
exec jobs (clears id finished updated now) =
    (clear_cancelled_expired_execution id finished updated now jobs).0

pub run : List ProcessingJob → List Call → List ProcessingJob
run jobs [] = jobs
run jobs (c ∷ cs) = run (exec jobs c) cs

-- The call bears another token than `token`, and the time that it compares a lease with is not
-- past `expiry`.
abbrev pub IsForeign : Text → ℕ → Call → Type 0
IsForeign token expiry (claims_queued id other _ _ _) = Unit {0}
IsForeign token expiry (claims_stale id other _ _ _ now) = now ≤ expiry
IsForeign token expiry (refreshes id other _ _ _ later) = (token === other) ≡ false
IsForeign token expiry (stages id other _ _ _ _ _ later) = (token === other) ≡ false
IsForeign token expiry (recovers id other _ _ _ later) = later ≤ expiry
IsForeign token expiry (releases id other _ _) = (token === other) ≡ false
IsForeign token expiry (clears id _ _ now) = now ≤ expiry

-- The worker with this token executes the job until `expiry`.
pub record IsHeld (token : Text) (expiry : ℕ) (job : ProcessingJob) : Type 0 where
  pub executing : is_executing job.status ≡ true
  pub owner : job.execution_token ≡ some token
  pub until : job.execution_lease_expires_at ≡ some expiry

exec-IsHeld :
    (jobs : List ProcessingJob) (c : Call) (id token : Text) (expiry : ℕ) (job : ProcessingJob)
    → IsHeld token expiry job
    → find_job id jobs ≡ some job
    → IsForeign token expiry c
    → find_job id (exec jobs c) ≡ some job
unfolding exec claim_queued claim_stale release_recovered_processing_execution
    clear_cancelled_expired_execution refresh_processing_execution update_processing_execution_stage
    claim_expired_processing_for_recovery
exec-IsHeld jobs (claims_queued id' _ e st u) id token expiry job h found f =
    find-update_failed id' _ _ id jobs job (λ j. refl) found (ground arith)
exec-IsHeld jobs (claims_stale id' _ e st u now) id token expiry job h found f =
    find-update_failed id' _ _ id jobs job (λ j. refl) found (ground arith)
exec-IsHeld jobs (releases id' _ q u) id token expiry job h found f =
    find-update_failed id' _ _ id jobs job (λ j. refl) found (ground arith)
exec-IsHeld jobs (clears id' _ u now) id token expiry job h found f =
    find-update_failed id' _ _ id jobs job (λ j. refl) found (ground arith)
exec-IsHeld jobs (refreshes id' o l n u t) id token expiry job h found f =
    elim (Bool-cases (ltb l 1000)) [
      | inl bad ↦ rw bad found
      | inr fine ↦ rw fine (find-update_failed id' _ _ id jobs job (λ j. refl) found (ground arith))
    ]
exec-IsHeld jobs (stages id' o s p l n u t) id token expiry job h found f =
    elim (Bool-cases (ltb l 1000)) [
      | inl bad ↦ rw bad found
      | inr fine ↦ rw fine (find-update_failed id' _ _ id jobs job (λ j. refl) found (ground arith))
    ]
exec-IsHeld jobs (recovers id' o l n u t) id token expiry job h found f =
    elim (Bool-cases (ltb l 1000)) [
      | inl bad ↦ rw bad found
      | inr fine ↦ rw fine (find-update_failed id' _ _ id jobs job (λ j. refl) found (ground arith))
    ]

run-IsHeld :
    (cs : List Call) (jobs : List ProcessingJob) (id token : Text) (expiry : ℕ)
    (job : ProcessingJob)
    → IsHeld token expiry job
    → find_job id jobs ≡ some job
    → All (IsForeign token expiry) cs
    → find_job id (run jobs cs) ≡ some job
unfolding run
run-IsHeld [] jobs id token expiry job h found f = found
run-IsHeld (c ∷ cs) jobs id token expiry job h found f =
    run-IsHeld cs (exec jobs c) id token expiry job h
      (exec-IsHeld jobs c id token expiry job h found f.0) f.1

-- A claim that succeeds gives the job to the token until `now + leaseMs`.
pub claim-IsHeld :
    (id token : Text) (lease_ms started now updated later : ℕ) (jobs jobs' : List ProcessingJob)
    → claim_processing_execution id token lease_ms started now updated later jobs ≡ ok (jobs', true)
    → (job : ProcessingJob) × (find_job id jobs' ≡ some job) × IsHeld token (now + lease_ms) job
unfolding claim_processing_execution claim_queued claim_stale
claim-IsHeld id token lease_ms started now updated later jobs jobs' h =
    elim (Bool-cases (ltb lease_ms 1000)) [
      | inl bad ↦ let e = rw bad at h in cc e
      | inr fine ↦
          let expiry : ℕ = now + lease_ms in
          let first = claim_queued id token expiry started updated jobs in
          elim (Bool-cases first.1) [
            | inl taken ↦
                let e = ok-injective (first.0, true) (jobs', true) (rw (fine, taken) at h) in
                let (job, _, _, found) =
                  update_where-true id _ (claim_update token expiry started updated) jobs
                    (λ j. refl) taken in
                held_by_claim first.0 jobs' job (ap (λ (x : List ProcessingJob × Bool). x.0) e)
                  found
            | inr missed ↦
                let second = claim_stale id token expiry started updated later first.0 in
                let e = ok-injective second (jobs', true) (rw (fine, missed) at h) in
                let (job, _, _, found) =
                  update_where-true id _ (claim_update token expiry started updated) first.0
                    (λ j. refl) (ap (λ (x : List ProcessingJob × Bool). x.1) e) in
                held_by_claim second.0 jobs' job (ap (λ (x : List ProcessingJob × Bool). x.0) e)
                  found
          ]
    ]
  where
    held_by_claim :
        (written after : List ProcessingJob) (job : ProcessingJob)
        → written ≡ after
        → (find_job id written ≡ some (claim_update token (now + lease_ms) started updated job))
        → (new : ProcessingJob) × (find_job id after ≡ some new) × IsHeld token (now + lease_ms) new
    held_by_claim written after job e found = (
      claim_update token (now + lease_ms) started updated job,
      subst
          (λ jobs.
            find_job id jobs ≡ some (claim_update token (now + lease_ms) started updated job))
          e found,
      record { executing = refl; owner = refl; until = refl },
    )

-- Once a worker's claim has succeeded, no statements of processing-execution-lease.ts that other
-- workers send and that compare leases with times up to `now + leaseMs` change the job's row, in whatever
-- order they come. After them a further claim of the job at such a time is refused, by both of its
-- statements, and so is its recovery, with any lease of at least 1000. Statements of other files, such as
-- those that cancel a job or note its message in the queue, are not among them.
pub lease_exclusive :
    (id token : Text) (lease_ms started now updated later : ℕ) (jobs jobs' : List ProcessingJob)
    (cs : List Call) (other : Text) (expiry started' now' updated' later' lease_ms' : ℕ)
    → claim_processing_execution id token lease_ms started now updated later jobs ≡ ok (jobs', true)
    → All (IsForeign token (now + lease_ms)) cs
    → later' ≤ now + lease_ms
    → 1000 ≤ lease_ms'
    → let after = run jobs' cs in
      (find_job id after ≡ find_job id jobs')
      × ((claim_queued id other expiry started' updated' after) ≡ (after, false))
      × ((claim_stale id other expiry started' updated' later' after) ≡ (after, false))
      × (claim_expired_processing_for_recovery id other lease_ms' now' updated' later' after
          ≡ ok (after, false))
unfolding claim_queued claim_stale claim_expired_processing_for_recovery
lease_exclusive id token lease_ms started now updated later jobs jobs' cs other expiry started' now'
      updated' later' lease_ms' h f p long =
    let (job, found, held) =
      claim-IsHeld id token lease_ms started now updated later jobs jobs' h in
    let kept = run-IsHeld cs jobs' id token (now + lease_ms) job held found f in
    let fine : ltb lease_ms' 1000 ≡ false = ground (arith, long) in
    (
      kept ∙ sym found,
      update_where-false id _ _ (run jobs' cs)
          (λ j e. let same = some-injective (sym kept ∙ e) in ground arith),
      update_where-false id _ _ (run jobs' cs)
          (λ j e. let same = some-injective (sym kept ∙ e) in ground arith),
      rw fine (
          ap ok (
            update_where-false id _ _ (run jobs' cs)
              (λ j e. let same = some-injective (sym kept ∙ e) in ground arith))),
    )

-- A worker whose token is no longer the job's can neither refresh its lease, nor report a stage, nor
-- release the job: each statement changes nothing and says so.
pub stale_token_refused :
    (id token stage queue_job_id : Text) (progress lease_ms now updated later : ℕ)
    (jobs : List ProcessingJob) (job : ProcessingJob)
    → find_job id jobs ≡ some job
    → is_text job.execution_token token ≡ false
    → 1000 ≤ lease_ms
    → (refresh_processing_execution id token lease_ms now updated later jobs ≡ ok (jobs, false))
      × (update_processing_execution_stage id token stage progress lease_ms now updated later jobs
          ≡ ok (jobs, false))
      × (release_recovered_processing_execution id token queue_job_id updated jobs ≡ (jobs, false))
unfolding refresh_processing_execution update_processing_execution_stage
    release_recovered_processing_execution
stale_token_refused id token stage queue_job_id progress lease_ms now updated later jobs job found
      stale long =
    let fine : ltb lease_ms 1000 ≡ false = ground arith in
    (
      rw fine (
          ap ok (
            update_where-false id _ _ jobs
              (λ j e. let same = some-injective (sym found ∙ e) in ground arith))),
      rw fine (
          ap ok (
            update_where-false id _ _ jobs
              (λ j e. let same = some-injective (sym found ∙ e) in ground arith))),
      update_where-false id _ _ jobs
          (λ j e. let same = some-injective (sym found ∙ e) in ground arith),
    )
