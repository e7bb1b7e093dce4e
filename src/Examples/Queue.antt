-- ===== src/Examples/Queue.antt =====
-- The in-memory queue on a few calls.
use wknowledge.Base.{
  ℕ, suc, ◌+◌, ◌≤◌, ◌<◌, ◌≡◌, ◌⊎◌, refl, Text, units, Bool, true, false, Option, none, some, List,
  [], ◌∷◌, ok, err, get, if◌then◌else◌, ◌===◌, ◌&&◌,
}
use wknowledge.JobQueue.{
  QueuedJob, queued, failed, is_active, EnqueueInput, is_terminal, attempts_invalid,
}
use wknowledge.JobQueue.Ids.{job_id}
use wknowledge.JobQueue.Memory.{
  MemoryQueue, empty, Call, enqueues, claims, completes, run, step, claim, enqueue,
  recover_expired_leases, reusable, add_job, new_job, remember_key, composite_key, stamp, find_job,
  first_queued, sort_by_created, insert_by_created, claim_patch, complete_patch, complete,
}
use wknowledge.JobQueue.Memory.Find.{stamped}
use wknowledge.JobQueue.Memory.Defs.{IsValidQueue}
use wknowledge.JobQueue.Memory.Invariant.{run-empty-IsValidQueue}
use wknowledge.JobQueue.Memory.Guarantees.{claim_exclusive, enqueue_twice}
use wknowledge.JobQueue.Memory.Lifecycle.{has_lapsed, recover_releases, run-keeps_terminal}

abbrev mail : EnqueueInput ℕ
mail = record {
  queue = units "mail";
  payload = 7;
  idempotency_key = some (units "k");
  max_attempts = none;
}

abbrev job_name : Text
job_name = units "job-00000001"

abbrev one_job : List (Call ℕ)
one_job = enqueues mail 10 10 ∷ []

abbrev claimed_job : List (Call ℕ)
claimed_job = enqueues mail 10 10 ∷ claims (units "mail") 100 20 20 ∷ []

abbrev done_job : List (Call ℕ)
done_job = enqueues mail 10 10 ∷ claims (units "mail") 100 20 20 ∷ completes job_name 30 ∷ []

abbrev fresh : QueuedJob ℕ
fresh = record {
  id = job_name;
  queue = units "mail";
  payload = 7;
  state = queued;
  attempts = 0;
  max_attempts = 3;
  leased_until = none;
  last_error = none;
  idempotency_key = some (units "k");
  created_at = 10;
  updated_at = 10;
}

abbrev taken : QueuedJob ℕ
taken = stamped 20 (claim_patch 120) fresh

abbrev done : QueuedJob ℕ
done = stamped 30 complete_patch taken

open_queue : run empty one_job ≡ record {
  jobs = (job_name, fresh) ∷ [];
  by_idempotency_key = (units "mail::k", job_name) ∷ [];
  sequence = 1;
}
unfolding run step enqueue reusable add_job new_job remember_key composite_key job_id
    attempts_invalid get wknowledge.Base.set ◌===◌ wknowledge.Base.Decimal.pad_start
    wknowledge.Base.Decimal.to_string
open_queue = refl

fresh_found : get job_name (run empty one_job).jobs ≡ some fresh
unfolding run step enqueue reusable add_job new_job remember_key composite_key job_id
    attempts_invalid get wknowledge.Base.set ◌===◌ wknowledge.Base.Decimal.pad_start
    wknowledge.Base.Decimal.to_string
fresh_found = refl

taken_found : get job_name (run empty claimed_job).jobs ≡ some taken
unfolding run step enqueue reusable add_job new_job remember_key composite_key job_id
    attempts_invalid claim first_queued sort_by_created insert_by_created stamp find_job get
    wknowledge.Base.set ◌===◌ wknowledge.Base.Decimal.pad_start wknowledge.Base.Decimal.to_string
taken_found = refl

done_found : get job_name (run empty done_job).jobs ≡ some done
unfolding run step enqueue reusable add_job new_job remember_key composite_key job_id
    attempts_invalid claim first_queued sort_by_created insert_by_created stamp find_job complete
    get wknowledge.Base.set ◌===◌ wknowledge.Base.Decimal.pad_start
    wknowledge.Base.Decimal.to_string
done_found = refl

claimed :
    claim (units "mail") 100 20 20 (run empty one_job) ≡ ok (run empty claimed_job, some taken)
unfolding run step enqueue reusable add_job new_job remember_key composite_key job_id
    attempts_invalid claim first_queued sort_by_created insert_by_created stamp find_job get
    wknowledge.Base.set ◌===◌ wknowledge.Base.Decimal.pad_start wknowledge.Base.Decimal.to_string
claimed = refl

enqueued : enqueue mail 10 10 empty ≡ ok (run empty one_job, fresh)
unfolding run step enqueue reusable add_job new_job remember_key composite_key job_id
    attempts_invalid get wknowledge.Base.set ◌===◌ wknowledge.Base.Decimal.pad_start
    wknowledge.Base.Decimal.to_string
enqueued = refl

over : is_terminal done.state ≡ true
unfolding is_terminal
over = refl

run-empty-IsValidQueue_example : IsValidQueue (run empty done_job)
run-empty-IsValidQueue_example = run-empty-IsValidQueue done_job

claim_exclusive_example :
    ((run empty claimed_job ≡ run empty one_job) × (some taken ≡ none))
    ⊎ ((job : QueuedJob ℕ) × (get job.id (run empty one_job).jobs ≡ some job)
        × (job.queue ≡ units "mail")
        × (job.state ≡ queued)
        × (some taken ≡ some (stamped 20 (claim_patch 120) job))
        × ((id : Text)
            → get id (run empty claimed_job).jobs
              ≡ (if job.id === id then some taken else get id (run empty one_job).jobs)))
claim_exclusive_example =
    claim_exclusive (units "mail") 100 20 20 (run empty one_job) (run empty claimed_job)
      (some taken) (run-empty-IsValidQueue one_job) claimed

default_fine : attempts_invalid 3 ≡ false
unfolding attempts_invalid
default_fine = refl

enqueue_twice_example : enqueue mail 50 50 (run empty one_job) ≡ ok (run empty one_job, fresh)
enqueue_twice_example =
    enqueue_twice mail mail (units "k") 10 10 50 50 empty (run empty one_job) fresh refl refl refl
      default_fine enqueued

recover_releases_example :
    (s' : MemoryQueue ℕ) × (n : ℕ) × (job' : QueuedJob ℕ) × (recover_expired_leases
        (λ i. 200)
        120
        (run empty claimed_job)
      ≡ ok (s', n))
    × (get job_name s'.jobs ≡ some job')
    × ((((is_active taken.state && has_lapsed 120 taken.leased_until) ≡ false) × (job' ≡ taken))
        ⊎ (((is_active taken.state && has_lapsed 120 taken.leased_until) ≡ true)
            × (job'.leased_until ≡ none)
            × (job'.last_error ≡ some (units "JOB_LEASE_EXPIRED"))
            × (((taken.attempts < taken.max_attempts) × (job'.state ≡ queued))
                ⊎ ((taken.max_attempts ≤ taken.attempts) × (job'.state ≡ failed)))))
recover_releases_example =
    recover_releases (λ i. 200) 120 (run empty claimed_job) job_name taken
      (run-empty-IsValidQueue claimed_job) taken_found

run-keeps_terminal_example : get job_name (run (run empty done_job) claimed_job).jobs ≡ some done
run-keeps_terminal_example =
    run-keeps_terminal claimed_job (run empty done_job) job_name done
      (run-empty-IsValidQueue done_job) done_found over
