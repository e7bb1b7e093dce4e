-- ===== src/Examples/Reopened.antt =====
-- A database file of the job queue that is opened again, on concrete jobs.
use wknowledge.Base.{
  ℕ, ◌≤◌, ◌<◌, ◌≡◌, refl, sym, subst, Text, units, Option, none, some, List, [], ◌∷◌, Result, err,
  All, arith,
}
use wknowledge.JobQueue.{EnqueueInput, QueuedJob, JobError, unique_constraint}
use wknowledge.JobQueue.Ids.{job_id}
use wknowledge.JobQueue.Sqlite.{SqliteQueue, by_id, new_row, reopen}
use wknowledge.JobQueue.Sqlite.Reopened.{HasFirstIds, answers, reopened-answers-fail}

abbrev mail : EnqueueInput ℕ
mail = record { queue = units "mail"; payload = 1; idempotency_key = none; max_attempts = none }

abbrev same_payload : ℕ → ℕ
same_payload n = n

abbrev row : QueuedJob ℕ
unfolding new_row
row = new_row same_payload mail 1 10

abbrev kept : SqliteQueue ℕ
unfolding row
kept = record { rows = row ∷ []; sequence = 1 }

found : by_id (job_id 1) kept.rows ≡ some row
unfolding by_id kept wknowledge.Base.◌===◌ job_id wknowledge.Base.Decimal.pad_start
    wknowledge.Base.Decimal.to_string
found = refl

first_id : HasFirstIds 1 kept.rows
first_id k positive small =
    let one : 1 ≡ k = omega (arith, positive, small) in
    subst (λ n. (r : QueuedJob ℕ) × (by_id (job_id n) kept.rows ≡ some r)) one (row, found)

reopened-answers-fail_example :
    All
      (λ answer. answer ≡ err unique_constraint)
      (answers same_payload 20 (mail ∷ []) (reopen kept))
unfolding wknowledge.JobQueue.attempts_invalid
reopened-answers-fail_example =
    reopened-answers-fail same_payload 20 (mail ∷ []) kept 1 first_id ((refl, refl, refl), tt)
      (omega arith)
