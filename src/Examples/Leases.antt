-- ===== src/Examples/Leases.antt =====
-- The leases, the counters and the outbox on concrete rows.
use Prim.Native.Nat.{min}
use wknowledge.Base.{
  ℕ, suc, ◌+◌, ◌≤◌, ◌<◌, ◌≡◌, ◌⊎◌, refl, Text, units, Bool, true, false, Option, none, some, List,
  [], ◌∷◌, ok, err, All, any, arith, get, if◌then◌else◌, ◌===◌, ◌&&◌, inl, ltb, leb, ◌++◌, length,
}
use wknowledge.ProcessingLease.{
  claim_expired_processing_for_recovery, ProcessingJob, queued, claim_processing_execution,
  claim_update, claim_queued, claim_stale, find_job, update_where, lease_expiry,
  refresh_processing_execution, update_processing_execution_stage,
  release_recovered_processing_execution,
}
use wknowledge.ProcessingLease.Exclusion.{
  Call, refreshes, claims_stale, run, IsForeign, IsHeld, claim-IsHeld, lease_exclusive,
  stale_token_refused,
}
use wknowledge.RateLimit.{
  RateLimitInput, Counters, BatchResult, consume_request_rate_limits, input_invalid, check_inputs,
  transact, consume_loop, consume, next_counter,
}
use wknowledge.ModelBudget.{BudgetLimits, guard}
use wknowledge.ModelBudget.Charge.{Charged, guard-Charged}
use wknowledge.RateLimit.Batch.{IsTaken, key_of, batch_is_atomic}
use wknowledge.RateLimit.Window.{count_allowed, count_allowed-window}

abbrev waiting : ProcessingJob
waiting = record {
  id = units "j";
  status = queued;
  stage = units "queued";
  progress = 0;
  error_code = none;
  error_message = none;
  started_at = none;
  finished_at = none;
  queue_job_id = none;
  execution_token = none;
  execution_lease_expires_at = none;
  updated_at = 0;
}

abbrev started : ProcessingJob
started = claim_update (units "a") 1010 10 10 waiting

claimed :
    claim_processing_execution (units "j") (units "a") 1000 10 10 10 10 (waiting ∷ [])
    ≡ ok (started ∷ [], true)
unfolding claim_processing_execution claim_queued claim_stale update_where lease_expiry ◌===◌
claimed = refl

claim-IsHeld_example :
    (job : ProcessingJob) × (find_job (units "j") (started ∷ []) ≡ some job)
    × IsHeld (units "a") 1010 job
claim-IsHeld_example =
    claim-IsHeld (units "j") (units "a") 1000 10 10 10 10 (waiting ∷ []) (started ∷ []) claimed

abbrev others : List Call
others =
    claims_stale (units "j") (units "b") 9000 500 500 500
    ∷ refreshes (units "j") (units "b") 1000 900 900 900
    ∷ []

others-IsForeign : All (IsForeign (units "a") 1010) others
unfolding ◌===◌
others-IsForeign = (omega arith, (refl, tt))

lease_exclusive_example :
    (find_job (units "j") (run (started ∷ []) others) ≡ find_job (units "j") (started ∷ []))
    × (claim_queued (units "j") (units "b") 2000 1000 1000 (run (started ∷ []) others)
        ≡ (run (started ∷ []) others, false))
    × (claim_stale (units "j") (units "b") 2000 1000 1000 1000 (run (started ∷ []) others)
        ≡ (run (started ∷ []) others, false))
    × (claim_expired_processing_for_recovery
          (units "j")
          (units "b")
          1000
          1000
          1000
          1000
          (run (started ∷ []) others)
        ≡ ok (run (started ∷ []) others, false))
lease_exclusive_example =
    lease_exclusive (units "j") (units "a") 1000 10 10 10 10 (waiting ∷ []) (started ∷ []) others
      (units "b") 2000 1000 1000 1000 1000 1000 claimed others-IsForeign (omega arith) (omega arith)

started_found : find_job (units "j") (started ∷ []) ≡ some started
unfolding find_job ◌===◌
started_found = refl

stale_token_refused_example :
    (refresh_processing_execution (units "j") (units "b") 1000 500 500 500 (started ∷ [])
      ≡ ok (started ∷ [], false))
    × (update_processing_execution_stage
          (units "j")
          (units "b")
          (units "wiki")
          50
          1000
          500
          500
          500
          (started ∷ [])
        ≡ ok (started ∷ [], false))
    × (release_recovered_processing_execution (units "j") (units "b") (units "q") 500 (started ∷ [])
        ≡ (started ∷ [], false))
unfolding ◌===◌
stale_token_refused_example =
    stale_token_refused (units "j") (units "b") (units "wiki") (units "q") 50 1000 500 500 500
      (started ∷ []) started started_found refl (omega arith)

-- A stand-in for the hash.
abbrev plain_key : Text → Text → Text
plain_key scope subject = scope ++ (b':' ∷ subject)

abbrev per_day : RateLimitInput
per_day = record { scope = units "day"; subject = units "u"; limit = 2; window_seconds = 60 }

abbrev passed : BatchResult
passed = record { allowed = true; retry_after_seconds = 0; denied_scope = none }

abbrev counted : Counters
counted = (units "day:u", record { window_started_at = 5; count = 1; updated_at = 5 }) ∷ []

batch_passed : consume_request_rate_limits plain_key 5 (per_day ∷ []) [] ≡ ok (counted, passed)
unfolding consume_request_rate_limits check_inputs transact consume_loop consume next_counter
    input_invalid wknowledge.Base.has get wknowledge.Base.set
batch_passed = refl

batch_is_atomic_example :
    ((passed.allowed ≡ true)
      × All (IsTaken plain_key 5 [] counted) (per_day ∷ [])
      × ((k : Text)
          → (any (λ i. key_of plain_key i === k) (per_day ∷ []) ≡ true)
            ⊎ (get k counted ≡ get k [])))
    ⊎ ((passed.allowed ≡ false) × (counted ≡ []))
batch_is_atomic_example = batch_is_atomic plain_key 5 (per_day ∷ []) [] counted passed batch_passed

per_day_fine : input_invalid plain_key per_day ≡ false
unfolding input_invalid
per_day_fine = refl

count_allowed_example :
    count_allowed plain_key per_day (5 ∷ 6 ∷ 7 ∷ 8 ∷ []) []
    ≡ min (suc (length {A = ℕ} (6 ∷ 7 ∷ 8 ∷ []))) 2
unfolding get
count_allowed_example =
    count_allowed-window plain_key per_day 5 (6 ∷ 7 ∷ 8 ∷ []) [] per_day_fine refl
      (omega arith, (omega arith, (omega arith, tt)))

abbrev daily : BudgetLimits
daily = record { organization_daily_limit = 3; provider_daily_limit = 2; user_daily_limit = 1 }

guard-Charged_example :
    Charged plain_key daily
      (units "o")
      (some (units "u"))
      (units "p")
      5
      []
      (guard plain_key daily (units "o") (some (units "u")) (units "p") 5 [])
guard-Charged_example =
    guard-Charged plain_key daily (units "o") (some (units "u")) (units "p") 5 []
