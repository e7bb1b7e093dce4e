-- ===== src/Outbox.antt =====
-- packages/core/src/job-outbox.ts: `dispatchPendingProcessingOutbox`, from its reading of the tables
-- to the rows that it leaves. `publish` of the queue is a parameter: the number of the turn and the
-- message give the queue's id for the message, or nothing when it throws. Each turn has one reading of
-- the clock and one fresh token; no other dispatcher acts between the statements of a turn.
pub mod Dispatch
use wknowledge.Base.{
  ℕ, zero, suc, ◌+◌, Text, units, Bool, true, false, not, ◌||◌, ◌&&◌, Option, none, some, List, [],
  ◌∷◌, Result, ok, err, ltb, leb, if◌then◌else◌, keep, ◌===◌,
}
use wknowledge.ProcessingLease.{JobStatus, is_queued, is_before}
use wknowledge.JobQueue.Memory.{is_empty}

pub data OutboxStatus : Type 0 where
  pending dispatching sent discarded : OutboxStatus

pub data OutboxKind : Type 0 where
  resource_process upload_finalize : OutboxKind

pub record OutboxRow : Type 0 where
  pub id : Text
  pub processing_job_id : Text
  pub kind : OutboxKind
  pub upload_id : Option Text
  pub resource_version_id : Option Text
  pub status : OutboxStatus
  pub attempt_count : ℕ
  pub dispatch_token : Option Text
  pub dispatch_lease_expires_at : Option ℕ
  pub queue_job_id : Option Text
  pub sent_at : Option ℕ
  pub last_error_code : Option Text
  pub last_error_at : Option ℕ
  pub created_at : ℕ
  pub updated_at : ℕ

pub record JobRow : Type 0 where
  pub id : Text
  pub status : JobStatus
  pub queue_job_id : Option Text
  pub updated_at : ℕ

pub record Tables : Type 0 where
  pub outbox : List OutboxRow
  pub jobs : List JobRow

pub record Counts : Type 0 where
  pub dispatched : ℕ
  pub discarded : ℕ
  pub failed : ℕ

pub data OutboxError : Type 0 where
  outbox_limit_invalid outbox_dispatch_lease_invalid : OutboxError

pub data Message : Type 0 where
  process_resource finalize_upload : (job_id subject_id : Text) → Message

abbrev pub is_pending : OutboxStatus → Bool
is_pending pending = true
is_pending _ = false

abbrev pub is_dispatching : OutboxStatus → Bool
is_dispatching dispatching = true
is_dispatching _ = false

abbrev pub holds_token : Text → Option Text → Bool
holds_token token none = false
holds_token token (some t) = t === token

unfoldable pub dispatch_lease_expiry : ℕ → ℕ → Result OutboxError ℕ
dispatch_lease_expiry lease_ms now =
    if ltb lease_ms 1000 then err outbox_dispatch_lease_invalid else ok (now + lease_ms)

unfoldable pub is_dispatchable : ℕ → OutboxRow → Bool
is_dispatchable now row =
    is_pending row.status
    || (is_dispatching row.status && is_before row.dispatch_lease_expires_at now)

-- The optional `processingJobId`; an empty one counts as none.
abbrev pub is_for : Option Text → OutboxRow → Bool
is_for none row = true
is_for (some job_id) row = is_empty job_id || row.processing_job_id === job_id

-- The first row in the order of `createdAt`.
unfoldable pub earliest : List OutboxRow → Option OutboxRow
earliest [] = none
earliest (row ∷ rows) = elim (earliest rows) [
  | none ↦ some row
  | some other ↦ if leb row.created_at other.created_at then some row else some other
]

unfoldable pub update_rows :
    (OutboxRow → Bool) → (OutboxRow → OutboxRow) → List OutboxRow → List OutboxRow
update_rows meets patch [] = []
update_rows meets patch (row ∷ rows) =
    (if meets row then patch row else row) ∷ update_rows meets patch rows

unfoldable pub first_row : (OutboxRow → Bool) → List OutboxRow → Option OutboxRow
first_row meets [] = none
first_row meets (row ∷ rows) = if meets row then some row else first_row meets rows

unfoldable pub find_job : Text → List JobRow → Option JobRow
find_job id [] = none
find_job id (job ∷ jobs) = if job.id === id then some job else find_job id jobs

unfoldable pub set_queue_job : Text → Text → ℕ → List JobRow → List JobRow
set_queue_job id queue_job_id now [] = []
set_queue_job id queue_job_id now (job ∷ jobs) =
    (if job.id === id
      then record job { queue_job_id = some queue_job_id; updated_at = now }
      else job)
    ∷ set_queue_job id queue_job_id now jobs

abbrev pub claim_patch : OutboxRow → Text → ℕ → ℕ → OutboxRow → OutboxRow
claim_patch candidate token expiry now row = record row {
  status = dispatching;
  attempt_count = candidate.attempt_count + 1;
  dispatch_token = some token;
  dispatch_lease_expires_at = some expiry;
  updated_at = now;
}

abbrev pub discard_patch : ℕ → OutboxRow → OutboxRow
discard_patch now row = record row {
  status = discarded;
  dispatch_token = none;
  dispatch_lease_expires_at = none;
  updated_at = now;
}

abbrev pub sent_patch : Text → ℕ → OutboxRow → OutboxRow
sent_patch queue_job_id now row = record row {
  status = sent;
  queue_job_id = some queue_job_id;
  sent_at = some now;
  dispatch_token = none;
  dispatch_lease_expires_at = none;
  last_error_code = none;
  last_error_at = none;
  updated_at = now;
}

abbrev pub retry_patch : ℕ → OutboxRow → OutboxRow
retry_patch now row = record row {
  status = pending;
  dispatch_token = none;
  dispatch_lease_expires_at = none;
  last_error_code = some (units "QUEUE_PUBLISH_FAILED");
  last_error_at = some now;
  updated_at = now;
}

-- The condition of every update after the claim.
unfoldable pub is_claimed : Text → Text → OutboxRow → Bool
is_claimed id token row =
    row.id === id && is_dispatching row.status && holds_token token row.dispatch_token

-- The message of a row; nothing where the row lacks the id that its kind needs.
unfoldable pub message_of : OutboxRow → Option Message
message_of row = elim row.kind [
  | upload_finalize ↦ elim row.upload_id [
    | none ↦ none
    | some id ↦ if is_empty id then none else some (finalize_upload row.processing_job_id id)
  ]
  | resource_process ↦ elim row.resource_version_id [
    | none ↦ none
    | some id ↦ if is_empty id then none else some (process_resource row.processing_job_id id)
  ]
]

abbrev pub is_waiting : Option JobRow → Bool
is_waiting none = false
is_waiting (some job) = is_queued job.status

pub data Turn : Type 0 where
  breaks continues : Tables → Counts → Turn
  throws : OutboxError → Turn

unfoldable pub publish_message : (Message → Option Text) → Option Message → Option Text
publish_message publish none = none
publish_message publish (some message) = publish message

-- From the `try` on.
unfoldable pub send_claimed :
    (Message → Option Text) → OutboxRow → Text → ℕ → Tables → Counts → Turn
send_claimed publish claimed token now tables counts =
    elim (publish_message publish (message_of claimed)) [
      | none ↦
          breaks
            (record tables {
              outbox = update_rows (is_claimed claimed.id token) (retry_patch now) tables.outbox;
            })
            (record counts { failed = counts.failed + 1 })
      | some queue_job_id ↦ elim (first_row (is_claimed claimed.id token) tables.outbox) [
        | none ↦ continues tables counts
        | some row ↦
            continues
              (record {
                outbox =
                    update_rows (is_claimed claimed.id token) (sent_patch queue_job_id now)
                      tables.outbox;
                jobs = set_queue_job claimed.processing_job_id queue_job_id now tables.jobs;
              })
              (record counts { dispatched = counts.dispatched + 1 })
      ]
    ]

-- After the claim: the job is looked up, and the row discarded or sent.
unfoldable pub handle_claimed :
    (Message → Option Text) → OutboxRow → Text → ℕ → Tables → Counts → Turn
handle_claimed publish claimed token now tables counts =
    if is_waiting (find_job claimed.processing_job_id tables.jobs)
    then send_claimed publish claimed token now tables counts
    else continues
        (record tables {
          outbox = update_rows (is_claimed claimed.id token) (discard_patch now) tables.outbox;
        })
        (record counts { discarded = counts.discarded + 1 })

-- The condition of the claim's update.
unfoldable pub is_claimable : OutboxRow → ℕ → Option Text → OutboxRow → Bool
is_claimable candidate now job row =
    row.id === candidate.id && is_dispatchable now row && is_for job row

-- The body of the loop.
unfoldable pub dispatch_turn :
    (Message → Option Text) → Text → (now lease_ms : ℕ) → Option Text → Tables → Counts → Turn
dispatch_turn publish token now lease_ms job tables counts =
    elim (earliest (keep (λ row. is_dispatchable now row && is_for job row) tables.outbox)) [
      | none ↦ breaks tables counts
      | some candidate ↦ elim (dispatch_lease_expiry lease_ms now) [
        | err e ↦ throws e
        | ok expiry ↦ elim (first_row (is_claimable candidate now job) tables.outbox) [
          | none ↦ continues tables counts
          | some row ↦
              handle_claimed publish (claim_patch candidate token expiry now row) token now
                (record tables {
                  outbox =
                      update_rows (is_claimable candidate now job)
                        (claim_patch candidate token expiry now) tables.outbox;
                })
                counts
        ]
      ]
    ]

-- The loop, with the turns that are left and the number of the next one.
unfoldable pub dispatch_loop :
    (publish : ℕ → Message → Option Text) (token : ℕ → Text) (clock : ℕ → ℕ) (lease_ms : ℕ)
    → Option Text
    → (left index : ℕ) → Tables
    → Counts
    → Result OutboxError (Tables × Counts)
dispatch_loop publish token clock lease_ms job zero index tables counts = ok (tables, counts)
dispatch_loop publish token clock lease_ms job (suc left) index tables counts =
    elim (dispatch_turn (publish index) (token index) (clock index) lease_ms job tables counts) [
      | throws e ↦ err e
      | breaks tables' counts' ↦ ok (tables', counts')
      | continues tables' counts' ↦
          dispatch_loop publish token clock lease_ms job left (suc index) tables' counts'
    ]

abbrev pub no_counts : Counts
no_counts = record { dispatched = 0; discarded = 0; failed = 0 }

unfoldable pub dispatch_pending_processing_outbox :
    (publish : ℕ → Message → Option Text) (token : ℕ → Text) (clock : ℕ → ℕ) (limit lease_ms : ℕ)
    → Option Text
    → Tables
    → Result OutboxError (Tables × Counts)
dispatch_pending_processing_outbox publish token clock limit lease_ms job tables =
    if ltb limit 1 || ltb 100 limit
    then err outbox_limit_invalid
    else dispatch_loop publish token clock lease_ms job limit 0 tables no_counts
