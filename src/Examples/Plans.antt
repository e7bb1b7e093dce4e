-- ===== src/Examples/Plans.antt =====
-- The outbox, an upgrade's plan and a conversation on concrete inputs.
use wknowledge.Base.{
  ℕ, ◌+◌, ◌≤◌, ◌≡◌, refl, Text, units, true, Bool, Option, none, some, List, [], ◌∷◌, ◌++◌, ok, inl,
  inr, length, replicate, map, All, ltb, leb, get,
}
use wknowledge.ProcessingLease.{queued}
use wknowledge.Outbox.{
  resource_process, sent, OutboxRow, JobRow, Tables, Counts, dispatch_pending_processing_outbox,
  dispatch_loop, dispatch_turn, earliest, is_dispatchable, dispatch_lease_expiry, is_claimable,
  first_row, update_rows, handle_claimed, send_claimed, find_job, is_claimed, message_of,
  publish_message, set_queue_job, claim_patch, sent_patch,
}
use wknowledge.Outbox.Dispatch.{IsIn, dispatch-keeps_settled}
use wknowledge.MigrationPlan.{
  ExpectedMigration, AppliedMigration, DatabaseUpgradePlan, plan_database_upgrade, check_applied,
  tag_before, status_of, valid_timestamp, is_hash,
}
use wknowledge.MigrationPlan.Prefix.{applied_form, plan_prefix}
use wknowledge.Conversation.{Message, compact_agent_conversation, user, assistant}
use wknowledge.Conversation.Bounds.{IsWithinBudget, compact-IsWithinBudget}

abbrev old_row : OutboxRow
old_row = record {
  id = units "o1";
  processing_job_id = units "j1";
  kind = resource_process;
  upload_id = none;
  resource_version_id = some (units "v1");
  status = sent;
  attempt_count = 1;
  dispatch_token = none;
  dispatch_lease_expires_at = none;
  queue_job_id = some (units "q1");
  sent_at = some 5;
  last_error_code = none;
  last_error_at = none;
  created_at = 1;
  updated_at = 5;
}

abbrev new_row : OutboxRow
new_row = record old_row {
  id = units "o2";
  processing_job_id = units "j2";
  status = wknowledge.Outbox.pending;
  attempt_count = 0;
  queue_job_id = none;
  sent_at = none;
}

abbrev job : JobRow
job = record { id = units "j2"; status = queued; queue_job_id = none; updated_at = 0 }

abbrev before : Tables
before = record { outbox = old_row ∷ new_row ∷ []; jobs = job ∷ [] }

abbrev after : Tables
after = record {
  outbox =
      old_row
      ∷ sent_patch (units "q2") 100 (claim_patch new_row (units "t") 30100 100 new_row)
      ∷ [];
  jobs = record job { queue_job_id = some (units "q2"); updated_at = 100 } ∷ [];
}

abbrev publish : ℕ → wknowledge.Outbox.Message → Option Text
publish index message = some (units "q2")

dispatched :
    dispatch_pending_processing_outbox publish (λ i. units "t") (λ i. 100) 25 30000 none before
    ≡ ok (after, record { dispatched = 1; discarded = 0; failed = 0 })
unfolding dispatch_pending_processing_outbox dispatch_loop dispatch_turn earliest is_dispatchable
    dispatch_lease_expiry is_claimable first_row update_rows handle_claimed send_claimed find_job
    is_claimed message_of publish_message set_queue_job wknowledge.Base.◌===◌
dispatched = refl

dispatch-keeps_settled_example : IsIn old_row after.outbox × (1 + 0 + 0 ≤ 25)
dispatch-keeps_settled_example =
    dispatch-keeps_settled publish (λ i. units "t") (λ i. 100) 25 30000 none before after
      (record { dispatched = 1; discarded = 0; failed = 0 }) old_row refl (inl refl) dispatched

abbrev first : ExpectedMigration
first = record { tag = units "0000_base"; folder_millis = 5; hash = replicate 64 b'a' }

abbrev second : ExpectedMigration
second = record { tag = units "0001_more"; folder_millis = 9; hash = replicate 64 b'b' }

abbrev plan : DatabaseUpgradePlan
plan = record {
  status = wknowledge.MigrationPlan.pending;
  applied_count = 1;
  pending_tags = units "0001_more" ∷ [];
  last_applied_tag = some (units "0000_base");
}

planned : plan_database_upgrade (first ∷ second ∷ []) (applied_form first ∷ []) ≡ ok plan
unfolding plan_database_upgrade check_applied tag_before valid_timestamp is_hash
    wknowledge.Base.is_digit wknowledge.Base.◌===◌
planned = refl

plan_prefix_example :
    (done rest : List ExpectedMigration) × (first ∷ second ∷ [] ≡ done ++ rest)
    × (map applied_form done ≡ applied_form first ∷ [])
    × (units "0001_more" ∷ [] ≡ map (λ m. m.tag) rest)
    × (1 ≡ length (applied_form first ∷ []))
    × (wknowledge.MigrationPlan.pending
        ≡ status_of (length (applied_form first ∷ [])) (length rest))
plan_prefix_example = plan_prefix (first ∷ second ∷ []) (applied_form first ∷ []) plan planned

abbrev talk : List Message
talk =
    record { role = user; content = units "hello" }
    ∷ record { role = assistant; content = units " " }
    ∷ []

compact_example : IsWithinBudget (compact_agent_conversation talk)
compact_example = compact-IsWithinBudget talk
