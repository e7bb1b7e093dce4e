-- ===== src/JobQueue/Memory/Guarantees.antt =====
-- What the calls of the in-memory queue promise to its callers.
use wknowledge.Base.{
  ℕ, ◌+◌, ◌≡◌, ◌⊎◌, refl, sym, ap, subst, Text, false, Option, some, none, Bool-cases, Option-cases,
  inl, inr, get, set, values, get-set, get-set_self, arith, ◌===◌, ok, ok-injective, if◌then◌else◌,
  ltb,
}
use mathlib.Core.Option.{get_or}
use wknowledge.JobQueue.{
  QueuedJob, queued, EnqueueInput, is_terminal, attempts_invalid, default_max_attempts,
}
use wknowledge.JobQueue.Ids.{job_id}
use wknowledge.JobQueue.Memory.{
  MemoryQueue, composite_key, is_empty, reusable, remember_key, add_job, enqueue, first_queued,
  sort_by_created, claim, claim_patch,
}
use wknowledge.JobQueue.Memory.Defs.{IsValidQueue}
use wknowledge.JobQueue.Memory.Find.{stamped, stamp_known, first_queued-get, first_queued_sound}

module _ {P : Type 0} where
  -- A claim either takes nothing, and then leaves the queue as it was, or takes a job of the asked
  -- queue that was queued: that job alone changes, to active, with one attempt more and a lease of
  -- `lease_ms` from `current`, and it is what the call returns.
  pub claim_exclusive :
      (queue : Text) (lease_ms current now : ℕ) (s s' : MemoryQueue P) (r : Option (QueuedJob P))
      → IsValidQueue s
      → claim queue lease_ms current now s ≡ ok (s', r)
      → ((s' ≡ s) × (r ≡ none))
        ⊎ ((job : QueuedJob P) × (get job.id s.jobs ≡ some job)
            × (job.queue ≡ queue)
            × (job.state ≡ queued)
            × (r ≡ some (stamped now (claim_patch (current + lease_ms)) job))
            × ((id : Text) → get id s'.jobs ≡ (if job.id === id then r else get id s.jobs)))
  unfolding claim
  claim_exclusive queue lease_ms current now s s' r v h = elim (Bool-cases (ltb lease_ms 1)) [
    | inl bad ↦ let e = rw bad at h in cc e
    | inr fine ↦ elim (Option-cases (first_queued queue (sort_by_created (values s.jobs)))) [
      | inl idle ↦
          let e = ok-injective (s, none) (s', r) (rw (fine, idle) at h) in
          inl (ground arith, ground arith)
      | inr (job, e) ↦
          let here = first_queued-get queue s job v e in
          let (_, asked, waiting) =
            first_queued_sound queue (sort_by_created (values s.jobs)) job e in
          let patch = claim_patch {P = P} (current + lease_ms) in
          let after = stamped now patch job in
          let taken =
            ok-injective (record s { jobs = set job.id after s.jobs }, some after) (s', r)
              (rw (fine, e, stamp_known job.id now patch s job here) at h) in
          let result : some after ≡ r =
            ap (λ (x : MemoryQueue P × Option (QueuedJob P)). x.1) taken in
          let jobs : set job.id after s.jobs ≡ s'.jobs =
            ap (λ (x : MemoryQueue P × Option (QueuedJob P)). x.0.jobs) taken in
          inr (
            job,
            here,
            asked,
            waiting,
            sym result,
            λ id. rw (← jobs, ← result) (get-set job.id id after s.jobs),
          )
    ]
  ]

  reusable_known :
      (queue key id : Text) (s : MemoryQueue P) (job : QueuedJob P)
      → get (composite_key queue key) s.by_idempotency_key ≡ some id
      → get id s.jobs ≡ some job
      → is_terminal job.state ≡ false
      → reusable queue (some key) s ≡ some job
  unfolding reusable
  reusable_known queue key id s job e f open_job =
      rw (reusable, e) (rw (reusable, f) (rw (reusable, open_job) refl))

  reusable_added :
      (input : EnqueueInput P) (key : Text) (created updated : ℕ) (s : MemoryQueue P)
      → input.idempotency_key ≡ some key
      → reusable input.queue (some key) (add_job input created updated s).0
        ≡ some (add_job input created updated s).1
  unfolding add_job is_terminal
  reusable_added input key created updated s k =
      let id = job_id (s.sequence + 1) in
      let added = add_job input created updated s in
      reusable_known input.queue key id added.0 added.1
        (rw (k, remember_key)
          (get-set_self (composite_key input.queue key) id s.by_idempotency_key))
        (get-set_self id added.1 s.jobs) refl

  -- A job that is enqueued under a key is returned again, and nothing is added, when the same queue
  -- and key are enqueued next.
  pub enqueue_twice :
      (input again : EnqueueInput P) (key : Text) (created updated later later' : ℕ)
      (s s' : MemoryQueue P) (job : QueuedJob P)
      → input.idempotency_key ≡ some key
      → again.idempotency_key ≡ some key
      → again.queue ≡ input.queue
      → attempts_invalid (get_or again.max_attempts default_max_attempts) ≡ false
      → enqueue input created updated s ≡ ok (s', job)
      → enqueue again later later' s' ≡ ok (s', job)
  unfolding enqueue
  enqueue_twice input again key created updated later later' s s' job k k' q fine h =
      elim (Bool-cases (is_empty input.queue)) [
        | inl bad ↦ let e = rw bad at h in cc e
        | inr named ↦
            elim (Bool-cases (attempts_invalid (get_or input.max_attempts default_max_attempts))) [
              | inl bad ↦ let e = rw (named, bad) at h in cc e
              | inr good ↦
                  let reuse : reusable input.queue (some key) s' ≡ some job =
                    elim (Option-cases (reusable input.queue (some key) s)) [
                      | inl fresh ↦
                          subst Returned
                            (ok-injective (add_job input created updated s) (s', job)
                              (rw (named, good, k, fresh) at h))
                            (reusable_added input key created updated s k)
                      | inr (old, found) ↦
                          subst Returned
                            (ok-injective (s, old) (s', job) (rw (named, good, k, found) at h))
                            found
                    ] in
                  rw (k', q, named, fine, reuse) refl
            ]
      ]
    where
      Returned : MemoryQueue P × QueuedJob P → Type 0
      Returned p = reusable input.queue (some key) p.0 ≡ some p.1
