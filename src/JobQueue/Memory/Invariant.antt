-- ===== src/JobQueue/Memory/Invariant.antt =====
-- Every call of the in-memory queue keeps it valid, so it is valid after any history.
use wknowledge.Base.{
  ℕ, ◌+◌, ◌≡◌, refl, ◌∙◌, ap, Text, false, some, List, [], ◌∷◌, ◌++◌, Bool-cases, Option-cases, inl,
  inr, get, set, values, set_new, length-set_known, All-set, All-get, arith, length, length-append,
  All-append, ltb,
}
use mathlib.Core.Option.{get_or}
use wknowledge.JobQueue.{
  QueuedJob, EnqueueInput, is_queued, is_active, is_completed, is_failed, attempts_invalid,
  default_max_attempts,
}
use wknowledge.JobQueue.Ids.{job_id}
use wknowledge.JobQueue.Numbered.{Numbered-append, Numbered-set_known, get-above}
use wknowledge.JobQueue.Memory.{
  MemoryQueue, empty, is_empty, reusable, new_job, add_job, enqueue, first_queued, sort_by_created,
  claim, complete, fail, cancel, claim_patch, complete_patch, fail_patch, cancel_patch,
  recover_expired_leases, Call, enqueues, claims, completes, fails, cancels, recovers, settle,
  settle_unit, step, run,
}
use wknowledge.JobQueue.Memory.Defs.{IsValidEntry, IsValidQueue, IsValidJob}
use wknowledge.JobQueue.Memory.Find.{
  stamped, stamp_known, find_job_known, find_job_missing, first_queued-get, first_queued_sound,
}
use wknowledge.JobQueue.Memory.Patches.{
  stamped-IsValidJob, new_job-IsValidJob, claim_patch-IsValidJob, complete_patch-IsValidJob,
  fail_patch-IsValidJob, cancel_patch-IsValidJob,
}
use wknowledge.JobQueue.Memory.Recovery.{
  recover-eq, recovered_jobs-Numbered, length-recovered_jobs, recovered_jobs-IsValidEntry,
}

module _ {P : Type 0} where
  -- A job of the map is replaced by one that is valid under the same id.
  pub replace-IsValidQueue :
      (s : MemoryQueue P) (id : Text) (job job' : QueuedJob P)
      → IsValidQueue s
      → get id s.jobs ≡ some job
      → job'.id ≡ job.id
      → IsValidJob job'
      → IsValidQueue (record s { jobs = set id job' s.jobs })
  replace-IsValidQueue s id job job' v e same valid = record {
    numbered = Numbered-set_known 0 id job' job s.jobs e v.numbered;
    counted = length-set_known id job' job s.jobs e ∙ v.counted;
    entries =
        All-set IsValidEntry id job' s.jobs
          (same ∙ (All-get IsValidEntry id s.jobs v.entries e).0, valid) v.entries;
  }

  pub job-IsValidJob :
      (s : MemoryQueue P) (id : Text) (job : QueuedJob P)
      → IsValidQueue s
      → get id s.jobs ≡ some job
      → IsValidJob job
  job-IsValidJob s id job v e = (All-get IsValidEntry id s.jobs v.entries e).1

  -- The new job goes to the end of the map.
  pub add_job-jobs :
      (input : EnqueueInput P) (created updated : ℕ) (s : MemoryQueue P)
      → IsValidQueue s
      → (add_job input created updated s).0.jobs
        ≡ s.jobs ++ (job_id (s.sequence + 1), new_job input (s.sequence + 1) created updated) ∷ []
  unfolding add_job new_job
  add_job-jobs input created updated s v =
      set_new (job_id (s.sequence + 1)) _ s.jobs
        (get-above 0 (s.sequence + 1) s.jobs v.numbered (omega (arith, v.counted)))

  pub add_job-sequence :
      (input : EnqueueInput P) (created updated : ℕ) (s : MemoryQueue P)
      → (add_job input created updated s).0.sequence ≡ s.sequence + 1
  unfolding add_job
  add_job-sequence input created updated s = refl

  add_job-IsValidQueue :
      (input : EnqueueInput P) (created updated : ℕ) (s : MemoryQueue P)
      → attempts_invalid (get_or input.max_attempts default_max_attempts) ≡ false
      → IsValidQueue s
      → IsValidQueue (add_job input created updated s).0
  unfolding new_job
  add_job-IsValidQueue input created updated s h v =
      let sequence : ℕ = s.sequence + 1 in
      let e : Text × QueuedJob P = (job_id sequence, new_job input sequence created updated) in
      let jobs = add_job-jobs input created updated s v in
      record {
        numbered =
            rw jobs (Numbered-append 0 s.jobs e v.numbered (ap job_id (omega (arith, v.counted))));
        counted = omega (
          arith,
          ap length jobs,
          length-append s.jobs (e ∷ []),
          v.counted,
          add_job-sequence input created updated s,
        );
        entries = rw jobs (
            All-append IsValidEntry s.jobs (e ∷ []) v.entries
              ((refl, new_job-IsValidJob input sequence created updated h), tt));
      }

  enqueue-IsValidQueue :
      (input : EnqueueInput P) (created updated : ℕ) (s : MemoryQueue P)
      → IsValidQueue s
      → IsValidQueue (settle s (enqueue input created updated s))
  unfolding enqueue
  enqueue-IsValidQueue input created updated s v = elim (Bool-cases (is_empty input.queue)) [
    | inl bad ↦ rw bad v
    | inr named ↦
        elim (Bool-cases (attempts_invalid (get_or input.max_attempts default_max_attempts))) [
          | inl bad ↦ rw (named, bad) v
          | inr fine ↦ elim (Option-cases (reusable input.queue input.idempotency_key s)) [
            | inl fresh ↦
                rw (named, fine, fresh) (add_job-IsValidQueue input created updated s fine v)
            | inr (old, e) ↦ rw (named, fine, e) v
          ]
        ]
  ]

  -- The pattern of `complete`, `fail` and `cancel`: a known job is stamped.
  stamped-IsValidQueue :
      (id : Text) (now : ℕ) (patch : QueuedJob P → QueuedJob P) (s : MemoryQueue P)
      (job : QueuedJob P)
      → IsValidQueue s
      → get id s.jobs ≡ some job
      → (patch job).id ≡ job.id
      → IsValidJob (patch job)
      → IsValidQueue (record s { jobs = set id (stamped now patch job) s.jobs })
  stamped-IsValidQueue id now patch s job v e same valid =
      replace-IsValidQueue s id job (stamped now patch job) v e same
        (stamped-IsValidJob (patch job) now valid)

  claim-IsValidQueue :
      (queue : Text) (lease_ms current now : ℕ) (s : MemoryQueue P)
      → IsValidQueue s
      → IsValidQueue (settle s (claim queue lease_ms current now s))
  unfolding claim
  claim-IsValidQueue queue lease_ms current now s v = elim (Bool-cases (ltb lease_ms 1)) [
    | inl bad ↦ rw bad v
    | inr fine ↦ elim (Option-cases (first_queued queue (sort_by_created (values s.jobs)))) [
      | inl idle ↦ rw (fine, idle) v
      | inr (job, e) ↦
          let here = first_queued-get queue s job v e in
          let (_, _, waiting) = first_queued_sound queue (sort_by_created (values s.jobs)) job e in
          let patch = claim_patch {P = P} (current + lease_ms) in
          rw (fine, e, stamp_known job.id now patch s job here)
            (stamped-IsValidQueue job.id now patch s job v here refl (
              claim_patch-IsValidJob job (current + lease_ms) waiting
                (job-IsValidJob s job.id job v here)))
    ]
  ]

  complete-IsValidQueue :
      (id : Text) (now : ℕ) (s : MemoryQueue P)
      → IsValidQueue s
      → IsValidQueue (settle_unit s (complete id now s))
  unfolding complete
  complete-IsValidQueue id now s v = elim (Option-cases (get id s.jobs)) [
    | inl missing ↦ rw (find_job_missing id s missing) v
    | inr (job, e) ↦ elim (Bool-cases (is_completed job.state)) [
      | inl done ↦ rw (find_job_known id s job e, done) v
      | inr open_job ↦ elim (Bool-cases (is_active job.state)) [
        | inr idle ↦ rw (find_job_known id s job e, open_job, idle) v
        | inl busy ↦
            rw (find_job_known id s job e, open_job, busy)
              (stamped-IsValidQueue id now complete_patch s job v e refl
                (complete_patch-IsValidJob job (ground arith) (job-IsValidJob s id job v e)))
      ]
    ]
  ]

  fail-IsValidQueue :
      (id error : Text) (now : ℕ) (s : MemoryQueue P)
      → IsValidQueue s
      → IsValidQueue (settle_unit s (fail id error now s))
  unfolding fail
  fail-IsValidQueue id error now s v = elim (Option-cases (get id s.jobs)) [
    | inl missing ↦ rw (find_job_missing id s missing) v
    | inr (job, e) ↦ elim (Bool-cases (is_failed job.state)) [
      | inl done ↦ rw (find_job_known id s job e, done) v
      | inr open_job ↦ elim (Bool-cases (is_active job.state)) [
        | inr idle ↦ rw (find_job_known id s job e, open_job, idle) v
        | inl busy ↦
            rw (find_job_known id s job e, open_job, busy)
              (stamped-IsValidQueue id now (fail_patch error) s job v e refl
                (fail_patch-IsValidJob job error (ground arith) (job-IsValidJob s id job v e)))
      ]
    ]
  ]

  cancel-IsValidQueue :
      (id : Text) (now : ℕ) (s : MemoryQueue P)
      → IsValidQueue s
      → IsValidQueue (settle s (cancel id now s))
  unfolding cancel
  cancel-IsValidQueue id now s v = elim (Option-cases (get id s.jobs)) [
    | inl missing ↦ rw (find_job_missing id s missing) v
    | inr (job, e) ↦ elim (Bool-cases (is_queued job.state)) [
      | inr busy ↦ rw (find_job_known id s job e, busy) v
      | inl waiting ↦
          rw (find_job_known id s job e, waiting)
            (stamped-IsValidQueue id now cancel_patch s job v e refl
              (cancel_patch-IsValidJob job (ground arith) (job-IsValidJob s id job v e)))
    ]
  ]

  recover-IsValidQueue :
      (clock : ℕ → ℕ) (recover_at : ℕ) (s : MemoryQueue P)
      → IsValidQueue s
      → IsValidQueue (settle s (recover_expired_leases clock recover_at s))
  recover-IsValidQueue clock recover_at s v = rw (recover-eq clock recover_at s v) (record {
    numbered = recovered_jobs-Numbered clock recover_at 0 0 s.jobs v.numbered;
    counted = length-recovered_jobs clock recover_at 0 s.jobs ∙ v.counted;
    entries = recovered_jobs-IsValidEntry clock recover_at 0 s.jobs v.entries;
  })

  pub step-IsValidQueue :
      (s : MemoryQueue P) (c : Call P) → IsValidQueue s → IsValidQueue (step s c)
  unfolding step
  step-IsValidQueue s (enqueues input created updated) v =
      enqueue-IsValidQueue input created updated s v
  step-IsValidQueue s (claims queue lease_ms current now) v =
      claim-IsValidQueue queue lease_ms current now s v
  step-IsValidQueue s (completes id now) v = complete-IsValidQueue id now s v
  step-IsValidQueue s (fails id error now) v = fail-IsValidQueue id error now s v
  step-IsValidQueue s (cancels id now) v = cancel-IsValidQueue id now s v
  step-IsValidQueue s (recovers clock recover_at) v = recover-IsValidQueue clock recover_at s v

  run-IsValidQueue :
      (cs : List (Call P)) (s : MemoryQueue P) → IsValidQueue s → IsValidQueue (run s cs)
  unfolding run
  run-IsValidQueue [] s v = v
  run-IsValidQueue (c ∷ cs) s v = run-IsValidQueue cs (step s c) (step-IsValidQueue s c v)

  -- After any calls on a new in-memory queue its ids are those of 1 up to `sequence` in order, every
  -- job was given 1 to 20 attempts and has used no more, a queued job has an attempt left and no
  -- lease, an active one has a lease, a failed one has used all its attempts, and no finished job
  -- holds a lease.
  pub run-empty-IsValidQueue : (cs : List (Call P)) → IsValidQueue (run empty cs)
  run-empty-IsValidQueue cs =
      run-IsValidQueue cs empty (record { numbered = tt; counted = refl; entries = tt })
