-- ===== src/JobQueue/Memory/Lifecycle.antt =====
-- What happens to one job of the in-memory queue over time: recovery and the terminal states.
use wknowledge.Base.{
  ◌⊎◌, ◌&&◌, ℕ, ◌+◌, ◌≤◌, ◌<◌, ◌≡◌, refl, sym, ◌∙◌, ap, subst, Text, Bool, true, false, Option,
  some, none, List, [], ◌∷◌, Bool-cases, Option-cases, inl, inr, get, set, values, get-set, arith,
  units, ◌===◌, ===_sound, ok, if◌then◌else◌, ltb, leb,
}
use mathlib.Core.Option.{get_or}
use wknowledge.JobQueue.{
  QueuedJob, queued, active, failed, EnqueueInput, is_queued, is_active, is_terminal,
  attempts_invalid, default_max_attempts, after_failure,
}
use wknowledge.JobQueue.Ids.{job_id}
use wknowledge.JobQueue.Numbered.{get-above}
use wknowledge.JobQueue.Memory.{
  MemoryQueue, is_empty, reusable, new_job, add_job, enqueue, first_queued, sort_by_created, claim,
  complete, fail, cancel, claim_patch, complete_patch, fail_patch, cancel_patch,
  recover_expired_leases, Call, holds_lease, enqueues, claims, completes, fails, cancels, recovers,
  settle, settle_unit, step, run,
}
use wknowledge.JobQueue.Memory.Defs.{IsValidQueue}
use wknowledge.JobQueue.Memory.Find.{
  stamped, stamp_known, find_job_known, find_job_missing, first_queued-get, first_queued_sound,
}
use wknowledge.JobQueue.Memory.Invariant.{step-IsValidQueue}
use wknowledge.JobQueue.Memory.Recovery.{recover-eq, recovered_jobs}

-- There is a lease and it does not run past the time.
abbrev pub has_lapsed : ℕ → Option ℕ → Bool
has_lapsed t none = false
has_lapsed t (some until) = leb until t

module _ {P : Type 0} where
  -- The job as the loop of `recoverExpiredLeases` leaves it, when the clock reads `t`.
  abbrev after_recovery : ℕ → ℕ → QueuedJob P → QueuedJob P
  after_recovery recover_at t job =
      if holds_lease recover_at job.state job.leased_until
      then job
      else stamped t (fail_patch (units "JOB_LEASE_EXPIRED")) job

  get-recovered :
      (clock : ℕ → ℕ) (recover_at n : ℕ) (m : List (Text × QueuedJob P)) (id : Text)
      (job : QueuedJob P)
      → get id m ≡ some job
      → (t : ℕ) × (get id (recovered_jobs clock recover_at n m)
          ≡ some (after_recovery recover_at t job))
  unfolding recovered_jobs get
  get-recovered clock recover_at n [] id job e = cc
  get-recovered clock recover_at n ((k, x) ∷ m) id job e = elim (Bool-cases (k === id)) [
    | inl same ↦
        let here : x ≡ job = ground arith in
        elim (Bool-cases (holds_lease recover_at x.state x.leased_until)) [
          | inl held ↦ (0, rw (held, recovered_jobs) (rw same (as_left x job 0 here held)))
          | inr expired ↦ (
            clock n,
            rw (expired, recovered_jobs) (rw same (as_renewed x job (clock n) here expired)),
          )
        ]
    | inr other ↦ elim (Bool-cases (holds_lease recover_at x.state x.leased_until)) [
      | inl held ↦
          let (t, found) = get-recovered clock recover_at n m id job (ground arith) in
          (t, rw (held, recovered_jobs) (rw other found))
      | inr expired ↦
          let (t, found) = get-recovered clock recover_at (n + 1) m id job (ground arith) in
          (t, rw (expired, recovered_jobs) (rw other found))
    ]
  ]
    where
      as_left :
          (x job : QueuedJob P) (t : ℕ)
          → x ≡ job
          → holds_lease recover_at x.state x.leased_until ≡ true
          → some x ≡ some (after_recovery recover_at t job)
      as_left x job t e held =
          subst (λ j. some x ≡ some (after_recovery recover_at t j)) e (rw held refl)

      as_renewed :
          (x job : QueuedJob P) (t : ℕ)
          → x ≡ job
          → holds_lease recover_at x.state x.leased_until ≡ false
          → some (stamped t (fail_patch (units "JOB_LEASE_EXPIRED")) x)
            ≡ some (after_recovery recover_at t job)
      as_renewed x job t e expired =
          subst
            (λ j.
              some (stamped t (fail_patch (units "JOB_LEASE_EXPIRED")) x)
              ≡ some (after_recovery recover_at t j))
            e (rw expired refl)

  -- Recovery never throws on a valid queue. A job that is active and has a lease that does not run
  -- past `recover_at` is then without a lease, with the error JOB_LEASE_EXPIRED, and queued again if it
  -- has an attempt left, else failed; every other job is unchanged.
  pub recover_releases :
      (clock : ℕ → ℕ) (recover_at : ℕ) (s : MemoryQueue P) (id : Text) (job : QueuedJob P)
      → IsValidQueue s
      → get id s.jobs ≡ some job
      → (s' : MemoryQueue P) × (n : ℕ) × (job' : QueuedJob P) × (recover_expired_leases clock
            recover_at s
          ≡ ok (s', n))
        × (get id s'.jobs ≡ some job')
        × ((((is_active job.state && has_lapsed recover_at job.leased_until) ≡ false)
              × (job' ≡ job))
            ⊎ (((is_active job.state && has_lapsed recover_at job.leased_until) ≡ true)
                × (job'.leased_until ≡ none)
                × (job'.last_error ≡ some (units "JOB_LEASE_EXPIRED"))
                × (((job.attempts < job.max_attempts) × (job'.state ≡ queued))
                    ⊎ ((job.max_attempts ≤ job.attempts) × (job'.state ≡ failed)))))
  unfolding holds_lease after_failure
  recover_releases clock recover_at s id job v e =
      let (t, found) = get-recovered clock recover_at 0 s.jobs id job e in
      (
        record s { jobs = recovered_jobs clock recover_at 0 s.jobs },
        _,
        after_recovery recover_at t job,
        recover-eq clock recover_at s v,
        found,
        outcome t,
      )
    where
      outcome :
          (t : ℕ)
          → (((is_active job.state && has_lapsed recover_at job.leased_until) ≡ false)
              × (after_recovery recover_at t job ≡ job))
            ⊎ (((is_active job.state && has_lapsed recover_at job.leased_until) ≡ true)
                × ((after_recovery recover_at t job).leased_until ≡ none)
                × ((after_recovery recover_at t job).last_error ≡ some (units "JOB_LEASE_EXPIRED"))
                × (((job.attempts < job.max_attempts)
                      × ((after_recovery recover_at t job).state ≡ queued))
                    ⊎ ((job.max_attempts ≤ job.attempts)
                        × ((after_recovery recover_at t job).state ≡ failed))))
      outcome t =
          elim (Bool-cases (is_active job.state && has_lapsed recover_at job.leased_until)) [
            | inr going ↦ inl (going, ground arith)
            | inl over ↦ inr (
              over,
              ground arith,
              ground arith,
              elim (Bool-cases (ltb job.attempts job.max_attempts)) [
                | inl left ↦ inl (ground arith, ground arith)
                | inr used ↦ inr (ground arith, ground arith)
              ],
            )
          ]

  -- A terminal job is not the one that a call stamps.
  terminal_kept :
      (s : MemoryQueue P) (id id' : Text) (job other other' : QueuedJob P)
      → get id s.jobs ≡ some job
      → get id' s.jobs ≡ some other
      → is_terminal job.state ≡ true
      → is_terminal other.state ≡ false
      → get id (set id' other' s.jobs) ≡ some job
  terminal_kept s id id' job other other' e e' over going = elim (Bool-cases (id' === id)) [
    | inr apart ↦ rw (get-set id' id other' s.jobs, apart) e
    | inl same ↦
        let one : other ≡ job =
          ground (arith, subst (λ i. get i s.jobs ≡ some other) (===_sound id' id same) e') in
        let clash : true ≡ false = sym over ∙ subst (λ j. is_terminal j.state ≡ false) one going in
        cc clash
  ]

  module _ (s : MemoryQueue P) (id : Text) (job : QueuedJob P) (v : IsValidQueue s)
      (e : get id s.jobs ≡ some job) (over : is_terminal job.state ≡ true) where
    add_job-keeps :
        (input : EnqueueInput P) (created updated : ℕ)
        → get id (add_job input created updated s).0.jobs ≡ some job
    unfolding add_job new_job
    add_job-keeps input created updated = elim (Bool-cases (job_id (s.sequence + 1) === id)) [
      | inr apart ↦ rw (get-set (job_id (s.sequence + 1)) id, apart) e
      | inl same ↦
          let free = get-above 0 (s.sequence + 1) s.jobs v.numbered (omega (arith, v.counted)) in
          let clash =
            subst (λ i. get i s.jobs ≡ none) (===_sound (job_id (s.sequence + 1)) id same) free in
          cc (sym clash ∙ e)
    ]

    enqueue-keeps :
        (input : EnqueueInput P) (created updated : ℕ)
        → get id (settle s (enqueue input created updated s)).jobs ≡ some job
    unfolding enqueue
    enqueue-keeps input created updated = elim (Bool-cases (is_empty input.queue)) [
      | inl bad ↦ rw bad e
      | inr named ↦
          elim (Bool-cases (attempts_invalid (get_or input.max_attempts default_max_attempts))) [
            | inl bad ↦ rw (named, bad) e
            | inr fine ↦ elim (Option-cases (reusable input.queue input.idempotency_key s)) [
              | inl fresh ↦ rw (named, fine, fresh) (add_job-keeps input created updated)
              | inr (old, found) ↦ rw (named, fine, found) e
            ]
          ]
    ]

    claim-keeps :
        (queue : Text) (lease_ms current now : ℕ)
        → get id (settle s (claim queue lease_ms current now s)).jobs ≡ some job
    unfolding claim is_terminal
    claim-keeps queue lease_ms current now = elim (Bool-cases (ltb lease_ms 1)) [
      | inl bad ↦ rw bad e
      | inr fine ↦ elim (Option-cases (first_queued queue (sort_by_created (values s.jobs)))) [
        | inl idle ↦ rw (fine, idle) e
        | inr (other, found) ↦
            let here = first_queued-get queue s other v found in
            let waiting =
              (first_queued_sound queue (sort_by_created (values s.jobs)) other found).2 in
            let patch = claim_patch {P = P} (current + lease_ms) in
            rw (fine, found, stamp_known other.id now patch s other here)
              (terminal_kept s id other.id job other (stamped now patch other) e here over
                (rw waiting refl))
      ]
    ]

    complete-keeps :
        (id' : Text) (now : ℕ) → get id (settle_unit s (complete id' now s)).jobs ≡ some job
    unfolding complete is_terminal
    complete-keeps id' now = elim (Option-cases (get id' s.jobs)) [
      | inl missing ↦ rw (find_job_missing id' s missing) e
      | inr (other, e') ↦ elim (Bool-cases (is_active other.state)) [
        | inr idle ↦ ground (arith, find_job_known id' s other e')
        | inl busy ↦
            let going : other.state ≡ active = ground arith in
            rw (find_job_known id' s other e', going)
              (terminal_kept s id id' job other (stamped now complete_patch other) e e' over
                (rw going refl))
      ]
    ]

    fail-keeps :
        (id' error : Text) (now : ℕ) → get id (settle_unit s (fail id' error now s)).jobs ≡ some job
    unfolding fail is_terminal
    fail-keeps id' error now = elim (Option-cases (get id' s.jobs)) [
      | inl missing ↦ rw (find_job_missing id' s missing) e
      | inr (other, e') ↦ elim (Bool-cases (is_active other.state)) [
        | inr idle ↦ ground (arith, find_job_known id' s other e')
        | inl busy ↦
            let going : other.state ≡ active = ground arith in
            rw (find_job_known id' s other e', going)
              (terminal_kept s id id' job other (stamped now (fail_patch error) other) e e' over
                (rw going refl))
      ]
    ]

    cancel-keeps : (id' : Text) (now : ℕ) → get id (settle s (cancel id' now s)).jobs ≡ some job
    unfolding cancel is_terminal
    cancel-keeps id' now = elim (Option-cases (get id' s.jobs)) [
      | inl missing ↦ rw (find_job_missing id' s missing) e
      | inr (other, e') ↦ elim (Bool-cases (is_queued other.state)) [
        | inr busy ↦ rw (find_job_known id' s other e', busy) e
        | inl waiting ↦
            let going : other.state ≡ queued = ground arith in
            rw (find_job_known id' s other e', going)
              (terminal_kept s id id' job other (stamped now cancel_patch other) e e' over
                (rw going refl))
      ]
    ]

    recover-keeps :
        (clock : ℕ → ℕ) (recover_at : ℕ)
        → get id (settle s (recover_expired_leases clock recover_at s)).jobs ≡ some job
    unfolding holds_lease is_terminal
    recover-keeps clock recover_at =
        let (t, found) = get-recovered clock recover_at 0 s.jobs id job e in
        let same : after_recovery recover_at t job ≡ job = ground arith in
        rw (recover-eq clock recover_at s v) (found ∙ ap some same)

    pub step-keeps_terminal : (c : Call P) → get id (step s c).jobs ≡ some job
    unfolding step
    step-keeps_terminal (enqueues input created updated) = enqueue-keeps input created updated
    step-keeps_terminal (claims queue lease_ms current now) = claim-keeps queue lease_ms current now
    step-keeps_terminal (completes id' now) = complete-keeps id' now
    step-keeps_terminal (fails id' error now) = fail-keeps id' error now
    step-keeps_terminal (cancels id' now) = cancel-keeps id' now
    step-keeps_terminal (recovers clock recover_at) = recover-keeps clock recover_at

  -- A completed, failed or cancelled job of a valid queue stays as it is, whatever is called on the
  -- queue afterwards.
  pub run-keeps_terminal :
      (cs : List (Call P)) (s : MemoryQueue P) (id : Text) (job : QueuedJob P)
      → IsValidQueue s
      → get id s.jobs ≡ some job
      → is_terminal job.state ≡ true
      → get id (run s cs).jobs ≡ some job
  unfolding run
  run-keeps_terminal [] s id job v e over = e
  run-keeps_terminal (c ∷ cs) s id job v e over =
      run-keeps_terminal cs (step s c) id job (step-IsValidQueue s c v)
        (step-keeps_terminal s id job v e over c) over
