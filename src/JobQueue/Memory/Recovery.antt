-- ===== src/JobQueue/Memory/Recovery.antt =====
-- What the loop of `recoverExpiredLeases` does to the map, in closed form.
use wknowledge.Base.{
  ℕ, suc, ◌+◌, ◌≡◌, refl, sym, ◌∙◌, ap, subst, Text, true, false, some, none, List, [], ◌∷◌, ◌++◌,
  append_assoc, Bool-cases, inl, inr, get, set, set_middle, get_middle, values, arith, All, ok,
  length, units, if◌then◌else◌,
}
use wknowledge.JobQueue.{QueuedJob}
use wknowledge.JobQueue.Numbered.{Numbered, Numbered-shift, get-front}
use wknowledge.JobQueue.Memory.{
  MemoryQueue, holds_lease, fail_patch, recover_loop, recover_expired_leases,
}
use wknowledge.JobQueue.Memory.Defs.{IsValidEntry, IsValidQueue}
use wknowledge.JobQueue.Memory.Find.{stamped, stamp_known}
use wknowledge.JobQueue.Memory.Patches.{fail_patch-IsValidJob, stamped-IsValidJob, not-holds_lease}

module _ {P : Type 0} (clock : ℕ → ℕ) (recover_at : ℕ) where
  abbrev pub expired_patch : QueuedJob P → QueuedJob P
  expired_patch = fail_patch (units "JOB_LEASE_EXPIRED")

  -- The map afterwards, and how many jobs were recovered.
  unfoldable pub recovered_jobs : ℕ → List (Text × QueuedJob P) → List (Text × QueuedJob P)
  recovered_jobs n [] = []
  recovered_jobs n ((k, job) ∷ m) = elim (holds_lease recover_at job.state job.leased_until) [
    | true ↦ (k, job) ∷ recovered_jobs n m
    | false ↦ (k, stamped (clock n) expired_patch job) ∷ recovered_jobs (n + 1) m
  ]

  unfoldable pub recovered_count : List (Text × QueuedJob P) → ℕ
  recovered_count [] = 0
  recovered_count ((k, job) ∷ m) =
      let rest = recovered_count m in
      if holds_lease recover_at job.state job.leased_until then rest else rest + 1

  -- One round of the loop.
  round_held :
      (job : QueuedJob P) (rest : List (QueuedJob P)) (n : ℕ) (s : MemoryQueue P)
      → holds_lease recover_at job.state job.leased_until ≡ true
      → recover_loop clock recover_at (job ∷ rest) n s ≡ recover_loop clock recover_at rest n s
  unfolding recover_loop
  round_held job rest n s h = rw (h, recover_loop)

  round_expired :
      (job : QueuedJob P) (rest : List (QueuedJob P)) (n : ℕ) (s : MemoryQueue P)
      → holds_lease recover_at job.state job.leased_until ≡ false
      → get job.id s.jobs ≡ some job
      → recover_loop clock recover_at (job ∷ rest) n s
        ≡ recover_loop clock recover_at rest
            (n + 1)
            (record s { jobs = set job.id (stamped (clock n) expired_patch job) s.jobs })
  unfolding recover_loop
  round_expired job rest n s h e =
      rw (h, recover_loop) (rw (stamp_known job.id (clock n) expired_patch s job e) refl)

  recovered_held :
      (k : Text) (job : QueuedJob P) (m : List (Text × QueuedJob P)) (n : ℕ)
      → holds_lease recover_at job.state job.leased_until ≡ true
      → (recovered_jobs n ((k, job) ∷ m) ≡ (k, job) ∷ recovered_jobs n m)
        × (recovered_count ((k, job) ∷ m) ≡ recovered_count m)
  unfolding recovered_jobs recovered_count
  recovered_held k job m n h = (rw (h, recovered_jobs), rw (h, recovered_count))

  recovered_expired :
      (k : Text) (job : QueuedJob P) (m : List (Text × QueuedJob P)) (n : ℕ)
      → holds_lease recover_at job.state job.leased_until ≡ false
      → (recovered_jobs n ((k, job) ∷ m)
          ≡ (k, stamped (clock n) expired_patch job) ∷ recovered_jobs (n + 1) m)
        × (recovered_count ((k, job) ∷ m) ≡ recovered_count m + 1)
  unfolding recovered_jobs recovered_count
  recovered_expired k job m n h = (rw (h, recovered_jobs), rw (h, recovered_count))

  abbrev Recovers :
      MemoryQueue P → List (Text × QueuedJob P) → List (Text × QueuedJob P) → ℕ → Type 0
  Recovers s front back n =
      recover_loop clock recover_at (values back) n (record s { jobs = front ++ back })
      ≡ ok (record s { jobs = front ++ recovered_jobs n back }, n + recovered_count back)

  Recovers-held :
      (s : MemoryQueue P) (front m : List (Text × QueuedJob P)) (k : Text) (job : QueuedJob P)
      (n : ℕ)
      → holds_lease recover_at job.state job.leased_until ≡ true
      → Recovers s (front ++ (k, job) ∷ []) m n
      → Recovers s front ((k, job) ∷ m) n
  Recovers-held s front m k job n h ih =
      let (jobs, count) = recovered_held k job m n h in
      rw (jobs, count, round_held job (values m) n (record s { jobs = front ++ (k, job) ∷ m }) h)
        (rw
          (
            append_assoc front ((k, job) ∷ []) m,
            append_assoc front ((k, job) ∷ []) (recovered_jobs n m),
          )
          at ih)

  Recovers-expired :
      (s : MemoryQueue P) (front m : List (Text × QueuedJob P)) (k : Text) (job : QueuedJob P)
      (n : ℕ)
      → holds_lease recover_at job.state job.leased_until ≡ false
      → get k front ≡ none
      → job.id ≡ k
      → Recovers s (front ++ (k, stamped (clock n) expired_patch job) ∷ []) m (n + 1)
      → Recovers s front ((k, job) ∷ m) n
  Recovers-expired s front m k job n h free named ih =
      let (jobs, count) = recovered_expired k job m n h in
      let after = stamped (clock n) expired_patch job in
      let here : get job.id (front ++ (k, job) ∷ m) ≡ some job =
        subst (λ id. get id (front ++ (k, job) ∷ m) ≡ some job) (sym named)
          (get_middle k job front m free) in
      let written : set job.id after (front ++ (k, job) ∷ m) ≡ front ++ (k, after) ∷ m =
        subst (λ id. set id after (front ++ (k, job) ∷ m) ≡ front ++ (k, after) ∷ m) (sym named)
          (set_middle k after job front m free) in
      let regroup : n + (recovered_count m + 1) ≡ n + 1 + recovered_count m = omega arith in
      rw
        (
          jobs,
          count,
          round_expired job (values m) n (record s { jobs = front ++ (k, job) ∷ m }) h here,
        )
        (rw (written, regroup)
          (rw
            (
              append_assoc front ((k, after) ∷ []) m,
              append_assoc front ((k, after) ∷ []) (recovered_jobs (n + 1) m),
            )
            at ih))

  recover_loop-eq :
      (s : MemoryQueue P) (front back : List (Text × QueuedJob P)) (n : ℕ)
      → Numbered 0 front
      → Numbered (length front) back
      → All IsValidEntry back
      → Recovers s front back n
  unfolding recovered_jobs recovered_count recover_loop
  recover_loop-eq s front [] n f b v =
      ap (λ (k : ℕ). ok (record s { jobs = front ++ [] }, k)) (omega arith)
  recover_loop-eq s front ((k, job) ∷ m) n f b v =
      elim (Bool-cases (holds_lease recover_at job.state job.leased_until)) [
        | inl held ↦
            let (f', b') = Numbered-shift front m (k, job) (k, job) refl f b in
            Recovers-held s front m k job n held
              (recover_loop-eq s (front ++ (k, job) ∷ []) m n f' b' v.1)
        | inr expired ↦
            let after = stamped (clock n) expired_patch job in
            let (f', b') = Numbered-shift front m (k, job) (k, after) refl f b in
            Recovers-expired s front m k job n expired (get-front front m (k, job) f b) v.0.0
              (recover_loop-eq s (front ++ (k, after) ∷ []) m (n + 1) f' b' v.1)
      ]

  -- So the call never throws on a valid queue, and this is what it leaves.
  pub recover-eq :
      (s : MemoryQueue P)
      → IsValidQueue s
      → recover_expired_leases clock recover_at s
        ≡ ok (record s { jobs = recovered_jobs 0 s.jobs }, recovered_count s.jobs)
  unfolding recover_expired_leases
  recover-eq s v =
      recover_loop-eq s [] s.jobs 0 tt v.numbered v.entries
      ∙ ap (λ (k : ℕ). ok (record s { jobs = recovered_jobs 0 s.jobs }, k)) (omega arith)

  pub recovered_jobs-Numbered :
      (i n : ℕ) (m : List (Text × QueuedJob P)) → Numbered i m → Numbered i (recovered_jobs n m)
  unfolding recovered_jobs
  recovered_jobs-Numbered i n [] h = tt
  recovered_jobs-Numbered i n ((k, job) ∷ m) h =
      elim (Bool-cases (holds_lease recover_at job.state job.leased_until)) [
        | inl held ↦ rw (held, recovered_jobs) (h.0, recovered_jobs-Numbered (suc i) n m h.1)
        | inr expired ↦
            rw (expired, recovered_jobs) (h.0, recovered_jobs-Numbered (suc i) (n + 1) m h.1)
      ]

  pub length-recovered_jobs :
      (n : ℕ) (m : List (Text × QueuedJob P)) → length (recovered_jobs n m) ≡ length m
  unfolding recovered_jobs
  length-recovered_jobs n [] = refl
  length-recovered_jobs n ((k, job) ∷ m) =
      elim (Bool-cases (holds_lease recover_at job.state job.leased_until)) [
        | inl held ↦ rw (held, recovered_jobs) (ap suc (length-recovered_jobs n m))
        | inr expired ↦ rw (expired, recovered_jobs) (ap suc (length-recovered_jobs (n + 1) m))
      ]

  pub recovered_jobs-IsValidEntry :
      (n : ℕ) (m : List (Text × QueuedJob P))
      → All IsValidEntry m
      → All IsValidEntry (recovered_jobs n m)
  unfolding recovered_jobs
  recovered_jobs-IsValidEntry n [] h = tt
  recovered_jobs-IsValidEntry n ((k, job) ∷ m) h =
      elim (Bool-cases (holds_lease recover_at job.state job.leased_until)) [
        | inl held ↦ rw (held, recovered_jobs) (h.0, recovered_jobs-IsValidEntry n m h.1)
        | inr expired ↦
            rw (expired, recovered_jobs)
              (
                (
                  h.0.0,
                  stamped-IsValidJob _ (clock n) (
                      fail_patch-IsValidJob job _
                        (not-holds_lease recover_at job.state job.leased_until expired) h.0.1),
                ),
                recovered_jobs-IsValidEntry (n + 1) m h.1,
              )
      ]
