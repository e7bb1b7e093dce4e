-- ===== src/JobQueue/Memory/Find.antt =====
-- How the in-memory queue finds a job: the sort by creation and the loop of `claim` only ever
-- give a job of the map, and what `stamp` does on one.
use mathlib.Core.List.{Memᴰ}
use mathlib.Core.List.Memᴰ
use wknowledge.Base.{
  ℕ, suc, ◌<◌, ◌≡◌, sym, ◌∙◌, ap, subst, Text, none, some, List, [], ◌∷◌, ◌===◌, ===_sound,
  ===_complete, Bool-cases, inl, inr, get, set, values, arith, All-get, ok, err, leb,
}
use wknowledge.JobQueue.{queued, QueuedJob, is_queued, job_not_found}
use wknowledge.JobQueue.Ids.{job_id, job_id-injective}
use wknowledge.JobQueue.Numbered.{Numbered}
use wknowledge.JobQueue.Memory.{
  MemoryQueue, insert_by_created, sort_by_created, first_queued, stamp, find_job,
}
use wknowledge.JobQueue.Memory.Defs.{IsValidEntry, IsValidQueue}

module _ {P : Type 0} where
  -- What `stamp` writes.
  abbrev pub stamped : ℕ → (QueuedJob P → QueuedJob P) → QueuedJob P → QueuedJob P
  stamped now patch job = record (patch job) { updated_at = now }

  pub stamp_known :
      (id : Text) (now : ℕ) (patch : QueuedJob P → QueuedJob P) (s : MemoryQueue P)
      (job : QueuedJob P)
      → get id s.jobs ≡ some job
      → stamp id now patch s
        ≡ ok (record s { jobs = set id (stamped now patch job) s.jobs }, stamped now patch job)
  unfolding stamp
  stamp_known id now patch s job e = ground arith

  pub find_job_known :
      (id : Text) (s : MemoryQueue P) (job : QueuedJob P)
      → get id s.jobs ≡ some job
      → find_job id s ≡ ok job
  unfolding find_job
  find_job_known id s job e = rw (e, find_job)

  pub find_job_missing :
      (id : Text) (s : MemoryQueue P) → get id s.jobs ≡ none → find_job id s ≡ err job_not_found
  unfolding find_job
  find_job_missing id s e = rw (e, find_job)

  Memᴰ-insert :
      (x job : QueuedJob P) (l : List (QueuedJob P))
      → Memᴰ x (insert_by_created job l)
      → Memᴰ x (job ∷ l)
  unfolding insert_by_created
  Memᴰ-insert x job [] m = m
  Memᴰ-insert x job (other ∷ rest) m = elim (Bool-cases (leb job.created_at other.created_at)) [
    | inl before ↦ rw before at m
    | inr after ↦ elim (Memᴰ.cases_cons (rw after at m)) [
      | inl e ↦ Memᴰ.tail (Memᴰ.head e)
      | inr later ↦ elim (Memᴰ.cases_cons (Memᴰ-insert x job rest later)) [
        | inl e ↦ Memᴰ.head e
        | inr old ↦ Memᴰ.tail (Memᴰ.tail old)
      ]
    ]
  ]

  Memᴰ-sort : (x : QueuedJob P) (l : List (QueuedJob P)) → Memᴰ x (sort_by_created l) → Memᴰ x l
  unfolding sort_by_created
  Memᴰ-sort x [] m = m
  Memᴰ-sort x (job ∷ rest) m = elim (Memᴰ.cases_cons (Memᴰ-insert x job (sort_by_created rest) m)) [
    | inl e ↦ Memᴰ.head e
    | inr later ↦ Memᴰ.tail (Memᴰ-sort x rest later)
  ]

  -- The job that the loop takes is one of the list's, of that queue, and queued.
  pub first_queued_sound :
      (queue : Text) (l : List (QueuedJob P)) (job : QueuedJob P)
      → first_queued queue l ≡ some job
      → Memᴰ job l × (job.queue ≡ queue) × (job.state ≡ queued)
  unfolding first_queued
  first_queued_sound queue [] job e = cc
  first_queued_sound queue (x ∷ rest) job e = elim (Bool-cases (x.queue === queue)) [
    | inl same ↦ elim (Bool-cases (is_queued x.state)) [
      | inl waiting ↦
          let p : x ≡ job = ground arith in
          (
            Memᴰ.head (sym p),
            ap (λ (j : QueuedJob P). j.queue) (sym p) ∙ ===_sound x.queue queue same,
            ground arith,
          )
      | inr not_waiting ↦
          let (m, q, st) = first_queued_sound queue rest job (ground arith) in (Memᴰ.tail m, q, st)
    ]
    | inr other ↦
        let (m, q, st) = first_queued_sound queue rest job (rw other at e) in (Memᴰ.tail m, q, st)
  ]

  Memᴰ-values :
      (x : QueuedJob P) (m : List (Text × QueuedJob P))
      → Memᴰ x (values m)
      → (id : Text) × Memᴰ (id, x) m
  Memᴰ-values x [] h = elim h [ ]
  Memᴰ-values x ((j, v) ∷ m) h = elim (Memᴰ.cases_cons h) [
    | inl e ↦ (j, Memᴰ.head (ap (λ u. (j, u)) e))
    | inr later ↦ let (id, found) = Memᴰ-values x m later in (id, Memᴰ.tail found)
  ]

  Memᴰ-number :
      (n : ℕ) (m : List (Text × QueuedJob P)) (e : Text × QueuedJob P)
      → Numbered n m
      → Memᴰ e m
      → (i : ℕ) × (n < i) × (e.0 ≡ job_id i)
  Memᴰ-number n [] e h found = elim found [ ]
  Memᴰ-number n (d ∷ m) e h found = elim (Memᴰ.cases_cons found) [
    | inl p ↦ (suc n, omega arith, ap (λ (x : Text × QueuedJob P). x.0) p ∙ h.0)
    | inr later ↦
        let (i, above, named) = Memᴰ-number (suc n) m e h.1 later in (i, omega arith, named)
  ]

  -- The map gives each of its entries back under the entry's key.
  get_of_Memᴰ :
      (n : ℕ) (m : List (Text × QueuedJob P)) (k : Text) (x : QueuedJob P)
      → Numbered n m
      → Memᴰ (k, x) m
      → get k m ≡ some x
  unfolding get
  get_of_Memᴰ n [] k x h found = elim found [ ]
  get_of_Memᴰ n ((j, v) ∷ m) k x h found = elim (Memᴰ.cases_cons found) [
    | inl p ↦
        let same : j ≡ k = ap (λ (e : Text × QueuedJob P). e.0) (sym p) in
        let value : v ≡ x = ap (λ (e : Text × QueuedJob P). e.1) (sym p) in
        rw (===_complete j k same) (ap some value)
    | inr later ↦
        let (i, above, named) = Memᴰ-number (suc n) m (k, x) h.1 later in
        elim (Bool-cases (j === k)) [
          | inl same ↦
              absurd
                (omega (arith, job_id-injective (suc n) i (sym h.0 ∙ ===_sound j k same ∙ named)))
          | inr other ↦ rw other (get_of_Memᴰ (suc n) m k x h.1 later)
        ]
  ]

  -- So the job that `claim` takes is found again under its id.
  pub first_queued-get :
      (queue : Text) (s : MemoryQueue P) (job : QueuedJob P)
      → IsValidQueue s
      → first_queued queue (sort_by_created (values s.jobs)) ≡ some job
      → get job.id s.jobs ≡ some job
  first_queued-get queue s job v e =
      let (found, _, _) = first_queued_sound queue (sort_by_created (values s.jobs)) job e in
      let (k, entry) = Memᴰ-values job s.jobs (Memᴰ-sort job (values s.jobs) found) in
      let here = get_of_Memᴰ 0 s.jobs k job v.numbered entry in
      subst (λ id. get id s.jobs ≡ some job) (sym (All-get IsValidEntry k s.jobs v.entries here).0)
        here
