-- ===== src/ProcessingLease/Rows.antt =====
-- What `update_where` does to the row that it names and to the others.
use wknowledge.Base.{
  ◌≡◌, refl, sym, subst, Text, Bool, true, false, some, List, [], ◌∷◌, ◌===◌, Bool-cases, inl, inr,
  arith,
}
use wknowledge.ProcessingLease.{ProcessingJob, find_job, update_where}

module _ (id : Text) (test : ProcessingJob → Bool) (set : ProcessingJob → ProcessingJob) where
  -- A row that fails the test is left, and so is every row with another id.
  pub find-update_failed :
      (k : Text) (jobs : List ProcessingJob) (job : ProcessingJob)
      → ((j : ProcessingJob) → (set j).id ≡ j.id)
      → find_job k jobs ≡ some job
      → test job ≡ false
      → find_job k (update_where id test set jobs).0 ≡ some job
  unfolding find_job update_where
  find-update_failed k [] job same e h = cc
  find-update_failed k (x ∷ xs) job same e h = elim (Bool-cases (x.id === k)) [
    | inr other ↦
        let rest = find-update_failed k xs job same (ground arith) h in
        let still : ((set x).id === k) ≡ false =
          subst (λ i. (i === k) ≡ false) (sym (same x)) other in
        ground arith
    | inl hit ↦ let here : x ≡ job = ground arith in ground arith
  ]

  -- A statement that finds no row that passes changes nothing and says so.
  pub update_where-false :
      (jobs : List ProcessingJob)
      → ((job : ProcessingJob) → find_job id jobs ≡ some job → test job ≡ false)
      → update_where id test set jobs ≡ (jobs, false)
  unfolding find_job update_where
  update_where-false [] h = refl
  update_where-false (x ∷ xs) h = elim (Bool-cases (x.id === id)) [
    | inl hit ↦ rw (hit, h x (rw hit refl)) refl
    | inr other ↦
        let rest = update_where-false xs (λ job e. h job (rw other e)) in rw (other, rest) refl
  ]

  -- One that says it changed a row has set the row with the id, which passed the test.
  pub update_where-true :
      (jobs : List ProcessingJob)
      → ((j : ProcessingJob) → (set j).id ≡ j.id)
      → (update_where id test set jobs).1 ≡ true
      → (job : ProcessingJob) × (find_job id jobs ≡ some job)
        × (test job ≡ true)
        × (find_job id (update_where id test set jobs).0 ≡ some (set job))
  unfolding find_job update_where
  update_where-true [] same h = cc
  update_where-true (x ∷ xs) same h = elim (Bool-cases (x.id === id)) [
    | inl hit ↦
        let passed : test x ≡ true = ground arith in
        (x, rw hit refl, passed, rw (hit, passed) (rw (same x, hit) refl))
    | inr other ↦
        let (job, found, passed, after) = update_where-true xs same (ground arith) in
        (job, rw other found, passed, rw (other) (rw other after))
  ]
