-- ===== src/ProcessingControl/OneActive.antt =====
-- The jobs of a resource version that are queued or processing, over any calls.
use wknowledge.Base.{
  ℕ, suc, ◌≤◌, ◌≡◌, refl, sym, ap, ◌∙◌, subst, Text, Bool, true, false, not, ◌&&◌, Option, none,
  some, List, [], ◌∷◌, ◌++◌, Result, ok, >>=-eq-ok, passed-eq-ok, is_some, any, ok-injective, arith,
  Bool-cases, inl, inr, if◌then◌else◌, ◌===◌, ===_sound,
}
use mathlib.Core.Option.{some-injective}
use wknowledge.ProcessingLease.{JobStatus, ProcessingJob, is_text}
use wknowledge.ProcessingControl.{
  JobRow, VersionRow, Tables, Original, ControlError, found, version_of, find_job, find_version,
  find_resource, update_job, select_original, has_job, is_active, is_open, is_cancelled, is_failed,
  new_job, new_outbox_row, retry_processing_job, cancel_processing_job, cancel_patch, job_not_found,
  job_not_retryable, job_retry_already_active, constraint_failed, job_not_cancellable,
  job_not_resumable, job_resume_already_active, queued, resume_processing_job, resume_patch,
  set_resource,
}

-- A job of the version that is queued or processing
abbrev is_active_of : Text → JobRow → Bool
is_active_of version_id row = is_text row.resource_version_id version_id && is_active row.job.status

abbrev pub count_active : Text → List JobRow → ℕ
count_active version_id [] = 0
count_active version_id (row ∷ rows) =
    let rest = count_active version_id rows in
    if is_active_of version_id row then suc rest else rest

-- Every resource version has at most one such job.
abbrev pub IsOneActive : List JobRow → Type 0
IsOneActive rows = (version_id : Text) → count_active version_id rows ≤ 1

-- A statement that makes no job active leaves no more active jobs of a version.
pub count_active-update_job-le :
    (v id : Text) (guard : ProcessingJob → Bool) (patch : ProcessingJob → ProcessingJob)
    (rows : List JobRow)
    → ((job : ProcessingJob)
        → guard job ≡ true
        → is_active job.status ≡ false
        → is_active (patch job).status ≡ false)
    → count_active v (update_job id guard patch rows) ≤ count_active v rows
unfolding update_job
count_active-update_job-le v id guard patch [] h = omega arith
count_active-update_job-le v id guard patch (row ∷ rows) h =
    ground (arith, count_active-update_job-le v id guard patch rows h, h row.job)

-- Any statement on one row adds at most one active job, of that row's version.
count_active-update_job-suc :
    (v id : Text) (guard : ProcessingJob → Bool) (patch : ProcessingJob → ProcessingJob)
    (rows : List JobRow) (row : JobRow)
    → find_job id rows ≡ some row
    → count_active v (update_job id guard patch rows) ≤ (
        if is_text row.resource_version_id v
        then suc (count_active v rows)
        else count_active v rows)
unfolding update_job find_job
count_active-update_job-suc v id guard patch [] row e = cc
count_active-update_job-suc v id guard patch (first ∷ rows) row e =
    elim (Bool-cases (first.job.id === id)) [
      | inl same ↦
          let p : first ≡ row =
            some-injective first row
              (subst (λ b. (if b then some first else find_job id rows) ≡ some row) same e) in
          subst
            (λ r. count_active v (update_job id guard patch (first ∷ rows)) ≤ (
              if is_text r.resource_version_id v
              then suc (count_active v (first ∷ rows))
              else count_active v (first ∷ rows)))
            p (rw same (ground arith))
      | inr other ↦
          let rest =
            count_active-update_job-suc v id guard patch rows row
              (subst (λ b. (if b then some first else find_job id rows) ≡ some row) other e) in
          rw other (ground (arith, rest))
    ]

count_active-append :
    (v : Text) (rows : List JobRow) (row : JobRow)
    → count_active v (rows ++ row ∷ [])
      ≡ (if is_active_of v row then suc (count_active v rows) else count_active v rows)
count_active-append v [] row = refl
count_active-append v (first ∷ rows) row = ground (arith, count_active-append v rows row)

-- Where no job of the version is in one of the statuses, none is active.
no_job-count_active :
    (v : Text) (in_status : JobStatus → Bool) (rows : List JobRow)
    → ((status : JobStatus) → is_active status ≡ true → in_status status ≡ true)
    → has_job v in_status rows ≡ false
    → count_active v rows ≡ 0
no_job-count_active v in_status [] h e = refl
no_job-count_active v in_status (row ∷ rows) h e =
    ground (arith, no_job-count_active v in_status rows h, h row.job.status, e)

found-ok {ℓ} : {A : Type ℓ} (o : Option A) (a : A) → found o ≡ ok a → o ≡ some a
found-ok none a e = cc
found-ok (some b) a e = ap some (ok-injective b a e)

find_version-id :
    (id : Text) (rows : List VersionRow) (row : VersionRow)
    → find_version id rows ≡ some row
    → row.id ≡ id
unfolding find_version
find_version-id id [] row e = cc
find_version-id id (first ∷ rows) row e =
    ground (arith, find_version-id id rows row, ===_sound first.id id, e)

version_of-id :
    (column : Option Text) (versions : List VersionRow) (version : VersionRow)
    → version_of column versions ≡ some version
    → column ≡ some version.id
unfolding version_of
version_of-id none versions version e = cc
version_of-id (some id) versions version e = ap some (sym (find_version-id id versions version e))

-- What the select of the three calls gives
pub record IsOriginal (job_id : Text) (tables : Tables) (original : Original) : Type 0 where
  pub job_found : find_job job_id tables.jobs ≡ some original.row
  pub of_version : original.row.resource_version_id ≡ some original.version.id
  pub resource_found :
      find_resource original.version.resource_id tables.resources ≡ some original.resource

pub select_original-IsOriginal :
    (job_id space_id : Text) (tables : Tables) (original : Original)
    → select_original job_id space_id tables ≡ ok original
    → IsOriginal job_id tables original
unfolding select_original
select_original-IsOriginal job_id space_id tables original e =
    let (row, row_found, e1) = >>=-eq-ok (found (find_job job_id tables.jobs)) _ e in
    let (in_space, e2) = passed-eq-ok (not (row.space_id === space_id)) job_not_found _ e1 in
    let (version, version_found, e3) =
      >>=-eq-ok (found (version_of row.resource_version_id tables.versions)) _ e2 in
    let (resource, resource_found, e4) =
      >>=-eq-ok (found (find_resource version.resource_id tables.resources)) _ e3 in
    subst (IsOriginal job_id tables) (ok-injective _ _ e4) (record {
      job_found = found-ok _ _ row_found;
      of_version =
          version_of-id row.resource_version_id tables.versions version
            (found-ok _ _ version_found);
      resource_found = found-ok _ _ resource_found;
    })

result_jobs :
    {A : Type 0} (left right : Tables × A)
    → ◌≡◌ {A = Result ControlError (Tables × A)} (ok left) (ok right)
    → left.0.jobs ≡ right.0.jobs
result_jobs left right e = ap (λ t. t.0.jobs) (ok-injective left right e)

module _ (v : Text) (tables : Tables) where
  -- A version of which no job is open is not the version of an active job.
  other_version :
      (original : Original)
      → has_job original.version.id is_open tables.jobs ≡ false
      → original.row.resource_version_id ≡ some original.version.id
      → is_text original.row.resource_version_id v ≡ true
      → count_active v tables.jobs ≡ 0
  other_version original none_open of_version same =
      let of_v : original.version.id ≡ v =
        ===_sound original.version.id v (ap (λ c. is_text c v) (sym of_version) ∙ same) in
      no_job-count_active v is_open tables.jobs (λ status active. ground (arith, active))
        (ap (λ w. has_job w is_open tables.jobs) (sym of_v) ∙ none_open)

  pub retry-le :
      (job_id space_id new_id outbox_id : Text) (now : ℕ) (out : Tables × JobRow)
      → count_active v tables.jobs ≤ 1
      → retry_processing_job job_id space_id new_id outbox_id now tables ≡ ok out
      → count_active v out.0.jobs ≤ 1
  unfolding retry_processing_job
  retry-le job_id space_id new_id outbox_id now out one e =
      let (o, selected, e1) = >>=-eq-ok (select_original job_id space_id tables) _ e in
      let (was_failed, e2) =
        passed-eq-ok (not (is_failed o.row.job.status)) job_not_retryable _ e1 in
      let (none_active, e3) =
        passed-eq-ok (has_job o.version.id is_active tables.jobs) job_retry_already_active _ e2 in
      let (id_new, e4) =
        passed-eq-ok (is_some (find_job new_id tables.jobs)) constraint_failed _ e3 in
      let (row_new, e5) =
        passed-eq-ok (any (λ row. row.processing_job_id === new_id) tables.outbox) constraint_failed
          _ e4 in
      let job = new_job new_id space_id o.version.id o.row.kind now in
      let none_of : count_active o.version.id tables.jobs ≡ 0 =
        no_job-count_active o.version.id is_active tables.jobs (λ status active. active)
          none_active in
      let of_v : (o.version.id === v) ≡ true → count_active v tables.jobs ≡ 0 = λ same.
        ap (λ w. count_active w tables.jobs) (sym (===_sound o.version.id v same)) ∙ none_of in
      subst (λ t. count_active v t.0.jobs ≤ 1)
        {x = (
          record tables {
            jobs = tables.jobs ++ job ∷ [];
            outbox = tables.outbox ++ new_outbox_row outbox_id new_id o.version.id now ∷ [];
            resources = set_resource o.resource.id queued now tables.resources;
          },
          job,
        )}
        (ok-injective _ _ e5) (ground (arith, count_active-append v tables.jobs job, of_v, one))

  pub cancel-le :
      (job_id space_id : Text) (now : ℕ) (out : Tables × Option Text)
      → count_active v tables.jobs ≤ 1
      → cancel_processing_job job_id space_id now tables ≡ ok out
      → count_active v out.0.jobs ≤ 1
  unfolding cancel_processing_job
  cancel-le job_id space_id now out one e =
      let (o, selected, e1) = >>=-eq-ok (select_original job_id space_id tables) _ e in
      let (was_active, e2) =
        passed-eq-ok (not (is_active o.row.job.status)) job_not_cancellable _ e1 in
      let jobs = update_job job_id (λ job. true) (cancel_patch now) tables.jobs in
      let same : jobs ≡ out.0.jobs = result_jobs _ out e2 in
      let fewer =
        count_active-update_job-le v job_id (λ job. true) (cancel_patch now) tables.jobs
          (λ job holds inactive. ground arith) in
      subst (λ rows. count_active v rows ≤ 1) same (omega (arith, fewer, one))

  pub resume-le :
      (job_id space_id outbox_id : Text) (resume : Text → Bool) (now : ℕ) (out : Tables × Bool)
      → count_active v tables.jobs ≤ 1
      → resume_processing_job job_id space_id outbox_id resume now tables ≡ ok out
      → count_active v out.0.jobs ≤ 1
  unfolding resume_processing_job
  resume-le job_id space_id outbox_id resume now out one e =
      let (o, selected, e1) = >>=-eq-ok (select_original job_id space_id tables) _ e in
      let (was_cancelled, e2) =
        passed-eq-ok (not (is_cancelled o.row.job.status)) job_not_resumable _ e1 in
      let (none_open, e3) =
        passed-eq-ok (has_job o.version.id is_open tables.jobs) job_resume_already_active _ e2 in
      let facts = select_original-IsOriginal job_id space_id tables o selected in
      let jobs =
        update_job job_id (λ job. is_cancelled job.status) (resume_patch now) tables.jobs in
      let same : jobs ≡ out.0.jobs = result_jobs _ out e3 in
      let one_more =
        count_active-update_job-suc v job_id (λ job. is_cancelled job.status) (resume_patch now)
          tables.jobs o.row facts.job_found in
      let none_of_v = other_version o none_open facts.of_version in
      subst (λ rows. count_active v rows ≤ 1) same (ground (arith, one_more, none_of_v, one))
