-- ===== src/MigrationPlan/Prefix.antt =====
-- What an upgrade plan says of the database's history.
use wknowledge.Base.{
  ◌≡◌, refl, sym, ap, true, false, not, ◌||◌, List, [], ◌∷◌, ◌++◌, ok, ltb, ◌==◌, ◌===◌, length,
  map, drop, arith, Bool-cases, Result-cases, inl, inr, ok-injective, ===_sound, All,
}
use wknowledge.MigrationPlan.{
  ExpectedMigration, AppliedMigration, DatabaseUpgradePlan, check_applied, tag_before, status_of,
  plan_database_upgrade, valid_timestamp, is_hash,
}

abbrev pub applied_form : ExpectedMigration → AppliedMigration
applied_form m = record { hash = m.hash; folder_millis = m.folder_millis }

check_step :
    (m : ExpectedMigration) (a : AppliedMigration)
    → (not (valid_timestamp a.folder_millis)
        || not (is_hash a.hash)
        || not (a.folder_millis == m.folder_millis)
        || not (a.hash === m.hash))
      ≡ false
    → (a ≡ applied_form m) × (is_hash a.hash ≡ true)
check_step m a h =
    let times : a.folder_millis ≡ m.folder_millis = ground arith in
    let same : (a.hash === m.hash) ≡ true = ground arith in
    let hashes = ===_sound a.hash m.hash same in
    (λ i. record { hash = hashes i; folder_millis = times i }, ground arith)

check_applied-split :
    (expected : List ExpectedMigration) (applied : List AppliedMigration)
    → check_applied expected applied ≡ ok tt
    → (done : List ExpectedMigration) × (expected ≡ done ++ drop (length applied) expected)
      × (map applied_form done ≡ applied)
      × All (λ a. is_hash a.hash ≡ true) applied
unfolding check_applied
check_applied-split expected [] h = ([], refl, refl, tt)
check_applied-split [] (a ∷ more) h = cc
check_applied-split (m ∷ ms) (a ∷ more) h =
    elim (Bool-cases (
      not (valid_timestamp a.folder_millis)
      || not (is_hash a.hash)
      || not (a.folder_millis == m.folder_millis)
      || not (a.hash === m.hash))) [
        | inl bad ↦ let e = rw bad at h in cc e
        | inr good ↦
            let (done, split, same, hashes) = check_applied-split ms more (rw good at h) in
            let (equal, hash) = check_step m a good in
            (m ∷ done, ap (λ l. m ∷ l) split, λ i. sym equal i ∷ same i, (hash, hashes))
      ]

-- A plan is given only when the migrations that the database has are, one by one and with their times
-- and digests, the first ones of those expected. Its pending tags are then those of the rest in
-- order, its count is the number applied, and its status is `initial` when none is applied, else
-- `pending` when some are pending and `current` when none is.
pub plan_prefix :
    (expected : List ExpectedMigration) (applied : List AppliedMigration)
    (plan : DatabaseUpgradePlan)
    → plan_database_upgrade expected applied ≡ ok plan
    → (done rest : List ExpectedMigration) × (expected ≡ done ++ rest)
      × (map applied_form done ≡ applied)
      × (plan.pending_tags ≡ map (λ m. m.tag) rest)
      × (plan.applied_count ≡ length applied)
      × (plan.status ≡ status_of (length applied) (length rest))
unfolding plan_database_upgrade
plan_prefix expected applied plan h = elim (Bool-cases (ltb (length expected) (length applied))) [
  | inl long ↦ let e = rw long at h in cc e
  | inr short ↦ elim (Result-cases (check_applied expected applied)) [
    | inr (x, bad) ↦ let e = rw (short, bad) at h in cc e
    | inl (u, good) ↦
        let rest = drop (length applied) expected in
        let (done, split, same, _) = check_applied-split expected applied good in
        let e =
          ok-injective
            (record {
              status = status_of (length applied) (length rest);
              applied_count = length applied;
              pending_tags = map (λ m. m.tag) rest;
              last_applied_tag = tag_before expected (length applied);
            })
            plan (rw (short, good) at h) in
        (
          done,
          rest,
          split,
          same,
          ap (λ (p : DatabaseUpgradePlan). p.pending_tags) (sym e),
          ap (λ (p : DatabaseUpgradePlan). p.applied_count) (sym e),
          ap (λ (p : DatabaseUpgradePlan). p.status) (sym e),
        )
  ]
]
