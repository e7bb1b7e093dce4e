-- ===== src/MigrationPlan.antt =====
-- packages/database/src/migration-plan.ts: `planDatabaseUpgrade` with its checks. `tag` is kept as
-- text, a time is a natural number, a digest is text.
pub mod Prefix
use wknowledge.Base.{
  ℕ, zero, suc, Text, Bool, true, false, not, ◌||◌, ◌&&◌, Option, none, some, List, [], ◌∷◌, Result,
  ok, err, ltb, leb, ◌==◌, ◌===◌, ◌^◌, if◌then◌else◌, length, all, any, map, drop, is_digit, ◌>>=◌,
  ◌>>◌,
}

pub record ExpectedMigration : Type 0 where
  pub tag : Text
  pub folder_millis : ℕ
  pub hash : Text

pub record AppliedMigration : Type 0 where
  pub hash : Text
  pub folder_millis : ℕ

pub data UpgradeStatus : Type 0 where
  initial pending current : UpgradeStatus

pub record DatabaseUpgradePlan : Type 0 where
  pub status : UpgradeStatus
  pub applied_count : ℕ
  pub pending_tags : List Text
  pub last_applied_tag : Option Text

pub data UpgradeError : Type 0 where
  upgrade_database_migration_diverged : UpgradeError

-- `Number.isSafeInteger(value) && value > 0`
unfoldable pub valid_timestamp : ℕ → Bool
valid_timestamp value = ltb value (2 ^ 53) && ltb 0 value

-- `/^[a-f0-9]{64}$/`
unfoldable pub is_hash : Text → Bool
is_hash hash = length hash == 64 && all (λ c. is_digit c || (leb 97 c && leb c 102)) hash

-- The loop over the applied migrations.
unfoldable pub check_applied :
    List ExpectedMigration → List AppliedMigration → Result UpgradeError (Unit {0})
check_applied expected [] = ok tt
check_applied [] (applied ∷ records) = err upgrade_database_migration_diverged
check_applied (migration ∷ migrations) (applied ∷ records) =
    let rest = check_applied migrations records in
    if not (valid_timestamp applied.folder_millis)
      || not (is_hash applied.hash)
      || not (applied.folder_millis == migration.folder_millis)
      || not (applied.hash === migration.hash)
    then err upgrade_database_migration_diverged
    else rest

-- `expected[count - 1]!.tag`
unfoldable pub tag_before : List ExpectedMigration → ℕ → Option Text
tag_before [] n = none
tag_before (m ∷ ms) zero = none
tag_before (m ∷ ms) (suc zero) = some m.tag
tag_before (m ∷ ms) (suc (suc n)) = tag_before ms (suc n)

abbrev pub status_of : ℕ → ℕ → UpgradeStatus
status_of applied pending_count =
    if applied == 0 then initial else if ltb 0 pending_count then pending else current

unfoldable pub plan_database_upgrade :
    List ExpectedMigration → List AppliedMigration → Result UpgradeError DatabaseUpgradePlan
plan_database_upgrade expected applied =
    if ltb (length expected) (length applied)
    then err upgrade_database_migration_diverged
    else elim (check_applied expected applied) [
      | err e ↦ err e
      | ok _ ↦
          let rest = drop (length applied) expected in
          ok (record {
            status = status_of (length applied) (length rest);
            applied_count = length applied;
            pending_tags = map (λ m. m.tag) rest;
            last_applied_tag = tag_before expected (length applied);
          })
    ]

-- The checks of `readExpectedMigrations` on the migrations that it has read.
unfoldable pub has_repeated_tag : List ExpectedMigration → Bool
has_repeated_tag [] = false
has_repeated_tag (m ∷ ms) = any (λ other. other.tag === m.tag) ms || has_repeated_tag ms

unfoldable pub has_repeated_time : List ExpectedMigration → Bool
has_repeated_time [] = false
has_repeated_time (m ∷ ms) =
    any (λ other. other.folder_millis == m.folder_millis) ms || has_repeated_time ms

unfoldable pub goes_back : List ExpectedMigration → Bool
goes_back [] = false
goes_back (m ∷ []) = false
goes_back (m ∷ n ∷ ms) = leb n.folder_millis m.folder_millis || goes_back (n ∷ ms)

unfoldable pub source_invalid : List ExpectedMigration → Bool
source_invalid migrations =
    has_repeated_tag migrations || has_repeated_time migrations || goes_back migrations
