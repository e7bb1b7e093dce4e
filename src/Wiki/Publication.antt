-- ===== src/Wiki/Publication.antt =====
-- `publishWikiDirectory` and `recoverWikiPublicationArtifacts` of packages/wiki/src/index.ts: a wiki is
-- replaced by renaming it to a backup and the staging directory to its place. A directory is its
-- content, of a type of the caller's, and the time of its last modification, which a rename keeps. The
-- staging directory is complete, its manifests written, when the first rename comes.
pub mod Recovery
use wknowledge.Base.{
  ℕ, ◌+◌, Text, Bool, true, false, not, ◌&&◌, Option, none, some, is_some, List, [], ◌∷◌, ◌++◌, ltb,
  if◌then◌else◌, keep, map, ◌===◌,
}

pub record Directory (D : Type 0) : Type 0 where
  pub content : D
  pub modified_at : ℕ

pub data ArtifactKind : Type 0 where
  staging backup : ArtifactKind

-- A directory `.wiki-staging-…` or `.wiki-backup-…` of a space.
pub record Artifact (D : Type 0) : Type 0 where
  pub kind : ArtifactKind
  pub name : Text
  pub directory : Directory D

pub record Space (D : Type 0) : Type 0 where
  pub wiki : Option (Directory D)
  pub artifacts : List (Artifact D)

abbrev pub is_backup : ArtifactKind → Bool
is_backup backup = true
is_backup staging = false

module _ {D : Type 0} where
  abbrev pub without : Text → List (Artifact D) → List (Artifact D)
  without name artifacts = keep (λ a. not (a.name === name)) artifacts

  unfoldable pub find_directory : Text → List (Artifact D) → Option (Directory D)
  find_directory name [] = none
  find_directory name (a ∷ artifacts) =
      if a.name === name then some a.directory else find_directory name artifacts

  -- `rename(wikiRoot, backup)`
  abbrev pub rename_out : Text → Directory D → Space D → Space D
  rename_out backup_name published s = record {
    wiki = none;
    artifacts =
        s.artifacts ++ record { kind = backup; name = backup_name; directory = published } ∷ [];
  }

  -- `rename(staging, wikiRoot)`, where there is no wiki.
  abbrev pub rename_in : Text → Directory D → Space D → Space D
  rename_in staging_name prepared s = record {
    wiki = some prepared;
    artifacts = without staging_name s.artifacts;
  }

  -- `rm(backup)`, and what an `rm` that throws leaves of it.
  abbrev pub remove_artifact : Text → Space D → Space D
  remove_artifact name s = record s { artifacts = without name s.artifacts }

  unfoldable pub leave_directory : Text → Directory D → List (Artifact D) → List (Artifact D)
  leave_directory name rest [] = []
  leave_directory name rest (a ∷ artifacts) =
      (if a.name === name then record a { directory = rest } else a)
      ∷ leave_directory name rest artifacts

  -- `rename(backup, wikiRoot).catch(() => undefined)`: it may fail, and fails where a wiki is there.
  unfoldable pub rename_over : Text → Bool → Option (Directory D) → Space D → Space D
  rename_over backup_name moves_back none s = s
  rename_over backup_name moves_back (some directory) s =
      if moves_back
      then record { wiki = some directory; artifacts = without backup_name s.artifacts }
      else s

  unfoldable pub rename_back : Text → Bool → Space D → Space D
  unfolding rename_over find_directory
  rename_back backup_name moves_back s =
      if is_some s.wiki
      then s
      else rename_over backup_name moves_back (find_directory backup_name s.artifacts) s

  -- A step of the recursive `rm(backup)`, which leaves this of it
  unfoldable pub leave_backup : Text → Directory D → Space D → Space D
  unfolding leave_directory
  leave_backup backup_name rest s = record s {
    artifacts = leave_directory backup_name rest s.artifacts;
  }

  -- The spaces while `rm` removes the backup, before it has removed it: what it leaves after each step.
  unfoldable pub removal_states : Text → List (Directory D) → Space D → List (Space D)
  unfolding leave_backup
  removal_states backup_name [] s = []
  removal_states backup_name (rest ∷ remains) s =
      leave_backup backup_name rest s
      ∷ removal_states backup_name remains (leave_backup backup_name rest s)

  unfoldable pub partly_removed : Text → List (Directory D) → Space D → Space D
  unfolding leave_backup
  partly_removed backup_name [] s = s
  partly_removed backup_name (rest ∷ remains) s =
      partly_removed backup_name remains (leave_backup backup_name rest s)

-- Which of the file system's calls work, and what the removal of the backup leaves step by step.
pub record Outcomes (D : Type 0) : Type 0 where
  pub moves_out : Bool
  pub moves_in : Bool
  pub moves_back : Bool
  pub remains : List (Directory D)
  pub removes : Bool

module _ {D : Type 0} (staging_name backup_name : Text) (outcomes : Outcomes D) where
  -- `rm(backup)`, and the `catch` where it throws
  unfoldable pub remove_backup : Space D → Space D × Bool
  unfolding partly_removed rename_back
  remove_backup s =
      let partial = partly_removed backup_name outcomes.remains s in
      if outcomes.removes
      then (remove_artifact backup_name partial, true)
      else (rename_back backup_name outcomes.moves_back partial, false)

  -- The staging directory that the second rename moves, if it works.
  unfoldable pub moved_in : Space D → Option (Directory D)
  unfolding find_directory
  moved_in s = if outcomes.moves_in then find_directory staging_name s.artifacts else none

  unfoldable pub place : Option (Directory D) → Space D → Space D × Bool
  unfolding remove_backup
  place none moved = (rename_back backup_name outcomes.moves_back moved, false)
  place (some prepared) moved = remove_backup (rename_in staging_name prepared moved)

  unfoldable pub publish_from : Option (Directory D) → Space D → Space D × Bool
  unfolding place moved_in
  publish_from none s = (s, false)
  publish_from (some published) s =
      let moved = rename_out backup_name published s in
      if outcomes.moves_out then place (moved_in moved) moved else (s, false)

  -- `publishWikiDirectory` from the first rename on, and whether it returns
  unfoldable pub publish_wiki_directory : Space D → Space D × Bool
  unfolding publish_from
  publish_wiki_directory s = publish_from s.wiki s

  -- The states that the calls go through from the first rename on, the last of them the one that is left:
  -- a process may stop in each.
  unfoldable pub placing_states : Option (Directory D) → Space D → List (Space D)
  unfolding removal_states remove_backup
  placing_states none moved = rename_back backup_name outcomes.moves_back moved ∷ []
  placing_states (some prepared) moved =
      let placed = rename_in staging_name prepared moved in
      placed ∷ removal_states backup_name outcomes.remains placed ++ (remove_backup placed).0 ∷ []

  unfoldable pub states_from : Option (Directory D) → Space D → List (Space D)
  unfolding placing_states moved_in
  states_from none s = s ∷ []
  states_from (some published) s =
      let moved = rename_out backup_name published s in
      let later = placing_states (moved_in moved) moved in
      if outcomes.moves_out then s ∷ moved ∷ later else s ∷ []

  unfoldable pub publication_states : Space D → List (Space D)
  unfolding states_from
  publication_states s = states_from s.wiki s

module _ {D : Type 0} where
  -- `backups[0]` of the backups sorted by the time of their modification, the latest first.
  unfoldable pub newest : List (Artifact D) → Option (Artifact D)
  newest [] = none
  newest (a ∷ artifacts) = elim (newest artifacts) [
    | none ↦ some a
    | some other ↦
        if ltb a.directory.modified_at other.directory.modified_at then some other else some a
  ]

  abbrev pub backups : List (Artifact D) → List (Artifact D)
  backups artifacts = keep (λ a. is_backup a.kind) artifacts

  -- `now - artifact.modifiedAt < staleAfterMs`
  abbrev pub is_young : (now stale_after_ms : ℕ) → Artifact D → Bool
  is_young now stale_after_ms a = ltb now (a.directory.modified_at + stale_after_ms)

  unfoldable pub restore_backup : Space D → Space D
  restore_backup s = elim s.wiki [
    | some published ↦ s
    | none ↦ elim (newest (backups s.artifacts)) [
      | none ↦ s
      | some a ↦ record { wiki = some a.directory; artifacts = without a.name s.artifacts }
    ]
  ]

  -- The space after recovery, and the names of the removed artifacts.
  unfoldable pub recover_wiki_publication_artifacts :
      (now stale_after_ms : ℕ) → Space D → Space D × List Text
  recover_wiki_publication_artifacts now stale_after_ms s =
      let restored = restore_backup s in
      (
        record restored { artifacts = keep (is_young now stale_after_ms) restored.artifacts },
        map (λ a. a.name) (keep (λ a. not (is_young now stale_after_ms a)) restored.artifacts),
      )
