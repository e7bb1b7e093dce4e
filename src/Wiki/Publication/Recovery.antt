-- ===== src/Wiki/Publication/Recovery.antt =====
-- What recovery leaves of a publication that stopped.
use wknowledge.Base.{
  ℕ, ◌<◌, ◌≡◌, ◌⊎◌, inl, inr, refl, Text, true, false, Option, some, List, [], ◌∷◌, ◌++◌, ltb, All,
  Bool-cases, arith,
}
use wknowledge.Base.{if_both, sym, subst, ap, ◌∙◌, is_some, All-append, none, Bool, ◌===◌, ===_refl}
use wknowledge.Wiki.Publication.{
  Outcomes, rename_in, rename_over, leave_backup, removal_states, partly_removed, remove_backup,
  moved_in, place, publish_from, placing_states, states_from, rename_back, publish_wiki_directory,
  Directory, Artifact, Space, backup, is_backup, find_directory, rename_out, publication_states,
  newest, backups, restore_backup, recover_wiki_publication_artifacts,
}

module _ {D : Type 0} where
  abbrev pub recovered : (now stale_after_ms : ℕ) → Space D → Space D
  recovered now stale_after_ms s = (recover_wiki_publication_artifacts now stale_after_ms s).0

  -- A backup among these is older than the time.
  abbrev pub IsOlder : ℕ → Artifact D → Type 0
  IsOlder time a = (is_backup a.kind ≡ false) ⊎ (a.directory.modified_at < time)

  newest_last :
      (b : Artifact D) (artifacts : List (Artifact D))
      → is_backup b.kind ≡ true
      → All (IsOlder b.directory.modified_at) artifacts
      → newest (backups (artifacts ++ b ∷ [])) ≡ some b
  unfolding newest
  newest_last b [] k h = rw k refl
  newest_last b (a ∷ artifacts) k h = elim (Bool-cases (is_backup a.kind)) [
    | inr other ↦ rw other (newest_last b artifacts k h.1)
    | inl same ↦
        let later : ltb a.directory.modified_at b.directory.modified_at ≡ true = earlier h.0 same in
        rw (same, newest, newest_last b artifacts k h.1) (rw later refl)
  ]
    where
      earlier :
          IsOlder b.directory.modified_at a
          → is_backup a.kind ≡ true
          → ltb a.directory.modified_at b.directory.modified_at ≡ true
      earlier (inl no_backup) same = cc (no_backup, same)
      earlier (inr less) same = ground arith

  recovered_published :
      (now stale_after_ms : ℕ) (s : Space D) (published : Directory D)
      → s.wiki ≡ some published
      → (recovered now stale_after_ms s).wiki ≡ some published
  unfolding recover_wiki_publication_artifacts restore_backup
  recovered_published now stale_after_ms s published e = rw (restore_backup, e) e

  recovered_moved :
      (now stale_after_ms : ℕ) (s : Space D) (backup_name : Text) (published : Directory D)
      → All (IsOlder published.modified_at) s.artifacts
      → (recovered now stale_after_ms (rename_out backup_name published s)).wiki ≡ some published
  unfolding recover_wiki_publication_artifacts restore_backup
  recovered_moved now stale_after_ms s backup_name published h =
      rw
        (
          restore_backup,
          newest_last (record { kind = backup; name = backup_name; directory = published })
              s.artifacts refl h,
        )
        refl

  find_directory-append :
      (name : Text) (artifacts : List (Artifact D)) (last : Artifact D)
      → find_directory name artifacts ≡ none
      → (last.name === name) ≡ true
      → find_directory name (artifacts ++ last ∷ []) ≡ some last.directory
  unfolding find_directory
  find_directory-append name [] last h e = rw e refl
  find_directory-append name (a ∷ artifacts) last h e =
      ground (arith, find_directory-append name artifacts last)

  -- The published wiki is one of the two.
  abbrev pub IsEither : Directory D → Option (Directory D) → Option (Directory D) → Type 0
  IsEither published prepared wiki = (wiki ≡ some published) ⊎ (wiki ≡ prepared)

  rename_back-moved :
      (backup_name : Text) (moves_back : Bool) (s : Space D) (published : Directory D)
      → find_directory backup_name s.artifacts ≡ none
      → let moved = rename_out backup_name published s in
        ((rename_back backup_name moves_back moved).wiki ≡ some published)
        ⊎ ((moves_back ≡ false) × (rename_back backup_name moves_back moved ≡ moved))
  unfolding rename_back rename_over
  rename_back-moved backup_name moves_back s published new =
      let found =
        find_directory-append backup_name s.artifacts
          (record { kind = backup; name = backup_name; directory = published }) new
          (===_refl backup_name) in
      elim (Bool-cases moves_back) [
        | inl works ↦ inl (rw (found, works) refl)
        | inr fails ↦ inr (fails, rw (found, fails) refl)
      ]

  partly_removed-wiki :
      (backup_name : Text) (remains : List (Directory D)) (s : Space D)
      → (partly_removed backup_name remains s).wiki ≡ s.wiki
  unfolding partly_removed leave_backup
  partly_removed-wiki backup_name [] s = refl
  partly_removed-wiki backup_name (rest ∷ remains) s =
      partly_removed-wiki backup_name remains (leave_backup backup_name rest s)

  rename_back-wiki :
      (backup_name : Text) (moves_back : Bool) (s : Space D) (prepared : Directory D)
      → s.wiki ≡ some prepared
      → (rename_back backup_name moves_back s).wiki ≡ some prepared
  unfolding rename_back
  rename_back-wiki backup_name moves_back s prepared e =
      let there : is_some s.wiki ≡ true = ap is_some e in rw there e

  module _ (staging_name backup_name : Text) (outcomes : Outcomes D) where
    remove_backup-wiki :
        (s : Space D) (prepared : Directory D)
        → s.wiki ≡ some prepared
        → (remove_backup staging_name backup_name outcomes s).0.wiki ≡ some prepared
    unfolding remove_backup
    remove_backup-wiki s prepared e =
        let partial = partly_removed-wiki backup_name outcomes.remains s ∙ e in
        elim (Bool-cases outcomes.removes) [
          | inl works ↦ rw works partial
          | inr fails ↦ rw fails (
              rename_back-wiki backup_name outcomes.moves_back
                (partly_removed backup_name outcomes.remains s) prepared partial)
        ]

    -- What a publication that has moved the wiki out leaves: a published wiki, or, where it could
    -- move neither the prepared wiki in nor the backup back, the backup alone.
    abbrev pub IsLeft : (published prepared : Directory D) → Space D × Bool → Type 0
    IsLeft published prepared out =
        ((out.0.wiki ≡ some published) × (out.1 ≡ false))
        ⊎ ((out.0.wiki ≡ some prepared)
            ⊎ ((out.0.wiki ≡ none)
                × (out.1 ≡ false)
                × (outcomes.moves_in ≡ false)
                × (outcomes.moves_back ≡ false)
                × (find_directory backup_name out.0.artifacts ≡ some published)))

    place-IsLeft :
        (found : Option (Directory D)) (s : Space D) (published prepared : Directory D)
        → (((found ≡ none) × (outcomes.moves_in ≡ false)) ⊎ (found ≡ some prepared))
        → find_directory backup_name s.artifacts ≡ none
        → IsLeft published prepared
            (place staging_name backup_name outcomes found (rename_out backup_name published s))
    unfolding place
    place-IsLeft none s published prepared (inr absent) new = cc absent
    place-IsLeft none s published prepared (inl (absent, fails)) new =
        let kept =
          find_directory-append backup_name s.artifacts
            (record { kind = backup; name = backup_name; directory = published }) new
            (===_refl backup_name) in
        elim (rename_back-moved backup_name outcomes.moves_back s published new) [
          | inl back ↦ inl (back, refl)
          | inr (stuck, same) ↦ inr (
              inr (
                ap (λ t. t.wiki) same,
                refl,
                fails,
                stuck,
                ap (λ t. find_directory backup_name t.artifacts) same ∙ kept,
              ))
        ]
    place-IsLeft (some other) s published prepared (inl (absent, fails)) new = cc absent
    place-IsLeft (some other) s published prepared (inr p) new = inr (
        inl (
          remove_backup-wiki (rename_in staging_name other (rename_out backup_name published s))
            prepared p))

    moved_in-cases :
        (s : Space D) (prepared : Directory D)
        → find_directory staging_name s.artifacts ≡ some prepared
        → ((moved_in staging_name backup_name outcomes s ≡ none) × (outcomes.moves_in ≡ false))
          ⊎ (moved_in staging_name backup_name outcomes s ≡ some prepared)
    unfolding moved_in
    moved_in-cases s prepared f = elim (Bool-cases outcomes.moves_in) [
      | inl works ↦ inr (rw works f)
      | inr fails ↦ inl (rw fails refl, fails)
    ]

    -- A publication of a space with a wiki and the staging directory, under a new backup name, leaves the
    -- prepared wiki, or throws and leaves the one before, or throws and leaves no wiki. The last only where
    -- neither the rename of the staging directory nor the one back works, and then the backup is the
    -- published wiki, whole.
    pub publication_leaves_wiki :
        (s : Space D) (published prepared : Directory D)
        → s.wiki ≡ some published
        → find_directory backup_name s.artifacts ≡ none
        → find_directory staging_name (rename_out backup_name published s).artifacts ≡ some prepared
        → IsLeft published prepared (publish_wiki_directory staging_name backup_name outcomes s)
    unfolding publish_wiki_directory publish_from
    publication_leaves_wiki s published prepared e new f =
        let moved = rename_out backup_name published s in
        let found = moved_in staging_name backup_name outcomes moved in
        subst
          (λ wiki.
            IsLeft published prepared (publish_from staging_name backup_name outcomes wiki s))
          (sym e)
          (if_both (IsLeft published prepared) outcomes.moves_out
            (place staging_name backup_name outcomes found moved) (s, false)
            (place-IsLeft found s published prepared (moved_in-cases moved prepared f) new)
            (inl (e, refl)))

    module _ (now stale_after_ms : ℕ) (published prepared : Directory D) where
      -- Recovery of this space leaves one of the two wikis.
      abbrev IsSaved : Space D → Type 0
      IsSaved stopped =
          IsEither published (some prepared) (recovered now stale_after_ms stopped).wiki

      removal_states-IsSaved :
          (remains : List (Directory D)) (s : Space D)
          → s.wiki ≡ some prepared
          → All IsSaved (removal_states backup_name remains s)
      unfolding removal_states leave_backup
      removal_states-IsSaved [] s e = tt
      removal_states-IsSaved (rest ∷ remains) s e =
          let next = leave_backup backup_name rest s in
          (
            inr (recovered_published now stale_after_ms next prepared e),
            removal_states-IsSaved remains next e,
          )

      moved_back-IsSaved :
          (s : Space D)
          → find_directory backup_name s.artifacts ≡ none
          → All (IsOlder published.modified_at) s.artifacts
          → IsSaved
              (rename_back backup_name outcomes.moves_back (rename_out backup_name published s))
      moved_back-IsSaved s new h =
          elim (rename_back-moved backup_name outcomes.moves_back s published new) [
            | inl back ↦ inl (recovered_published now stale_after_ms _ published back)
            | inr (stuck, same) ↦ inl (
                subst (λ t. (recovered now stale_after_ms t).wiki ≡ some published) (sym same)
                  (recovered_moved now stale_after_ms s backup_name published h))
          ]

      absent_or :
          {found : Option (Directory D)}
          → (((found ≡ none) × (outcomes.moves_in ≡ false)) ⊎ (found ≡ some prepared))
          → (found ≡ none) ⊎ (found ≡ some prepared)
      absent_or (inl (absent, fails)) = inl absent
      absent_or (inr present) = inr present

      placing_states-IsSaved :
          (found : Option (Directory D)) (s : Space D)
          → ((found ≡ none) ⊎ (found ≡ some prepared))
          → find_directory backup_name s.artifacts ≡ none
          → All (IsOlder published.modified_at) s.artifacts
          → All IsSaved (
              placing_states staging_name backup_name outcomes found
                (rename_out backup_name published s))
      unfolding placing_states
      placing_states-IsSaved none s which new h = (moved_back-IsSaved s new h, tt)
      placing_states-IsSaved (some other) s (inl none_found) new h = cc none_found
      placing_states-IsSaved (some other) s (inr p) new h =
          let placed = rename_in staging_name other (rename_out backup_name published s) in
          let e : placed.wiki ≡ some prepared = p in
          (
            inr (recovered_published now stale_after_ms placed prepared e),
            All-append IsSaved (removal_states backup_name outcomes.remains placed)
                ((remove_backup staging_name backup_name outcomes placed).0 ∷ [])
                (removal_states-IsSaved outcomes.remains placed e)
                (
                  inr (
                      recovered_published now stale_after_ms _ prepared
                        (remove_backup-wiki placed prepared e)),
                  tt,
                ),
          )

      -- In every state of the space between and after the calls of a publication, and after each step of the
      -- removal of its backup, whichever of the calls work, recovery leaves a published wiki: the one before
      -- or the prepared one, whole. The backups that other publications have left must be older than the
      -- wiki, and the backup's name new.
      pub recovered-IsEither :
          (s : Space D)
          → s.wiki ≡ some published
          → find_directory backup_name s.artifacts ≡ none
          → find_directory staging_name (rename_out backup_name published s).artifacts
            ≡ some prepared
          → All (IsOlder published.modified_at) s.artifacts
          → All
              (λ stopped.
                IsEither published (some prepared) (recovered now stale_after_ms stopped).wiki)
              (publication_states staging_name backup_name outcomes s)
      unfolding publication_states states_from moved_in
      recovered-IsEither s e new f h =
          let moved = rename_out backup_name published s in
          let started : IsSaved s = inl (recovered_published now stale_after_ms s published e) in
          let out : IsSaved moved =
            inl (recovered_moved now stale_after_ms s backup_name published h) in
          let which = absent_or (moved_in-cases moved prepared f) in
          let later =
            placing_states-IsSaved (moved_in staging_name backup_name outcomes moved) s which new
              h in
          subst (λ wiki. All IsSaved (states_from staging_name backup_name outcomes wiki s)) (sym e)
            (elim (Bool-cases outcomes.moves_out) [
              | inl leaves ↦ rw leaves (started, (out, later))
              | inr stays ↦ rw stays (started, tt)
            ])

  -- A backup that is left over and was modified after the published wiki, as one is that a removal has
  -- emptied in part, is what recovery restores when a publication stops between its two renames: not
  -- the wiki that was published.
  pub leftover_backup_restored :
      (backup_name : Text) (now stale_after_ms : ℕ) (published : Directory D)
      (leftover prepared : Artifact D)
      → is_backup leftover.kind ≡ true
      → is_backup prepared.kind ≡ false
      → published.modified_at < leftover.directory.modified_at
      → (recovered now stale_after_ms (
          rename_out backup_name published
            (record { wiki = some published; artifacts = leftover ∷ prepared ∷ [] }))).wiki
        ≡ some leftover.directory
  unfolding recover_wiki_publication_artifacts restore_backup newest
  leftover_backup_restored backup_name now stale_after_ms published leftover prepared k l later =
      let older : ltb leftover.directory.modified_at published.modified_at ≡ false = ground arith in
      rw (restore_backup, k, l, newest) (rw older refl)
