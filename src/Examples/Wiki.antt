-- ===== src/Examples/Wiki.antt =====
-- The diff of two pages, the sections of a material and a publication on concrete inputs.
use wknowledge.Base.{
  ℕ, ◌+◌, ◌*◌, ◌≤◌, ◌<◌, ◌≡◌, ◌⊎◌, refl, Text, units, trim, join_lines, split_lines, true, false,
  Option, none, some, List, [], ◌∷◌, ◌++◌, inl, inr, length, All, arith,
}
use wknowledge.Wiki.Diff.{diff_lines, content_lines}
use wknowledge.Wiki.Diff.Subsequences.{Common, nothing, both, skip_base, skip_candidate}
use wknowledge.Wiki.Diff.Laws.{
  base_of, candidate_of, IsNumbered, count_unchanged, diff_lines_reads_back, diff_lines-le,
}
use wknowledge.Wiki.Sections.{CompiledNode, heading, other, knowledge_sections}
use wknowledge.Wiki.Sections.Budget.{all_nodes, IsSection, knowledge_sections_lem}
use wknowledge.Wiki.Publication.{
  Outcomes, publish_wiki_directory, Directory, Artifact, Space, staging, backup, rename_out,
  publication_states,
}
use wknowledge.Wiki.Publication.Recovery.{
  IsLeft, publication_leaves_wiki, recovered, IsEither, recovered-IsEither,
  leftover_backup_restored,
}

abbrev old_page : Text
old_page = units "a\nb\n"

abbrev new_page : Text
new_page = units "b\nc"

diff_lines_reads_back_example :
    (join_lines (base_of (diff_lines old_page new_page)) ≡ trim old_page)
    × (join_lines (candidate_of (diff_lines old_page new_page)) ≡ trim new_page)
    × IsNumbered 0 0 (diff_lines old_page new_page)
diff_lines_reads_back_example = diff_lines_reads_back old_page new_page

one-Common : Common 1 (content_lines old_page) (content_lines new_page)
unfolding split_lines trim wknowledge.Base.is_space
one-Common = skip_base (units "a") (both (units "b") (skip_candidate (units "c") nothing))

small : (length (content_lines old_page) + 1) * (length (content_lines new_page) + 1) ≤ 500000
unfolding split_lines trim wknowledge.Base.is_space
small = omega arith

diff_lines-le_example : 1 ≤ count_unchanged (diff_lines old_page new_page)
diff_lines-le_example = diff_lines-le old_page new_page 1 small one-Common

abbrev nodes : List CompiledNode
nodes =
    record { id = units "n1"; kind = other; title = none; content = units "before"; level = none }
    ∷ record {
      id = units "n2";
      kind = heading;
      title = some (units "T");
      content = units "T";
      level = some 1;
    }
    ∷ record { id = units "n3"; kind = other; title = none; content = units "text"; level = none }
    ∷ []

knowledge_sections_lem_example :
    (all_nodes (knowledge_sections nodes) ≡ nodes) × All IsSection (knowledge_sections nodes)
knowledge_sections_lem_example = knowledge_sections_lem nodes

abbrev published : Directory Text
published = record { content = units "old"; modified_at = 50 }

abbrev prepared : Directory Text
prepared = record { content = units "new"; modified_at = 60 }

abbrev partial : Artifact Text
partial = record {
  kind = backup;
  name = units ".wiki-backup-1";
  directory = record { content = units "half"; modified_at = 55 };
}

abbrev stage : Artifact Text
stage = record { kind = staging; name = units ".wiki-staging-2"; directory = prepared }

abbrev space : Space Text
space = record { wiki = some published; artifacts = stage ∷ [] }

-- A publication whose removal of the backup stops half-way
abbrev interrupted : Outcomes Text
interrupted = record {
  moves_out = true;
  moves_in = true;
  moves_back = true;
  remains = record { content = units "half"; modified_at = 70 } ∷ [];
  removes = false;
}

-- A publication in which neither the staging directory nor the backup can be moved
abbrev stuck : Outcomes Text
stuck = record {
  moves_out = true;
  moves_in = false;
  moves_back = false;
  remains = [];
  removes = true;
}

recovered-IsEither_example :
    All
      (λ stopped. IsEither published (some prepared) (recovered 100 10 stopped).wiki)
      (publication_states (units ".wiki-staging-2") (units ".wiki-backup-2") interrupted space)
unfolding wknowledge.Wiki.Publication.find_directory wknowledge.Base.◌===◌
recovered-IsEither_example =
    recovered-IsEither (units ".wiki-staging-2") (units ".wiki-backup-2") interrupted 100 10
      published prepared space refl refl refl (inl refl, tt)

leftover_backup_restored_example :
    (recovered 100 10 (
      rename_out
        (units ".wiki-backup-2")
        published
        (record { wiki = some published; artifacts = partial ∷ stage ∷ [] }))).wiki
    ≡ some partial.directory
leftover_backup_restored_example =
    leftover_backup_restored (units ".wiki-backup-2") 100 10 published partial stage refl refl
      (omega arith)

publication_leaves_wiki_example :
    IsLeft
      (units ".wiki-staging-2")
      (units ".wiki-backup-2")
      stuck
      published
      prepared
      (publish_wiki_directory (units ".wiki-staging-2") (units ".wiki-backup-2") stuck space)
unfolding wknowledge.Wiki.Publication.find_directory wknowledge.Base.◌===◌
publication_leaves_wiki_example =
    publication_leaves_wiki (units ".wiki-staging-2") (units ".wiki-backup-2") stuck space published
      prepared refl refl refl
