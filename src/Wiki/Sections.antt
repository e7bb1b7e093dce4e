-- ===== src/Wiki/Sections.antt =====
-- `knowledgeSections` of packages/wiki/src/index.ts: a material is cut at its headings of level 1 and 2,
-- and where a section would have too many nodes or characters. `level` is the metadata's, if it is a
-- number; of a node's title `undefined` is `none`.
pub mod Budget
use wknowledge.Base.{
  ℕ, suc, ◌+◌, Text, trim, Bool, true, false, ◌||◌, ◌&&◌, not, Option, none, some, List, [], ◌∷◌,
  ◌++◌, ltb, leb, if◌then◌else◌, length,
}

pub data NodeKind : Type 0 where
  heading other : NodeKind

pub record CompiledNode : Type 0 where
  pub id : Text
  pub kind : NodeKind
  pub title : Option Text
  pub content : Text
  pub level : Option ℕ

abbrev pub max_topic_nodes : ℕ
max_topic_nodes = 8

abbrev pub max_topic_characters : ℕ
max_topic_characters = 6000

pub record KnowledgeSection : Type 0 where
  pub nodes : List CompiledNode
  pub anchor : CompiledNode
  pub heading_title : Option Text
  pub part : ℕ

pub record HeadingContext : Type 0 where
  pub anchor : CompiledNode
  pub title : Text
  pub part : ℕ

-- The variables of the loop.
pub record Cutting : Type 0 where
  pub sections : List KnowledgeSection
  pub current : List CompiledNode
  pub characters : ℕ
  pub heading_context : Option HeadingContext

abbrev is_heading : NodeKind → Bool
is_heading heading = true
is_heading other = false

abbrev is_upper_level : Option ℕ → Bool
is_upper_level none = false
is_upper_level (some level) = leb level 2

unfoldable pub is_section_heading : CompiledNode → Bool
is_section_heading node = is_heading node.kind && is_upper_level node.level

abbrev text_or : Text → Text → Text
text_or [] fallback = fallback
text_or (c ∷ s) fallback = c ∷ s

-- `node.title ?? (node.content.trim() || node.id)`
unfoldable pub heading_title_of : CompiledNode → Text
heading_title_of node = elim node.title [
  | some title ↦ title
  | none ↦ text_or (trim node.content) node.id
]

abbrev pub section_of : Option HeadingContext → CompiledNode → List CompiledNode → KnowledgeSection
section_of none first nodes = record {
  nodes = nodes;
  anchor = first;
  heading_title = none;
  part = 1;
}
section_of (some h) first nodes = record {
  nodes = nodes;
  anchor = h.anchor;
  heading_title = some h.title;
  part = h.part;
}

-- The nodes of a section to come, with the section appended.
abbrev pub flushed :
    Option HeadingContext → List CompiledNode → List KnowledgeSection → List KnowledgeSection
flushed context [] sections = sections
flushed context (first ∷ nodes) sections = sections ++ section_of context first (first ∷ nodes) ∷ []

unfoldable pub flush : Cutting → Cutting
flush s = record s {
  sections = flushed s.heading_context s.current s.sections;
  current = [];
  characters = 0;
}

abbrev pub is_empty : List CompiledNode → Bool
is_empty [] = true
is_empty (node ∷ nodes) = false

abbrev pub next_part : Option HeadingContext → Option HeadingContext
next_part none = none
next_part (some h) = some (record h { part = h.part + 1 })

unfoldable pub exceeds_budget : Cutting → CompiledNode → Bool
exceeds_budget s node =
    not (is_empty s.current)
    && (leb max_topic_nodes (length s.current)
        || ltb max_topic_characters (s.characters + length node.content))

unfoldable pub push_node : CompiledNode → Cutting → Cutting
push_node node s = record s {
  current = s.current ++ node ∷ [];
  characters = s.characters + length node.content;
}

-- The body of the loop.
unfoldable pub cut_node : Cutting → CompiledNode → Cutting
unfolding flush push_node
cut_node s node =
    if is_section_heading node
    then push_node node (record (flush s) {
      heading_context = some (record { anchor = node; title = heading_title_of node; part = 1 });
    })
    else if exceeds_budget s node
    then push_node node (record (flush s) { heading_context = next_part s.heading_context })
    else push_node node s

unfoldable pub cut_nodes : Cutting → List CompiledNode → Cutting
cut_nodes s [] = s
cut_nodes s (node ∷ nodes) = cut_nodes (cut_node s node) nodes

abbrev pub uncut : Cutting
uncut = record { sections = []; current = []; characters = 0; heading_context = none }

unfoldable pub knowledge_sections : List CompiledNode → List KnowledgeSection
unfolding flush
knowledge_sections nodes = (flush (cut_nodes uncut nodes)).sections
