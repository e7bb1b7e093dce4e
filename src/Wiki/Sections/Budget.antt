-- ===== src/Wiki/Sections/Budget.antt =====
-- What the sections of a material hold.
use wknowledge.Base.{
  ℕ, ◌+◌, ◌≤◌, ◌<◌, ◌≡◌, ◌⊎◌, inl, inr, refl, sym, ap, ◌∙◌, subst, false, ◌||◌, ◌&&◌, not, Option,
  none, some, List, [], ◌∷◌, ◌++◌, append-nil, append_assoc, ltb, leb, length, length-append, arith,
  Bool-cases, All, All-append,
}
use wknowledge.Wiki.Sections.{
  CompiledNode, KnowledgeSection, HeadingContext, Cutting, is_section_heading, section_of, flushed,
  flush, is_empty, exceeds_budget, push_node, cut_node, cut_nodes, uncut, knowledge_sections,
  max_topic_nodes, max_topic_characters,
}

abbrev pub total_characters : List CompiledNode → ℕ
total_characters [] = 0
total_characters (node ∷ nodes) = length node.content + total_characters nodes

abbrev pub all_nodes : List KnowledgeSection → List CompiledNode
all_nodes [] = []
all_nodes (section ∷ sections) = section.nodes ++ all_nodes sections

abbrev pub FollowHeading : List CompiledNode → Type 0
FollowHeading [] = Unit
FollowHeading (first ∷ nodes) = All (λ node. is_section_heading node ≡ false) nodes

-- The nodes fit on a page: at most eight, at most 6000 characters unless there is but one, and no
-- heading of a section behind the first.
pub record IsPage (nodes : List CompiledNode) : Type 0 where
  pub few : length nodes ≤ 8
  pub short : (length nodes ≤ 1) ⊎ (total_characters nodes ≤ 6000)
  pub headed : FollowHeading nodes

abbrev pub IsSection : KnowledgeSection → Type 0
IsSection section = (1 ≤ length section.nodes) × IsPage section.nodes

pub record IsCut (s : Cutting) (seen : List CompiledNode) : Type 0 where
  pub complete : all_nodes s.sections ++ s.current ≡ seen
  pub page : IsPage s.current
  pub counted : s.characters ≡ total_characters s.current
  pub sections : All IsSection s.sections

all_nodes-append :
    (xs ys : List KnowledgeSection) → all_nodes (xs ++ ys) ≡ all_nodes xs ++ all_nodes ys
all_nodes-append [] ys = refl
all_nodes-append (x ∷ xs) ys =
    ap (λ l. x.nodes ++ l) (all_nodes-append xs ys)
    ∙ sym (append_assoc x.nodes (all_nodes xs) (all_nodes ys))

section_of-nodes :
    (context : Option HeadingContext) (first : CompiledNode) (nodes : List CompiledNode)
    → (section_of context first nodes).nodes ≡ nodes
section_of-nodes none first nodes = refl
section_of-nodes (some h) first nodes = refl

flushed-all_nodes :
    (context : Option HeadingContext) (current : List CompiledNode)
    (sections : List KnowledgeSection)
    → all_nodes (flushed context current sections) ≡ all_nodes sections ++ current
flushed-all_nodes context [] sections = sym (append-nil (all_nodes sections))
flushed-all_nodes context (first ∷ nodes) sections =
    all_nodes-append sections (section_of context first (first ∷ nodes) ∷ [])
    ∙ ap (λ l. all_nodes sections ++ l)
        (append-nil (section_of context first (first ∷ nodes)).nodes
          ∙ section_of-nodes context first (first ∷ nodes))

flushed-IsSection :
    (context : Option HeadingContext) (current : List CompiledNode)
    (sections : List KnowledgeSection)
    → IsPage current
    → All IsSection sections
    → All IsSection (flushed context current sections)
flushed-IsSection context [] sections p h = h
flushed-IsSection context (first ∷ nodes) sections p h =
    All-append IsSection sections (section_of context first (first ∷ nodes) ∷ []) h (
      subst (λ l. (1 ≤ length l) × IsPage l) (sym (section_of-nodes context first (first ∷ nodes)))
          (omega arith, p),
      tt,
    )

empty-IsPage : IsPage []
empty-IsPage = record { few = omega arith; short = inl (omega arith); headed = tt }

flush-IsCut : (s : Cutting) (seen : List CompiledNode) → IsCut s seen → IsCut (flush s) seen
unfolding flush
flush-IsCut s seen v = record {
  complete =
      append-nil (all_nodes (flushed s.heading_context s.current s.sections))
      ∙ flushed-all_nodes s.heading_context s.current s.sections
      ∙ v.complete;
  page = empty-IsPage;
  counted = refl;
  sections = flushed-IsSection s.heading_context s.current s.sections v.page v.sections;
}

total_characters-append :
    (xs ys : List CompiledNode)
    → total_characters (xs ++ ys) ≡ total_characters xs + total_characters ys
total_characters-append [] ys = omega arith
total_characters-append (x ∷ xs) ys = omega (arith, total_characters-append xs ys)

FollowHeading-append :
    (nodes : List CompiledNode) (node : CompiledNode)
    → FollowHeading nodes
    → (nodes ≡ []) ⊎ (is_section_heading node ≡ false)
    → FollowHeading (nodes ++ node ∷ [])
FollowHeading-append [] node h e = tt
FollowHeading-append (first ∷ nodes) node h (inl e) = cc e
FollowHeading-append (first ∷ nodes) node h (inr e) = All-append _ nodes (node ∷ []) h (e, tt)

-- A node is pushed where the section is empty, or has room for it.
push_node-IsCut :
    (s : Cutting) (seen : List CompiledNode) (node : CompiledNode)
    → IsCut s seen
    → (s.current ≡ [])
      ⊎ ((is_section_heading node ≡ false)
          × (length s.current < 8)
          × (s.characters + length node.content ≤ 6000))
    → IsCut (push_node node s) (seen ++ node ∷ [])
unfolding push_node
push_node-IsCut s seen node v room = record {
  complete =
      sym (append_assoc (all_nodes s.sections) s.current (node ∷ []))
      ∙ ap (λ l. l ++ node ∷ []) v.complete;
  page = page_of s.current v.page (sym v.counted) room;
  counted =
      ap (λ n. n + length node.content) v.counted
      ∙ omega (arith, total_characters-append s.current (node ∷ []));
  sections = v.sections;
}
  where
    page_of :
        (current : List CompiledNode)
        → IsPage current
        → total_characters current ≡ s.characters
        → (current ≡ [])
          ⊎ ((is_section_heading node ≡ false)
              × (length current < 8)
              × (s.characters + length node.content ≤ 6000))
        → IsPage (current ++ node ∷ [])
    page_of [] p e room = record { few = omega arith; short = inl (omega arith); headed = tt }
    page_of (first ∷ nodes) p e (inl clash) = cc clash
    page_of (first ∷ nodes) p e (inr (plain, few, short)) = record {
      few = omega (arith, length-append (first ∷ nodes) (node ∷ []));
      short = inr (omega (arith, e, total_characters-append (first ∷ nodes) (node ∷ [])));
      headed = FollowHeading-append (first ∷ nodes) node p.headed (inr plain);
    }

with_context :
    (s : Cutting) (seen : List CompiledNode) (context : Option HeadingContext)
    → IsCut s seen
    → IsCut (record s { heading_context = context }) seen
with_context s seen context v = record {
  complete = v.complete;
  page = v.page;
  counted = v.counted;
  sections = v.sections;
}

cut_node-IsCut :
    (s : Cutting) (seen : List CompiledNode) (node : CompiledNode)
    → IsCut s seen
    → IsCut (cut_node s node) (seen ++ node ∷ [])
unfolding cut_node exceeds_budget
cut_node-IsCut s seen node v = elim (Bool-cases (is_section_heading node)) [
  | inl head ↦ rw head (
      push_node-IsCut _ seen node (with_context (flush s) seen _ (flush-IsCut s seen v))
        (inl (unfold flush in refl)))
  | inr plain ↦ elim (Bool-cases (exceeds_budget s node)) [
    | inl full ↦
        rw (plain, full)
          (push_node-IsCut _ seen node (with_context (flush s) seen _ (flush-IsCut s seen v))
            (inl (unfold flush in refl)))
    | inr fits ↦ rw (plain, fits) (push_node-IsCut s seen node v (room s.current fits plain))
  ]
]
  where
    room :
        (current : List CompiledNode)
        → (not (is_empty current)
            && (leb max_topic_nodes (length current)
                || ltb max_topic_characters (s.characters + length node.content)))
          ≡ false
        → is_section_heading node ≡ false
        → (current ≡ [])
          ⊎ ((is_section_heading node ≡ false)
              × (length current < 8)
              × (s.characters + length node.content ≤ 6000))
    room [] h plain = inl refl
    room (first ∷ nodes) h plain = inr (plain, ground arith, ground arith)

cut_nodes-IsCut :
    (nodes : List CompiledNode) (s : Cutting) (seen : List CompiledNode)
    → IsCut s seen
    → IsCut (cut_nodes s nodes) (seen ++ nodes)
unfolding cut_nodes
cut_nodes-IsCut [] s seen v = subst (IsCut s) (sym (append-nil seen)) v
cut_nodes-IsCut (node ∷ nodes) s seen v =
    subst (IsCut (cut_nodes (cut_node s node) nodes)) (append_assoc seen (node ∷ []) nodes)
      (cut_nodes-IsCut nodes (cut_node s node) (seen ++ node ∷ []) (cut_node-IsCut s seen node v))

-- The sections hold the nodes of the material, each once and in order; none is empty, each has at most
-- eight nodes and at most 6000 characters unless it is a single node, and a heading of level 1 or 2
-- stands only at the head of a section.
pub knowledge_sections_lem :
    (nodes : List CompiledNode)
    → (all_nodes (knowledge_sections nodes) ≡ nodes) × All IsSection (knowledge_sections nodes)
unfolding knowledge_sections
knowledge_sections_lem nodes =
    let start : IsCut uncut [] = record {
      complete = refl;
      page = empty-IsPage;
      counted = refl;
      sections = tt;
    } in
    let v = flush-IsCut (cut_nodes uncut nodes) nodes (cut_nodes-IsCut nodes uncut [] start) in
    (sym (append-nil (all_nodes (flush (cut_nodes uncut nodes)).sections)) ∙ v.complete, v.sections)
