-- ===== src/Conversation.antt =====
-- packages/agent-runtime/src/knowledge-component.ts: `compactAgentConversation`. The guards on the
-- run-time types of a message are those of its type here.
pub mod Bounds
use wknowledge.Base.{
  ℕ, zero, suc, ◌-◌, Text, Bool, true, false, ◌||◌, List, [], ◌∷◌, ◌++◌, ltb, leb, take, trim,
  if◌then◌else◌, length, is_space, ◌==◌,
}
use mathlib.Core.List.{reverse}

pub data Role : Type 0 where
  user assistant : Role

pub record Message : Type 0 where
  pub role : Role
  pub content : Text

abbrev pub max_messages : ℕ
max_messages = 12

abbrev pub max_characters : ℕ
max_characters = 6000

abbrev pub max_message_characters : ℕ
max_message_characters = 1200

abbrev pub cut_content : Message → Text
cut_content message = take max_message_characters (trim message.content)

-- The loop, newest message first; `selected` has its newest element at the head, as the source's
-- array has it at its end.
unfoldable pub select_recent : List Message → List Message → ℕ → List Message
select_recent [] selected remaining = selected
select_recent (message ∷ older) selected remaining =
    let content = cut_content message in
    let kept = record message { content = content } ∷ selected in
    let with_it = select_recent older kept (remaining - length content) in
    let without_it = select_recent older selected remaining in
    if leb max_messages (length selected) || remaining == 0
    then selected
    else if length content == 0 || ltb remaining (length content)
    then without_it
    else with_it

-- The source pushes and reverses at the end: `selected` is kept reversed throughout.
unfoldable pub compact_agent_conversation : List Message → List Message
unfolding select_recent trim
compact_agent_conversation messages = select_recent (reverse messages) [] max_characters
