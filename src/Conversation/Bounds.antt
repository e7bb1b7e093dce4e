-- ===== src/Conversation/Bounds.antt =====
-- The budgets of the compacted conversation.
use wknowledge.Base.{
  ℕ, zero, suc, ◌+◌, ◌-◌, ◌≤◌, Text, take, trim, List, [], ◌∷◌, Bool-cases, inl, inr, arith, All,
  length, leb, ltb, ◌==◌,
}
use mathlib.Core.List.{reverse}
use wknowledge.Conversation.{
  Message, max_messages, max_characters, max_message_characters, cut_content, select_recent,
  compact_agent_conversation,
}

length-take-le : (n : ℕ) (s : Text) → length (take n s) ≤ n
length-take-le zero s = omega arith
length-take-le (suc n) [] = omega arith
length-take-le (suc n) (c ∷ s) = omega (arith, length-take-le n s)

abbrev pub total_characters : List Message → ℕ
total_characters [] = 0
total_characters (m ∷ ms) = length m.content + total_characters ms

abbrev pub IsShort : Message → Type 0
IsShort m = (1 ≤ length m.content) × (length m.content ≤ max_message_characters)

pub record IsWithinBudget (messages : List Message) : Type 0 where
  pub few : length messages ≤ max_messages
  pub small : total_characters messages ≤ max_characters
  pub short : All IsShort messages

select_recent-IsWithinBudget :
    (ms selected : List Message) (remaining : ℕ)
    → length selected ≤ max_messages
    → total_characters selected + remaining ≤ max_characters
    → All IsShort selected
    → IsWithinBudget (select_recent ms selected remaining)
unfolding select_recent
select_recent-IsWithinBudget [] selected remaining few small short = record {
  few = few;
  small = omega arith;
  short = short;
}
select_recent-IsWithinBudget (m ∷ ms) selected remaining few small short =
    let content = cut_content m in
    let without_it = select_recent-IsWithinBudget ms selected remaining few small short in
    elim (Bool-cases (leb max_messages (length selected))) [
      | inl full ↦ rw full (record { few = few; small = omega arith; short = short })
      | inr room ↦ elim (Bool-cases (remaining == 0)) [
        | inl spent ↦ rw (room, spent) (record { few = few; small = omega arith; short = short })
        | inr left ↦ elim (Bool-cases (length content == 0)) [
          | inl blank ↦ rw (room, left, blank) without_it
          | inr said ↦ elim (Bool-cases (ltb remaining (length content))) [
            | inl long ↦ rw (room, left, said, long) without_it
            | inr fits ↦
                rw (room, left, said, fits)
                  (select_recent-IsWithinBudget ms (record m { content = content } ∷ selected)
                    (remaining - length content) (ground arith) (ground arith)
                    ((ground arith, length-take-le max_message_characters (trim m.content)), short))
          ]
        ]
      ]
    ]

-- However long the history, what is sent of it is at most 12 messages of 1 to 1200 characters each,
-- and at most 6000 characters in all.
pub compact-IsWithinBudget :
    (messages : List Message) → IsWithinBudget (compact_agent_conversation messages)
unfolding compact_agent_conversation
compact-IsWithinBudget messages =
    select_recent-IsWithinBudget (reverse messages) [] max_characters (omega arith) (omega arith) tt
