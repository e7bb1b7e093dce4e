-- ===== src/SkillApproval/Scope.antt =====
-- The bindings that an approval names, when the count of them is right.
use wknowledge.Base.{
  ◌≤◌, ◌≡◌, refl, Text, Bool, true, false, ◌&&◌, List, [], ◌∷◌, map, keep, any, length, has, leb,
  ◌===◌, arith, IsDistinct, Within, long_enough, Bool-cases, inl, inr,
}
use wknowledge.SkillApproval.{Binding, count_members, count_active_bindings}

abbrev pub binding_key : Binding → Text
binding_key b = b.id

-- The binding is active in the session, and the user is a member of its space.
abbrev pub is_open : Text → Text → List (Text × Text) → Binding → Bool
is_open session_id user_id memberships b =
    b.session_id === session_id
    && b.is_active
    && leb 1 (count_members b.space_id user_id memberships)

module _ (session_id user_id : Text) (ids : List Text) (memberships : List (Text × Text)) where
  abbrev counts : Binding → Bool
  counts b = is_open session_id user_id memberships b && has b.id ids

  counted : List Binding → List Text
  counted bindings = map binding_key (keep counts bindings)

  count-le :
      (bindings : List Binding)
      → ((space_id : Text) → count_members space_id user_id memberships ≤ 1)
      → count_active_bindings session_id user_id ids memberships bindings
        ≤ length (counted bindings)
  unfolding count_active_bindings counted
  count-le [] single = omega arith
  count-le (b ∷ bindings) single = ground (arith, count-le bindings single, single b.space_id)

  counted_new :
      (k : Text) (bindings : List Binding)
      → has k (map binding_key bindings) ≡ false
      → has k (counted bindings) ≡ false
  unfolding counted has
  counted_new k [] h = refl
  counted_new k (b ∷ bindings) h = ground (arith, counted_new k bindings, h)

  counted-IsDistinct :
      (bindings : List Binding)
      → IsDistinct (map binding_key bindings)
      → IsDistinct (counted bindings)
  unfolding counted
  counted-IsDistinct [] d = tt
  counted-IsDistinct (b ∷ bindings) (fresh, d) = elim (Bool-cases (counts b)) [
    | inl one ↦ rw one (counted_new b.id bindings fresh, counted-IsDistinct bindings d)
    | inr none_of ↦ rw none_of (counted-IsDistinct bindings d)
  ]

  counted-Within : (bindings : List Binding) → Within (counted bindings) ids
  unfolding counted
  counted-Within [] = tt
  counted-Within (b ∷ bindings) = elim (Bool-cases (counts b)) [
    | inl one ↦ rw one (ground (arith, one), counted-Within bindings)
    | inr none_of ↦ rw none_of (counted-Within bindings)
  ]

  counted-any :
      (k : Text) (bindings : List Binding)
      → has k (counted bindings) ≡ true
      → any (λ b. b.id === k && is_open session_id user_id memberships b) bindings ≡ true
  unfolding counted has
  counted-any k [] h = cc h
  counted-any k (b ∷ bindings) h = ground (arith, counted-any k bindings, h)

  -- With as many counted as are named, each that is named is open.
  pub named_open :
      (k : Text) (bindings : List Binding)
      → ((space_id : Text) → count_members space_id user_id memberships ≤ 1)
      → IsDistinct (map binding_key bindings)
      → count_active_bindings session_id user_id ids memberships bindings ≡ length ids
      → has k ids ≡ true
      → any (λ b. b.id === k && is_open session_id user_id memberships b) bindings ≡ true
  named_open k bindings single d e h = counted-any k bindings (
      long_enough (counted bindings) ids k (counted-IsDistinct bindings d) (counted-Within bindings)
        (omega (arith, count-le bindings single, e)) h)
