-- ===== src/SkillApproval/Decided.antt =====
-- What a decision on an approval rests on, and that it is the only one.
use wknowledge.Base.{
  ℕ, ◌<◌, ◌≡◌, ◌≢◌, refl, sym, ◌∙◌, ap, subst, Text, Bool, true, false, not, Option, none, some, ok,
  ok-injective, >>=-eq-ok, reject_if, reject_if-eq-ok, get, get-set, Option-cases, Bool-cases, inl,
  inr, arith, if◌then◌else◌, ◌===◌, ===_refl, ◌==◌, leb, length, ◌≤◌, ◌&&◌, has, map, any,
  IsDistinct,
}
use wknowledge.SkillApproval.Scope.{binding_key, is_open, named_open}
use wknowledge.SkillApproval.{
  SkillApproval, Session, Tables, skill_approval_already_decided, skill_approval_expired,
  agent_session_archived, skill_approval_scope_revoked, is_pending, find_current, decided_row,
  record_decision, decide_skill_approval, count_active_bindings, count_members,
}

find_current-get :
    (id user_id : Text) (tables : Tables) (row : SkillApproval) (session : Session)
    → find_current id user_id tables ≡ ok (row, session)
    → (get id tables.approvals ≡ some row)
      × (get row.session_id tables.sessions ≡ some session)
      × ((session.user_id === user_id) ≡ true)
unfolding find_current
find_current-get id user_id tables row session h = elim (Option-cases (get id tables.approvals)) [
  | inl missing ↦ let e = rw (find_current, missing) at h in cc e
  | inr (r, found) ↦ elim (Option-cases (get r.session_id tables.sessions)) [
    | inl missing ↦ let e = rw (find_current, found, missing) at h in cc e
    | inr (s, known) ↦ elim (Bool-cases (s.user_id === user_id)) [
      | inr foreign ↦ let e = rw (find_current, found, known, foreign) at h in cc e
      | inl own ↦
          let e = ok-injective (r, s) (row, session) (rw (find_current, found, known, own) at h) in
          subst
            (λ (x : SkillApproval × Session).
              (get id tables.approvals ≡ some x.0)
              × (get x.0.session_id tables.sessions ≡ some x.1)
              × ((x.1.user_id === user_id) ≡ true))
            e (found, known, own)
    ]
  ]
]

decision_found :
    (id user_id : Text) (approve : Bool) (now decided : ℕ) (tables tables' : Tables)
    → decide_skill_approval id user_id approve now decided tables ≡ ok tables'
    → (row : SkillApproval) × (session : Session) × (get id tables.approvals ≡ some row)
      × (get row.session_id tables.sessions ≡ some session)
      × ((session.user_id === user_id) ≡ true)
      × (is_pending row.status ≡ true)
      × (now < row.expires_at)
      × (session.is_active ≡ true)
      × (count_active_bindings row.session_id user_id row.binding_ids tables.memberships
            tables.bindings
          ≡ length row.binding_ids)
      × ((k : Text)
          → get k tables'.approvals
            ≡ (if id === k then some (decided_row approve decided row) else get k tables.approvals))
unfolding decide_skill_approval record_decision
decision_found id user_id approve now decided tables tables' h =
    let ((row, session), known, rest) = >>=-eq-ok (find_current id user_id tables) _ h in
    let (found, has_session, own) = find_current-get id user_id tables row session known in
    let (u1, open_row, rest1) =
      >>=-eq-ok (reject_if (not (is_pending row.status)) skill_approval_already_decided) _ rest in
    let (u2, early, rest2) =
      >>=-eq-ok (reject_if (leb row.expires_at now) skill_approval_expired) _ rest1 in
    let (u3, live, rest3) =
      >>=-eq-ok (reject_if (not session.is_active) agent_session_archived) _ rest2 in
    let (u4, scoped, done) =
      >>=-eq-ok
        (reject_if
          (not (
            count_active_bindings row.session_id user_id row.binding_ids tables.memberships
              tables.bindings
            == length row.binding_ids))
          skill_approval_scope_revoked)
        _ rest3 in
    let e =
      ok-injective (record_decision id user_id approve decided row session tables) tables' done in
    let a = reject_if-eq-ok _ skill_approval_already_decided {u = u1} open_row in
    let b = reject_if-eq-ok _ skill_approval_expired {u = u2} early in
    let c = reject_if-eq-ok _ agent_session_archived {u = u3} live in
    let d = reject_if-eq-ok _ skill_approval_scope_revoked {u = u4} scoped in
    (
      row,
      session,
      found,
      has_session,
      own,
      ground (arith, a),
      ground (arith, b),
      ground (arith, c),
      ground (arith, d),
      λ k.
          subst
            (λ (t : Tables). get k t.approvals ≡ (
              if id === k then some (decided_row approve decided row) else get k tables.approvals))
            e (get-set id k (decided_row approve decided row) tables.approvals),
    )

-- When no user is a member of a space twice and the bindings have different ids, a decision that
-- succeeds was taken on a pending approval that had not run out, in an active session of the user, and
-- each binding that it names was active in that session, in a space of which the user is a member. It
-- sets this approval alone, to the decision.
pub decide_sound :
    (id user_id : Text) (approve : Bool) (now decided : ℕ) (tables tables' : Tables)
    → ((space_id : Text) → count_members space_id user_id tables.memberships ≤ 1)
    → IsDistinct (map binding_key tables.bindings)
    → decide_skill_approval id user_id approve now decided tables ≡ ok tables'
    → (row : SkillApproval) × (session : Session) × (get id tables.approvals ≡ some row)
      × (get row.session_id tables.sessions ≡ some session)
      × ((session.user_id === user_id) ≡ true)
      × (is_pending row.status ≡ true)
      × (now < row.expires_at)
      × (session.is_active ≡ true)
      × ((k : Text)
          → has k row.binding_ids ≡ true
          → any
              (λ b. b.id === k && is_open row.session_id user_id tables.memberships b)
              tables.bindings
            ≡ true)
      × ((k : Text)
          → get k tables'.approvals
            ≡ (if id === k then some (decided_row approve decided row) else get k tables.approvals))
decide_sound id user_id approve now decided tables tables' single distinct h =
    let (row, session, found, has_session, own, waiting, early, live, all_open, after) =
      decision_found id user_id approve now decided tables tables' h in
    (
      row,
      session,
      found,
      has_session,
      own,
      waiting,
      early,
      live,
      λ k named.
          named_open row.session_id user_id row.binding_ids tables.memberships k tables.bindings
            single distinct all_open named,
      after,
    )

decided-not_pending :
    (approve : Bool) (decided : ℕ) (row : SkillApproval)
    → is_pending (decided_row approve decided row).status ≡ false
decided-not_pending true decided row = refl
decided-not_pending false decided row = refl

abbrev pending_in : Option SkillApproval → Bool
pending_in none = false
pending_in (some row) = is_pending row.status

-- An approval is decided at most once: after a decision that succeeds no further decision on it,
-- by whomever and whenever, succeeds.
pub decided_once :
    (id user_id user_id' : Text) (approve approve' : Bool) (now decided now' decided' : ℕ)
    (tables tables' again : Tables)
    → decide_skill_approval id user_id approve now decided tables ≡ ok tables'
    → decide_skill_approval id user_id' approve' now' decided' tables' ≢ ok again
decided_once id user_id user_id' approve approve' now decided now' decided' tables tables' again h
      g =
    let (row, _, _, _, _, _, _, _, _, after) =
      decision_found id user_id approve now decided tables tables' h in
    let (row', _, found, _, _, waiting, _, _, _, _) =
      decision_found id user_id' approve' now' decided' tables' again g in
    let kept : some row' ≡ some (decided_row approve decided row) =
      sym found ∙ rw (after id, ===_refl id) refl in
    let over : is_pending row'.status ≡ false =
      ap pending_in kept ∙ decided-not_pending approve decided row in
    cc (over, waiting)
