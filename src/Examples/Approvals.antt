-- ===== src/Examples/Approvals.antt =====
-- A decision on a concrete approval.
use wknowledge.Base.{
  arith, has, any, ◌≤◌, ◌&&◌, ℕ, ◌<◌, ◌≡◌, ◌≢◌, refl, Text, units, Bool, true, Option, none, some,
  List, [], ◌∷◌, ok, get, if◌then◌else◌, ◌===◌, length,
}
use wknowledge.SkillApproval.{
  pending, approved, SkillApproval, Session, approval_approved, Tables, is_pending,
  decide_skill_approval, find_current, count_active_bindings, count_members, record_decision,
  decided_row,
}
use wknowledge.SkillApproval.Scope.{is_open}
use wknowledge.SkillApproval.Decided.{decide_sound, decided_once}

abbrev request : SkillApproval
request = record {
  session_id = units "s";
  user_id = units "u";
  skill_id = units "plan";
  binding_ids = units "b" ∷ [];
  input_summary = units "sum";
  status = pending;
  expires_at = 100;
  decided_at = none;
}

abbrev before : Tables
before = record {
  approvals = (units "a", request) ∷ [];
  sessions =
      (units "s", record { user_id = units "u"; organization_id = units "o"; is_active = true })
      ∷ [];
  bindings =
      record { id = units "b"; session_id = units "s"; space_id = units "k"; is_active = true }
      ∷ [];
  memberships = (units "k", units "u") ∷ [];
  audit_events = [];
}

abbrev after : Tables
after = record before {
  approvals = (units "a", record request { status = approved; decided_at = some 51 }) ∷ [];
  audit_events =
      record {
        organization_id = units "o";
        actor_user_id = units "u";
        action = approval_approved;
        target_id = units "a";
      }
      ∷ [];
}

approves : decide_skill_approval (units "a") (units "u") true 50 51 before ≡ ok after
unfolding decide_skill_approval find_current get ◌===◌ count_active_bindings wknowledge.Base.has
    count_members record_decision wknowledge.Base.set
approves = refl

single : (space_id : Text) → count_members space_id (units "u") before.memberships ≤ 1
unfolding count_members
single space_id = ground arith

decide_sound_example :
    (row : SkillApproval) × (session : Session) × (get (units "a") before.approvals ≡ some row)
    × (get row.session_id before.sessions ≡ some session)
    × ((session.user_id === units "u") ≡ true)
    × (is_pending row.status ≡ true)
    × (50 < row.expires_at)
    × (session.is_active ≡ true)
    × ((k : Text)
        → has k row.binding_ids ≡ true
        → any
            (λ b. b.id === k && is_open row.session_id (units "u") before.memberships b)
            before.bindings
          ≡ true)
    × ((k : Text)
        → get k after.approvals
          ≡ (if units "a" === k then some (decided_row true 51 row) else get k before.approvals))
unfolding has
decide_sound_example =
    decide_sound (units "a") (units "u") true 50 51 before after (λ space_id. single space_id)
      (refl, tt) approves

decided_once_example : decide_skill_approval (units "a") (units "u") true 60 61 after ≢ ok after
decided_once_example =
    decided_once (units "a") (units "u") (units "u") true true 50 51 60 61 before after after
      approves
