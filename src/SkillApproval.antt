-- ===== src/SkillApproval.antt =====
-- packages/core/src/skill-approvals.ts: the approvals of skills by the user of a session. A
-- transaction that throws leaves the tables as they were, also where it wrote before it threw.
-- What `resolveAgentSessionContext` resolves is an argument of the functions that call it, as is
-- the id that the database gives to a new row. The version and the digest that a row copies from the
-- skill, and the metadata of audit events, are left out.
pub mod Scope
pub mod Decided
pub mod Listing
use wknowledge.Base.{
  ℕ, ◌+◌, Text, units, Bool, true, false, not, ◌&&◌, Option, none, some, List, [], ◌∷◌, ◌++◌,
  Result, ok, err, ◌>>=◌, ◌>>◌, reject_if, ltb, leb, ◌==◌, ◌===◌, if◌then◌else◌, get, set, has, map,
  length, keep,
}
use wknowledge.SkillPolicy.{
  Permissions, Resources, no_resources, selected, whole_space, BindingScope, space, Decision, allow,
  ask, deny, evaluate_skill_policy,
}

pub data ApprovalStatus : Type 0 where
  pending approved rejected expired : ApprovalStatus

pub record SkillApproval : Type 0 where
  pub session_id : Text
  pub user_id : Text
  pub skill_id : Text
  pub binding_ids : List Text
  pub input_summary : Text
  pub status : ApprovalStatus
  pub expires_at : ℕ
  pub decided_at : Option ℕ

pub record Session : Type 0 where
  pub user_id : Text
  pub organization_id : Text
  pub is_active : Bool

pub record Binding : Type 0 where
  pub id : Text
  pub session_id : Text
  pub space_id : Text
  pub is_active : Bool

pub data Action : Type 0 where
  approval_requested approval_approved approval_rejected : Action

pub record AuditEvent : Type 0 where
  pub organization_id : Text
  pub actor_user_id : Text
  pub action : Action
  pub target_id : Text

-- `memberships` are the pairs of a space and a member.
pub record Tables : Type 0 where
  pub approvals : List (Text × SkillApproval)
  pub sessions : List (Text × Session)
  pub bindings : List Binding
  pub memberships : List (Text × Text)
  pub audit_events : List AuditEvent

pub data ApprovalError : Type 0 where
  skill_policy_denied skill_approval_not_required skill_approval_not_found : ApprovalError
  skill_approval_already_decided skill_approval_expired agent_session_archived : ApprovalError
  skill_approval_scope_revoked : ApprovalError

abbrev pub approval_ttl_ms : ℕ
approval_ttl_ms = 600000

abbrev pub is_pending : ApprovalStatus → Bool
is_pending pending = true
is_pending _ = false

-- The ids of the bindings that a skill asks for.
unfoldable pub requested_binding_ids_for_skill :
    Permissions → List (Text × BindingScope) → List Text
requested_binding_ids_for_skill permissions bindings = elim permissions.resources [
  | no_resources ↦ []
  | whole_space ↦ map (λ b. b.0) (keep (λ b. elim b.1 [ space ↦ true | _ ↦ false ]) bindings)
  | selected ↦ map (λ b. b.0) bindings
]

-- The update of `listSessionSkillApprovals`.
unfoldable pub expire_session_approvals :
    Text → ℕ → List (Text × SkillApproval) → List (Text × SkillApproval)
expire_session_approvals session_id now [] = []
expire_session_approvals session_id now ((id, row) ∷ rows) =
    (if row.session_id === session_id && is_pending row.status && ltb row.expires_at now
      then (id, record row { status = expired })
      else (id, row))
    ∷ expire_session_approvals session_id now rows

-- `requestSkillApproval` with the session's organization and bindings.
unfoldable pub request_skill_approval :
    (id session_id user_id skill_id organization_id : Text) (permissions : Permissions)
    (enabled : Bool) (context : List (Text × BindingScope)) (binding_ids : List Text)
    (input_summary : Text) (now : ℕ)
    → Tables
    → Result ApprovalError Tables
request_skill_approval id session_id user_id skill_id organization_id permissions enabled context
      binding_ids input_summary now tables =
    elim (evaluate_skill_policy permissions enabled (map (λ b. b.0) context) binding_ids
      (some context)).0 [
        | deny ↦ err skill_policy_denied
        | allow ↦ err skill_approval_not_required
        | ask ↦ ok (record tables {
          approvals =
              set id
                (record {
                  session_id = session_id;
                  user_id = user_id;
                  skill_id = skill_id;
                  binding_ids = binding_ids;
                  input_summary = input_summary;
                  status = pending;
                  expires_at = now + approval_ttl_ms;
                  decided_at = none;
                })
                tables.approvals;
          audit_events =
              tables.audit_events
              ++ record {
                organization_id = organization_id;
                actor_user_id = user_id;
                action = approval_requested;
                target_id = id;
              }
                ∷ [];
        })
      ]

-- How many memberships the join finds for the space and the user.
unfoldable pub count_members : Text → Text → List (Text × Text) → ℕ
count_members space_id user_id memberships =
    length (keep (λ m. m.0 === space_id && m.1 === user_id) memberships)

-- The rows of `activeBindings`, counted.
unfoldable pub count_active_bindings :
    (session_id user_id : Text) (binding_ids : List Text) → List (Text × Text) → List Binding → ℕ
count_active_bindings session_id user_id binding_ids memberships [] = 0
count_active_bindings session_id user_id binding_ids memberships (b ∷ bindings) =
    (if b.session_id === session_id && b.is_active && has b.id binding_ids
      then count_members b.space_id user_id memberships
      else 0)
    + count_active_bindings session_id user_id binding_ids memberships bindings

-- The approval and its session, if the session is the user's.
unfoldable pub find_current : Text → Text → Tables → Result ApprovalError (SkillApproval × Session)
find_current id user_id tables = elim (get id tables.approvals) [
  | none ↦ err skill_approval_not_found
  | some row ↦ elim (get row.session_id tables.sessions) [
    | none ↦ err skill_approval_not_found
    | some session ↦
        if session.user_id === user_id then ok (row, session) else err skill_approval_not_found
  ]
]

abbrev pub decided_row : Bool → ℕ → SkillApproval → SkillApproval
decided_row approve decided row = record row {
  status = if approve then approved else rejected;
  decided_at = some decided;
}

-- The last two statements of `decideSkillApproval`.
unfoldable pub record_decision : Text → Text → Bool → ℕ → SkillApproval → Session → Tables → Tables
record_decision id user_id approve decided row session tables = record tables {
  approvals = set id (decided_row approve decided row) tables.approvals;
  audit_events =
      tables.audit_events
      ++ record {
        organization_id = session.organization_id;
        actor_user_id = user_id;
        action = if approve then approval_approved else approval_rejected;
        target_id = id;
      }
        ∷ [];
}

-- `decideSkillApproval`, with the clock's readings for the expiry and for `decidedAt`.
unfoldable pub decide_skill_approval :
    (id user_id : Text) (approve : Bool) (now decided : ℕ) → Tables → Result ApprovalError Tables
decide_skill_approval id user_id approve now decided tables = do
  (row, session) ← find_current id user_id tables
  reject_if (not (is_pending row.status)) skill_approval_already_decided
  reject_if (leb row.expires_at now) skill_approval_expired
  reject_if (not session.is_active) agent_session_archived
  reject_if
      (not (
        count_active_bindings row.session_id user_id row.binding_ids tables.memberships
          tables.bindings
        == length row.binding_ids))
      skill_approval_scope_revoked
  ok (record_decision id user_id approve decided row session tables)
