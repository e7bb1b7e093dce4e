-- ===== src/SkillApproval/Listing.antt =====
-- `listSessionSkillPolicies` of packages/core/src/skill-approvals.ts, with how a session runs a skill
-- (packages/core/src/session-skill-execution.ts).
use wknowledge.Base.{
  Text, units, Bool, true, false, Option, none, some, List, [], ◌∷◌, map, get, if◌then◌else◌,
}
use wknowledge.SkillPolicy.{
  Permissions, BindingScope, Decision, deny, Reason, evaluate_skill_policy,
}
use wknowledge.SkillApproval.{requested_binding_ids_for_skill}

pub data Execution : Type 0 where
  conversation worker unavailable : Execution

pub record ManagedSkill : Type 0 where
  pub id : Text
  pub permissions : Permissions
  pub enabled : Bool
  pub is_installed : Bool

abbrev pub session_skill_executions : List (Text × Execution)
session_skill_executions =
    (units "wiki-query", conversation)
    ∷ (units "wiki-lint", worker)
    ∷ (units "plan-compose", worker)
    ∷ (units "practice-generate", worker)
    ∷ (units "wiki-compile", unavailable)
    ∷ (units "wiki-correct", unavailable)
    ∷ []

abbrev or_unavailable : Option Execution → Execution
or_unavailable none = unavailable
or_unavailable (some e) = e

-- The case of a skill that is not given by its id alone.
unfoldable pub session_skill_execution : ManagedSkill → Execution
session_skill_execution skill =
    if skill.is_installed then worker else or_unavailable (get skill.id session_skill_executions)

pub record SessionSkill : Type 0 where
  pub skill : ManagedSkill
  pub decision : Decision
  pub reason : Reason
  pub execution : Execution

unfoldable pub present_skill : List (Text × BindingScope) → ManagedSkill → SessionSkill
present_skill context skill =
    let (decision, reason) =
      evaluate_skill_policy skill.permissions skill.enabled (map (λ b. b.0) context)
        (requested_binding_ids_for_skill skill.permissions context) (some context) in
    record {
      skill = skill;
      decision = decision;
      reason = reason;
      execution = session_skill_execution skill;
    }

abbrev is_denied : Decision → Bool
is_denied deny = true
is_denied _ = false

unfoldable pub list_session_skill_policies :
    List (Text × BindingScope) → List ManagedSkill → List SessionSkill
list_session_skill_policies context [] = []
list_session_skill_policies context (skill ∷ skills) =
    let shown = present_skill context skill in
    let rest = list_session_skill_policies context skills in
    if is_denied shown.decision then rest else shown ∷ rest
