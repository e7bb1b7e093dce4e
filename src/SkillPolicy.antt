-- ===== src/SkillPolicy.antt =====
-- packages/skill-runtime/src/index.ts: `evaluateSkillPolicy` and `verifySkillPermission`. The
-- Chinese reason of a denial is a constructor here, one for each text.
pub mod Decisions
use wknowledge.Base.{
  Text, Bool, true, false, not, ◌||◌, ◌&&◌, Option, none, some, List, [], ◌∷◌, Result, ok, err,
  ◌>>=◌, ◌>>◌, reject_if, if◌then◌else◌, ◌==◌, has, get, any, length,
}

pub data Resources : Type 0 where
  no_resources selected whole_space : Resources

pub data Approval : Type 0 where
  never conditional always : Approval

pub record Permissions : Type 0 where
  pub resources : Resources
  pub approval : Approval

pub data BindingScope : Type 0 where
  space wiki_page resource_version course : BindingScope

pub data Decision : Type 0 where
  allow deny ask : Decision

pub data Reason : Type 0 where
  skill_disabled duplicate_binding foreign_binding bindings_not_needed bindings_needed : Reason
  no_binding_available whole_space_only runs_directly needs_confirmation : Reason

abbrev pub wants_none : Resources → Bool
wants_none no_resources = true
wants_none _ = false

abbrev pub wants_selected : Resources → Bool
wants_selected selected = true
wants_selected _ = false

abbrev pub wants_space : Resources → Bool
wants_space whole_space = true
wants_space _ = false

abbrev pub is_never : Approval → Bool
is_never never = true
is_never _ = false

abbrev pub is_always : Approval → Bool
is_always always = true
is_always _ = false

abbrev pub is_space_scope : Option BindingScope → Bool
is_space_scope (some space) = true
is_space_scope _ = false

abbrev pub is_empty {ℓ} : {A : Type ℓ} → List A → Bool
is_empty [] = true
is_empty (x ∷ xs) = false

-- `new Set(ids).size !== ids.length`
unfoldable pub has_duplicate : List Text → Bool
has_duplicate [] = false
has_duplicate (id ∷ ids) = has id ids || has_duplicate ids

-- `bindingScopes && requested.some((id) => bindingScopes.get(id) !== "space")`
unfoldable pub scope_too_narrow : Option (List (Text × BindingScope)) → List Text → Bool
scope_too_narrow none requested = false
scope_too_narrow (some scopes) requested =
    any (λ id. not (is_space_scope (get id scopes))) requested

unfoldable pub evaluate_skill_policy :
    Permissions
    → Bool
    → (active requested : List Text) → Option (List (Text × BindingScope))
    → Decision × Reason
evaluate_skill_policy permissions enabled active requested scopes =
    if not enabled
    then (deny, skill_disabled)
    else if has_duplicate requested
    then (deny, duplicate_binding)
    else if any (λ id. not (has id active)) requested
    then (deny, foreign_binding)
    else if wants_none permissions.resources && not (is_empty requested)
    then (deny, bindings_not_needed)
    else if wants_selected permissions.resources && is_empty requested
    then (deny, bindings_needed)
    else if wants_space permissions.resources && is_empty requested
    then (deny, no_binding_available)
    else if wants_space permissions.resources && scope_too_narrow scopes requested
    then (deny, whole_space_only)
    else if is_never permissions.approval
    then (allow, runs_directly)
    else (ask, needs_confirmation)

pub data PermissionError : Type 0 where
  skill_approval_required skill_resource_selection_required : PermissionError

unfoldable pub verify_skill_permission :
    Permissions
    → (approved : Bool) → (selected_resource_ids : List Text) → Result PermissionError (Unit {0})
verify_skill_permission permissions approved selected_resource_ids = do
  reject_if (is_always permissions.approval && not approved) skill_approval_required
  reject_if (wants_selected permissions.resources && is_empty selected_resource_ids)
      skill_resource_selection_required
