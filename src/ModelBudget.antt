-- ===== src/ModelBudget.antt =====
-- packages/core/src/model-invocation-budget.ts: `createModelInvocationBudgetGuard` over the rate
-- limits; the environment's limits are an argument.
pub mod Charge
use wknowledge.Base.{
  ℕ, Text, units, Bool, true, false, Option, none, some, List, [], ◌∷◌, ◌++◌, Result, ok, err,
  if◌then◌else◌, ◌===◌,
}
use wknowledge.JobQueue.Memory.{is_empty}
use wknowledge.RateLimit.{RateLimitInput, Counters, BatchResult, consume_request_rate_limits}

pub record BudgetLimits : Type 0 where
  pub organization_daily_limit : ℕ
  pub provider_daily_limit : ℕ
  pub user_daily_limit : ℕ

pub data BudgetError : Type 0 where
  budget_limit_invalid model_provider_budget_exceeded model_budget_exceeded : BudgetError

abbrev pub day_seconds : ℕ
day_seconds = 86400

abbrev pub provider_scope : Text
provider_scope = units "model.invocation.provider.day"

-- `${organizationId}:${id}`
abbrev pub within : Text → Text → Text
within organization_id id = organization_id ++ (b':' ∷ id)

abbrev pub entry : Text → Text → ℕ → RateLimitInput
entry scope subject limit = record {
  scope = scope;
  subject = subject;
  limit = limit;
  window_seconds = day_seconds;
}

-- The entry of the user, if there is one.
abbrev pub user_entry : BudgetLimits → Text → Option Text → List RateLimitInput
user_entry limits organization_id none = []
user_entry limits organization_id (some user_id) =
    if is_empty user_id
    then []
    else entry (units "model.invocation.user.day") (within organization_id user_id)
        limits.user_daily_limit
      ∷ []

unfoldable pub budget_entries : BudgetLimits → Text → Option Text → Text → List RateLimitInput
budget_entries limits organization_id user_id provider_id =
    entry (units "model.invocation.organization.day") organization_id
      limits.organization_daily_limit
    ∷ entry provider_scope (within organization_id provider_id) limits.provider_daily_limit
    ∷ user_entry limits organization_id user_id

abbrev pub is_provider_scope : Option Text → Bool
is_provider_scope none = false
is_provider_scope (some scope) = scope === provider_scope

unfoldable pub verdict : BatchResult → Result BudgetError (Unit {0})
verdict result =
    if result.allowed
    then ok tt
    else if is_provider_scope result.denied_scope
    then err model_provider_budget_exceeded
    else err model_budget_exceeded

-- The guard, with the counters that it leaves.
unfoldable pub guard :
    (hashed_key : Text → Text → Text)
    → BudgetLimits
    → Text
    → Option Text
    → Text
    → ℕ
    → Counters
    → Counters × Result BudgetError (Unit {0})
guard hashed_key limits organization_id user_id provider_id now counters =
    elim (consume_request_rate_limits hashed_key now
      (budget_entries limits organization_id user_id provider_id) counters) [
        | err e ↦ (counters, err budget_limit_invalid)
        | ok (counters', result) ↦ (counters', verdict result)
      ]

abbrev pub default_limits : BudgetLimits
default_limits = record {
  organization_daily_limit = 600;
  provider_daily_limit = 300;
  user_daily_limit = 60;
}
