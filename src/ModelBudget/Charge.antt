-- ===== src/ModelBudget/Charge.antt =====
-- What a call of a model is charged.
use wknowledge.Base.{
  ◌≤◌, ◌++◌, ◌∷◌, [], units, get, none, some, ℕ, ◌≡◌, ◌≢◌, ◌⊎◌, refl, Text, Bool, true, false,
  Option, Result, ok, err, Result-cases, All, inl, inr, if◌then◌else◌,
}
use wknowledge.RateLimit.{next_counter, Counters, BatchResult, consume_request_rate_limits}
use wknowledge.RateLimit.Batch.{IsTaken, batch_is_atomic}
use wknowledge.ModelBudget.{
  BudgetLimits, user_entry, BudgetError, budget_entries, is_provider_scope, verdict, guard,
  model_provider_budget_exceeded, model_budget_exceeded,
}

-- The counter of this scope and subject has taken one step of a day's window, within the limit.
abbrev pub IsCharged :
    (Text → Text → Text) → ℕ → Counters → Counters → (scope subject : Text) → ℕ → Type 0
IsCharged hashed_key now counters counters' scope subject limit =
    let counter = next_counter now 86400 (get (hashed_key scope subject) counters) in
    (get (hashed_key scope subject) counters' ≡ some counter) × (counter.count ≤ limit)

-- No user and the empty id have no counter.
abbrev pub IsUserCharged :
    (Text → Text → Text)
    → ℕ
    → Counters
    → Counters
    → (organization_id : Text) → Option Text
    → ℕ
    → Type 0
IsUserCharged hashed_key now counters counters' organization_id none limit = Unit
IsUserCharged hashed_key now counters counters' organization_id (some []) limit = Unit
IsUserCharged hashed_key now counters counters' organization_id (some (c ∷ id)) limit =
    IsCharged hashed_key now counters counters' (units "model.invocation.user.day")
      (organization_id ++ (b':' ∷ c ∷ id)) limit

abbrev pub Charged :
    (Text → Text → Text)
    → BudgetLimits
    → Text
    → Option Text
    → Text
    → ℕ
    → Counters
    → Counters × Result BudgetError (Unit {0})
    → Type 0
Charged hashed_key limits organization_id user_id provider_id now counters after =
    ((after.1 ≡ ok tt)
      × IsCharged hashed_key now counters after.0 (units "model.invocation.organization.day")
          organization_id limits.organization_daily_limit
      × IsCharged hashed_key now counters after.0 (units "model.invocation.provider.day")
          (organization_id ++ (b':' ∷ provider_id)) limits.provider_daily_limit
      × IsUserCharged hashed_key now counters after.0 organization_id user_id
          limits.user_daily_limit)
    ⊎ ((after.1 ≢ ok tt) × (after.0 ≡ counters))

user-IsCharged :
    (hashed_key : Text → Text → Text) (limits : BudgetLimits) (organization_id : Text)
    (user_id : Option Text) (now : ℕ) (counters counters' : Counters)
    → All (IsTaken hashed_key now counters counters') (user_entry limits organization_id user_id)
    → IsUserCharged hashed_key now counters counters' organization_id user_id
        limits.user_daily_limit
user-IsCharged hashed_key limits organization_id none now counters counters' h = tt
user-IsCharged hashed_key limits organization_id (some []) now counters counters' h = tt
user-IsCharged hashed_key limits organization_id (some (c ∷ id)) now counters counters' h = h.0

passes : (r : BatchResult) → r.allowed ≡ true → verdict r ≡ ok tt
unfolding verdict
passes r a = rw a refl

refuses : (r : BatchResult) → r.allowed ≡ false → verdict r ≢ ok tt
unfolding verdict
refuses r d e = throws (is_provider_scope r.denied_scope) (rw d at e)
  where
    throws :
        (b : Bool)
        → ◌≡◌ {A = Result BudgetError (Unit {0})}
            (if b then err model_provider_budget_exceeded else err model_budget_exceeded)
            (ok tt)
        → ⊥
    throws true e = cc
    throws false e = cc

-- A call that the guard lets through has taken one step of the organization's, the provider's and, if
-- there is a user, the user's counter of the day, each within its limit; a call that it refuses, for whatever
-- reason, leaves all counters as they were.
pub guard-Charged :
    (hashed_key : Text → Text → Text) (limits : BudgetLimits) (organization_id : Text)
    (user_id : Option Text) (provider_id : Text) (now : ℕ) (counters : Counters)
    → Charged hashed_key limits organization_id user_id provider_id now counters
        (guard hashed_key limits organization_id user_id provider_id now counters)
unfolding guard budget_entries
guard-Charged hashed_key limits organization_id user_id provider_id now counters =
    elim (Result-cases (
      consume_request_rate_limits hashed_key now
        (budget_entries limits organization_id user_id provider_id) counters)) [
          | inr (x, bad) ↦ rw (Charged, guard, bad) (inr ((λ e. cc e), refl))
          | inl ((counters', r), done) ↦
              elim (batch_is_atomic hashed_key now
                (budget_entries limits organization_id user_id provider_id) counters counters' r
                done) [
                  | inl (allowed, taken, _) ↦
                      rw (Charged, guard, done)
                        (inl (
                          passes r allowed,
                          taken.0,
                          taken.1.0,
                          user-IsCharged hashed_key limits organization_id user_id now counters
                              counters' taken.1.1,
                        ))
                  | inr (denied, same) ↦ rw (Charged, guard, done) (inr (refuses r denied, same))
                ]
        ]
