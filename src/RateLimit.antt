-- ===== src/RateLimit.antt =====
-- packages/database/src/request-rate-limit.ts: request counters in fixed windows. The table is a
-- map from hashed keys to counters; `now()` is the transaction's time, in microseconds. SHA-256 is
-- the argument `hashed_key`. `limit` and `windowSeconds` are numbers of which only the positive
-- integers pass the guards.
pub mod Batch
pub mod Window
use wknowledge.Base.{
  ℕ, suc, ◌+◌, ◌-◌, ◌*◌, ◌/◌, max, Text, Bool, true, false, ◌||◌, Option, none, some, List, [], ◌∷◌,
  Result, ok, err, ◌>>=◌, ◌>>◌, reject_if, ltb, leb, ◌==◌, if◌then◌else◌, get, set, has, length,
}

pub record RateLimitInput : Type 0 where
  pub scope : Text
  pub subject : Text
  pub limit : ℕ
  pub window_seconds : ℕ

pub record Counter : Type 0 where
  pub window_started_at : ℕ
  pub count : ℕ
  pub updated_at : ℕ

pub data RateLimitError : Type 0 where
  rate_limit_invalid : RateLimitError

-- What throws inside the transaction of a batch: `RateLimitExceeded`.
pub record RateLimitExceeded : Type 0 where
  pub retry_after_seconds : ℕ
  pub scope : Text

pub record BatchResult : Type 0 where
  pub allowed : Bool
  pub retry_after_seconds : ℕ
  pub denied_scope : Option Text

abbrev pub interval : ℕ → ℕ
interval seconds = seconds * 1000000

-- `window_started_at <= now() - window`: the window is over.
abbrev pub is_over : ℕ → ℕ → Counter → Bool
is_over now window c = leb (c.window_started_at + interval window) now

-- The row that `INSERT ... ON CONFLICT (key) DO UPDATE` leaves.
unfoldable pub next_counter : ℕ → ℕ → Option Counter → Counter
next_counter now window none = record { window_started_at = now; count = 1; updated_at = now }
next_counter now window (some c) = record {
  window_started_at = if is_over now window c then now else c.window_started_at;
  count = if is_over now window c then 1 else c.count + 1;
  updated_at = now;
}

-- `GREATEST(1, CEIL(EXTRACT(EPOCH FROM (window_started_at + window - now()))))`
unfoldable pub retry_after : ℕ → ℕ → Counter → ℕ
retry_after now window c = max 1 ((c.window_started_at + interval window - now + 999999) / 1000000)

abbrev pub Counters : Type 0
Counters = List (Text × Counter)

module _ (hashed_key : Text → Text → Text) where
  unfoldable pub consume : ℕ → RateLimitInput → Counters → Counters × Counter
  unfolding next_counter
  consume now input counters =
      let key = hashed_key input.scope input.subject in
      let counter = next_counter now input.window_seconds (get key counters) in
      (set key counter counters, counter)

  unfoldable pub input_invalid : RateLimitInput → Bool
  input_invalid input = ltb input.limit 1 || ltb input.window_seconds 1

  -- The loop over the inputs that checks them; `keys` are those seen.
  unfoldable pub check_inputs : List Text → List RateLimitInput → Result RateLimitError (Unit {0})
  unfolding input_invalid
  check_inputs keys [] = ok tt
  check_inputs keys (input ∷ inputs) =
      let key = hashed_key input.scope input.subject in
      let rest = check_inputs (key ∷ keys) inputs in
      if input_invalid input
      then err rate_limit_invalid
      else if has key keys
      then err rate_limit_invalid
      else rest

  -- The loop inside the transaction.
  unfoldable pub consume_loop :
      ℕ → List RateLimitInput → Counters → Result RateLimitExceeded Counters
  unfolding consume retry_after
  consume_loop now [] counters = ok counters
  consume_loop now (input ∷ inputs) counters =
      let (counters', counter) = consume now input counters in
      let rest = consume_loop now inputs counters' in
      if ltb input.limit counter.count
      then err (record {
        retry_after_seconds = retry_after now input.window_seconds counter;
        scope = input.scope;
      })
      else rest

  -- An exception rolls the transaction back: the counters are as before.
  unfoldable pub transact : ℕ → List RateLimitInput → Counters → Counters × BatchResult
  unfolding consume_loop
  transact now inputs counters = elim (consume_loop now inputs counters) [
    | ok counters' ↦
        (counters', record { allowed = true; retry_after_seconds = 0; denied_scope = none })
    | err e ↦ (
      counters,
      record {
        allowed = false;
        retry_after_seconds = e.retry_after_seconds;
        denied_scope = some e.scope;
      },
    )
  ]

  unfoldable pub consume_request_rate_limits :
      ℕ → List RateLimitInput → Counters → Result RateLimitError (Counters × BatchResult)
  unfolding check_inputs transact
  consume_request_rate_limits now inputs counters = do
    reject_if (length inputs == 0 || ltb 16 (length inputs)) rate_limit_invalid
    _ ← check_inputs [] inputs
    ok (transact now inputs counters)

  -- `consumeRequestRateLimit`: one statement, outside any transaction of its own.
  unfoldable pub consume_request_rate_limit :
      ℕ → RateLimitInput → Counters → Result RateLimitError (Counters × (Bool × ℕ))
  unfolding consume retry_after input_invalid
  consume_request_rate_limit now input counters =
      let (counters', counter) = consume now input counters in
      if input_invalid input
      then err rate_limit_invalid
      else ok
          (counters', (leb counter.count input.limit, retry_after now input.window_seconds counter))
