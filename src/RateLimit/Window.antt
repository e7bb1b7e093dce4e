-- ===== src/RateLimit/Window.antt =====
-- How many requests of one subject pass in one window, when they come one by one.
use Prim.Native.Nat.{min}
use wknowledge.Base.{
  ℕ, suc, ◌+◌, ◌≤◌, ◌<◌, ◌≡◌, refl, Text, Bool, true, false, Option, none, some, List, [], ◌∷◌,
  Bool-cases, Option-cases, inl, inr, get, set, get-set_self, arith, All, ok, err, length, leb,
  leb→le, le→leb, if◌then◌else◌,
}
use wknowledge.RateLimit.{
  RateLimitInput, Counter, Counters, interval, is_over, next_counter, retry_after, input_invalid,
  consume_request_rate_limit,
}

module _ (hashed_key : Text → Text → Text) (input : RateLimitInput) where
  -- How many of the requests at these times are allowed.
  pub count_allowed : List ℕ → Counters → ℕ
  count_allowed [] counters = 0
  count_allowed (t ∷ ts) counters = elim (consume_request_rate_limit hashed_key t input counters) [
    | err e ↦ count_allowed ts counters
    | ok (counters', result) ↦ (if result.0 then 1 else 0) + count_allowed ts counters'
  ]

  abbrev key : Text
  key = hashed_key input.scope input.subject

  -- No window of this subject runs at the time.
  abbrev pub no_window : ℕ → Option Counter → Bool
  no_window now none = true
  no_window now (some c) = is_over now input.window_seconds c

  -- One request while a window runs.
  consume_running :
      (t : ℕ) (counters : Counters) (c : Counter)
      → input_invalid hashed_key input ≡ false
      → get key counters ≡ some c
      → t < c.window_started_at + interval input.window_seconds
      → let c' = record c { count = c.count + 1; updated_at = t } in
        consume_request_rate_limit hashed_key t input counters
        ≡ ok (
          set key c' counters,
          (leb (c.count + 1) input.limit, retry_after t input.window_seconds c'),
        )
  unfolding consume_request_rate_limit
  consume_running t counters c fine e h =
      let early : is_over t input.window_seconds c ≡ false = ground arith in
      rw (fine, e, next_counter) (rw early refl)

  count_allowed-within :
      (ts : List ℕ) (counters : Counters) (c : Counter)
      → input_invalid hashed_key input ≡ false
      → get key counters ≡ some c
      → All (λ t. t < c.window_started_at + interval input.window_seconds) ts
      → count_allowed ts counters + min c.count input.limit ≡ min (c.count + length ts) input.limit
  unfolding count_allowed
  count_allowed-within [] counters c fine e h = omega arith
  count_allowed-within (t ∷ ts) counters c fine e h =
      let c' = record c { count = c.count + 1; updated_at = t } in
      let later =
        count_allowed-within ts (set key c' counters) c' fine (get-set_self key c' counters) h.1 in
      rw (count_allowed, consume_running t counters c fine e h.0)
        (elim (Bool-cases (leb (c.count + 1) input.limit)) [
          | inl pass ↦
              rw pass (let p : c.count + 1 ≤ input.limit = leb→le _ _ pass in omega (arith, later))
          | inr full ↦
              rw full (let p : input.limit ≤ c.count = ground arith in omega (arith, later))
        ])

  -- The request that opens a window.
  consume_opening :
      (t : ℕ) (counters : Counters)
      → input_invalid hashed_key input ≡ false
      → no_window t (get key counters) ≡ true
      → let first : Counter = record { window_started_at = t; count = 1; updated_at = t } in
        consume_request_rate_limit hashed_key t input counters
        ≡ ok (set key first counters, (leb 1 input.limit, retry_after t input.window_seconds first))
  unfolding consume_request_rate_limit
  consume_opening t counters fine idle = elim (Option-cases (get key counters)) [
    | inl fresh ↦ rw (fine, fresh, next_counter) refl
    | inr (c, e) ↦
        let over : is_over t input.window_seconds c ≡ true = rw e at idle in
        rw (fine, e, next_counter) (rw over refl)
  ]

  -- When no window of the subject runs at `t`, then of the requests at `t` and at any later times
  -- before `t` plus the window exactly the first `limit` are allowed.
  pub count_allowed-window :
      (t : ℕ) (ts : List ℕ) (counters : Counters)
      → input_invalid hashed_key input ≡ false
      → no_window t (get key counters) ≡ true
      → All (λ u. u < t + interval input.window_seconds) ts
      → count_allowed (t ∷ ts) counters ≡ min (suc (length ts)) input.limit
  unfolding count_allowed input_invalid
  count_allowed-window t ts counters fine idle h =
      let first : Counter = record { window_started_at = t; count = 1; updated_at = t } in
      let later =
        count_allowed-within ts (set key first counters) first fine
          (get-set_self key first counters) h in
      rw (count_allowed, consume_opening t counters fine idle)
        (let positive : 1 ≤ input.limit = ground arith in
          let pass : leb 1 input.limit ≡ true = le→leb 1 input.limit positive in
          rw pass (omega (arith, later)))
