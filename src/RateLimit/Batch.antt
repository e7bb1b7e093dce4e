-- ===== src/RateLimit/Batch.antt =====
-- A batch of limits is taken whole or not at all.
use wknowledge.Base.{
  any, ℕ, ◌≤◌, ◌≡◌, ◌⊎◌, refl, sym, ◌∙◌, ap, subst, Text, Bool, true, false, ◌||◌, Option, some,
  List, [], ◌∷◌, Bool-cases, inl, inr, get, set, get-set, get-set_self, has, arith, All, All-zip,
  ok, ok-injective, Result-cases, >>=-eq-ok, reject_if, ◌==◌, length, if◌then◌else◌, ◌===◌,
  ===_sound, ===_refl, ===_complete, ltb,
}
use wknowledge.RateLimit.{
  RateLimitInput, Counter, Counters, rate_limit_invalid, BatchResult, next_counter, input_invalid,
  check_inputs, consume_loop, transact, consume_request_rate_limits,
}

module _ (hashed_key : Text → Text → Text) where
  abbrev pub key_of : RateLimitInput → Text
  key_of input = hashed_key input.scope input.subject

  apart :
      (keys : List Text) (k j : Text) → has j keys ≡ false → has k keys ≡ true → (j === k) ≡ false
  apart keys k j fresh seen = elim (Bool-cases (j === k)) [
    | inr other ↦ other
    | inl same ↦
        let clash = sym seen ∙ subst (λ i. has i keys ≡ false) (===_sound j k same) fresh in
        cc clash
  ]

  or_true : (b : Bool) → (b || true) ≡ true
  or_true true = refl
  or_true false = refl

  -- The keys of checked inputs differ from those seen before.
  check_inputs-apart :
      (keys : List Text) (inputs : List RateLimitInput) (k : Text)
      → check_inputs hashed_key keys inputs ≡ ok tt
      → has k keys ≡ true
      → All (λ i. (key_of i === k) ≡ false) inputs
  unfolding check_inputs has
  check_inputs-apart keys [] k h seen = tt
  check_inputs-apart keys (i ∷ is) k h seen = elim (Bool-cases (input_invalid hashed_key i)) [
    | inl bad ↦ let e = rw (check_inputs, bad) at h in cc e
    | inr fine ↦ elim (Bool-cases (has (key_of i) keys)) [
      | inl twice ↦ let e = rw (check_inputs, fine) at h in let d = rw twice at e in cc d
      | inr fresh ↦
          let rest = rw (check_inputs, fine) at h in
          let rest' : check_inputs hashed_key (key_of i ∷ keys) is ≡ ok tt = rw fresh at rest in
          (
            apart keys k (key_of i) fresh seen,
            check_inputs-apart (key_of i ∷ keys) is k rest' (rw seen (or_true (key_of i === k))),
          )
    ]
  ]

  check_inputs-rest :
      (keys : List Text) (i : RateLimitInput) (is : List RateLimitInput)
      → check_inputs hashed_key keys (i ∷ is) ≡ ok tt
      → check_inputs hashed_key (key_of i ∷ keys) is ≡ ok tt
  unfolding check_inputs
  check_inputs-rest keys i is h = elim (Bool-cases (input_invalid hashed_key i)) [
    | inl bad ↦ let e = rw (check_inputs, bad) at h in cc e
    | inr fine ↦ elim (Bool-cases (has (key_of i) keys)) [
      | inl twice ↦ let e = rw (check_inputs, fine) at h in let d = rw twice at e in cc d
      | inr fresh ↦ let e = rw (check_inputs, fine) at h in rw fresh at e
    ]
  ]

  has_self : (k : Text) (keys : List Text) → has k (k ∷ keys) ≡ true
  unfolding has
  has_self k keys = rw (===_refl k) refl

  ===_flip : (j k : Text) → (j === k) ≡ false → (k === j) ≡ false
  ===_flip j k h = elim (Bool-cases (k === j)) [
    | inr other ↦ other
    | inl same ↦ let clash = sym (===_complete j k (sym (===_sound k j same))) ∙ h in cc clash
  ]

  -- One round of the loop that does not throw.
  consume_loop-cons :
      (now : ℕ) (i : RateLimitInput) (is : List RateLimitInput) (counters counters' : Counters)
      → consume_loop hashed_key now (i ∷ is) counters ≡ ok counters'
      → let counter = next_counter now i.window_seconds (get (key_of i) counters) in
        (counter.count ≤ i.limit)
        × (consume_loop hashed_key now is (set (key_of i) counter counters) ≡ ok counters')
  unfolding consume_loop
  consume_loop-cons now i is counters counters' e =
      let counter = next_counter now i.window_seconds (get (key_of i) counters) in
      elim (Bool-cases (ltb i.limit counter.count)) [
        | inl over ↦ let d = rw (consume_loop, over) at e in cc d
        | inr within ↦ (ground arith, rw (consume_loop, within) at e)
      ]

  -- A key that no input has keeps its counter.
  consume_loop-other :
      (now : ℕ) (inputs : List RateLimitInput) (counters counters' : Counters) (k : Text)
      → All (λ i. (key_of i === k) ≡ false) inputs
      → consume_loop hashed_key now inputs counters ≡ ok counters'
      → get k counters' ≡ get k counters
  unfolding consume_loop
  consume_loop-other now [] counters counters' k h e =
      ap (get k) (sym (ok-injective counters counters' e))
  consume_loop-other now (i ∷ is) counters counters' k h e =
      let counter = next_counter now i.window_seconds (get (key_of i) counters) in
      consume_loop-other now is (set (key_of i) counter counters) counters' k h.1
        (consume_loop-cons now i is counters counters' e).1
      ∙ get-set (key_of i) k counter counters
      ∙ ap (λ b. if b then some counter else get k counters) h.0

  -- The input's counter went one step, and is within the limit.
  abbrev pub IsTaken : ℕ → Counters → Counters → RateLimitInput → Type 0
  IsTaken now counters counters' i =
      let counter = next_counter now i.window_seconds (get (key_of i) counters) in
      (get (key_of i) counters' ≡ some counter) × (counter.count ≤ i.limit)

  consume_loop-IsTaken :
      (now : ℕ) (keys : List Text) (inputs : List RateLimitInput) (counters counters' : Counters)
      → check_inputs hashed_key keys inputs ≡ ok tt
      → consume_loop hashed_key now inputs counters ≡ ok counters'
      → All (IsTaken now counters counters') inputs
  consume_loop-IsTaken now keys [] counters counters' h e = tt
  consume_loop-IsTaken now keys (i ∷ is) counters counters' h e =
      let counter = next_counter now i.window_seconds (get (key_of i) counters) in
      let (within, rest) = consume_loop-cons now i is counters counters' e in
      let checked = check_inputs-rest keys i is h in
      let others =
        check_inputs-apart (key_of i ∷ keys) is (key_of i) checked (has_self (key_of i) keys) in
      (
        (
          consume_loop-other now is (set (key_of i) counter counters) counters' (key_of i) others
                rest
              ∙ get-set_self (key_of i) counter counters,
          within,
        ),
        All-zip is
            (λ j far taken.
              let same =
                get-set (key_of i) (key_of j) counter counters
                ∙ ap (λ b. if b then some counter else get (key_of j) counters)
                    (===_flip (key_of j) (key_of i) far) in
              subst
                (λ (o : Option Counter).
                  (get (key_of j) counters' ≡ some (next_counter now j.window_seconds o))
                  × ((next_counter now j.window_seconds o).count ≤ j.limit))
                same taken)
            others (consume_loop-IsTaken now (key_of i ∷ keys) is _ counters' checked rest),
      )

  transact-cases :
      (now : ℕ) (inputs : List RateLimitInput) (counters counters' : Counters) (r : BatchResult)
      → check_inputs hashed_key [] inputs ≡ ok tt
      → transact hashed_key now inputs counters ≡ (counters', r)
      → ((r.allowed ≡ true)
          × All (IsTaken now counters counters') inputs
          × ((k : Text)
              → All (λ i. (key_of i === k) ≡ false) inputs
              → get k counters' ≡ get k counters))
        ⊎ ((r.allowed ≡ false) × (counters' ≡ counters))
  unfolding transact
  transact-cases now inputs counters counters' r h e =
      elim (Result-cases (consume_loop hashed_key now inputs counters)) [
        | inl (last, passed) ↦
            let d = rw (transact, passed) at e in
            let same : last ≡ counters' = ap (λ (x : Counters × BatchResult). x.0) d in
            let passed' = rw same at passed in
            inl (
              ap (λ (x : Counters × BatchResult). x.1.allowed) (sym d),
              consume_loop-IsTaken now [] inputs counters counters' h passed',
              λ k far. consume_loop-other now inputs counters counters' k far passed',
            )
        | inr (thrown, over) ↦
            let d = rw (transact, over) at e in
            inr (
              ap (λ (x : Counters × BatchResult). x.1.allowed) (sym d),
              ap (λ (x : Counters × BatchResult). x.0) (sym d),
            )
      ]

  any-All : {A : Type 0} (p : A → Bool) (xs : List A) → any p xs ≡ false → All (λ x. p x ≡ false) xs
  any-All p [] h = tt
  any-All p (x ∷ xs) h = (ground arith, any-All p xs (ground arith))

  -- A batch that the guards let through is allowed, and then the counter of each of its inputs has
  -- gone one step, is within the input's limit, and no other counter has changed; or it is denied,
  -- and then no counter has changed.
  pub batch_is_atomic :
      (now : ℕ) (inputs : List RateLimitInput) (counters counters' : Counters) (r : BatchResult)
      → consume_request_rate_limits hashed_key now inputs counters ≡ ok (counters', r)
      → ((r.allowed ≡ true)
          × All (IsTaken now counters counters') inputs
          × ((k : Text)
              → (any (λ i. key_of i === k) inputs ≡ true) ⊎ (get k counters' ≡ get k counters)))
        ⊎ ((r.allowed ≡ false) × (counters' ≡ counters))
  unfolding consume_request_rate_limits
  batch_is_atomic now inputs counters counters' r h =
      let (_, _, checked) =
        >>=-eq-ok (reject_if (length inputs == 0 || ltb 16 (length inputs)) rate_limit_invalid) _
          h in
      let (_, apart, done) = >>=-eq-ok (check_inputs hashed_key [] inputs) _ checked in
      let e = ok-injective (transact hashed_key now inputs counters) (counters', r) done in
      elim (transact-cases now inputs counters counters' r apart e) [
        | inr denied ↦ inr denied
        | inl (allowed, taken, others) ↦ inl (
          allowed,
          taken,
          λ k. elim (Bool-cases (any (λ i. key_of i === k) inputs)) [
            | inl named ↦ inl named
            | inr far ↦ inr (others k (any-All (λ i. key_of i === k) inputs far))
          ],
        )
      ]
