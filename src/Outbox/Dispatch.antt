-- ===== src/Outbox/Dispatch.antt =====
-- What a dispatch leaves of the outbox.
use wknowledge.Base.{
  ℕ, zero, suc, ◌+◌, ◌≤◌, ◌≡◌, ◌⊎◌, refl, subst, Text, Bool, true, false, ◌||◌, ◌&&◌, Option, List,
  [], ◌∷◌, inl, inr, arith, ok, err, Result, Bool-cases, Option-cases, Result-cases, keep,
  ok-injective, ltb, ◌===◌,
}
use wknowledge.Outbox.{
  OutboxStatus, sent, discarded, OutboxRow, Tables, Counts, OutboxError, Message, is_dispatching,
  holds_token, is_dispatchable, is_for, update_rows, first_row, is_claimed, message_of, is_waiting,
  find_job, Turn, breaks, continues, throws, publish_message, send_claimed, handle_claimed,
  is_claimable, dispatch_turn, dispatch_loop, dispatch_pending_processing_outbox, no_counts,
  earliest, dispatch_lease_expiry, claim_patch, discard_patch, sent_patch, retry_patch,
}

abbrev pub IsIn : OutboxRow → List OutboxRow → Type 0
IsIn row [] = true ≡ false
IsIn row (r ∷ rows) = (row ≡ r) ⊎ IsIn row rows

abbrev pub is_settled : OutboxStatus → Bool
is_settled sent = true
is_settled discarded = true
is_settled _ = false

update_rows-IsIn :
    (meets : OutboxRow → Bool) (patch : OutboxRow → OutboxRow) (row : OutboxRow)
    (rows : List OutboxRow)
    → meets row ≡ false
    → IsIn row rows
    → IsIn row (update_rows meets patch rows)
unfolding update_rows
update_rows-IsIn meets patch row [] apart i = i
update_rows-IsIn meets patch row (r ∷ rows) apart (inl same) =
    let apart' : meets r ≡ false = subst (λ x. meets x ≡ false) same apart in inl (rw apart' same)
update_rows-IsIn meets patch row (r ∷ rows) apart (inr i) =
    inr (update_rows-IsIn meets patch row rows apart i)

settled-not_claimed :
    (id token : Text) (row : OutboxRow)
    → is_settled row.status ≡ true
    → is_claimed id token row ≡ false
unfolding is_claimed
settled-not_claimed id token row h = elim (Bool-cases (row.id === id)) [
  | inl e ↦ rw e (not_dispatching row.status h)
  | inr e ↦ rw e refl
]
  where
    not_dispatching :
        (st : OutboxStatus)
        → is_settled st ≡ true
        → (is_dispatching st && holds_token token row.dispatch_token) ≡ false
    not_dispatching st h = ground arith

settled-not_claimable :
    (candidate : OutboxRow) (now : ℕ) (job : Option Text) (row : OutboxRow)
    → is_settled row.status ≡ true
    → is_claimable candidate now job row ≡ false
unfolding is_claimable is_dispatchable
settled-not_claimable candidate now job row h = ground arith

-- A turn adds at most one to the counts, and keeps a settled row.
abbrev total : Counts → ℕ
total c = c.dispatched + c.discarded + c.failed

abbrev Good : OutboxRow → Counts → Turn → Type 0
Good row c (breaks t c') = IsIn row t.outbox × (total c' ≤ suc (total c))
Good row c (continues t c') = IsIn row t.outbox × (total c' ≤ suc (total c))
Good row c (throws e) = Unit

send_claimed-Good :
    (publish : Message → Option Text) (claimed : OutboxRow) (token : Text) (now : ℕ) (t : Tables)
    (c : Counts) (row : OutboxRow)
    → is_settled row.status ≡ true
    → IsIn row t.outbox
    → Good row c (send_claimed publish claimed token now t c)
unfolding send_claimed
send_claimed-Good publish claimed token now t c row h i =
    let out = settled-not_claimed claimed.id token row h in
    elim (Option-cases (publish_message publish (message_of claimed))) [
      | inl e ↦ rw (Good, e) (update_rows-IsIn _ (retry_patch now) row t.outbox out i, omega arith)
      | inr (q, e) ↦ elim (Option-cases (first_row (is_claimed claimed.id token) t.outbox)) [
        | inl e2 ↦ rw (Good, e, e2) (i, omega arith)
        | inr (r, e2) ↦
            rw (Good, e, e2) (update_rows-IsIn _ (sent_patch q now) row t.outbox out i, omega arith)
      ]
    ]

handle_claimed-Good :
    (publish : Message → Option Text) (claimed : OutboxRow) (token : Text) (now : ℕ) (t : Tables)
    (c : Counts) (row : OutboxRow)
    → is_settled row.status ≡ true
    → IsIn row t.outbox
    → Good row c (handle_claimed publish claimed token now t c)
unfolding handle_claimed
handle_claimed-Good publish claimed token now t c row h i =
    elim (Bool-cases (is_waiting (find_job claimed.processing_job_id t.jobs))) [
      | inl e ↦ rw (Good, e) (send_claimed-Good publish claimed token now t c row h i)
      | inr e ↦ rw e (
        update_rows-IsIn _ (discard_patch now) row t.outbox
            (settled-not_claimed claimed.id token row h) i,
        omega arith,
      )
    ]

dispatch_turn-Good :
    (publish : Message → Option Text) (token : Text) (now lease_ms : ℕ) (job : Option Text)
    (t : Tables) (c : Counts) (row : OutboxRow)
    → is_settled row.status ≡ true
    → IsIn row t.outbox
    → Good row c (dispatch_turn publish token now lease_ms job t c)
unfolding dispatch_turn
dispatch_turn-Good publish token now lease_ms job t c row h i =
    elim (Option-cases (earliest (keep (λ r. is_dispatchable now r && is_for job r) t.outbox))) [
      | inl e ↦ rw (Good, e) (i, omega arith)
      | inr (candidate, e) ↦ elim (Result-cases (dispatch_lease_expiry lease_ms now)) [
        | inr (x, e2) ↦ rw (Good, e, e2) tt
        | inl (expiry, e2) ↦
            elim (Option-cases (first_row (is_claimable candidate now job) t.outbox)) [
              | inl e3 ↦ rw (Good, e, e2, e3) (i, omega arith)
              | inr (r, e3) ↦
                  rw (Good, e, e2, e3)
                    (handle_claimed-Good publish _ token now _ c row h (
                      update_rows-IsIn _ (claim_patch candidate token expiry now) row t.outbox
                        (settled-not_claimable candidate now job row h) i))
            ]
      ]
    ]

dispatch_loop-keeps :
    (publish : ℕ → Message → Option Text) (token : ℕ → Text) (clock : ℕ → ℕ) (lease_ms : ℕ)
    (job : Option Text) (left index : ℕ) (t t' : Tables) (c c' : Counts) (row : OutboxRow)
    → is_settled row.status ≡ true
    → IsIn row t.outbox
    → dispatch_loop publish token clock lease_ms job left index t c ≡ ok (t', c')
    → IsIn row t'.outbox × (total c' ≤ total c + left)
unfolding dispatch_loop
dispatch_loop-keeps publish token clock lease_ms job zero index t t' c c' row s i h =
    let e = ok-injective (t, c) (t', c') h in
    subst (λ (x : Tables × Counts). IsIn row x.0.outbox × (total x.1 ≤ total c + 0)) e
      (i, omega arith)
dispatch_loop-keeps publish token clock lease_ms job (suc left) index t t' c c' row s i h =
    next (dispatch_turn (publish index) (token index) (clock index) lease_ms job t c)
      (dispatch_turn-Good (publish index) (token index) (clock index) lease_ms job t c row s i)
      (λ t1 c1 i1 g.
        dispatch_loop-keeps publish token clock lease_ms job left (suc index) t1 t' c1 c' row s i1
          g)
      h
  where
    next :
        (turn : Turn)
        → Good row c turn
        → ((t1 : Tables) (c1 : Counts)
            → IsIn row t1.outbox
            → dispatch_loop publish token clock lease_ms job left (suc index) t1 c1 ≡ ok (t', c')
            → IsIn row t'.outbox × (total c' ≤ total c1 + left))
        → (elim turn as (λ _. Result OutboxError (Tables × Counts)) [
          | throws e ↦ err e
          | breaks t1 c1 ↦ ok (t1, c1)
          | continues t1 c1 ↦ dispatch_loop publish token clock lease_ms job left (suc index) t1 c1
        ])
          ≡ ok (t', c')
        → IsIn row t'.outbox × (total c' ≤ total c + suc left)
    next (throws e) good more g = cc g
    next (breaks t1 c1) (i1, b) more g =
        let e = ok-injective (t1, c1) (t', c') g in
        subst (λ (x : Tables × Counts). IsIn row x.0.outbox × (total x.1 ≤ total c + suc left)) e
          (i1, omega (arith, b))
    next (continues t1 c1) (i1, b) more g =
        let (i2, b2) = more t1 c1 i1 g in (i2, omega (arith, b, b2))

-- A dispatch that returns leaves every row that was sent or discarded exactly as it was, and its
-- three counts together do not exceed the limit, whatever the queue answers and the clock reads.
pub dispatch-keeps_settled :
    (publish : ℕ → Message → Option Text) (token : ℕ → Text) (clock : ℕ → ℕ) (limit lease_ms : ℕ)
    (job : Option Text) (tables tables' : Tables) (counts : Counts) (row : OutboxRow)
    → is_settled row.status ≡ true
    → IsIn row tables.outbox
    → dispatch_pending_processing_outbox publish token clock limit lease_ms job tables
      ≡ ok (tables', counts)
    → IsIn row tables'.outbox × (counts.dispatched + counts.discarded + counts.failed ≤ limit)
unfolding dispatch_pending_processing_outbox
dispatch-keeps_settled publish token clock limit lease_ms job tables tables' counts row s i h =
    elim (Bool-cases (ltb limit 1 || ltb 100 limit)) [
      | inl bad ↦ let e = rw bad at h in cc e
      | inr good ↦
          let (kept, bound) =
            dispatch_loop-keeps publish token clock lease_ms job limit 0 tables tables' no_counts
              counts row s i (rw good at h) in
          (kept, omega (arith, bound))
    ]
