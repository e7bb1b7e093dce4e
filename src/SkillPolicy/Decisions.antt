-- ===== src/SkillPolicy/Decisions.antt =====
-- What a decision of `evaluate_skill_policy` says of the request.
use wknowledge.Base.{
  IsDistinct, ◌≡◌, ◌≢◌, refl, Text, Bool, true, false, not, ◌&&◌, Option, none, some, List, [], ◌∷◌,
  All, Bool-cases, has, any, get, inl, inr, ok, arith,
}
use wknowledge.SkillPolicy.{
  Permissions, Resources, no_resources, selected, whole_space, Approval, never, conditional, always,
  BindingScope, Decision, allow, deny, ask, has_duplicate, scope_too_narrow, evaluate_skill_policy,
  verify_skill_permission, is_space_scope, is_never, is_empty, wants_none, wants_selected,
  wants_space, is_always,
}

distinct_lem : (ids : List Text) → has_duplicate ids ≡ false → IsDistinct ids
unfolding has_duplicate
distinct_lem [] h = tt
distinct_lem (id ∷ ids) h = (ground arith, distinct_lem ids (ground arith))

any-not-All :
    (p : Text → Bool) (ids : List Text)
    → any (λ id. not (p id)) ids ≡ false
    → All (λ id. p id ≡ true) ids
any-not-All p [] h = tt
any-not-All p (id ∷ ids) h = (ground arith, any-not-All p ids (ground arith))

-- What the skill's manifest asks of the chosen bindings.
abbrev pub Suits : Resources → List Text → Type 0
Suits no_resources ids = ids ≡ []
Suits _ ids = ids ≢ []

abbrev pub SpansSpace : Resources → Option (List (Text × BindingScope)) → List Text → Type 0
SpansSpace whole_space (some scopes) ids = All (λ id. is_space_scope (get id scopes) ≡ true) ids
SpansSpace _ _ ids = Unit

suits_lem :
    (r : Resources) (ids : List Text)
    → (wants_none r && not (is_empty ids)) ≡ false
    → (wants_selected r && is_empty ids) ≡ false
    → (wants_space r && is_empty ids) ≡ false
    → Suits r ids
suits_lem no_resources [] a b c = refl
suits_lem no_resources (x ∷ xs) a b c = cc
suits_lem selected [] a b c = cc
suits_lem selected (x ∷ xs) a b c = λ e. cc e
suits_lem whole_space [] a b c = cc
suits_lem whole_space (x ∷ xs) a b c = λ e. cc e

spans_lem :
    (r : Resources) (scopes : Option (List (Text × BindingScope))) (ids : List Text)
    → (wants_space r && scope_too_narrow scopes ids) ≡ false
    → SpansSpace r scopes ids
unfolding scope_too_narrow
spans_lem no_resources s ids h = tt
spans_lem selected s ids h = tt
spans_lem whole_space none ids h = tt
spans_lem whole_space (some scopes) ids h = any-not-All (λ id. is_space_scope (get id scopes)) ids h

-- A decision other than a denial was taken for an enabled skill, on bindings that are distinct, all
-- active in the session, none where the manifest needs none and some where it needs some, and, for
-- a skill that works on whole spaces and where the scopes are known, all of scope `space`.
pub granted-IsSuitable :
    (p : Permissions) (enabled : Bool) (active requested : List Text)
    (scopes : Option (List (Text × BindingScope)))
    → (evaluate_skill_policy p enabled active requested scopes).0 ≢ deny
    → (enabled ≡ true)
      × IsDistinct requested
      × All (λ id. has id active ≡ true) requested
      × Suits p.resources requested
      × SpansSpace p.resources scopes requested
unfolding evaluate_skill_policy
granted-IsSuitable p enabled active requested scopes h = elim (Bool-cases enabled) [
  | inr e1 ↦ elim (h (rw e1 refl)) [ ]
  | inl e1 ↦ elim (Bool-cases (has_duplicate requested)) [
    | inl e2 ↦ elim (h (rw (e1, e2) refl)) [ ]
    | inr e2 ↦ elim (Bool-cases (any (λ id. not (has id active)) requested)) [
      | inl e3 ↦ elim (h (rw (e1, e2, e3) refl)) [ ]
      | inr e3 ↦ elim (Bool-cases (wants_none p.resources && not (is_empty requested))) [
        | inl e4 ↦ elim (h (rw (e1, e2, e3, e4) refl)) [ ]
        | inr e4 ↦ elim (Bool-cases (wants_selected p.resources && is_empty requested)) [
          | inl e5 ↦ elim (h (rw (e1, e2, e3, e4, e5) refl)) [ ]
          | inr e5 ↦ elim (Bool-cases (wants_space p.resources && is_empty requested)) [
            | inl e6 ↦ elim (h (rw (e1, e2, e3, e4, e5, e6) refl)) [ ]
            | inr e6 ↦
                elim (Bool-cases (wants_space p.resources && scope_too_narrow scopes requested)) [
                  | inl e7 ↦ elim (h (rw (e1, e2, e3, e4, e5, e6, e7) refl)) [ ]
                  | inr e7 ↦ (
                    e1,
                    distinct_lem requested e2,
                    any-not-All (λ id. has id active) requested e3,
                    suits_lem p.resources requested e4 e5 e6,
                    spans_lem p.resources scopes requested e7,
                  )
                ]
          ]
        ]
      ]
    ]
  ]
]

verified :
    (r : Resources) (a : Approval) (approved : Bool) (ids : List Text)
    → (is_always a && not approved) ≡ false
    → Suits r ids
    → verify_skill_permission (record { resources = r; approval = a }) approved ids ≡ ok tt
unfolding verify_skill_permission
verified no_resources a approved ids h s = rw h refl
verified selected a approved [] h s = elim (s refl) [ ]
verified selected a approved (x ∷ xs) h s = rw h refl
verified whole_space a approved ids h s = rw h refl

decision_lem :
    (p : Permissions) (enabled : Bool) (active requested : List Text)
    (scopes : Option (List (Text × BindingScope)))
    → (evaluate_skill_policy p enabled active requested scopes).0 ≡ allow
    → is_never p.approval ≡ true
unfolding evaluate_skill_policy
decision_lem p enabled active requested scopes h = ground arith

abbrev pub is_ask : Decision → Bool
is_ask ask = true
is_ask _ = false

-- The policy and the check before execution agree: what the policy allows passes the check without
-- an approval, and what it asks about passes the check once approved.
pub granted-verified :
    (p : Permissions) (enabled : Bool) (active requested : List Text)
    (scopes : Option (List (Text × BindingScope)))
    → (evaluate_skill_policy p enabled active requested scopes).0 ≢ deny
    → verify_skill_permission p
        (is_ask (evaluate_skill_policy p enabled active requested scopes).0)
        requested
      ≡ ok tt
granted-verified p enabled active requested scopes h =
    let (_, _, _, s, _) = granted-IsSuitable p enabled active requested scopes h in
    verified p.resources p.approval _ requested
      (approval_lem _ p.approval h (decision_lem p enabled active requested scopes)) s
  where
    approval_lem :
        (d : Decision) (a : Approval)
        → d ≢ deny
        → (d ≡ allow → is_never a ≡ true)
        → (is_always a && not (is_ask d)) ≡ false
    approval_lem deny a h n = elim (h refl) [ ]
    approval_lem ask never h n = refl
    approval_lem ask conditional h n = refl
    approval_lem ask always h n = refl
    approval_lem allow never h n = refl
    approval_lem allow conditional h n = refl
    approval_lem allow always h n = cc (n refl)
