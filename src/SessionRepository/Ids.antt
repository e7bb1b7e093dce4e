-- ===== src/SessionRepository/Ids.antt =====
-- `nextId` of both repositories, and the ids that it has given out.
use wknowledge.Base.{
  ℕ, suc, ◌+◌, ◌≤◌, ◌≡◌, refl, sym, ap, ◌∙◌, Text, false, List, [], ◌∷◌, ◌++◌, arith, has, All,
  drop, length, ◌===◌, ===_sound, Bool-cases, inl, inr,
}
use wknowledge.Base.Decimal.{to_string, pad_start, digits_value, pad_start-value}

-- `${prefix}-${sequence.toString().padStart(8, "0")}`
unfoldable pub next_id : Text → ℕ → Text
next_id prefix sequence = prefix ++ (b'-' ∷ pad_start 8 b'0' (to_string sequence))

drop-append : (s t : Text) (c : ℕ) → drop (suc (length s)) (s ++ (c ∷ t)) ≡ t
drop-append [] t c = refl
drop-append (x ∷ s) t c = drop-append s t c

pub next_id-injective : (prefix : Text) (m n : ℕ) → next_id prefix m ≡ next_id prefix n → m ≡ n
unfolding next_id
next_id-injective prefix m n e =
    let number : (k : ℕ) → digits_value 0 (drop (suc (length prefix)) (next_id prefix k)) ≡ k = λ k.
      ap (digits_value 0) (drop-append prefix (pad_start 8 b'0' (to_string k)) b'-')
      ∙ pad_start-value 8 k in
    sym (number m) ∙ ap (λ id. digits_value 0 (drop (suc (length prefix)) id)) e ∙ number n

-- The id was given out for this prefix, by the counter up to here.
abbrev pub IsGiven : Text → ℕ → Text → Type 0
IsGiven prefix sequence id = (k : ℕ) × (k ≤ sequence) × (id ≡ next_id prefix k)

pub later-IsGiven :
    (prefix : Text) (m n : ℕ) (ids : List Text)
    → m ≤ n
    → All (IsGiven prefix m) ids
    → All (IsGiven prefix n) ids
later-IsGiven prefix m n [] h g = tt
later-IsGiven prefix m n (id ∷ ids) h ((k, le, e), g) =
    ((k, omega arith, e), later-IsGiven prefix m n ids h g)

pub next_id_fresh :
    (prefix : Text) (sequence : ℕ) (ids : List Text)
    → All (IsGiven prefix sequence) ids
    → has (next_id prefix (sequence + 1)) ids ≡ false
unfolding has
next_id_fresh prefix sequence [] g = refl
next_id_fresh prefix sequence (id ∷ ids) ((k, le, e), g) =
    elim (Bool-cases (id === next_id prefix (sequence + 1))) [
      | inl same ↦
          let clash : k ≡ sequence + 1 =
            next_id-injective prefix k (sequence + 1)
              (sym e ∙ ===_sound id (next_id prefix (sequence + 1)) same) in
          let never : sequence + 1 ≤ sequence = omega (arith, clash, le) in ground (arith, never)
      | inr other ↦ rw other (next_id_fresh prefix sequence ids g)
    ]
