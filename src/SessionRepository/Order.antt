-- ===== src/SessionRepository/Order.antt =====
-- `ORDER BY id` on the messages: while the counter has at most eight digits, the order of their ids is
-- the order in which they were inserted.
use wknowledge.Base.{
  ℕ, suc, ◌+◌, ◌*◌, ◌-◌, ◌≤◌, ◌<◌, ◌≡◌, refl, sym, ap, ◌∙◌, subst, Text, units, Bool, true, false,
  List, [], ◌∷◌, ◌++◌, arith, length, keep, ltb, Bool-cases, inl, inr,
}
use wknowledge.Base.Decimal.{
  to_string, pad_start, digits_value, pad_start-value, length-pad_start, pad_start-IsDigits,
  IsDigits, digits_value-lt, power_of_ten,
}
use wknowledge.SessionRepository.{SessionMessage}
use wknowledge.SessionRepository.Ids.{next_id}
use wknowledge.SessionRepository.Tables.{text_before, order_by, place}

text_before-value :
    (seen : ℕ) (s t : Text)
    → IsDigits s
    → IsDigits t
    → length s ≡ length t
    → text_before s t ≡ true
    → digits_value seen s < digits_value seen t
unfolding text_before
text_before-value seen s [] p q e h = cc h
text_before-value seen [] (d ∷ t) p q e h = ground (arith, e)
text_before-value seen (c ∷ s) (d ∷ t) ((a, b), p) (r, q) e h = elim (Bool-cases (ltb c d)) [
  | inl less ↦
      digits_value-lt (seen * 10 + (c - b'0')) (seen * 10 + (d - b'0')) s t p q (omega (arith, e))
        (ground (arith, less, a))
  | inr other ↦
      let same : c ≡ d = ground (arith, other, h) in
      let rest : text_before s t ≡ true = ground (arith, other, h) in
      subst (λ x. digits_value (seen * 10 + (c - b'0')) s < digits_value (seen * 10 + (x - b'0')) t)
        same (text_before-value (seen * 10 + (c - b'0')) s t p q (omega (arith, e)) rest)
]

text_before-append : (prefix s t : Text) → text_before (prefix ++ s) (prefix ++ t) ≡ text_before s t
unfolding text_before
text_before-append [] s t = refl
text_before-append (c ∷ prefix) s t = ground (arith, text_before-append prefix s t)

later_not_before :
    (prefix : Text) (k n : ℕ)
    → k < n
    → n < power_of_ten 8
    → text_before (next_id prefix n) (next_id prefix k) ≡ false
unfolding next_id text_before
later_not_before prefix k n h small =
    let digits : ℕ → Text = λ m. pad_start 8 b'0' (to_string m) in
    let dropped = text_before-append prefix (b'-' ∷ digits n) (b'-' ∷ digits k) in
    elim (Bool-cases (text_before (digits n) (digits k))) [
      | inl before ↦
          let less =
            text_before-value 0 (digits n) (digits k) (pad_start-IsDigits 8 n)
              (pad_start-IsDigits 8 k)
              (length-pad_start n small ∙ sym (length-pad_start k (omega (arith, h, small))))
              before in
          let never : n < k = omega (arith, less, pad_start-value 8 n, pad_start-value 8 k) in
          ground (arith, never, h)
      | inr after ↦ dropped ∙ ground (arith, after)
    ]

-- The ids are those of rising numbers from the first bound on, up to the second.
abbrev pub IsRising : ℕ → ℕ → List SessionMessage → Type 0
IsRising low high [] = Unit
IsRising low high (m ∷ ms) =
    (k : ℕ) × (low ≤ k)
    × (k ≤ high)
    × (m.id ≡ next_id (units "message") k)
    × IsRising (suc k) high ms

pub later-IsRising :
    (low high : ℕ) (ms : List SessionMessage) → IsRising low high ms → IsRising low (high + 1) ms
later-IsRising low high [] h = tt
later-IsRising low high (m ∷ ms) (k, above, below, e, h) =
    (k, above, omega (arith, below), e, later-IsRising (suc k) high ms h)

pub add-IsRising :
    (low high : ℕ) (ms : List SessionMessage) (m : SessionMessage)
    → low ≤ high + 1
    → m.id ≡ next_id (units "message") (high + 1)
    → IsRising low high ms
    → IsRising low (high + 1) (ms ++ m ∷ [])
add-IsRising low high [] m le same h = (high + 1, le, omega arith, same, tt)
add-IsRising low high (d ∷ ms) m le same (k, above, below, e, h) = (
  k,
  above,
  omega (arith, below),
  e,
  add-IsRising (suc k) high ms m (omega (arith, below)) same h,
)

lower-IsRising :
    (low low' high : ℕ) (ms : List SessionMessage)
    → low ≤ low'
    → IsRising low' high ms
    → IsRising low high ms
lower-IsRising low low' high [] le h = tt
lower-IsRising low low' high (m ∷ ms) le (k, above, below, e, h) =
    (k, omega (arith, le, above), below, e, h)

pub keep-IsRising :
    (p : SessionMessage → Bool) (low high : ℕ) (ms : List SessionMessage)
    → IsRising low high ms
    → IsRising low high (keep p ms)
keep-IsRising p low high [] h = tt
keep-IsRising p low high (m ∷ ms) (k, above, below, e, h) =
    let rest = keep-IsRising p (suc k) high ms h in
    elim (Bool-cases (p m)) [
      | inl kept ↦ rw kept (k, above, below, e, rest)
      | inr left_out ↦
          rw left_out (lower-IsRising low (suc k) high (keep p ms) (omega (arith, above)) rest)
    ]

pub order_by-IsRising :
    (low high : ℕ) (ms : List SessionMessage)
    → high < power_of_ten 8
    → IsRising low high ms
    → order_by (λ m n. text_before m.id n.id) ms ≡ ms
unfolding order_by place
order_by-IsRising low high [] small h = refl
order_by-IsRising low high (m ∷ []) small h = refl
order_by-IsRising low high (m ∷ n ∷ ms) small (k, _, _, e, (j, above, below, f, h)) =
    let rest = order_by-IsRising (suc k) high (n ∷ ms) small (j, above, below, f, h) in
    let in_order : text_before n.id m.id ≡ false =
      ap (λ id. text_before id m.id) f
      ∙ ap (text_before (next_id (units "message") j)) e
      ∙ later_not_before (units "message") k j (omega (arith, above))
          (omega (arith, below, small)) in
    ap (place (λ x y. text_before x.id y.id) m) rest ∙ rw in_order refl
