-- ===== src/Base/Results.antt =====
-- A call returns a value or throws; the thrown errors of a component are one data type.
use mathlib.Core.Path.{◌≡◌, refl}
use mathlib.Core.Logic.{◌⊎◌, inl, inr}
use mathlib.Core.Bool.{Bool, true, false}

pub data Result {ℓ κ} (E : Type ℓ) (A : Type κ) : Type (ℓ ⊔ κ) where
  ok : A → Result E A
  err : E → Result E A

infixl 5 ◌>>=◌ ◌>>◌
abbrev pub ◌>>=◌ {ℓ κ μ} :
    {E : Type ℓ} {A : Type κ} {B : Type μ} → Result E A → (A → Result E B) → Result E B
ok a >>= f = f a
err e >>= f = err e

abbrev pub ◌>>◌ {ℓ κ} : {E : Type ℓ} {B : Type κ} → Result E (Unit {0}) → Result E B → Result E B
m >> k = m >>= λ _. k

-- `if (bad) throw`
abbrev pub reject_if {ℓ} : {E : Type ℓ} → Bool → E → Result E (Unit {0})
reject_if true e = err e
reject_if false e = ok tt

pub ok-injective {ℓ κ} :
    {E : Type ℓ} {A : Type κ} (a b : A) → ◌≡◌ {A = Result E A} (ok a) (ok b) → a ≡ b
ok-injective a b h = cc

pub Result-cases {ℓ κ} :
    {E : Type ℓ} {A : Type κ} (m : Result E A) → ((a : A) × (m ≡ ok a)) ⊎ ((e : E) × (m ≡ err e))
Result-cases (ok a) = inl (a, refl)
Result-cases (err e) = inr (e, refl)

-- A chain that returns has returned from its first call, and from the rest on that call's value.
pub >>=-eq-ok {ℓ κ μ} :
    {E : Type ℓ} {A : Type κ} {B : Type μ} (call : Result E A) (rest : A → Result E B) {out : B}
    → (call >>= rest) ≡ ok out
    → (value : A) × (call ≡ ok value) × (rest value ≡ ok out)
>>=-eq-ok (err thrown) rest returned = cc
>>=-eq-ok (ok value) rest returned = (value, refl, returned)

pub reject_if-eq-ok {ℓ} :
    {E : Type ℓ} (b : Bool) (e : E) {u : Unit {0}} → reject_if b e ≡ ok u → b ≡ false
reject_if-eq-ok true e h = cc
reject_if-eq-ok false e h = refl

-- A chain that returns has passed its first test.
pub passed-eq-ok {ℓ κ} :
    {E : Type ℓ} {A : Type κ} (bad : Bool) (thrown : E) (rest : Result E A) {out : A}
    → (reject_if bad thrown >> rest) ≡ ok out
    → (bad ≡ false) × (rest ≡ ok out)
passed-eq-ok true thrown rest returned = cc
passed-eq-ok false thrown rest returned = (refl, returned)
