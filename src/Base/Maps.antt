-- ===== src/Base/Maps.antt =====
-- A `Map` with string keys, as its entries in insertion order: `set` writes a known key in place
-- and appends a new one. A `Set` of strings is the list of its members.
use mathlib.Core.Path.{◌≡◌, refl, sym, subst}
use mathlib.Core.Logic.{inl, inr}
use mathlib.Core.Bool.{Bool, false, ◌||◌}
use mathlib.Core.Option.{Option, none, some}
use mathlib.Core.List.{List, [], ◌∷◌, ◌++◌, map}
use native.Mathlib.Omega.{arith}
use wknowledge.Base.Tests.{if◌then◌else◌, Bool-cases}
use wknowledge.Base.Lists.{length, All}
use wknowledge.Base.Texts.{Text, ◌===◌, ===_iff, ===_refl, ===_sound}

module _ {ℓ} {V : Type ℓ} where
  unfoldable pub get : Text → List (Text × V) → Option V
  get k [] = none
  get k ((j, v) ∷ m) = if j === k then some v else get k m

  unfoldable pub set : Text → V → List (Text × V) → List (Text × V)
  set k v [] = (k, v) ∷ []
  set k v ((j, w) ∷ m) = if j === k then (j, v) ∷ m else (j, w) ∷ set k v m

  abbrev pub values : List (Text × V) → List V
  values = map (λ e. e.1)

module _ {ℓ} {V : Type ℓ} where
  pub get-set :
      (k j : Text) (v : V) (m : List (Text × V))
      → get j (set k v m) ≡ (if k === j then some v else get j m)
  unfolding get set
  get-set k j v [] = refl
  get-set k j v ((i, w) ∷ m) =
      ground (arith, ===_iff k j, ===_iff i k, ===_iff i j, get-set k j v m)

  pub get-set_self : (k : Text) (v : V) (m : List (Text × V)) → get k (set k v m) ≡ some v
  get-set_self k v m = simp (get-set, ===_refl)

unfoldable pub has : Text → List Text → Bool
has k [] = false
has k (j ∷ js) = j === k || has k js

module _ {ℓ} {V : Type ℓ} where
  -- A new key goes to the end.
  pub set_new :
      (k : Text) (v : V) (m : List (Text × V)) → get k m ≡ none → set k v m ≡ m ++ (k, v) ∷ []
  unfolding get set
  set_new k v [] h = refl
  set_new k v ((j, w) ∷ m) h = ground (arith, set_new k v m)

  -- A key that is known is written in place.
  pub set_middle :
      (k : Text) (v w : V) (m n : List (Text × V))
      → get k m ≡ none
      → set k v (m ++ (k, w) ∷ n) ≡ m ++ (k, v) ∷ n
  unfolding get set
  set_middle k v w [] n h = rw (===_refl k)
  set_middle k v w ((j, u) ∷ m) n h = ground (arith, set_middle k v w m n)

  pub get_middle :
      (k : Text) (w : V) (m n : List (Text × V)) → get k m ≡ none → get k (m ++ (k, w) ∷ n) ≡ some w
  unfolding get
  get_middle k w [] n h = rw (===_refl k)
  get_middle k w ((j, u) ∷ m) n h = ground (arith, get_middle k w m n)

  pub length-set_known :
      (k : Text) (v w : V) (m : List (Text × V)) → get k m ≡ some w → length (set k v m) ≡ length m
  unfolding get set
  length-set_known k v w [] h = cc
  length-set_known k v w ((j, u) ∷ m) h = ground (arith, length-set_known k v w m)

  module _ {κ} (Q : Text × V → Type κ) where
    pub All-set : (k : Text) (v : V) (m : List (Text × V)) → Q (k, v) → All Q m → All Q (set k v m)
    unfolding set
    All-set k v [] q h = (q, tt)
    All-set k v ((j, w) ∷ m) q h = elim (Bool-cases (j === k)) [
      | inl same ↦ rw same (subst (λ i. Q (i, v)) (sym (===_sound j k same)) q, h.1)
      | inr other ↦ rw other (h.0, All-set k v m q h.1)
    ]

    pub All-get : (k : Text) {v : V} (m : List (Text × V)) → All Q m → get k m ≡ some v → Q (k, v)
    unfolding get
    All-get k [] h e = cc
    All-get k {v} ((j, w) ∷ m) h e = elim (Bool-cases (j === k)) [
      | inl same ↦
          let p : w ≡ v = ground arith in
          subst (λ i. Q (i, v)) (===_sound j k same) (subst (λ u. Q (j, u)) p h.0)
      | inr other ↦ All-get k m h.1 (ground arith)
    ]
