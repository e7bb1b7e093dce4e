-- ===== src/JobQueue/Numbered.antt =====
-- The jobs of the in-memory adapter stand in its map under the ids of 1, 2, 3 and so on.
use wknowledge.Base.{
  ℕ, suc, ◌+◌, ◌≤◌, ◌<◌, Text, ◌≡◌, refl, sym, ◌∙◌, ap, subst, ◌===◌, ===_sound, Bool-cases, inl,
  inr, none, some, List, [], ◌∷◌, ◌++◌, get, set, length, length-append, arith,
}
use wknowledge.JobQueue.Ids.{job_id, job_id-injective}

module _ {V : Type 0} where
  abbrev pub Numbered : ℕ → List (Text × V) → Type 0
  Numbered n [] = Unit
  Numbered n (e ∷ m) = (e.0 ≡ job_id (suc n)) × Numbered (suc n) m

  -- An id past the last one is free, and so is one before the first.
  pub get-above :
      (n i : ℕ) (m : List (Text × V)) → Numbered n m → n + length m < i → get (job_id i) m ≡ none
  unfolding get
  get-above n i [] h p = refl
  get-above n i ((j, v) ∷ m) h p = elim (Bool-cases (j === job_id i)) [
    | inl same ↦
        absurd (omega (arith, job_id-injective (suc n) i (sym h.0 ∙ ===_sound j (job_id i) same)))
    | inr other ↦ rw other (get-above (suc n) i m h.1 (omega arith))
  ]

  pub get-below : (n i : ℕ) (m : List (Text × V)) → Numbered n m → i ≤ n → get (job_id i) m ≡ none
  unfolding get
  get-below n i [] h p = refl
  get-below n i ((j, v) ∷ m) h p = elim (Bool-cases (j === job_id i)) [
    | inl same ↦
        absurd (omega (arith, job_id-injective (suc n) i (sym h.0 ∙ ===_sound j (job_id i) same)))
    | inr other ↦ rw other (get-below (suc n) i m h.1 (omega arith))
  ]

  pub Numbered-append :
      (n : ℕ) (m : List (Text × V)) (e : Text × V)
      → Numbered n m
      → e.0 ≡ job_id (suc (n + length m))
      → Numbered n (m ++ e ∷ [])
  Numbered-append n [] e h p = (p ∙ ap job_id (omega arith), tt)
  Numbered-append n (d ∷ m) e h p =
      (h.0, Numbered-append (suc n) m e h.1 (p ∙ ap job_id (omega arith)))

  pub Numbered-set_known :
      (n : ℕ) (k : Text) (v w : V) (m : List (Text × V))
      → get k m ≡ some w
      → Numbered n m
      → Numbered n (set k v m)
  unfolding get set
  Numbered-set_known n k v w [] e h = cc
  Numbered-set_known n k v w ((j, u) ∷ m) e h = elim (Bool-cases (j === k)) [
    | inl same ↦ rw same h
    | inr other ↦ rw other (h.0, Numbered-set_known (suc n) k v w m (rw other at e) h.1)
  ]

  -- The first entry of the rest moves, under its id, to the end of the front.
  pub Numbered-shift :
      (front m : List (Text × V)) (e e' : Text × V)
      → e'.0 ≡ e.0
      → Numbered 0 front
      → Numbered (length front) (e ∷ m)
      → Numbered 0 (front ++ e' ∷ []) × Numbered (length (front ++ e' ∷ [])) m
  Numbered-shift front m e e' same f b =
      let longer : length (front ++ e' ∷ []) ≡ suc (length front) =
        omega (arith, length-append front (e' ∷ [])) in
      (Numbered-append 0 front e' f (same ∙ b.0 ∙ ap job_id (omega arith)), rw longer b.1)

  pub get-front :
      (front m : List (Text × V)) (e : Text × V)
      → Numbered 0 front
      → Numbered (length front) (e ∷ m)
      → get e.0 front ≡ none
  get-front front m e f b =
      subst (λ k. get k front ≡ none) (sym b.0)
        (get-above 0 (suc (length front)) front f (omega arith))
