-- ===== src/SessionRepository/Tables.antt =====
-- packages/core/src/sqlite-agent-session-repository.ts: the statements on its tables. A table is
-- its rows in the order of insertion, and `id_of` reads the primary key.
use wknowledge.Base.{
  Text, Bool, true, false, ◌||◌, Option, none, some, List, [], ◌∷◌, ◌++◌, map, if◌then◌else◌, ◌===◌,
  ltb, ◌==◌, ◌≡◌, refl, arith, has, is_some,
}

module _ {ℓ} {A : Type ℓ} where
  -- `SELECT * FROM ... WHERE id = ?`
  unfoldable pub by_id : (A → Text) → Text → List A → Option A
  by_id id_of id [] = none
  by_id id_of id (row ∷ rows) = if id_of row === id then some row else by_id id_of id rows

  -- `INSERT`; it is refused when the primary key is taken
  unfoldable pub insert_row : (A → Text) → A → List A → Option (List A)
  unfolding by_id
  insert_row id_of row rows =
      if is_some (by_id id_of (id_of row) rows) then none else some (rows ++ row ∷ [])

  -- `UPDATE ... WHERE id = ?`; `id` is unique
  unfoldable pub update_by_id : (A → Text) → Text → (A → A) → List A → List A
  update_by_id id_of id patch [] = []
  update_by_id id_of id patch (row ∷ rows) =
      if id_of row === id then patch row ∷ rows else row ∷ update_by_id id_of id patch rows

  -- `ORDER BY`, with `before x y` where `x` comes before `y`
  unfoldable pub place : (A → A → Bool) → A → List A → List A
  place before row [] = row ∷ []
  place before row (next ∷ rows) =
      if before next row then next ∷ place before row rows else row ∷ next ∷ rows

  unfoldable pub order_by : (A → A → Bool) → List A → List A
  order_by before [] = []
  order_by before (row ∷ rows) = place before row (order_by before rows)

-- The order of `TEXT` columns
unfoldable pub text_before : Text → Text → Bool
text_before s [] = false
text_before [] (d ∷ t) = true
text_before (c ∷ s) (d ∷ t) = ltb c d || (if c == d then text_before s t else false)

module _ {ℓ} {A : Type ℓ} where
  pub is_some-by_id :
      (id_of : A → Text) (id : Text) (rows : List A)
      → has id (map id_of rows) ≡ is_some (by_id id_of id rows)
  unfolding has by_id
  is_some-by_id id_of id [] = refl
  is_some-by_id id_of id (row ∷ rows) = ground (arith, is_some-by_id id_of id rows)

  -- A row with a new key is inserted at the end.
  pub insert_row-new :
      (id_of : A → Text) (row : A) (rows : List A)
      → has (id_of row) (map id_of rows) ≡ false
      → insert_row id_of row rows ≡ some (rows ++ row ∷ [])
  unfolding insert_row
  insert_row-new id_of row rows h = ground (arith, is_some-by_id id_of (id_of row) rows, h)
