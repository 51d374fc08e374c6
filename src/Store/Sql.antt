-- ===== src/Store/Sql.antt =====
-- The SQL statements of internal/store over a table given as the list of its rows: `UPDATE ...
-- WHERE`, `SELECT ... ORDER BY ... LIMIT`.
pub mod Laws
pub mod Order
use cert_keeper.Prelude.{
  ℕ, zero, suc, ◌+◌, ◌≤◌, ◌<◌, Text, Bool, true, false, not, ◌&&◌, ◌||◌, ◌==◌, nat_eq, text_eq,
  Option, none, some, ltb, List, [], ◌∷◌, map, if◌then◌else◌, any, all, filter, ◌≡◌, refl, ap,
  arith, All, length, Bool-cases, Option-cases, inl, inr, take,
}

-- Texts are compared byte by byte, as by SQLite's BINARY collation.
pub text_before : Text → Text → Bool
text_before [] [] = false
text_before [] (y ∷ ys) = true
text_before (x ∷ xs) [] = false
text_before (x ∷ xs) (y ∷ ys) = ltb x y || (x == y && text_before xs ys)

module _ {ℓ} {A : Type ℓ} where
  -- `UPDATE table SET row = f row WHERE p`.
  abbrev pub update : (A → Bool) → (A → A) → List A → List A
  update p f [] = []
  update p f (row ∷ rows) = (if p row then f row else row) ∷ update p f rows

  -- `SELECT ... WHERE p` of a row that is alone in its kind.
  abbrev pub find : (A → Bool) → List A → Option A
  find p [] = none
  find p (row ∷ rows) = let rest = find p rows in if p row then some row else rest

  -- A row put in its place by `ORDER BY`; rows that tie keep their order.
  pub insert_row : (A → A → Bool) → A → List A → List A
  insert_row before row [] = row ∷ []
  insert_row before row (next ∷ rows) =
      let rest = insert_row before row rows in
      if before next row then next ∷ rest else row ∷ next ∷ rows

  unfoldable pub order_by : (A → A → Bool) → List A → List A
  unfolding insert_row
  order_by before [] = []
  order_by before (row ∷ rows) = insert_row before row (order_by before rows)

  -- `ORDER BY ... LIMIT 1`.
  unfoldable pub first_by : (A → A → Bool) → List A → Option A
  first_by before [] = none
  first_by before (row ∷ rows) = elim (first_by before rows) [
    | none ↦ some row
    | some next ↦ some (if before next row then next else row)
  ]

  abbrev pub head? : List A → Option A
  head? [] = none
  head? (row ∷ rows) = some row

  head-insert_row :
      (before : A → A → Bool) (row : A) (rows : List A)
      → head? (insert_row before row rows)
        ≡ some (elim rows [ [] ↦ row | next ∷ _ ↦ if before next row then next else row ])
  unfolding insert_row
  head-insert_row before row [] = refl
  head-insert_row before row (next ∷ rows) = ground arith

  -- The first of the ordered rows is what `LIMIT 1` selects.
  pub head-order_by :
      (before : A → A → Bool) (rows : List A) → head? (order_by before rows) ≡ first_by before rows
  unfolding order_by first_by
  head-order_by before [] = refl
  head-order_by before (row ∷ rows) =
      ground (arith, head-insert_row before row (order_by before rows), head-order_by before rows)
