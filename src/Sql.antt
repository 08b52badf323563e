-- ===== src/Sql.antt =====
-- The SQL statements that the stores send to SQLite, on a table as its rows in rowid order. SQLite
-- itself is not part of the program; what is written here is the documented meaning of the
-- statements: WHERE selects rows, UPDATE and DELETE act on the selected ones, RETURNING gives them
-- back, and a statement that would break a constraint raises and changes nothing.
use my_auth.Result.{integrity_error, err, ok}
use my_auth.Exec.{Exec}
use my_auth.Equality.{nat_eq, list_eq, option_eq, ◌==◌, KeyEq}
use my_auth.Prelude.{
  map, ◌++◌, ◌&&◌, any, not, ◌||◌, is_none, if◌then◌else◌, [], true, ◌∷◌, none, some, List, Option,
  Bool, select,
}
pub mod Single
pub mod Rows
pub mod Constraints
pub mod Upserted
pub mod Bind

module _ {ℓ} {R : Type ℓ} where
  -- UPDATE ... SET ... WHERE ...
  unfoldable pub update_where : (R → Bool) → (R → R) → List R → List R
  update_where p f [] = []
  update_where p f (r ∷ rs) = (if p r then f r else r) ∷ update_where p f rs

  -- DELETE ... WHERE ...
  unfoldable pub delete_where : (R → Bool) → List R → List R
  delete_where p [] = []
  delete_where p (r ∷ rs) = let rest = delete_where p rs in if p r then rest else r ∷ rest

  -- cursor.fetchone()
  abbrev pub fetchone : List R → Option R
  fetchone [] = none
  fetchone (r ∷ rs) = some r

  -- A UNIQUE column: the rows where it is not NULL have different values.
  unfoldable pub is_distinct {κ} : {K : Type κ} ⦃e : KeyEq K⦄ → (R → Option K) → List R → Bool
  is_distinct column [] = true
  is_distinct column (r ∷ rs) =
      (is_none (column r) || not (any (λ q. column q == column r) rs)) && is_distinct column rs

  -- An UPDATE under constraints: the new table and the updated rows, or an IntegrityError.
  unfoldable pub update_checked : (List R → Bool) → (R → Bool) → (R → R) → Exec (List R) (List R)
  unfolding update_where select
  update_checked valid p f rows =
      let after = update_where p f rows in
      if valid after then (after, ok (map f (select p rows))) else (rows, err integrity_error)

  -- An INSERT under constraints.
  unfoldable pub insert_checked : (List R → Bool) → R → Exec (List R) (List R)
  insert_checked valid r rows =
      let after = rows ++ r ∷ [] in
      if valid after then (after, ok (r ∷ [])) else (rows, err integrity_error)

-- COALESCE(column, value)
abbrev pub coalesce {ℓ} : {A : Type ℓ} → Option A → A → Option A
coalesce none a = some a
coalesce (some b) a = some b

module _ {ℓ} {R : Type ℓ} where
  -- INSERT ... ON CONFLICT(...) DO UPDATE SET of every other column: `same` finds the row.
  unfoldable pub upsert : (R → Bool) → R → List R → List R
  unfolding update_where
  upsert same r rows = if any same rows then update_where same (λ q. r) rows else rows ++ r ∷ []

  -- A row in its place, before the rows that come after it in the order.
  unfoldable pub insert_ordered : (R → R → Bool) → R → List R → List R
  insert_ordered before r [] = r ∷ []
  insert_ordered before r (q ∷ rows) =
      let rest = insert_ordered before r rows in if before q r then q ∷ rest else r ∷ q ∷ rows

  -- ORDER BY
  unfoldable pub order_by : (R → R → Bool) → List R → List R
  unfolding insert_ordered
  order_by before [] = []
  order_by before (r ∷ rows) = insert_ordered before r (order_by before rows)
