-- ===== src/Database/Clients.antt =====
-- Prisma's operations on the rows of one table, and what is documented of them.
use expenseflow.Common.{
  ℕ, ◌≡◌, Bool, true, false, Option, none, some, List, [], ◌∷◌, ◌++◌, if◌then◌else◌, any, keep,
  count, map_where, In, All,
}

-- A `where` clause is a test on a row, and the `data` of an update is a function on rows. A `create`
-- is refused (`none`, Prisma's P2002) if a row that is there stands in conflict with the new one.
pub record Client : Type 1 where
  pub find_first : {Row : Type 0} → (Row → Bool) → List Row → Option Row
  pub find_first_by : {Row : Type 0} → (Row → Row → Bool) → (Row → Bool) → List Row → Option Row
  pub find_many : {Row : Type 0} → (Row → Row → Bool) → (Row → Bool) → List Row → List Row
  pub update_many : {Row : Type 0} → (Row → Bool) → (Row → Row) → List Row → List Row × ℕ
  pub delete_many : {Row : Type 0} → (Row → Bool) → List Row → List Row
  pub create : {Row : Type 0} → (Row → Row → Bool) → Row → List Row → Option (List Row)

-- The rows that a query returns are rows that pass its test, in any order.
pub record IsClient (db : Client) : Type 1 where
  pub find_first_some :
      {Row : Type 0} (p : Row → Bool) (rows : List Row) (row : Row)
      → db.find_first p rows ≡ some row
      → In row rows × (p row ≡ true)
  pub find_first_none :
      {Row : Type 0} (p : Row → Bool) (rows : List Row)
      → db.find_first p rows ≡ none
      → All (λ row. p row ≡ false) rows
  pub find_first_by_some :
      {Row : Type 0} (before : Row → Row → Bool) (p : Row → Bool) (rows : List Row) (row : Row)
      → db.find_first_by before p rows ≡ some row
      → In row rows × (p row ≡ true)
  pub find_first_by_none :
      {Row : Type 0} (before : Row → Row → Bool) (p : Row → Bool) (rows : List Row)
      → db.find_first_by before p rows ≡ none
      → All (λ row. p row ≡ false) rows
  pub find_many_sound :
      {Row : Type 0} (before : Row → Row → Bool) (p : Row → Bool) (rows : List Row) (row : Row)
      → In row (db.find_many before p rows)
      → In row rows × (p row ≡ true)
  pub find_many_complete :
      {Row : Type 0} (before : Row → Row → Bool) (p : Row → Bool) (rows : List Row) (row : Row)
      → In row rows
      → p row ≡ true
      → In row (db.find_many before p rows)
  pub update_many_lem :
      {Row : Type 0} (p : Row → Bool) (change : Row → Row) (rows : List Row)
      → db.update_many p change rows ≡ (map_where p change rows, count p rows)
  pub delete_many_lem :
      {Row : Type 0} (p : Row → Bool) (rows : List Row)
      → db.delete_many p rows ≡ keep (λ row. if p row then false else true) rows
  pub create_lem :
      {Row : Type 0} (clash : Row → Row → Bool) (row : Row) (rows : List Row)
      → db.create clash row rows ≡ (if any (clash row) rows then none else some (rows ++ row ∷ []))
