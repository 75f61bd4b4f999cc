-- ===== src/Sql.antt =====
-- What the SQL text in the stores says of a table: a table is the list of its rows in insertion
-- order, a WHERE clause a test on rows.
pub mod Laws
pub mod Order
pub mod Filter
use hermes_forge_public.Prelude.{
  ℕ, Bool, true, false, Option, none, some, List, [], ◌∷◌, length, if◌then◌else◌,
}

module _ {ℓ} {A : Type ℓ} where
  -- SELECT … WHERE p
  abbrev pub select : (A → Bool) → List A → List A
  select p [] = []
  select p (x ∷ t) = if p x then x ∷ select p t else select p t

  -- The one row of a query that has LIMIT 1, or of QueryRow.
  abbrev pub first : List A → Option A
  first [] = none
  first (x ∷ t) = some x

  abbrev pub find : (A → Bool) → List A → Option A
  find p t = first (select p t)

  -- UPDATE … SET f WHERE p
  abbrev pub update : (A → Bool) → (A → A) → List A → List A
  update p f [] = []
  update p f (x ∷ t) = (if p x then f x else x) ∷ update p f t

  -- RowsAffected of an UPDATE or a DELETE with this WHERE clause
  abbrev pub affected : (A → Bool) → List A → ℕ
  affected p t = length (select p t)

  abbrev pub insert_by : (A → A → Bool) → A → List A → List A
  insert_by le x [] = x ∷ []
  insert_by le x (y ∷ t) = if le x y then x ∷ y ∷ t else y ∷ insert_by le x t

  -- ORDER BY; rows that compare alike keep their order
  abbrev pub order_by : (A → A → Bool) → List A → List A
  order_by le [] = []
  order_by le (x ∷ t) = insert_by le x (order_by le t)
