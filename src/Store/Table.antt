-- ===== src/Store/Table.antt =====
-- What the statements of internal/store say on the rows of a table with an id and a unique name.
use logtailr.Base.{
  ℕ, String, ◌≡◌, Bool, true, false, ◌&&◌, not, ◌==◌, Option, none, some, List, [], ◌∷◌, ◌++◌, any,
  str_eq, if◌then◌else◌, arith,
}

-- the columns that the constraints speak of; `is_allowed` is the conjunction of the CHECKs
pub record Columns (A : Type 0) : Type 0 where
  pub id_of : A → ℕ
  pub name_of : A → String
  pub with_id : ℕ → A → A
  pub is_allowed : A → Bool

abbrev when : {A : Type 0} → Bool → A → Option A
when true a = some a
when false a = none

module _ {A : Type 0} (name : A → String) (before : String → String → Bool) where
  unfoldable pub place : A → List A → List A
  place row [] = row ∷ []
  place row (other ∷ rows) =
      let rest = place row rows in
      if before (name row) (name other) then row ∷ other ∷ rows else other ∷ rest

  -- the rows in the order of their names
  unfoldable pub order_by : List A → List A
  unfolding place
  order_by [] = []
  order_by (row ∷ rows) = place row (order_by rows)

module _ {A : Type 0} (c : Columns A) where
  open c use {id_of, name_of, with_id, is_allowed}

  -- the row with a name
  unfoldable pub find_named : String → List A → Option A
  find_named name [] = none
  find_named name (row ∷ rows) =
      let later = find_named name rows in if str_eq (name_of row) name then some row else later

  -- the row with an id
  unfoldable pub find_id : ℕ → List A → Option A
  find_id i [] = none
  find_id i (row ∷ rows) = let later = find_id i rows in if id_of row == i then some row else later

  abbrev pub has_name : String → List A → Bool
  has_name name = any (λ row. str_eq (name_of row) name)

  -- INSERT with the id that the table gives
  unfoldable pub insert : ℕ → A → List A → Option (List A)
  insert i row rows =
      when (is_allowed row && not (has_name (name_of row) rows)) (rows ++ with_id i row ∷ [])

  -- is the name another row's?
  abbrev taken : A → List A → Bool
  taken row = any (λ other. str_eq (name_of other) (name_of row) && not (id_of other == id_of row))

  replace : A → List A → List A
  replace row [] = []
  replace row (other ∷ rows) =
      let rest = replace row rows in if id_of other == id_of row then row ∷ rest else other ∷ rest

  -- UPDATE of the row with the id
  unfoldable pub update : A → List A → Option (List A)
  unfolding replace
  update row rows = when (is_allowed row && not (taken row rows)) (replace row rows)

  -- DELETE of the row with an id
  unfoldable pub delete : ℕ → List A → List A
  delete i [] = []
  delete i (row ∷ rows) = let rest = delete i rows in if id_of row == i then rest else row ∷ rest

  -- ORDER BY name, in the order of the database's collation
  abbrev pub order_by_name : (String → String → Bool) → List A → List A
  order_by_name = order_by name_of

  pub insert_taken :
      (i : ℕ) (row : A) (rows : List A)
      → has_name (name_of row) rows ≡ true
      → insert i row rows ≡ none
  unfolding insert
  insert_taken i row rows old = ground arith
