-- ===== src/Accounting/Postgres.antt =====
-- The table `call_records` in PostgreSQL, which app/accounting/recorder.py writes to by asyncpg.
use atlas_gateway.Common.{
  ℕ, length, String, ◌=ₛ◌, ◌≡◌, ◌≢◌, Bool, true, Option, none, some, List, [], ◌∷◌, if◌then◌else◌,
  Result, ok, err,
}

-- An argument of a statement.
pub data Value : Type 0 where
  text : String → Value
  number : ℕ → Value
  null : Value

-- `INSERT INTO into (columns) VALUES ($1, ..)`, with the column of `ON CONFLICT (..) DO NOTHING`.
pub record Insert : Type 0 where
  pub into : String
  pub columns : List String
  pub on_conflict : Option String

-- A row by the columns that its statement names.
abbrev pub Row : Type 0
Row = List (String × Value)

abbrev pub zip : List String → List Value → Row
zip [] vs = []
zip (c ∷ cs) [] = []
zip (c ∷ cs) (v ∷ vs) = (c, v) ∷ zip cs vs

unfoldable pub column : String → Row → Option Value
column name [] = none
column name ((c, v) ∷ rest) = if c =ₛ name then some v else column name rest

pub data DbError : Type 0 where
  unique_violation rejected : DbError

-- The statement has an argument for each column, and the row has the id.
abbrev pub IsFor : Insert → List Value → String → Type 0
IsFor q vs i =
    (q.into ≡ "call_records")
    × (length q.columns ≡ length vs)
    × (column "id" (zip q.columns vs) ≡ some (text i))

-- `accepts` are the constraints besides the primary key: types, ranges and references, into tables
-- that no statement here changes. A statement that raises changes nothing.
pub record Table : Type 1 where
  pub Db : Type 0
  pub row : Db → String → Option Row
  pub accepts : Row → Bool
  pub execute : Insert → List Value → Db → Result DbError Db
  -- A row with a new id is stored, and the others stay.
  pub execute-new :
      (q : Insert) (vs : List Value) (db : Db) (i : String)
      → IsFor q vs i
      → accepts (zip q.columns vs) ≡ true
      → row db i ≡ none
      → (db' : Db) × (execute q vs db ≡ ok db')
        × (row db' i ≡ some (zip q.columns vs))
        × ((j : String) → i ≢ j → row db' j ≡ row db j)
  -- With an id that the table has, the conflict clause decides.
  pub execute-nothing :
      (q : Insert) (vs : List Value) (db : Db) (i : String) {old : Row}
      → IsFor q vs i
      → accepts (zip q.columns vs) ≡ true
      → row db i ≡ some old
      → q.on_conflict ≡ some "id"
      → execute q vs db ≡ ok db
  pub execute-duplicate :
      (q : Insert) (vs : List Value) (db : Db) (i : String) {old : Row}
      → IsFor q vs i
      → accepts (zip q.columns vs) ≡ true
      → row db i ≡ some old
      → q.on_conflict ≡ none
      → execute q vs db ≡ err unique_violation
