-- ===== src/Accounting/Recorder/Memory.antt =====
-- A table in memory, which has the laws that the recorder takes from PostgreSQL.
use atlas_gateway.Common.{
  ap, arith, =ₛ-ne, ◌∙◌, =ₛ-refl, ok, err, Result, true, List, String, ◌≡◌, ◌≢◌, refl, ◌=ₛ◌, Option,
  none, some, if◌then◌else◌,
}
use atlas_gateway.Accounting.Postgres.{
  Value, text, Insert, Row, zip, column, DbError, unique_violation, rejected, IsFor, Table,
}

abbrev pub Rows : Type 0
Rows = String → Option Row

abbrev pub store : Row → String → Rows → Rows
store r i db j = if i =ₛ j then some r else db j

-- The statement with the row that the table has under the id.
unfoldable pub insert_over : Insert → Row → String → Option Row → Rows → Result DbError Rows
insert_over q r i none db = ok (store r i db)
insert_over q r i (some old) db = elim q.on_conflict [
  | none ↦ err unique_violation
  | some target ↦ if target =ₛ "id" then ok db else err unique_violation
]

unfoldable pub insert_with : Insert → Row → Option Value → Rows → Result DbError Rows
unfolding insert_over
insert_with q r (some (text i)) db = insert_over q r i (db i) db
insert_with q r _ db = err rejected

unfoldable pub execute : Insert → List Value → Rows → Result DbError Rows
unfolding insert_with
execute q vs db = insert_with q (zip q.columns vs) (column "id" (zip q.columns vs)) db

execute_over :
    (q : Insert) (vs : List Value) (db : Rows) (i : String) (found : Option Row)
    → IsFor q vs i
    → db i ≡ found
    → execute q vs db ≡ insert_over q (zip q.columns vs) i found db
unfolding execute insert_with
execute_over q vs db i found this e =
    let r = zip q.columns vs in
    ap (λ v. insert_with q r v db) this.2 ∙ ap (λ f. insert_over q r i f db) e

pub new :
    (q : Insert) (vs : List Value) (db : Rows) (i : String)
    → IsFor q vs i
    → db i ≡ none
    → (db' : Rows) × (execute q vs db ≡ ok db')
      × (db' i ≡ some (zip q.columns vs))
      × ((j : String) → i ≢ j → db' j ≡ db j)
unfolding insert_over
new q vs db i this e = (
  store (zip q.columns vs) i db,
  execute_over q vs db i none this e,
  rw (=ₛ-refl i) refl,
  λ j h. rw (=ₛ-ne i j h) refl,
)

pub nothing :
    (q : Insert) (vs : List Value) (db : Rows) (i : String) {old : Row}
    → IsFor q vs i
    → db i ≡ some old
    → q.on_conflict ≡ some "id"
    → execute q vs db ≡ ok db
unfolding insert_over
nothing q vs db i {old} this e clause = execute_over q vs db i (some old) this e ∙ ground arith

pub duplicate :
    (q : Insert) (vs : List Value) (db : Rows) (i : String) {old : Row}
    → IsFor q vs i
    → db i ≡ some old
    → q.on_conflict ≡ none
    → execute q vs db ≡ err unique_violation
unfolding insert_over
duplicate q vs db i {old} this e clause = execute_over q vs db i (some old) this e ∙ ground arith

abbrev pub memory : Table
memory = record {
  Db = Rows;
  row = λ db i. db i;
  accepts = λ r. true;
  execute = execute;
  execute-new = λ q vs db i this accepted e. new q vs db i this e;
  execute-nothing = λ q vs db i this accepted e clause. nothing q vs db i this e clause;
  execute-duplicate = λ q vs db i this accepted e clause. duplicate q vs db i this e clause;
}
