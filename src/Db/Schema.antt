-- ===== src/Db/Schema.antt =====
-- What the first migration says (alembic/versions/0001_initial_schema.py): the words of its statements, and
-- which rows the constraints of a table let in.
pub mod Columns
pub mod Accounts
pub mod Drawings
pub mod Initial
pub mod Engine
pub mod Migrate
pub mod RoundTrip
pub mod RowSecurity
pub mod Memory
pub mod Rows
use Prim.Native.String as Text
use pid_docs.Prelude.{
  map, ℕ, String, text_eq, Bool, true, false, not, ◌&&◌, ◌||◌, Option, none, some, List, [], ◌∷◌,
  if◌then◌else◌,
}
use pid_docs.Auth.Permissions.{lookup}

pub data ColumnType : Type 0 where
  varchar uuid integer bigint boolean timestamptz jsonb float : ColumnType

-- `REFERENCES table(column) [ON DELETE CASCADE]`
pub record Reference : Type 0 where
  pub table : String
  pub column : String
  pub cascades : Bool

pub record Column : Type 0 where
  pub name : String
  pub kind : ColumnType
  pub not_null : Bool
  pub default : Option String
  pub references : Option Reference

-- The three forms of CHECK: `c IN (...)`, `c >= 0 AND c <= 1`, and exactly one of two columns is set.
pub data Check : Type 0 where
  one_of : String → List String → Check
  unit_interval : String → Check
  exactly_one : String → String → Check

pub record Table : Type 0 where
  pub name : String
  pub columns : List Column
  pub primary_key : String
  -- each with the name of its constraint
  pub unique : List (String × List String)
  pub checks : List Check

-- The names of the indexes that PostgreSQL makes with a table: that of the primary key, which no table here names, and
-- those of the unique constraints.
abbrev pub index_names : Table → List String
index_names t = Text.◌++◌ t.name "_pkey" ∷ map (λ (u : String × List String). u.0) t.unique

-- A value of a row. An id and a time are numbers; of a float the database knows whether it is at least 0 and at
-- most 1.
pub data Cell : Type 0 where
  null json : Cell
  text : String → Cell
  number : ℕ → Cell
  flag within_unit : Bool → Cell

abbrev pub Row : Type 0
Row = List (String × Cell)

-- `CREATE EXTENSION IF NOT EXISTS`, `CREATE TABLE`, `CREATE INDEX name ON table`, the bulk insertion, and
-- `DROP TABLE IF EXISTS ... CASCADE`
pub data Statement : Type 0 where
  create_extension drop_table : String → Statement
  create_table : Table → Statement
  create_index : String → String → Statement
  bulk_insert : String → List Row → Statement

abbrev cell : String → Row → Cell
cell c row = elim (lookup c row) [ none ↦ null | some v ↦ v ]

abbrev is_null : Cell → Bool
is_null null = true
is_null _ = false

abbrev pub is_member : String → List String → Bool
is_member s [] = false
is_member s (x ∷ xs) = text_eq s x || is_member s xs

-- A check that is not false lets a row in: an unknown one, of a null, does.
unfoldable pub passes : Row → Check → Bool
unfolding lookup
passes row (one_of c values) = elim (cell c row) [ text s ↦ is_member s values | _ ↦ true ]
passes row (unit_interval c) = elim (cell c row) [ within_unit b ↦ b | _ ↦ true ]
passes row (exactly_one a b) =
    (not (is_null (cell a row)) && is_null (cell b row))
    || (is_null (cell a row) && not (is_null (cell b row)))

abbrev pub all_of {ℓ} : {A : Type ℓ} → (A → Bool) → List A → Bool
all_of p [] = true
all_of p (x ∷ xs) = p x && all_of p xs

-- The value of a column is there where it has to be: given, or left to its default.
unfoldable pub is_given : Row → Column → Bool
unfolding lookup
is_given row c = elim (lookup c.name row) [
  | none ↦ not c.not_null || (elim c.default [ none ↦ false | some _ ↦ true ])
  | some v ↦ not c.not_null || not (is_null v)
]

unfoldable pub fits : Table → Row → Bool
unfolding passes is_given
fits t row = all_of (is_given row) t.columns && all_of (passes row) t.checks
