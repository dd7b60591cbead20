-- ===== src/Db/Schema/Engine.antt =====
-- What the migrations rely on of PostgreSQL: the documented behaviour of the statements that they execute. A table and
-- an index share one space of names, and the database has no other relation. The names are those that the migration
-- gives and those that PostgreSQL derives from them; none is longer than 63 bytes, so that none is cut off.
use pid_docs.Prelude.{
  String, text_eq, Bool, true, false, not, ◌&&◌, Option, none, some, List, [], ◌∷◌, ◌++◌, ◌≡◌,
  if◌then◌else◌,
}
use pid_docs.Db.Schema.{
  Column, Table, Row, text, Statement, create_extension, create_table, create_index, bulk_insert,
  drop_table, fits, all_of, is_member, index_names,
}
use pid_docs.Auth.Permissions.{lookup}

abbrev pub is_some {ℓ} : {A : Type ℓ} → Option A → Bool
is_some none = false
is_some (some a) = true

-- the tables that the columns refer to, but for the table itself
abbrev pub referenced : String → List Column → List String
referenced name [] = []
referenced name (c ∷ cs) = elim c.references [
  | none ↦ referenced name cs
  | some r ↦ if text_eq r.table name then referenced name cs else r.table ∷ referenced name cs
]

abbrev key : Table → Row → String
key t row = elim (lookup t.primary_key row) [ some (text k) ↦ k | _ ↦ "" ]

-- No two rows have one key; the keys here are texts.
abbrev pub distinct : List String → Bool
distinct [] = true
distinct (k ∷ ks) = not (is_member k ks) && distinct ks

abbrev keys : Table → List Row → List String
keys t [] = []
keys t (row ∷ rows) = key t row ∷ keys t rows

-- The rows may stand in the table together.
unfoldable pub admits : Table → List Row → List Row → Bool
admits t old new = all_of (fits t) new && distinct (keys t (old ++ new))

-- an index, unless it is on the table `n`
abbrev pub without : String → Option String → Option String
without n none = none
without n (some o) = if text_eq o n then none else some o

pub record Engine : Type 1 where
  pub State : Type 0
  pub table : State → String → Option Table
  -- the table of an index
  pub index : State → String → Option String
  pub rows : State → String → List Row
  -- none is an error, which ends the migration
  pub execute : Statement → State → Option State
  pub extension_lem :
      (n : String) (s : State)
      → (s' : State) × (execute (create_extension n) s ≡ some s')
        × ((m : String) → table s' m ≡ table s m)
        × ((m : String) → index s' m ≡ index s m)
        × ((m : String) → rows s' m ≡ rows s m)
  -- With its indexes, whose names must be free too.
  pub table_lem :
      (t : Table) (s : State)
      → table s t.name ≡ none
      → index s t.name ≡ none
      → all_of (λ n. not (is_some (table s n)) && not (is_some (index s n))) (index_names t) ≡ true
      → distinct (t.name ∷ index_names t) ≡ true
      → all_of (λ n. is_some (table s n)) (referenced t.name t.columns) ≡ true
      → (s' : State) × (execute (create_table t) s ≡ some s')
        × ((m : String) → table s' m ≡ (if text_eq t.name m then some t else table s m))
        × ((m : String)
            → index s' m ≡ (if is_member m (index_names t) then some t.name else index s m))
        × ((m : String) → rows s' m ≡ (if text_eq t.name m then [] else rows s m))
  pub index_lem :
      (i n : String) (s : State)
      → table s i ≡ none
      → index s i ≡ none
      → is_some (table s n) ≡ true
      → (s' : State) × (execute (create_index i n) s ≡ some s')
        × ((m : String) → table s' m ≡ table s m)
        × ((m : String) → index s' m ≡ (if text_eq i m then some n else index s m))
        × ((m : String) → rows s' m ≡ rows s m)
  pub insert_lem :
      (n : String) (new : List Row) (s : State) (t : Table)
      → table s n ≡ some t
      → admits t (rows s n) new ≡ true
      → (s' : State) × (execute (bulk_insert n new) s ≡ some s')
        × ((m : String) → table s' m ≡ table s m)
        × ((m : String) → index s' m ≡ index s m)
        × ((m : String) → rows s' m ≡ (if text_eq n m then rows s m ++ new else rows s m))
  -- An error if the name is that of an index. With CASCADE the references to the table go too, and its indexes do in
  -- any case.
  pub drop_lem :
      (n : String) (s : State)
      → index s n ≡ none
      → (s' : State) × (execute (drop_table n) s ≡ some s')
        × ((m : String) → table s' m ≡ (if text_eq n m then none else table s m))
        × ((m : String) → index s' m ≡ without n (index s m))
        × ((m : String) → rows s' m ≡ (if text_eq n m then [] else rows s m))
  -- An index is on a table, and rows are in a table.
  pub index-table : (s : State) (i n : String) → index s i ≡ some n → is_some (table s n) ≡ true
  pub rows_none : (s : State) (n : String) → table s n ≡ none → rows s n ≡ []
