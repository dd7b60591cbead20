-- ===== src/Db/Schema/Columns.antt =====
-- The columns of alembic/versions/0001_initial_schema.py by their clauses.
use pid_docs.Prelude.{String, true, false, none, some}
use pid_docs.Db.Schema.{ColumnType, Column}

abbrev pub column : String → ColumnType → Column
column name kind = record {
  name = name;
  kind = kind;
  not_null = false;
  default = none;
  references = none;
}

-- `NOT NULL`, or the primary key
abbrev pub required : Column → Column
required c = record c { not_null = true }

abbrev pub or_else : String → Column → Column
or_else expression c = record c { default = some expression }

-- `REFERENCES table(id)`
abbrev pub referring : String → Column → Column
referring table c = record c {
  references = some (record { table = table; column = "id"; cascades = false });
}

-- `REFERENCES table(id) ON DELETE CASCADE`
abbrev pub cascading : String → Column → Column
cascading table c = record c {
  references = some (record { table = table; column = "id"; cascades = true });
}
