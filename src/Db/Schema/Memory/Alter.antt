-- ===== src/Db/Schema/Memory/Alter.antt =====
-- The row level security of the database in memory, as the interface of Db/Schema/RowSecurity says.
use pid_docs.Prelude.{String, text_eq, Option, none, some, refl, if◌then◌else◌}
use pid_docs.Db.Schema.Engine.{is_some}
use pid_docs.Db.Schema.RowSecurity.{Change, changed, RowSecurity}
use pid_docs.Db.Schema.Memory.{Catalog, table, memory}

secured : Change → String → Catalog → Catalog
secured c n s = record s {
  security = λ m. if text_eq n m then changed c (s.security m) else s.security m;
}

-- An error if there is no such table.
alter : Change → String → Catalog → Option Catalog
unfolding secured
alter c n s = if is_some (table s n) then some (secured c n s) else none

pub memory_security : RowSecurity memory
unfolding memory alter secured table
memory_security = record {
  security = λ s. s.security;
  alter = alter;
  alter_lem = λ c n s h. (secured c n s, rw h refl, λ m. refl, λ m. refl, λ m. refl, λ m. refl);
}
