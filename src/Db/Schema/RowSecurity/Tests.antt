-- ===== src/Db/Schema/RowSecurity/Tests.antt =====
-- Both migrations on an empty database.
use pid_docs.Db.Schema.Engine.{Engine}
use pid_docs.Db.Schema.Memory.{memory}
use pid_docs.Db.Schema.Initial

abbrev Database : Type 0
Database = Engine.State memory
