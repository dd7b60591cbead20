-- ===== src/Db/Schema/RowSecurity/Chain.antt =====
-- The first two migrations in their order, and back (alembic/versions/0001_initial_schema.py and
-- alembic/versions/0002_rls_policies.py).
use pid_docs.Prelude.{String, Bool, false, List, ◌≡◌, All}
use pid_docs.Db.Schema.{is_member}
use pid_docs.Db.Schema.Engine.{Engine}
use pid_docs.Db.Schema.Initial
use pid_docs.Db.Schema.RowSecurity.{Change, protected, unprotected, RowSecurity, rls_tables}

-- The table of the change is one of the names.
abbrev is_within : List String → Change × String → Bool
is_within names c = is_member c.1 names

module _ (engine : Engine) (rls : RowSecurity engine) where
  open engine use {State, table, index, rows}

  -- The second migration has run forth: its tables are protected, and no other one has changed.
  pub record IsProtected (s s' : State) : Type 0 where
    pub on : All (λ n. rls.security s' n ≡ protected) rls_tables
    pub others :
        (m : String) → is_member m rls_tables ≡ false → rls.security s' m ≡ rls.security s m

  pub record IsUnprotected (s s' : State) : Type 0 where
    pub off : All (λ n. rls.security s' n ≡ unprotected) rls_tables
    pub others :
        (m : String) → is_member m rls_tables ≡ false → rls.security s' m ≡ rls.security s m
