-- ===== src/Db/Schema/RowSecurity.antt =====
-- The second migration (alembic/versions/0002_rls_policies.py): row level security of five tables. What ALTER TABLE
-- does to it is an interface of PostgreSQL beside that of Db/Schema/Engine.
pub mod Chain
mod Tests
use pid_docs.Prelude.{
  String, text_eq, Bool, true, false, Option, none, some, List, [], ◌∷◌, ◌≡◌, ◌∙◌, ap, refl,
  if◌then◌else◌, arith,
}
use pid_docs.Db.Schema.{all_of}
use pid_docs.Db.Schema.Engine.{Engine, is_some}

-- ENABLE, FORCE, NO FORCE and DISABLE ROW LEVEL SECURITY
pub data Change : Type 0 where
  enable force no_force disable : Change

pub record Security : Type 0 where
  pub enabled : Bool
  pub forced : Bool

abbrev pub protected : Security
protected = record { enabled = true; forced = true }

abbrev pub unprotected : Security
unprotected = record { enabled = false; forced = false }

abbrev pub changed : Change → Security → Security
changed enable x = record x { enabled = true }
changed force x = record x { forced = true }
changed no_force x = record x { forced = false }
changed disable x = record x { enabled = false }

abbrev pub rls_tables : List String
rls_tables = "drawing" ∷ "detected_symbol" ∷ "table_cell" ∷ "user_correction" ∷ "export_record" ∷ []

-- what both functions execute: two changes of each table
abbrev each : Change → Change → List String → List (Change × String)
each a b [] = []
each a b (t ∷ ts) = (a, t) ∷ (b, t) ∷ each a b ts

abbrev pub upgrade : List (Change × String)
upgrade = each enable force rls_tables

abbrev pub downgrade : List (Change × String)
downgrade = each no_force disable rls_tables

-- ALTER TABLE changes nothing but the security of its table.
pub record RowSecurity (engine : Engine) : Type 0 where
  pub security : engine.State → String → Security
  pub alter : Change → String → engine.State → Option engine.State
  pub alter_lem :
      (c : Change) (n : String) (s : engine.State)
      → is_some (engine.table s n) ≡ true
      → (s' : engine.State) × (alter c n s ≡ some s')
        × ((m : String) → engine.table s' m ≡ engine.table s m)
        × ((m : String) → engine.index s' m ≡ engine.index s m)
        × ((m : String) → engine.rows s' m ≡ engine.rows s m)
        × ((m : String)
            → security s' m ≡ (if text_eq n m then changed c (security s m) else security s m))

-- What becomes of the security of the table `m`.
abbrev pub security_after : String → List (Change × String) → Security → Security
security_after m [] x = x
security_after m ((c, n) ∷ cs) x = security_after m cs (if text_eq n m then changed c x else x)

module _ (engine : Engine) (rls : RowSecurity engine) where
  open engine use {State, table, index, rows}

  -- `op.execute` for each change
  pub run_changes : List (Change × String) → State → Option State
  run_changes [] s = some s
  run_changes ((c, n) ∷ cs) s = elim (rls.alter c n s) [ none ↦ none | some s' ↦ run_changes cs s' ]

  -- The tables, their indexes and their rows are the same.
  pub record IsSame (s s' : State) : Type 0 where
    pub tables : (m : String) → table s' m ≡ table s m
    pub indexes : (m : String) → index s' m ≡ index s m
    pub contents : (m : String) → rows s' m ≡ rows s m

  abbrev pub stand : State → List (Change × String) → Bool
  stand s = all_of (λ (c : Change × String). is_some (table s c.1))

  stand-IsSame :
      (s s' : State) (cs : List (Change × String))
      → ((m : String) → table s' m ≡ table s m)
      → stand s cs ≡ true
      → stand s' cs ≡ true
  stand-IsSame s s' [] same e = refl
  stand-IsSame s s' ((c, n) ∷ cs) same e = ground (arith, same n, stand-IsSame s s' cs same)

  -- Changes of tables that stand succeed, and change nothing but their security.
  pub run_changes_lem :
      (cs : List (Change × String)) (s : State)
      → stand s cs ≡ true
      → (s' : State) × (run_changes cs s ≡ some s')
        × IsSame s s'
        × ((m : String) → rls.security s' m ≡ security_after m cs (rls.security s m))
  unfolding run_changes
  run_changes_lem [] s e =
      (s, refl, record { tables = λ m. refl; indexes = λ m. refl; contents = λ m. refl }, λ m. refl)
  run_changes_lem ((c, n) ∷ cs) s e =
      let (s', ok, t, i, r, x) = rls.alter_lem c n s (ground arith) in
      let (s'', all, same, y) = run_changes_lem cs s' (stand-IsSame s s' cs t (ground arith)) in
      (
        s'',
        rw (ok, run_changes) all,
        record {
          tables = λ m. same.tables m ∙ t m;
          indexes = λ m. same.indexes m ∙ i m;
          contents = λ m. same.contents m ∙ r m;
        },
        λ m. y m ∙ ap (security_after m cs) (x m),
      )
