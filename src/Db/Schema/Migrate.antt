-- ===== src/Db/Schema/Migrate.antt =====
-- The run of a migration on any database that has none of its relations yet: what stands under each name is
-- read off the statements that were executed.
use pid_docs.Prelude.{
  String, text_eq, Bool, true, false, not, ◌&&◌, Option, none, some, List, [], ◌∷◌, ◌++◌, ◌≡◌, ◌∙◌,
  ap, refl, if◌then◌else◌, arith, Option-cases, inl, inr,
}
use pid_docs.Db.Schema.{
  Table, Row, Statement, create_extension, create_table, create_index, bulk_insert, drop_table,
  all_of, is_member, index_names,
}
use pid_docs.Db.Schema.Engine.{Engine, is_some, referenced, admits, without, distinct}

-- What stands under the name `m` behind the statements, the newest first, over what stood there before.
abbrev pub table_after : String → List Statement → Option Table → Option Table
table_after m [] o = o
table_after m (create_table t ∷ h) o = if text_eq t.name m then some t else table_after m h o
table_after m (drop_table n ∷ h) o = if text_eq n m then none else table_after m h o
table_after m (create_extension n ∷ h) o = table_after m h o
table_after m (create_index i n ∷ h) o = table_after m h o
table_after m (bulk_insert n new ∷ h) o = table_after m h o

abbrev pub index_after : String → List Statement → Option String → Option String
index_after m [] o = o
index_after m (create_index i n ∷ h) o = if text_eq i m then some n else index_after m h o
index_after m (drop_table n ∷ h) o = without n (index_after m h o)
index_after m (create_extension n ∷ h) o = index_after m h o
index_after m (create_table t ∷ h) o =
    if is_member m (index_names t) then some t.name else index_after m h o
index_after m (bulk_insert n new ∷ h) o = index_after m h o

abbrev pub rows_after : String → List Statement → List Row → List Row
rows_after m [] o = o
rows_after m (create_table t ∷ h) o = if text_eq t.name m then [] else rows_after m h o
rows_after m (drop_table n ∷ h) o = if text_eq n m then [] else rows_after m h o
rows_after m (bulk_insert n new ∷ h) o =
    let old = rows_after m h o in if text_eq n m then old ++ new else old
rows_after m (create_extension n ∷ h) o = rows_after m h o
rows_after m (create_index i n ∷ h) o = rows_after m h o

abbrev pub reverse_onto : List Statement → List Statement → List Statement
reverse_onto [] h = h
reverse_onto (st ∷ sts) h = reverse_onto sts (st ∷ h)

-- the names that the statements give
abbrev pub names_of : List Statement → List String
names_of [] = []
names_of (create_table t ∷ sts) = (t.name ∷ index_names t) ++ names_of sts
names_of (create_index i n ∷ sts) = i ∷ names_of sts
names_of (create_extension n ∷ sts) = names_of sts
names_of (drop_table n ∷ sts) = names_of sts
names_of (bulk_insert n new ∷ sts) = names_of sts

module _ (names : List String) where
  abbrev is_free : List Statement → String → Bool
  is_free h n =
      is_member n names
      && (not (is_some (table_after n h none)) && not (is_some (index_after n h none)))

  abbrev stands : List Statement → String → Bool
  stands h n = is_member n names && is_some (table_after n h none)

  -- The statement succeeds behind the others, on a database that has none of the names.
  abbrev pub may_run : List Statement → Statement → Bool
  may_run h (create_extension n) = true
  may_run h (drop_table n) = is_member n names && not (is_some (index_after n h none))
  may_run h (create_table t) =
      is_free h t.name
      && (all_of (is_free h) (index_names t)
          && (distinct (t.name ∷ index_names t) && all_of (stands h) (referenced t.name t.columns)))
  may_run h (create_index i n) = is_free h i && stands h n
  may_run h (bulk_insert n new) =
      is_member n names
      && (elim (table_after n h none) [ none ↦ false | some t ↦ admits t (rows_after n h []) new ])

  abbrev pub may_run_all : List Statement → List Statement → Bool
  may_run_all h [] = true
  may_run_all h (st ∷ sts) = may_run h st && may_run_all (st ∷ h) sts

module _ (engine : Engine) where
  open engine use {State, table, index, rows, execute}

  -- `op.execute` for each statement
  pub run : List Statement → State → Option State
  run [] s = some s
  run (st ∷ sts) s = elim (execute st s) [ none ↦ none | some s' ↦ run sts s' ]

  -- The database has none of the names.
  abbrev pub Lacks : List String → State → Type 0
  Lacks names s = (m : String) → is_member m names ≡ true → (table s m ≡ none) × (index s m ≡ none)

  pub record Behind (s₀ : State) (h : List Statement) (s : State) : Type 0 where
    pub tables : (m : String) → table s m ≡ table_after m h (table s₀ m)
    pub indexes : (m : String) → index s m ≡ index_after m h (index s₀ m)
    pub contents : (m : String) → rows s m ≡ rows_after m h (rows s₀ m)

  module _ (names : List String) (s₀ : State) (lacks : Lacks names s₀) (h : List Statement)
      (s : State) (b : Behind s₀ h s) where
    table_here : (m : String) → is_member m names ≡ true → table s m ≡ table_after m h none
    table_here m e = b.tables m ∙ ap (table_after m h) (lacks m e).0

    index_here : (m : String) → is_member m names ≡ true → index s m ≡ index_after m h none
    index_here m e = b.indexes m ∙ ap (index_after m h) (lacks m e).1

    rows_here : (m : String) → is_member m names ≡ true → rows s m ≡ rows_after m h []
    rows_here m e = b.contents m ∙ ap (rows_after m h) (engine.rows_none s₀ m (lacks m e).0)

    stands_here :
        (ns : List String)
        → all_of (stands names h) ns ≡ true
        → all_of (λ n. is_some (table s n)) ns ≡ true
    stands_here [] e = refl
    stands_here (n ∷ ns) e = ground (arith, table_here n, stands_here ns)

    free_here :
        (ns : List String)
        → all_of (is_free names h) ns ≡ true
        → all_of (λ n. not (is_some (table s n)) && not (is_some (index s n))) ns ≡ true
    free_here [] e = refl
    free_here (n ∷ ns) e = ground (arith, table_here n, index_here n, free_here ns)

    execute_lem :
        (st : Statement)
        → may_run names h st ≡ true
        → (s' : State) × (execute st s ≡ some s') × Behind s₀ (st ∷ h) s'
    execute_lem (create_extension n) e =
        let (s', ok, t, i, r) = engine.extension_lem n s in
        (
          s',
          ok,
          record {
            tables = λ m. t m ∙ b.tables m;
            indexes = λ m. i m ∙ b.indexes m;
            contents = λ m. r m ∙ b.contents m;
          },
        )
    execute_lem (create_table d) e =
        let (s', ok, t, i, r) =
          engine.table_lem d s (ground (arith, table_here d.name))
            (ground (arith, index_here d.name)) (free_here (index_names d) (ground arith))
            (ground arith) (stands_here (referenced d.name d.columns) (ground arith)) in
        (
          s',
          ok,
          record {
            tables = λ m. t m ∙ rw (b.tables m) refl;
            indexes = λ m. i m ∙ rw (b.indexes m) refl;
            contents = λ m. r m ∙ rw (b.contents m) refl;
          },
        )
    execute_lem (create_index x n) e =
        let (s', ok, t, i, r) =
          engine.index_lem x n s (ground (arith, table_here x)) (ground (arith, index_here x))
            (ground (arith, table_here n)) in
        (
          s',
          ok,
          record {
            tables = λ m. t m ∙ b.tables m;
            indexes = λ m. i m ∙ rw (b.indexes m) refl;
            contents = λ m. r m ∙ b.contents m;
          },
        )
    execute_lem (bulk_insert n new) e = elim (Option-cases (table_after n h none)) [
      | inl f ↦ absurd (ground arith)
      | inr (d, f) ↦
          let (s', ok, t, i, r) =
            engine.insert_lem n new s d (ground (arith, table_here n))
              (ground (arith, rows_here n)) in
          (
            s',
            ok,
            record {
              tables = λ m. t m ∙ b.tables m;
              indexes = λ m. i m ∙ b.indexes m;
              contents = λ m. r m ∙ rw (b.contents m) refl;
            },
          )
    ]
    execute_lem (drop_table n) e =
        let (s', ok, t, i, r) = engine.drop_lem n s (ground (arith, index_here n)) in
        (
          s',
          ok,
          record {
            tables = λ m. t m ∙ rw (b.tables m) refl;
            indexes = λ m. i m ∙ ap (without n) (b.indexes m);
            contents = λ m. r m ∙ rw (b.contents m) refl;
          },
        )

  -- Statements of which each may run behind the ones before it all succeed.
  pub run_lem :
      (names : List String) (s₀ : State)
      → Lacks names s₀
      → (h : List Statement) (s : State) → Behind s₀ h s
      → (sts : List Statement) → may_run_all names h sts ≡ true
      → (s' : State) × (run sts s ≡ some s') × Behind s₀ (reverse_onto sts h) s'
  unfolding run
  run_lem names s₀ lacks h s b [] e = (s, refl, b)
  run_lem names s₀ lacks h s b (st ∷ sts) e =
      let (s', ok, b') = execute_lem names s₀ lacks h s b st (ground arith) in
      let (s'', all, b'') = run_lem names s₀ lacks (st ∷ h) s' b' sts (ground arith) in
      (s'', rw (run, ok) all, b'')
