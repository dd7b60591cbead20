-- ===== src/Db/Schema/RoundTrip.antt =====
-- The first migration (alembic/versions/0001_initial_schema.py) forth and back.
use pid_docs.Prelude.{
  String, text_eq, eq_iff, Bool, true, false, not, ◌&&◌, Option, none, some, List, [], ◌∷◌, ◌≡◌,
  ◌∙◌, refl, arith, Bool-cases, inl, inr, All,
}
use pid_docs.Db.Schema.{
  Table, Statement, create_extension, create_table, create_index, bulk_insert, drop_table, all_of,
  is_member, index_names, fits, passes, is_given,
}
use pid_docs.Auth.Permissions.{lookup}
use pid_docs.Db.Schema.Engine.{Engine, is_some, without, admits}
use pid_docs.Db.Schema.Migrate.{
  table_after, index_after, reverse_onto, names_of, may_run_all, Lacks, Behind, run, run_lem,
}
use pid_docs.Db.Schema.Initial.{
  create_statements, upgrade, downgrade, tier_seed_data, entity_class_seed_data,
}

all_of-member :
    (P : String → Bool) (m : String) (xs : List String)
    → all_of P xs ≡ true
    → is_member m xs ≡ true
    → P m ≡ true
all_of-member P m [] e h = cc
all_of-member P m (x ∷ xs) e h = elim (Bool-cases (text_eq m x)) [
  | inl s ↦ rw ((eq_iff m x).0 s) (ground arith)
  | inr s ↦ all_of-member P m xs (ground arith) (ground arith)
]

-- The statement gives, and drops, none but the names.
abbrev within : List String → Statement → Bool
within names (create_table t) =
    is_member t.name names && all_of (λ n. is_member n names) (index_names t)
within names (create_index i n) = is_member i names
within names (drop_table n) = is_member n names
within names (create_extension n) = true
within names (bulk_insert n new) = true

pub apart :
    (x m : String) (names : List String)
    → is_member x names ≡ true
    → is_member m names ≡ false
    → text_eq x m ≡ false
apart x m names e f = elim (Bool-cases (text_eq x m)) [
  | inr d ↦ d
  | inl d ↦ let g : is_member m names ≡ true = rw (← ((eq_iff x m).0 d)) e in absurd (ground arith)
]

not_member :
    (m : String) (names xs : List String)
    → all_of (λ n. is_member n names) xs ≡ true
    → is_member m names ≡ false
    → is_member m xs ≡ false
not_member m names [] e f = refl
not_member m names (x ∷ xs) e f = ground (
  arith,
  apart x m names (ground arith) f,
  eq_iff x m,
  eq_iff m x,
  not_member m names xs (ground arith) f,
)

-- An index on a table of another name.
abbrev OnOther : List String → Option String → Type 0
OnOther names none = Unit
OnOther names (some n) = is_member n names ≡ false

module _ (names : List String) (m : String) (other : is_member m names ≡ false) where
  table_after-other :
      (h : List Statement) (o : Option Table)
      → all_of (within names) h ≡ true
      → table_after m h o ≡ o
  table_after-other [] o e = refl
  table_after-other (create_table t ∷ h) o e =
      rw (apart t.name m names (ground arith) other) (table_after-other h o (ground arith))
  table_after-other (drop_table n ∷ h) o e =
      rw (apart n m names (ground arith) other) (table_after-other h o (ground arith))
  table_after-other (create_index i n ∷ h) o e = table_after-other h o (ground arith)
  table_after-other (create_extension n ∷ h) o e = table_after-other h o (ground arith)
  table_after-other (bulk_insert n new ∷ h) o e = table_after-other h o (ground arith)

  without-other :
      (n : String) (o : Option String)
      → is_member n names ≡ true
      → OnOther names o
      → without n o ≡ o
  without-other n none e f = refl
  without-other n (some t) e f = elim (Bool-cases (text_eq t n)) [
    | inr d ↦ rw d refl
    | inl d ↦ let g : is_member t names ≡ true = rw ((eq_iff t n).0 d) e in absurd (ground arith)
  ]

  index_after-other :
      (h : List Statement) (o : Option String)
      → all_of (within names) h ≡ true
      → OnOther names o
      → index_after m h o ≡ o
  index_after-other [] o e f = refl
  index_after-other (create_index i n ∷ h) o e f =
      rw (apart i m names (ground arith) other) (index_after-other h o (ground arith) f)
  index_after-other (drop_table n ∷ h) o e f =
      rw (index_after-other h o (ground arith) f) (without-other n o (ground arith) f)
  index_after-other (create_table t ∷ h) o e f =
      rw (not_member m names (index_names t) (ground arith) other)
        (index_after-other h o (ground arith) f)
  index_after-other (create_extension n ∷ h) o e f = index_after-other h o (ground arith) f
  index_after-other (bulk_insert n new ∷ h) o e f = index_after-other h o (ground arith) f

-- what was executed when the downgrade has run, the newest first
abbrev history : List Statement
history = reverse_onto downgrade (reverse_onto upgrade [])

-- the tables of the statements
abbrev pub tables_of : List Statement → List Table
tables_of [] = []
tables_of (create_table t ∷ sts) = t ∷ tables_of sts
tables_of (create_index i n ∷ sts) = tables_of sts
tables_of (create_extension n ∷ sts) = tables_of sts
tables_of (drop_table n ∷ sts) = tables_of sts
tables_of (bulk_insert n new ∷ sts) = tables_of sts

abbrev pub relations : List String
relations = names_of create_statements

nothing {ℓ} : {A : Type ℓ} (o : Option A) → not (is_some o) ≡ true → o ≡ none
nothing none e = refl
nothing (some a) e = absurd (ground arith)

no_tables_left : (m : String) → is_member m relations ≡ true → table_after m history none ≡ none
no_tables_left m e =
    nothing _ (all_of-member (λ n. not (is_some (table_after n history none))) m relations refl e)

no_indexes_left : (m : String) → is_member m relations ≡ true → index_after m history none ≡ none
no_indexes_left m e =
    nothing _ (all_of-member (λ n. not (is_some (index_after n history none))) m relations refl e)

upgrade_may_run : may_run_all relations [] upgrade ≡ true
unfolding admits fits passes is_given lookup
upgrade_may_run = refl

downgrade_may_run : may_run_all relations (reverse_onto upgrade []) downgrade ≡ true
downgrade_may_run = refl

module _ (engine : Engine) where
  open engine use {State, table, index, rows}

  OnOther-index :
      (names : List String) (s : State) (m : String) (o : Option String)
      → Lacks engine names s
      → index s m ≡ o
      → OnOther names o
  OnOther-index names s m none lacks e = tt
  OnOther-index names s m (some n) lacks e = elim (Bool-cases (is_member n names)) [
    | inr f ↦ f
    | inl f ↦ absurd (ground (arith, engine.index-table s m n e, (lacks n f).0))
  ]

  table_back :
      (s : State) (m : String)
      → Lacks engine relations s
      → table_after m history (table s m) ≡ table s m
  table_back s m lacks = elim (Bool-cases (is_member m relations)) [
    | inl e ↦ rw ((lacks m e).0) (no_tables_left m e)
    | inr e ↦ table_after-other relations m e history (table s m) refl
  ]

  index_back :
      (s : State) (m : String)
      → Lacks engine relations s
      → index_after m history (index s m) ≡ index s m
  index_back s m lacks = elim (Bool-cases (is_member m relations)) [
    | inl e ↦ rw ((lacks m e).1) (no_indexes_left m e)
    | inr e ↦
        index_after-other relations m e history (index s m) refl
          (OnOther-index relations s m (index s m) lacks refl)
  ]

  -- The upgrade succeeds on a database without its relations.
  pub upgrade_lem :
      (s : State)
      → Lacks engine relations s
      → (s' : State) × (run engine upgrade s ≡ some s')
        × Behind engine s (reverse_onto upgrade []) s'
  upgrade_lem s lacks =
      run_lem engine relations s lacks [] s
        (record { tables = λ m. refl; indexes = λ m. refl; contents = λ m. refl }) upgrade
        upgrade_may_run

  -- Behind it the downgrade succeeds, and leaves what was there before.
  pub downgrade_lem :
      (s s' : State)
      → Lacks engine relations s
      → Behind engine s (reverse_onto upgrade []) s'
      → (s'' : State) × (run engine downgrade s' ≡ some s'')
        × ((m : String) → (table s'' m ≡ table s m) × (index s'' m ≡ index s m))
  downgrade_lem s s' lacks b =
      let (s'', down, b') =
        run_lem engine relations s lacks (reverse_onto upgrade []) s' b downgrade
          downgrade_may_run in
      (s'', down, λ m. (b'.tables m ∙ table_back s m lacks, b'.indexes m ∙ index_back s m lacks))

  -- Behind the upgrade each table stands as it was declared.
  pub tables_stand :
      (s s' : State)
      → Behind engine s (reverse_onto upgrade []) s'
      → All (λ t. table s' (Table.name t) ≡ some t) (tables_of create_statements)
  tables_stand s s' b = (
    b.tables "tier",
    (
      b.tables "team",
      (
        b.tables "user",
        (
          b.tables "subscription",
          (
            b.tables "stored_file",
            (
              b.tables "file_hash_blocklist",
              (
                b.tables "drawing",
                (
                  b.tables "entity_class",
                  (
                    b.tables "detected_symbol",
                    (
                      b.tables "table_cell",
                      (
                        b.tables "user_correction",
                        (
                          b.tables "export_record",
                          (
                            b.tables "ml_training_consent",
                            (b.tables "revision_comparison", (b.tables "stripe_event", tt)),
                          ),
                        ),
                      ),
                    ),
                  ),
                ),
              ),
            ),
          ),
        ),
      ),
    ),
  )

  -- On a database that has no relation of one of its names, the upgrade of the first migration succeeds: each
  -- table that it creates then stands as it was declared, and the two seeded tables hold their rows. The
  -- downgrade behind it succeeds too, and leaves under every name, of its own or not, the table and the index
  -- that were there before.
  pub downgrade-upgrade :
      (s : State)
      → Lacks engine relations s
      → (s' : State) × (s'' : State) × (run engine upgrade s ≡ some s')
        × (run engine downgrade s' ≡ some s'')
        × All (λ t. table s' (Table.name t) ≡ some t) (tables_of create_statements)
        × (rows s' "tier" ≡ tier_seed_data)
        × (rows s' "entity_class" ≡ entity_class_seed_data)
        × ((m : String) → (table s'' m ≡ table s m) × (index s'' m ≡ index s m))
  downgrade-upgrade s lacks =
      let (s', up, b) = upgrade_lem s lacks in
      let (s'', down, back) = downgrade_lem s s' lacks b in
      (s', s'', up, down, tables_stand s s' b, b.contents "tier", b.contents "entity_class", back)
