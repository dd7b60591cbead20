-- ===== src/Db/Schema/Memory.antt =====
-- A database that behaves as the interface Engine says: what stands under each name, as functions.
pub mod Alter
use pid_docs.Prelude.{
  String, text_eq, eq_iff, Bool, true, false, not, ◌&&◌, ◌||◌, Option, none, some, List, [], ◌∷◌,
  ◌++◌, ◌≡◌, sym, refl, ap, ◌∙◌, if◌then◌else◌, arith, Bool-cases, inl, inr,
}
use mathlib.Core.Option
use pid_docs.Db.Schema.Migrate.{Lacks}
use pid_docs.Db.Schema.{
  Table, Row, Statement, create_extension, create_table, create_index, bulk_insert, drop_table,
  all_of, is_member, index_names,
}
use pid_docs.Db.Schema.RowSecurity.{Security, unprotected}
use pid_docs.Db.Schema.Engine.{Engine, is_some, referenced, admits, without, distinct}

-- A table, its rows, an index and the row level security under each name.
pub record Catalog : Type 0 where
  pub tables : String → Option (Table × List Row)
  pub indexes : String → Option String
  pub security : String → Security
  pub owned : (i n : String) → indexes i ≡ some n → is_some (tables n) ≡ true

table : Catalog → String → Option Table
table s n = Option.map (λ (e : Table × List Row). e.0) (s.tables n)

rows_of : Option (Table × List Row) → List Row
rows_of none = []
rows_of (some e) = e.1

rows : Catalog → String → List Row
unfolding rows_of
rows s n = rows_of (s.tables n)

put_table : Table → Catalog → Catalog
put_table t s = record {
  tables = λ m. if text_eq t.name m then some (t, []) else s.tables m;
  indexes = λ m. if is_member m (index_names t) then some t.name else s.indexes m;
  security = λ m. if text_eq t.name m then unprotected else s.security m;
  owned = λ i n e. ground (arith, s.owned i n, eq_iff t.name n);
}

put_index : (i n : String) (s : Catalog) → is_some (s.tables n) ≡ true → Catalog
put_index i n s h = record {
  tables = s.tables;
  indexes = λ m. if text_eq i m then some n else s.indexes m;
  security = s.security;
  owned = λ j o e. ground (arith, s.owned j o, h);
}

kept_rows :
    (n o : String) (new : List Row) (x : Option (Table × List Row))
    → is_some x ≡ true
    → is_some
        (if text_eq n o then Option.map (λ (e : Table × List Row). (e.0, e.1 ++ new)) x else x)
      ≡ true
kept_rows n o new none h = absurd (ground arith)
kept_rows n o new (some a) h = ground arith

kept :
    (n o : String) (i : Option String)
    → without n i ≡ some o
    → (x : Option (Table × List Row)) → (i ≡ some o → is_some x ≡ true)
    → is_some (if text_eq n o then none else x) ≡ true
kept n o none e x h = absurd (ground arith)
kept n o (some a) e x h = ground (arith, eq_iff a n, eq_iff n o, eq_iff a o, h)

put_rows : String → List Row → Catalog → Catalog
put_rows n new s = record {
  tables = λ m.
      if text_eq n m
      then Option.map (λ (e : Table × List Row). (e.0, e.1 ++ new)) (s.tables m)
      else s.tables m;
  indexes = s.indexes;
  security = s.security;
  owned = λ i o e. kept_rows n o new (s.tables o) (s.owned i o e);
}

drop : String → Catalog → Catalog
drop n s = record {
  tables = λ m. if text_eq n m then none else s.tables m;
  indexes = λ i. without n (s.indexes i);
  security = s.security;
  owned = λ i o e. kept n o (s.indexes i) e (s.tables o) (s.owned i o);
}

-- An error if one of the names is taken or missing.
index_if : (i n : String) (s : Catalog) (b : Bool) → is_some (s.tables n) ≡ b → Option Catalog
index_if i n s true h =
    if is_some (s.tables i) || is_some (s.indexes i) then none else some (put_index i n s h)
index_if i n s false h = none

insert_if : String → List Row → Catalog → Option Table → Option Catalog
insert_if n new s none = none
insert_if n new s (some t) = if admits t (rows s n) new then some (put_rows n new s) else none

abbrev is_free : Catalog → String → Bool
is_free s n = not (is_some (table s n)) && not (is_some (s.indexes n))

execute : Statement → Catalog → Option Catalog
execute (create_extension n) s = some s
execute (create_table t) s =
    if is_free s t.name
      && (all_of (is_free s) (index_names t)
          && (distinct (t.name ∷ index_names t)
              && all_of (λ n. is_some (table s n)) (referenced t.name t.columns)))
    then some (put_table t s)
    else none
execute (create_index i n) s = index_if i n s (is_some (s.tables n)) refl
execute (bulk_insert n new) s = insert_if n new s (table s n)
execute (drop_table n) s = if is_some (s.indexes n) then none else some (drop n s)

no_entry :
    (x : Option (Table × List Row)) → Option.map (λ (e : Table × List Row). e.0) x ≡ none → x ≡ none
no_entry none e = refl
no_entry (some a) e = absurd (ground arith)

entry :
    (x : Option (Table × List Row))
    → is_some (Option.map (λ (e : Table × List Row). e.0) x) ≡ is_some x
entry none = refl
entry (some a) = refl

index_if_lem :
    (i n : String) (s : Catalog) (b : Bool) (h : is_some (s.tables n) ≡ b)
    → b ≡ true
    → s.tables i ≡ none
    → s.indexes i ≡ none
    → (s' : Catalog) × (index_if i n s b h ≡ some s')
      × ((m : String) → table s' m ≡ table s m)
      × ((m : String) → s'.indexes m ≡ (if text_eq i m then some n else s.indexes m))
      × ((m : String) → rows s' m ≡ rows s m)
unfolding index_if put_index table rows
index_if_lem i n s true h t f g =
    (put_index i n s h, rw f (rw g refl), λ m. refl, λ m. refl, λ m. refl)
index_if_lem i n s false h t f g = absurd (ground arith)

table-put_table :
    (t : Table) (s : Catalog) (m : String)
    → table (put_table t s) m ≡ (if text_eq t.name m then some t else table s m)
unfolding table put_table
table-put_table t s m = ground arith

rows-put_table :
    (t : Table) (s : Catalog) (m : String)
    → rows (put_table t s) m ≡ (if text_eq t.name m then [] else rows s m)
unfolding rows put_table
rows-put_table t s m = ground arith

fst_grown :
    (new : List Row) (x : Option (Table × List Row))
    → Option.map
        (λ (e : Table × List Row). e.0)
        (Option.map (λ (e : Table × List Row). (e.0, e.1 ++ new)) x)
      ≡ Option.map (λ (e : Table × List Row). e.0) x
fst_grown new none = refl
fst_grown new (some a) = refl

table-put_rows :
    (n : String) (new : List Row) (s : Catalog) (m : String)
    → table (put_rows n new s) m ≡ table s m
unfolding table put_rows
table-put_rows n new s m = elim (Bool-cases (text_eq n m)) [
  | inl e ↦ rw e (fst_grown new (s.tables m))
  | inr e ↦ rw e refl
]

table-drop :
    (n : String) (s : Catalog) (m : String)
    → table (drop n s) m ≡ (if text_eq n m then none else table s m)
unfolding table drop
table-drop n s m = ground arith

rows-drop :
    (n : String) (s : Catalog) (m : String)
    → rows (drop n s) m ≡ (if text_eq n m then [] else rows s m)
unfolding rows drop
rows-drop n s m = ground arith

rows_grown :
    (new : List Row) (x : Option (Table × List Row)) (t : Table)
    → Option.map (λ (e : Table × List Row). e.0) x ≡ some t
    → rows_of (Option.map (λ (e : Table × List Row). (e.0, e.1 ++ new)) x) ≡ rows_of x ++ new
unfolding rows_of
rows_grown new none t e = absurd (ground arith)
rows_grown new (some a) t e = refl

rows-put_rows :
    (n : String) (new : List Row) (s : Catalog) (t : Table)
    → table s n ≡ some t
    → (m : String) → rows (put_rows n new s) m ≡ (if text_eq n m then rows s m ++ new else rows s m)
unfolding table rows put_rows rows_of
rows-put_rows n new s t e m = elim (Bool-cases (text_eq n m)) [
  | inl f ↦
      let g : n ≡ m = (eq_iff n m).0 f in
      rw (rows, put_rows, f) (rows_grown new (s.tables m) t (rw (← g) e))
  | inr f ↦ rw (rows, put_rows, f) refl
]

rows_absent : (s : Catalog) (n : String) → table s n ≡ none → rows s n ≡ []
unfolding table rows
rows_absent s n e = ground (arith, no_entry (s.tables n))

inserted :
    (n : String) (new : List Row) (s : Catalog) (t : Table)
    → admits t (rows s n) new ≡ true
    → insert_if n new s (some t) ≡ some (put_rows n new s)
unfolding insert_if
inserted n new s t h = rw h refl

created :
    (t : Table) (s : Catalog)
    → table s t.name ≡ none
    → s.indexes t.name ≡ none
    → all_of (is_free s) (index_names t) ≡ true
    → distinct (t.name ∷ index_names t) ≡ true
    → all_of (λ n. is_some (table s n)) (referenced t.name t.columns) ≡ true
    → execute (create_table t) s ≡ some (put_table t s)
unfolding execute
created t s f g free apart h = rw (f, g, free, apart, h) refl

pub memory : Engine
unfolding execute put_table put_rows drop table rows
memory = record {
  State = Catalog;
  table = table;
  index = λ s. s.indexes;
  rows = rows;
  execute = execute;
  extension_lem = λ n s. (s, refl, λ m. refl, λ m. refl, λ m. refl);
  table_lem = λ t s f g free apart h. (
    put_table t s,
    created t s f g free apart h,
    table-put_table t s,
    λ m. refl,
    rows-put_table t s,
  );
  index_lem = λ i n s f g h.
      index_if_lem i n s _ refl (sym (entry (s.tables n)) ∙ h) (no_entry (s.tables i) f) g;
  insert_lem = λ n new s t e h. (
    put_rows n new s,
    ap (insert_if n new s) e ∙ inserted n new s t h,
    table-put_rows n new s,
    λ m. refl,
    rows-put_rows n new s t e,
  );
  drop_lem = λ n s free. (drop n s, rw free refl, table-drop n s, λ m. refl, rows-drop n s);
  index-table = λ s i n e. entry (s.tables n) ∙ s.owned i n e;
  rows_none = rows_absent;
}

no_owner :
    (i n : String)
    → ◌≡◌ {A = Option String} none (some n)
    → is_some {A = Table × List Row} none ≡ true
no_owner i n e = cc

-- A database with no table.
pub empty : Engine.State memory
unfolding memory
empty = record {
  tables = λ n. none;
  indexes = λ i. none;
  security = λ n. unprotected;
  owned = no_owner;
}

pub empty-Lacks : (names : List String) → Lacks memory names empty
unfolding memory empty table
empty-Lacks names m e = (refl, refl)
