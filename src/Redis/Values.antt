-- ===== src/Redis/Values.antt =====
-- What the backend uses of a Redis server for cached values: the documented behaviour of SET, with and without
-- EX, DEL and GET. `get s t k` is the text under a key at the second `t`.
use pid_docs.Prelude.{ℕ, String, text_eq, ◌≡◌, Option, none, some, ltb, if◌then◌else◌}

abbrev pub live_until : Option ℕ → ℕ → String → Option String
live_until none t v = some v
live_until (some d) t v = if ltb t d then some v else none

pub record Values : Type 1 where
  pub Store : Type 0
  pub get : Store → ℕ → String → Option String
  -- the second at which the value expires, if it does
  pub set : String → String → Option ℕ → Store → Store
  pub delete : String → Store → Store
  pub get-set :
      (s : Store) (t : ℕ) (k j v : String) (d : Option ℕ)
      → get (set k v d s) t j ≡ (if text_eq k j then live_until d t v else get s t j)
  pub get-delete :
      (s : Store) (t : ℕ) (k j : String)
      → get (delete k s) t j ≡ (if text_eq k j then none else get s t j)

-- A store that satisfies the laws.
abbrev Table : Type 0
Table = String → ℕ → Option String

abbrev pub table : Values
table = record {
  Store = Table;
  get = λ s t k. s k t;
  set = λ k v d s j t. if text_eq k j then live_until d t v else s j t;
  delete = λ k s j t. if text_eq k j then none else s j t;
  get-set = λ s t k j v d. λ i. if text_eq k j then live_until d t v else s j t;
  get-delete = λ s t k j. λ i. if text_eq k j then none else s j t;
}

abbrev pub no_values : Table
no_values k t = none
