-- ===== src/Redis/Memory.antt =====
-- A store that satisfies the laws: an entry for every key, hidden once it has expired.
use mathlib.Core.Option
use pid_docs.Prelude.{
  ℕ, ◌+◌, ◌≤◌, ◌<◌, String, text_eq, ◌≡◌, Option, none, some, arith, if◌then◌else◌, eq_iff,
}
use pid_docs.Redis.{Entry, bumped, expiring, visible, Redis}

abbrev pub Keys : Type 0
Keys = String → Option Entry

abbrev put : String → Option Entry → Keys → Keys
put k e s j = if text_eq k j then e else s j

abbrev look : Keys → ℕ → String → Option Entry
look s t k = visible t (s k)

abbrev incr : ℕ → String → Keys → Keys
incr t k s = put k (some (bumped (look s t k))) s

abbrev expire : ℕ → String → ℕ → Keys → Keys
expire t k d s = put k (Option.map (expiring (t + d)) (look s t k)) s

abbrev delete : String → Keys → Keys
delete k s = put k none s

pub look-incr :
    (s : Keys) (t : ℕ) (k j : String)
    → look (incr t k s) t j ≡ (if text_eq k j then some (bumped (look s t k)) else look s t j)
look-incr s t k j = ground (arith, eq_iff k j)

pub look-expire :
    (s : Keys) (t d : ℕ) (k j : String)
    → 0 < d
    → look (expire t k d s) t j
      ≡ (if text_eq k j then Option.map (expiring (t + d)) (look s t k) else look s t j)
look-expire s t d k j pos = ground (arith, eq_iff k j)

pub look-delete :
    (s : Keys) (t : ℕ) (k j : String)
    → look (delete k s) t j ≡ (if text_eq k j then none else look s t j)
look-delete s t k j = ground arith

pub look-later : (s : Keys) (t u : ℕ) (k : String) → t ≤ u → look s u k ≡ visible u (look s t k)
look-later s t u k h = ground arith

abbrev pub memory : Redis
memory = record {
  Store = Keys;
  look = look;
  incr = incr;
  expire = expire;
  delete = delete;
  look-incr = look-incr;
  look-expire = look-expire;
  look-delete = look-delete;
  look-later = look-later;
}

abbrev pub no_keys : Keys
no_keys k = none
