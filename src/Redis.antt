-- ===== src/Redis.antt =====
-- What the backend uses of a Redis server for counters: the documented behaviour of INCR, EXPIRE, DEL
-- and GET, as operations with laws. `look s t k` is the entry under a key at the second `t`.
pub mod Pubsub
pub mod Client
pub mod Memory
pub mod Values
pub mod Cache
use mathlib.Core.Option
use pid_docs.Prelude.{
  ℕ, ◌+◌, ◌≤◌, ◌<◌, String, text_eq, ◌≡◌, Option, none, some, leb, if◌then◌else◌,
}

pub record Entry : Type 0 where
  pub count : ℕ
  -- the second at which the key expires, if it has a time to live
  pub deadline : Option ℕ

-- INCR makes a missing key 1, without a time to live, and keeps the one that a key has.
abbrev pub bumped : Option Entry → Entry
bumped none = record { count = 1; deadline = none }
bumped (some e) = record e { count = e.count + 1 }

abbrev pub expiring : ℕ → Entry → Entry
expiring t e = record e { deadline = some t }

-- What is left of an entry at the second `t`.
abbrev pub visible_until : ℕ → Entry → Option ℕ → Option Entry
visible_until t e none = some e
visible_until t e (some d) = if leb d t then none else some e

abbrev pub visible : ℕ → Option Entry → Option Entry
visible t none = none
visible t (some e) = visible_until t e e.deadline

pub record Redis : Type 1 where
  pub Store : Type 0
  pub look : Store → ℕ → String → Option Entry
  pub incr : ℕ → String → Store → Store
  pub expire : ℕ → String → ℕ → Store → Store
  pub delete : String → Store → Store
  pub look-incr :
      (s : Store) (t : ℕ) (k j : String)
      → look (incr t k s) t j ≡ (if text_eq k j then some (bumped (look s t k)) else look s t j)
  pub look-expire :
      (s : Store) (t d : ℕ) (k j : String)
      → 0 < d
      → look (expire t k d s) t j
        ≡ (if text_eq k j then Option.map (expiring (t + d)) (look s t k) else look s t j)
  pub look-delete :
      (s : Store) (t : ℕ) (k j : String)
      → look (delete k s) t j ≡ (if text_eq k j then none else look s t j)
  pub look-later : (s : Store) (t u : ℕ) (k : String) → t ≤ u → look s u k ≡ visible u (look s t k)
