-- ===== src/Redis/Client.antt =====
-- redis/client.py: the clients that a process shares, and the event loops that they are bound to. A client, as
-- redis.asyncio documents it, works on the loop on which it was made; a loop is a number.
pub mod Loops
mod Tests
use pid_docs.Prelude.{
  ℕ, String, Bool, true, false, Option, none, some, List, [], ◌∷◌, ◌++◌, if◌then◌else◌,
}
use pid_docs.Prelude.Text.{is_empty}
use pid_docs.Prelude.Exec.{Result, ok, err}

-- What is done with a client: it is made, used for a publication, or closed. The first number is the loop on which it
-- was made, the second one that on which it is used.
pub data Use : Type 0 where
  made : ℕ → Use
  published closed : ℕ → ℕ → Use

-- `_client` and `_cache_read_client`, each by the loop on which it was made, and what was done so far.
pub record Process : Type 0 where
  pub client : Option ℕ
  pub cache_read_client : Option ℕ
  pub uses : List Use

pub data Failure : Type 0 where
  not_configured redis_error : Failure

abbrev used : Use → Process → Process
used u p = record p { uses = p.uses ++ u ∷ [] }

pub require_redis_url : Option String → Result Failure String
require_redis_url none = err not_configured
require_redis_url (some url) = if is_empty url then err not_configured else ok url

module _ (redis_url : Option String) (loop : ℕ) where
  unfoldable pub get_redis : Process → Result Failure ℕ × Process
  unfolding require_redis_url
  get_redis p = elim p.client [
    | some l ↦ (ok l, p)
    | none ↦ elim (require_redis_url redis_url) [
      | err e ↦ (err e, p)
      | ok url ↦ (ok loop, used (made loop) (record p { client = some loop }))
    ]
  ]

  unfoldable pub get_cache_read_client : Process → Result Failure ℕ × Process
  unfolding require_redis_url
  get_cache_read_client p = elim p.cache_read_client [
    | some l ↦ (ok l, p)
    | none ↦ elim (require_redis_url redis_url) [
      | err e ↦ (err e, p)
      | ok url ↦ (ok loop, used (made loop) (record p { cache_read_client = some loop }))
    ]
  ]

  -- Whatever `aclose` raises is swallowed.
  close : Option ℕ → Process → Process
  close none p = p
  close (some l) p = used (closed l loop) p

  unfoldable pub close_redis : Process → Process
  unfolding close
  close_redis p = record (close p.cache_read_client (close p.client p)) {
    client = none;
    cache_read_client = none;
  }

  -- `publish_drawing_status` as far as the client goes
  publish : Bool → Process → Result Failure (Unit {0}) × Process
  publish answers p =
      let (r, q) = get_redis p in
      elim r [
        | err e ↦ (err e, q)
        | ok l ↦ (if answers then ok tt else err redis_error, used (published l loop) q)
      ]

  -- `_publish_then_close` of workers/scan/tasks.py, which runs on a loop of its own
  unfoldable pub publish_then_close : Bool → Process → Result Failure (Unit {0}) × Process
  unfolding publish get_redis close_redis
  publish_then_close answers p = let (r, q) = publish answers p in (r, close_redis q)
