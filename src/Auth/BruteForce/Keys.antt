-- ===== src/Auth/BruteForce/Keys.antt =====
-- The keys of the login counter (auth/brute_force.py and redis/cache.py).
use pid_docs.Prelude.{ℕ, String, eq_iff, eq_refl, ◌≡◌, ◌≢◌, false, arith}
use pid_docs.Prelude.Text.{lower, lower_idem}
use text.Mathlib.TextLemmas.{append_cancel_left}
use pid_docs.Redis.{Redis}
use pid_docs.Auth.BruteForce.{
  lockout_key, cache_key, record_login_failure, get_brute_force, is_locked_out, clear_failures,
}

module _ (r : Redis) (email : String) (now : ℕ) where
  open r use {Store, look, incr, look-incr, look-expire, look-delete}

  -- An address in capitals and in small letters share one counter: a failure under either is recorded,
  -- read and cleared under both.
  pub record_login_failure-lower :
      (s : Store)
      → (record_login_failure r (lower email) now s ≡ record_login_failure r email now s)
        × (is_locked_out r (lower email) now s ≡ is_locked_out r email now s)
        × (clear_failures r (lower email) s ≡ clear_failures r email s)
  unfolding record_login_failure is_locked_out clear_failures
  record_login_failure-lower s = (rw lower_idem, rw lower_idem, ground (arith, lower_idem email))

  -- A successful login clears the counter: the account is not locked, whatever was counted before.
  pub is_locked_out-clear_failures :
      (s : Store) → is_locked_out r email now (clear_failures r email s) ≡ false
  unfolding is_locked_out clear_failures
  is_locked_out-clear_failures s = ground (
    arith,
    look-delete s now (lockout_key email) (lockout_key email),
    eq_refl (lockout_key email),
  )

cache_key-ne-lockout_key :
    (email : String) → email ≢ lower email → cache_key email ≢ lockout_key email
unfolding cache_key lockout_key
cache_key-ne-lockout_key email ne e = ne (append_cancel_left "brute_force:" email (lower email) e)

-- The counter of the Redis cache module is another one for an address that is not in small letters: a
-- failure that the lockout records there does not change what `get_brute_force` answers.
pub get_brute_force-record_login_failure :
    (r : Redis) (email : String) (now : ℕ) (s : Redis.Store r)
    → email ≢ lower email
    → get_brute_force r email now (record_login_failure r email now s).1
      ≡ get_brute_force r email now s
unfolding get_brute_force record_login_failure
get_brute_force-record_login_failure r email now s ne = ground (
  arith,
  r.look-incr s now (lockout_key email) (cache_key email),
  r.look-expire (r.incr now (lockout_key email) s) now 900 (lockout_key email) (cache_key email),
  eq_iff (lockout_key email) (cache_key email),
  cache_key-ne-lockout_key email ne,
)
