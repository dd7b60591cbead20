-- ===== src/Auth/BruteForce.antt =====
-- auth/brute_force.py: the login lockout over a Redis counter, and the counter of redis/cache.py.
-- Times are in seconds, and the Redis calls succeed.
pub mod Window
pub mod Keys
use Prim.Native.String as Text
use pid_docs.Prelude.{ℕ, ◌-◌, String, Bool, false, Option, none, some, leb, ◌==◌, if◌then◌else◌}
use pid_docs.Prelude.Text.{lower}
use pid_docs.Redis.{Entry, Redis}

abbrev pub lockout_threshold : ℕ
lockout_threshold = 5

abbrev pub lockout_ttl_seconds : ℕ
lockout_ttl_seconds = 900

-- `brute_force:{email.lower()}`
pub lockout_key : String → String
lockout_key email = Text.◌++◌ "brute_force:" (lower email)

-- redis/cache.py: `brute_force:{email}`
pub cache_key : String → String
cache_key email = Text.◌++◌ "brute_force:" email

-- the value of a GET on the counter
abbrev pub count_of : Option Entry → ℕ
count_of none = 0
count_of (some e) = e.count

-- `max(int(ttl), 0)`: TTL is negative for a missing key and for one that never expires.
abbrev remaining_until : ℕ → Option ℕ → ℕ
remaining_until now none = 0
remaining_until now (some d) = d - now

abbrev pub remaining : ℕ → Option Entry → ℕ
remaining now none = 0
remaining now (some e) = remaining_until now e.deadline

module _ (r : Redis) where
  open r use {Store, look, incr, expire, delete}

  -- INCR, then EXPIRE if the counter is new, on one key
  pub record_failure : String → ℕ → Store → ℕ × Store
  record_failure key now s =
      let s' = incr now key s in
      let count = count_of (look s' now key) in
      (count, if count == 1 then expire now key lockout_ttl_seconds s' else s')

  pub record_login_failure : String → ℕ → Store → ℕ × Store
  unfolding record_failure lockout_key
  record_login_failure email = record_failure (lockout_key email)

  -- redis/cache.py
  pub incr_brute_force : String → ℕ → Store → ℕ × Store
  unfolding record_failure cache_key
  incr_brute_force email = record_failure (cache_key email)

  pub get_brute_force : String → ℕ → Store → ℕ
  unfolding cache_key
  get_brute_force email now s = count_of (look s now (cache_key email))

  pub clear_brute_force : String → Store → Store
  unfolding cache_key
  clear_brute_force email = delete (cache_key email)

  unfoldable pub is_locked_out : String → ℕ → Store → Bool
  unfolding lockout_key
  is_locked_out email now s = leb lockout_threshold (count_of (look s now (lockout_key email)))

  pub clear_failures : String → Store → Store
  unfolding lockout_key
  clear_failures email = delete (lockout_key email)

  -- services/auth_service.py
  pub lockout_ttl : String → ℕ → Store → ℕ
  unfolding lockout_key
  lockout_ttl email now s = remaining now (look s now (lockout_key email))
