-- ===== src/Auth/BruteForce/Window.antt =====
-- The window of the lockout (auth/brute_force.py).

use pid_docs.Prelude.{
  ℕ, ◌+◌, ◌-◌, ◌≤◌, ◌<◌, String, ◌≡◌, true, false, none, some, List, [], ◌∷◌, arith, leb, length,
  eq_refl,
}
use pid_docs.Redis.{Redis}
use pid_docs.Auth.BruteForce.{lockout_key, record_login_failure, is_locked_out, lockout_ttl}

module _ (r : Redis) (email : String) where
  open r use {Store, look, incr, expire, delete, look-incr, look-expire, look-delete, look-later}

  -- Failures at the given seconds, one after the other.
  pub fail_at : List ℕ → Store → Store
  fail_at [] s = s
  fail_at (t ∷ ts) s = fail_at ts (record_login_failure r email t s).1

  first_failure :
      (t : ℕ) (s : Store)
      → look s t (lockout_key email) ≡ none
      → look (record_login_failure r email t s).1 t (lockout_key email)
        ≡ some (record { count = 1; deadline = some (t + 900) })
  unfolding record_login_failure
  first_failure t s h =
      let k = lockout_key email in
      ground (arith, look-incr s t k k, look-expire (incr t k s) t 900 k k, eq_refl k)

  later_failure :
      (t n d : ℕ) (s : Store)
      → look s t (lockout_key email) ≡ some (record { count = n + 1; deadline = some d })
      → look (record_login_failure r email t s).1 t (lockout_key email)
        ≡ some (record { count = n + 2; deadline = some d })
  unfolding record_login_failure
  later_failure t n d s h =
      let k = lockout_key email in ground (arith, look-incr s t k k, eq_refl k)

  -- Times that do not go back and stay below the deadline.
  abbrev pub InWindow : ℕ → ℕ → List ℕ → Type 0
  InWindow d p [] = Unit
  InWindow d p (t ∷ ts) = (p ≤ t) × (t < d) × InWindow d t ts

  abbrev pub last : ℕ → List ℕ → ℕ
  last p [] = p
  last p (t ∷ ts) = last t ts

  failures :
      (ts : List ℕ) (p n d : ℕ) (s : Store)
      → look s p (lockout_key email) ≡ some (record { count = n + 1; deadline = some d })
      → InWindow d p ts
      → look (fail_at ts s) (last p ts) (lockout_key email)
        ≡ some (record { count = n + 1 + length ts; deadline = some d })
  unfolding fail_at
  failures [] p n d s h w = ground (arith, h)
  failures (t ∷ ts) p n d s h w =
      let k = lockout_key email in
      let s' = (record_login_failure r email t s).1 in
      let here : look s t k ≡ some (record { count = n + 1; deadline = some d }) =
        ground (arith, look-later s p t k w.0) in
      let there : look s' t k ≡ some (record { count = n + 1 + 1; deadline = some d }) =
        ground (arith, later_failure t n d s here) in
      ground (arith, failures ts t (n + 1) d s' there w.2)

  -- From a clean key, failures at `t` and at the times `ts` of the next fifteen minutes lock the account
  -- exactly when they are five or more, at every later moment before `t` + 900 seconds, and with the
  -- seconds that are left to it as the answer's delay.
  pub is_locked_out_window :
      (t u : ℕ) (ts : List ℕ) (s : Store)
      → look s t (lockout_key email) ≡ none
      → InWindow (t + 900) t ts
      → last t ts ≤ u
      → u < t + 900
      → let s' = fail_at (t ∷ ts) s in
        (is_locked_out r email u s' ≡ leb 5 (1 + length ts))
        × (lockout_ttl r email u s' ≡ t + 900 - u)
  unfolding fail_at is_locked_out lockout_ttl
  is_locked_out_window t u ts s h w le lt =
      let k = lockout_key email in
      let s' = (record_login_failure r email t s).1 in
      let start : look s' t k ≡ some (record { count = 0 + 1; deadline = some (t + 900) }) =
        first_failure t s h in
      ground
        (arith, failures ts t 0 (t + 900) s' start w, look-later (fail_at ts s') (last t ts) u k le)

  -- From a clean key, after failures at `t` and at times `ts` of the fifteen minutes behind it, the
  -- account is not locked at any moment from `t` + 900 seconds on, however many failures there
  -- were: the window does not slide.
  pub is_locked_out_expired :
      (t u : ℕ) (ts : List ℕ) (s : Store)
      → look s t (lockout_key email) ≡ none
      → InWindow (t + 900) t ts
      → last t ts ≤ u
      → t + 900 ≤ u
      → is_locked_out r email u (fail_at (t ∷ ts) s) ≡ false
  unfolding fail_at is_locked_out
  is_locked_out_expired t u ts s h w le late =
      let k = lockout_key email in
      let s' = (record_login_failure r email t s).1 in
      let start : look s' t k ≡ some (record { count = 0 + 1; deadline = some (t + 900) }) =
        first_failure t s h in
      ground
        (arith, failures ts t 0 (t + 900) s' start w, look-later (fail_at ts s') (last t ts) u k le)

  -- The times do not go back.
  abbrev pub Ascending : ℕ → List ℕ → Type 0
  Ascending p [] = Unit
  Ascending p (t ∷ ts) = (p ≤ t) × Ascending t ts

  unbounded_failure :
      (t n : ℕ) (s : Store)
      → look s t (lockout_key email) ≡ some (record { count = n + 1; deadline = none })
      → look (record_login_failure r email t s).1 t (lockout_key email)
        ≡ some (record { count = n + 2; deadline = none })
  unfolding record_login_failure
  unbounded_failure t n s h =
      let k = lockout_key email in ground (arith, look-incr s t k k, eq_refl k)

  unbounded_failures :
      (ts : List ℕ) (p n : ℕ) (s : Store)
      → look s p (lockout_key email) ≡ some (record { count = n + 1; deadline = none })
      → Ascending p ts
      → look (fail_at ts s) (last p ts) (lockout_key email)
        ≡ some (record { count = n + 1 + length ts; deadline = none })
  unfolding fail_at
  unbounded_failures [] p n s h w = ground (arith, h)
  unbounded_failures (t ∷ ts) p n s h w =
      let k = lockout_key email in
      let s' = (record_login_failure r email t s).1 in
      let here : look s t k ≡ some (record { count = n + 1; deadline = none }) =
        ground (arith, look-later s p t k w.0) in
      let there : look s' t k ≡ some (record { count = n + 1 + 1; deadline = none }) =
        ground (arith, unbounded_failure t n s here) in
      ground (arith, unbounded_failures ts t (n + 1) s' there w.1)

  -- From a clean key: a process that ends between the two Redis calls of the first failure, INCR
  -- and EXPIRE, leaves a counter without a time to live. Once four more failures have come, at any
  -- later times, the account is locked at every later moment, and the client is told to retry after
  -- 0 seconds.
  pub is_locked_out_forever :
      (t u : ℕ) (ts : List ℕ) (s : Store)
      → look s t (lockout_key email) ≡ none
      → Ascending t ts
      → 4 ≤ length ts
      → last t ts ≤ u
      → let s' = fail_at ts (incr t (lockout_key email) s) in
        (is_locked_out r email u s' ≡ true) × (lockout_ttl r email u s' ≡ 0)
  unfolding is_locked_out lockout_ttl
  is_locked_out_forever t u ts s h w many le =
      let k = lockout_key email in
      let s' = incr t k s in
      let start : look s' t k ≡ some (record { count = 0 + 1; deadline = none }) =
        ground (arith, look-incr s t k k, eq_refl k) in
      ground
        (arith, unbounded_failures ts t 0 s' start w, look-later (fail_at ts s') (last t ts) u k le)
