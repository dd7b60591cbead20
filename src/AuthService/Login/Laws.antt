-- ===== src/AuthService/Login/Laws.antt =====
-- What a login guarantees (services/auth_service.py).
use pid_docs.Prelude.{ℕ, String, ◌≡◌, true, false, Option, some, [], ◌∷◌, ◌++◌, arith}
use pid_docs.Prelude.Exec.{ok, err}
use pid_docs.Db.{User}
use pid_docs.Redis.{Redis}
use pid_docs.Auth.BruteForce.{record_login_failure, is_locked_out, clear_failures, lockout_ttl}
use pid_docs.AuthService.{
  account_locked, invalid_credentials, sign_in_password, replied, refused, Body, session_tokens,
  user_public, AuthResponse, State, write_audit,
}
use pid_docs.AuthService.Users.{active_user_by_email, find_active}
use pid_docs.AuthService.Login.{Outside, login}

module _ (r : Redis) (out : Outside) (email : String) (s : State (Redis.Store r)) where
  -- A locked account gets the lockout answer with the seconds that are left, and Supabase is not
  -- asked: no call is made, and the counter stays as it is, even if the password would be right.
  pub login_locked :
      is_locked_out r email out.seconds s.counters ≡ true
      → let (res, s') = login r out email s in
        (res ≡ err (account_locked (lockout_ttl r email out.seconds s.counters)))
        × (s'.calls ≡ s.calls)
        × (s'.counters ≡ s.counters)
        × (s'.world.users ≡ s.world.users)
  unfolding login write_audit
  login_locked h = ground arith

  -- A login succeeds only for an account that is not locked, on credentials that Supabase accepted,
  -- and for the one active user with this address; then the failures are cleared.
  pub login_succeeds :
      (res : AuthResponse)
      → (login r out email s).0 ≡ ok res
      → (is_locked_out r email out.seconds s.counters ≡ false)
        × ((body : Body) × (user : User) × (out.reply ≡ replied body)
            × (find_active email s.world.users ≡ ok (some user))
            × (res ≡ record { tokens = session_tokens body; user = user_public user })
            × ((login r out email s).1.counters ≡ clear_failures r email s.counters))
  unfolding login write_audit active_user_by_email
  login_succeeds res h = ground arith

  -- Wrong credentials are answered the same on every attempt, and each one counts as a failure.
  pub login_fails :
      (status : Option ℕ) (code : Option String)
      → is_locked_out r email out.seconds s.counters ≡ false
      → out.reply ≡ refused status code
      → let (res, s') = login r out email s in
        (res ≡ err invalid_credentials)
        × (s'.counters ≡ (record_login_failure r email out.seconds s.counters).1)
        × (s'.calls ≡ s.calls ++ sign_in_password email ∷ [])
  unfolding login write_audit
  login_fails status code h e = ground arith

  -- However a login ends, it changes no user.
  pub login-users : (login r out email s).1.world.users ≡ s.world.users
  unfolding login write_audit active_user_by_email
  login-users = ground arith
