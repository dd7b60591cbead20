-- ===== src/AuthService/Login.antt =====
-- `AuthService.login`: the login by address and password with its lockout. `out.reply` is what Supabase
-- answers, if it is asked.
pub mod Laws
use pid_docs.Prelude.{ℕ, String, Bool, Option, none, some, leb, if◌then◌else◌}
use pid_docs.Prelude.Exec.{Result, ok, err, Exec, ◌>>=◌}
use pid_docs.Db.{User}
use pid_docs.Redis.{Redis}
use pid_docs.Auth.BruteForce.{
  lockout_threshold, record_login_failure, is_locked_out, clear_failures, lockout_ttl,
}
use pid_docs.AuthService.{
  AuthError, account_locked, invalid_credentials, account_not_found, network_error, Call,
  sign_in_password, Reply, replied, refused, failed, Body, session_tokens, user_public,
  AuthResponse, State, Flow, called, write_audit,
}
use pid_docs.AuthService.Users.{active_user_by_email}

pub record Outside : Type 0 where
  pub reply : Reply Body
  pub seconds : ℕ
  pub now : ℕ
  pub audit_id : ℕ
  pub audits : Bool

module _ (r : Redis) (out : Outside) (email : String) where
  open r use {Store}

  abbrev audited : String → Option ℕ → State Store → State Store
  audited = write_audit out.audits out.audit_id out.now

  -- the `except SupabaseAuthError` branch
  bad_credentials : Flow Store AuthResponse
  bad_credentials s =
      let (count, counters) = record_login_failure r email out.seconds s.counters in
      let action : String =
        if leb lockout_threshold count then "login_locked" else "login_failed" in
      (err invalid_credentials, audited action none (record s { counters = counters }))

  -- the user that was found among the active ones
  signed_in : Body → Option User → Flow Store AuthResponse
  signed_in body none s = (err account_not_found, s)
  signed_in body (some user) s = (
    ok (record { tokens = session_tokens body; user = user_public user }),
    audited "login_success" (some user.id)
        (record s { counters = clear_failures r email s.counters }),
  )

  after_sign_in : Reply Body → Flow Store AuthResponse
  unfolding bad_credentials signed_in
  after_sign_in (refused status code) s = bad_credentials s
  after_sign_in failed s = (err network_error, s)
  after_sign_in (replied body) s = (active_user_by_email email >>= signed_in body) s

  unfoldable pub login : Flow Store AuthResponse
  unfolding after_sign_in
  login s =
      if is_locked_out r email out.seconds s.counters
      then (
        err (account_locked (lockout_ttl r email out.seconds s.counters)),
        audited "login_locked" none s,
      )
      else after_sign_in out.reply (called (sign_in_password email) s)
