-- ===== src/Routers/Auth.antt =====
-- The seven handlers of api/routers/auth.py over the services. An `err` is an exception that leaves the
-- handler.
pub mod Statuses
pub mod Privacy
use pid_docs.Prelude.{ℕ, String, Bool, Option, none, some, List, if◌then◌else◌}
use pid_docs.Prelude.Exec.{Result, ok, err, Exec}
use pid_docs.Redis.{Redis}
use pid_docs.Auth.Middleware.{Claims}
use pid_docs.Auth.Dependencies.{
  Denied, unauthenticated, forbidden, validation_error, get_current_user,
}
use pid_docs.AuthService.{
  value_error, AuthError, email_already_registered, invalid_credentials, account_not_found,
  invalid_refresh_token, invalid_reset_token, sign_out_failed, account_locked,
  account_link_required, Reply, Body, Tokens, AuthResponse, State, Flow,
}
use pid_docs.AuthService.Login as Login
use pid_docs.AuthService.Register as Register
use pid_docs.AuthService.OAuth as OAuth
use pid_docs.AuthService.Session as Session
use pid_docs.AuthService.PasswordReset as PasswordReset
use pid_docs.Routers.{Content, detail, auth, tokens, retry, link, Response, json_error, no_content}
use pid_docs.Routers.Email.{valid_email}

abbrev pub Answer : Type 0
Answer = Result AuthError Response

-- `try: return ... except ...`: the answer to a success, and the handlers of the exceptions
abbrev answered :
    {Store A : Type 0} → (A → Response) → (AuthError → Answer) → Flow Store A → Flow Store Response
answered good handle m s =
    let (res, s') = m s in (elim res [ ok a ↦ ok (good a) | err e ↦ handle e ], s')

-- what a success is answered, with the status of the route
abbrev shown : ℕ → AuthResponse → Response
shown status_code a = record { status_code = status_code; content = auth a }

on_register : AuthError → Answer
on_register email_already_registered = ok (json_error 409 "email_already_registered")
on_register e = err e

on_login : AuthError → Answer
on_login (account_locked seconds) =
    ok (record { status_code = 429; content = retry "account_locked" seconds })
on_login account_not_found = ok (json_error 401 "account_not_found")
on_login invalid_credentials = ok (json_error 401 "invalid_credentials")
on_login e = err e

on_oauth : AuthError → Answer
on_oauth (account_link_required email) =
    ok (record { status_code = 409; content = link "account_link_required" email })
on_oauth invalid_credentials = ok (json_error 401 "invalid_token")
on_oauth e = err e

on_refresh : AuthError → Answer
on_refresh invalid_refresh_token = ok (json_error 401 "invalid_or_expired_refresh_token")
on_refresh e = err e

on_confirm : AuthError → Answer
on_confirm invalid_reset_token = ok (json_error 400 "invalid_or_expired_reset_token")
on_confirm sign_out_failed = ok (json_error 500 "session_revocation_failed")
on_confirm e = err e

abbrev show_tokens : Tokens → Response
show_tokens t = record { status_code = 200; content = tokens t }

module _ {Store : Type 0} (parse_uuid : String → Option ℕ) (str : ℕ → String) where
  unfoldable pub register : Register.Outside → String → String → Flow Store Response
  unfolding on_register
  register out email display_name s =
      if valid_email email
      then answered (shown 201) on_register
          (Register.register parse_uuid str out email display_name) s
      else (ok (json_error 400 "invalid_email"), s)

  unfoldable pub oauth_google : OAuth.Outside → Tokens → Option OAuth.Claims → Flow Store Response
  unfolding on_oauth
  oauth_google out ts verified =
      answered (shown 200) on_oauth (OAuth.oauth_google parse_uuid out ts verified)

  unfoldable pub password_reset_request : PasswordReset.Outside → String → Flow Store Response
  password_reset_request out email =
      answered (λ _. no_content) err (PasswordReset.request_reset parse_uuid str out email)

  unfoldable pub password_reset_confirm : PasswordReset.Outside → Flow Store Response
  unfolding on_confirm
  password_reset_confirm out =
      answered (λ _. no_content) on_confirm (PasswordReset.confirm_reset parse_uuid str out)

module _ (r : Redis) where
  open r use {Store}

  unfoldable pub login : Login.Outside → String → Flow Store Response
  unfolding on_login
  login out email = answered (shown 200) on_login (Login.login r out email)

-- what FastAPI answers where the guard refuses; pydantic's `ValidationError` is a `ValueError`
on_denied : Denied → Answer
on_denied unauthenticated = ok (record { status_code = 401; content = detail "Not authenticated" })
on_denied forbidden = ok (record { status_code = 403; content = detail "Insufficient role" })
on_denied validation_error = err value_error

module _ {Store : Type 0} where
  unfoldable pub refresh : Reply Body → Flow Store Response
  unfolding on_refresh
  refresh reply = answered show_tokens on_refresh (Session.refresh reply)

  -- behind `get_current_user`, on the header of the request
  unfoldable pub logout :
      (String → Option Claims)
      → (String → Option ℕ)
      → Option String
      → Reply (Unit {0})
      → Bool
      → ℕ
      → ℕ
      → Flow Store Response
  unfolding on_denied
  logout decode parse_uuid header reply audits audit_id now s =
      elim (get_current_user decode parse_uuid header s.world.users) [
        | err d ↦ (on_denied d, s)
        | ok user ↦
            answered (λ _. no_content) err (Session.logout reply audits audit_id now user.id) s
      ]
