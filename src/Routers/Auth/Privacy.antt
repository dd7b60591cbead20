-- ===== src/Routers/Auth/Privacy.antt =====
-- What the answers of api/routers/auth.py tell about the accounts that exist.
use pid_docs.Prelude.{ℕ, String, ◌≡◌, Option, arith, Bool-cases, inl, inr, if◌then◌else◌}
use pid_docs.Prelude.Exec.{ok, err}
use pid_docs.Redis.{Redis}
use pid_docs.AuthService.{State, refused, database_error}
use pid_docs.AuthService.Login as Login
use pid_docs.AuthService.PasswordReset as PasswordReset
use pid_docs.AuthService.PasswordReset.Laws.{request_reset_ok}
use pid_docs.AuthService.Users.Unique.{Unique, find_active-Unique}
use pid_docs.Routers.{no_content}
use pid_docs.Routers.Auth.{login, password_reset_request}

-- Wrong credentials are answered the same whatever the tables hold: whether the address has an account, a
-- deleted one or none, the answer depends on the counters of failed logins alone.
pub login_private :
    (r : Redis) (out : Login.Outside) (email : String) (s t : State (Redis.Store r))
    (status : Option ℕ) (code : Option String)
    → s.counters ≡ t.counters
    → out.reply ≡ refused status code
    → (login r out email s).0 ≡ (login r out email t).0
unfolding login Login.login
login_private r out email s t status code same h = ground arith

-- While ids and addresses are unique, the answer to a request for a password reset does not depend on the address:
-- it is 204 if the read of the user succeeds, and an unhandled error if it fails.
pub password_reset_request_private :
    {Store : Type 0} (parse_uuid : String → Option ℕ) (str : ℕ → String)
    (out : PasswordReset.Outside) (email : String) (s : State Store)
    → Unique s.world.users
    → (password_reset_request parse_uuid str out email s).0
      ≡ (if out.reads then ok no_content else err database_error)
unfolding password_reset_request
password_reset_request_private parse_uuid str out email s u = elim (Bool-cases out.reads) [
  | inr r ↦ unfold PasswordReset.request_reset in ground arith
  | inl r ↦
      let (found, e) = find_active-Unique email s.world.users u in
      ground (arith, (request_reset_ok parse_uuid str out email found s e r).0)
]
