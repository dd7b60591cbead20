-- ===== src/AuthService/PasswordReset/Tokens.antt =====
-- A confirmed reset and the requests that follow it (services/password_reset.py, auth/middleware.py).
use pid_docs.Prelude.{ℕ, ◌*◌, ◌≤◌, String, ◌≡◌, refl, Option, some}
use pid_docs.Prelude.Exec.{ok}
use pid_docs.Db.{User, get_user}
use pid_docs.Auth.Middleware.{Claims, Identity, authenticate_request}
use pid_docs.Auth.Middleware.Sound.{Accepted, authenticate_request_invalidated}
use pid_docs.AuthService.{State, replied}
use pid_docs.AuthService.PasswordReset.{Outside, invalidated, confirm_reset}
use pid_docs.AuthService.PasswordReset.Laws.{confirm_reset_succeeds}

-- After a password reset that was confirmed at the microsecond `out.now`, every request that is
-- accepted as this user carries a token whose issue time, in whole seconds, is not before the reset.
pub confirm_reset-authenticate_request :
    {Store : Type 0} (decode : String → Option Claims) (parse_uuid : String → Option ℕ)
    (str : ℕ → String) (out : Outside) (s : State Store) (header : Option String) (raw : String)
    (ident : Identity) (row : User)
    → out.reset ≡ replied (some raw)
    → parse_uuid raw ≡ some ident.id
    → get_user ident.id s.world.users ≡ some row
    → (confirm_reset parse_uuid str out s).0 ≡ ok tt
    → authenticate_request decode parse_uuid header
        (confirm_reset parse_uuid str out s).1.world.users
      ≡ some ident
    → (a : Accepted decode parse_uuid header
        (confirm_reset parse_uuid str out s).1.world.users
        ident)
      × (out.now ≤ a.iat * 1000000)
confirm_reset-authenticate_request decode parse_uuid str out s header raw ident row a b found done
      h =
    authenticate_request_invalidated decode parse_uuid header _ ident (invalidated out.now row)
      out.now ((confirm_reset_succeeds parse_uuid str out s raw ident.id a b done).2 row found) refl
      h
