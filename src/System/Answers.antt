-- ===== src/System/Answers.antt =====
-- What the handlers of api/routers/auth.py answer in the states that a run of System.antt reaches.
use pid_docs.Prelude.{ℕ, String, ◌≡◌, Option, if◌then◌else◌}
use pid_docs.Prelude.Exec.{ok, err}
use pid_docs.Redis.{Redis}
use pid_docs.AuthService.PasswordReset as PasswordReset
use pid_docs.AuthService.Users.Unique.{Unique}
use pid_docs.AuthService.{database_error}
use pid_docs.Routers.{no_content}
use pid_docs.Routers.Auth.{password_reset_request}
use pid_docs.Routers.Auth.Privacy.{password_reset_request_private}
use pid_docs.System.{Database, Reach}
use pid_docs.System.Accounts.{Reach-Unique}

-- The answer to a request for a password reset does not depend on whether the address has an account, nor on what
-- Supabase and the broker do: it is 204 if the read of the user succeeds, and an unhandled error if it fails, in
-- every state that the operations of the system reach from one in which no two users share an id or an address.
pub Reach-password_reset_request :
    (r : Redis) (parse_uuid : String → Option ℕ) (str : ℕ → String)
    (hmac : String → String → String) (out : PasswordReset.Outside) (email : String)
    {s t : Database r parse_uuid str hmac}
    → Unique s.world.users
    → Reach r parse_uuid str hmac s t
    → (password_reset_request parse_uuid str out email t).0
      ≡ (if out.reads then ok no_content else err database_error)
Reach-password_reset_request r parse_uuid str hmac out email {s} {t} u run =
    password_reset_request_private parse_uuid str out email t
      (Reach-Unique r parse_uuid str hmac u run)
