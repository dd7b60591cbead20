-- ===== src/AuthService/PasswordReset.antt =====
-- services/password_reset.py: the request for a reset email, and the confirmation of a reset.
pub mod Laws
pub mod Tokens
use pid_docs.Prelude.{
  ℕ, String, Bool, true, false, Option, none, some, [], ◌∷◌, ◌++◌, get_or, is_some, if◌then◌else◌,
}
use pid_docs.Prelude.Exec.{Result, ok, err, Exec, ◌>>=◌, ◌>>◌, raise, modify, pure}
use pid_docs.Db.{User, get_user, update_user}
use pid_docs.AuthService.{
  AuthError, invalid_reset_token, sign_out_failed, network_error, database_error, Call,
  generate_link, reset_password, admin_sign_out, Reply, replied, refused, failed, State, Flow,
  called, write_audit, enqueue_notification,
}
use pid_docs.AuthService.Users.{active_user_by_email}

pub record Outside : Type 0 where
  -- whether the read of the user in front of a request succeeds
  pub reads : Bool
  -- the link for the email, and whether the broker takes the job
  pub link : Reply String
  pub enqueues : Bool
  -- the user id that `supabase_reset_password` brings, if it is there
  pub reset : Reply (Option String)
  pub signs_out : Bool
  pub now : ℕ
  pub commits : Bool
  pub audit_id : ℕ
  pub audits : Bool

abbrev pub invalidated : ℕ → User → User
invalidated now u = record u { token_invalidated_at = some now }

module _ {Store : Type 0} (parse_uuid : String → Option ℕ) (str : ℕ → String) (out : Outside) where
  send_reset : String → User → Reply String → State Store → State Store
  send_reset email user (replied url) s =
      if out.enqueues
      then enqueue_notification "send_password_reset_email"
          (("user_id", str user.id)
            ∷ ("email", email)
            ∷ ("display_name", user.display_name)
            ∷ ("reset_url", url)
            ∷ [])
          s
      else s
  send_reset email user (refused status code) s = s
  send_reset email user failed s = s

  when_registered : String → Option User → Flow Store Unit
  unfolding send_reset
  when_registered email none s = (ok tt, s)
  when_registered email (some user) s =
      (ok tt, send_reset email user out.link (called (generate_link email) s))

  unfoldable pub request_reset : String → Flow Store Unit
  unfolding when_registered
  request_reset email =
      (if out.reads then active_user_by_email email else raise database_error)
      >>= when_registered email

  -- `UUID(str(supabase_user["id"]))`, with a missing id and a bad one as `InvalidResetToken`
  reset_user : Reply (Option String) → Flow Store ℕ
  reset_user failed = raise network_error
  reset_user (refused status code) = raise invalid_reset_token
  reset_user (replied id) = elim id [
    | none ↦ raise invalid_reset_token
    | some raw ↦ elim (parse_uuid raw) [ none ↦ raise invalid_reset_token | some uid ↦ pure uid ]
  ]

  -- Rule #12: the revocation comes first, and its failure ends the flow.
  revoke : ℕ → Flow Store Unit
  revoke uid s =
      let s' = called (admin_sign_out uid) s in
      if out.signs_out
      then (
        ok tt,
        record s' { world = record s'.world { signed_out = s'.world.signed_out ++ uid ∷ [] } },
      )
      else (err sign_out_failed, s')

  invalidate : ℕ → Flow Store Unit
  invalidate uid s = elim (get_user uid s.world.users) [
    | none ↦ (ok tt, s)
    | some user ↦
        if out.commits
        then (
          ok tt,
          record s {
            world = record s.world { users = update_user uid (invalidated out.now) s.world.users };
          },
        )
        else (err database_error, s)
  ]

  unfoldable pub confirm_reset : Flow Store Unit
  unfolding reset_user revoke invalidate
  confirm_reset = do
    modify (called reset_password)
    uid ← reset_user out.reset
    revoke uid
    invalidate uid
    modify (write_audit out.audits out.audit_id out.now "password_reset_confirmed" (some uid))
