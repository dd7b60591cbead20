-- ===== src/AuthService/Register.antt =====
-- `AuthService.register`: the email and password registration.
pub mod Laws
use pid_docs.Prelude.{
  ℕ, String, Bool, true, false, Option, none, some, [], ◌∷◌, get_or, if◌then◌else◌,
}
use pid_docs.Prelude.Exec.{Result, ok, err, Exec, ◌>>=◌, ◌>>◌, raise, modify, pure}
use pid_docs.Db.{User}
use pid_docs.AuthService.{
  AuthError, email_already_registered, supabase_error, network_error, value_error, Call, sign_up,
  generate_link, Reply, replied, refused, failed, Body, session_tokens, looks_like_duplicate,
  user_public, AuthResponse, State, Flow, called, enqueue_notification, supabase_managed_sentinel,
}
use pid_docs.AuthService.Users.{active_user_by_email, insert_user}

pub record Outside : Type 0 where
  pub reply : Reply Body
  pub link : Reply String
  pub subscription_id : ℕ
  pub commits : Bool
  pub enqueues : Bool

-- The row of a new account that logs in with a password.
abbrev pub password_user : ℕ → String → String → User
password_user id email display_name = record {
  id = id;
  email = email;
  display_name = display_name;
  password_hash = some supabase_managed_sentinel;
  email_verified = false;
  team_id = none;
  role = "user";
  deleted_at = none;
  anonymous_id = none;
  token_invalidated_at = none;
}

module _ {Store : Type 0} (parse_uuid : String → Option ℕ) (str : ℕ → String) (out : Outside) where
  -- Generating the link and enqueuing the email are best-effort.
  send_link : User → Reply String → State Store → State Store
  send_link user (replied url) s =
      if out.enqueues
      then enqueue_notification "send_verification_email"
          (("user_id", str user.id)
            ∷ ("email", user.email)
            ∷ ("display_name", user.display_name)
            ∷ ("verification_url", url)
            ∷ [])
          s
      else s
  send_link user (refused status code) s = s
  send_link user failed s = s

  pub send_verification : User → State Store → State Store
  unfolding send_link
  send_verification user s = send_link user out.link (called (generate_link user.email) s)

  create : Body → User → Flow Store AuthResponse
  unfolding send_verification
  create body user = do
    insert_user out.commits out.subscription_id user
    modify (send_verification user)
    pure (record { tokens = session_tokens body; user = user_public user })

  after_sign_up : String → String → Reply Body → Flow Store AuthResponse
  unfolding create
  after_sign_up email display_name failed = raise network_error
  after_sign_up email display_name (refused status code) =
      raise (if looks_like_duplicate status code then email_already_registered else supabase_error)
  after_sign_up email display_name (replied body) = elim (parse_uuid (get_or body.user_id "")) [
    | none ↦ raise value_error
    | some id ↦ create body (password_user id email display_name)
  ]

  unless_registered : String → String → Option User → Flow Store AuthResponse
  unfolding after_sign_up
  unless_registered email display_name (some user) s = (err email_already_registered, s)
  unless_registered email display_name none s =
      after_sign_up email display_name out.reply (called (sign_up email) s)

  unfoldable pub register : String → String → Flow Store AuthResponse
  unfolding unless_registered
  register email display_name = active_user_by_email email >>= unless_registered email display_name
