-- ===== src/AuthService/OAuth.antt =====
-- `AuthService.oauth_google`: login and registration by a verified Google token. `claims` is what
-- `verify_token` made of the access token; `name_of` picks the display name out of its metadata
-- and, failing that, out of the address.
pub mod Laws
use pid_docs.Prelude.{
  ℕ, String, Bool, true, Option, none, some, ◌||◌, is_some, get_or, if◌then◌else◌,
}
use pid_docs.Prelude.Exec.{Result, ok, err, Exec, ◌>>=◌, ◌>>◌, raise, modify, pure}
use pid_docs.Prelude.Text.{is_empty, until}
use pid_docs.Db.{User}
use pid_docs.AuthService.{
  AuthError, invalid_credentials, account_link_required, value_error, Tokens, user_public,
  AuthResponse, State, Flow, write_audit,
}
use pid_docs.AuthService.Users.{active_user_by_email, insert_user}

-- The claims that the flow reads: the address, the subject, and the first true value of `full_name`,
-- `name` and `display_name` in the metadata.
pub record Claims : Type 0 where
  pub email : Option String
  pub sub : Option String
  pub meta_name : Option String

pub record Outside : Type 0 where
  pub subscription_id : ℕ
  pub commits : Bool
  pub now : ℕ
  pub audit_id : ℕ
  pub audits : Bool

-- `text or d`
or_else : String → String → String
or_else s d = if is_empty s then d else s

-- `_oauth_display_name`
pub oauth_display_name : Claims → String → String
unfolding or_else
oauth_display_name claims email = elim claims.meta_name [
  | some name ↦ name
  | none ↦ or_else (until email) "user"
]

abbrev pub google_user : ℕ → String → String → User
google_user id email display_name = record {
  id = id;
  email = email;
  display_name = display_name;
  password_hash = none;
  email_verified = true;
  team_id = none;
  role = "user";
  deleted_at = none;
  anonymous_id = none;
  token_invalidated_at = none;
}

module _ {Store : Type 0} (parse_uuid : String → Option ℕ) (out : Outside) (tokens : Tokens) where
  create : User → Flow Store AuthResponse
  create user = do
    insert_user out.commits out.subscription_id user
    modify (write_audit out.audits out.audit_id out.now "login_success" (some user.id))
    pure (record { tokens = tokens; user = user_public user })

  -- the active user with the address, if there is one
  link_or_create : Claims → String → String → Option User → Flow Store AuthResponse
  unfolding create
  link_or_create claims email sub (some existing) s =
      if is_some existing.password_hash
      then (err (account_link_required email), s)
      else (ok (record { tokens = tokens; user = user_public existing }), s)
  link_or_create claims email sub none s = elim (parse_uuid sub) [
    | none ↦ (err value_error, s)
    | some id ↦ create (google_user id email (oauth_display_name claims email)) s
  ]

  -- `none` is a token that does not verify.
  unfoldable pub oauth_google : Option Claims → Flow Store AuthResponse
  unfolding link_or_create
  oauth_google none s = (err invalid_credentials, s)
  oauth_google (some claims) s =
      let email = get_or claims.email "" in
      let sub = get_or claims.sub "" in
      if is_empty email || is_empty sub
      then (err invalid_credentials, s)
      else (active_user_by_email email >>= link_or_create claims email sub) s
