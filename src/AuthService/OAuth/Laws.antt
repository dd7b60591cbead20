-- ===== src/AuthService/OAuth/Laws.antt =====
-- What a login by Google guarantees (services/auth_service.py).
use pid_docs.Prelude.{ℕ, String, ◌≡◌, refl, false, Option, none, some, arith}
use pid_docs.Prelude.Text.{is_empty}
use pid_docs.Prelude.Exec.{ok, err}
use pid_docs.Db.{User}
use pid_docs.AuthService.{AuthError, account_link_required, Tokens, State, user_public}
use pid_docs.AuthService.Users.{active_user_by_email, insert_user, find_active}
use pid_docs.AuthService.OAuth.{Claims, Outside, oauth_google}

module _ {Store : Type 0} (parse_uuid : String → Option ℕ) (out : Outside) (tokens : Tokens)
    (claims : Claims) (email sub : String) (s : State Store) where
  -- A Google login never merges into a password account: if the verified claims have an address and
  -- a subject and the active user with this address has a password, the flow asks to link the
  -- accounts, and changes nothing.
  pub oauth_google_links :
      (user : User) (hash : String)
      → claims.email ≡ some email
      → claims.sub ≡ some sub
      → is_empty email ≡ false
      → is_empty sub ≡ false
      → find_active email s.world.users ≡ ok (some user)
      → user.password_hash ≡ some hash
      → oauth_google parse_uuid out tokens (some claims) s ≡ (err (account_link_required email), s)
  unfolding oauth_google active_user_by_email
  oauth_google_links user hash a b c d e f = ground arith

  -- An account that was made by Google is logged in as it is, and no row changes.
  pub oauth_google_existing :
      (user : User)
      → claims.email ≡ some email
      → claims.sub ≡ some sub
      → is_empty email ≡ false
      → is_empty sub ≡ false
      → find_active email s.world.users ≡ ok (some user)
      → user.password_hash ≡ none
      → oauth_google parse_uuid out tokens (some claims) s
        ≡ (ok (record { tokens = tokens; user = user_public user }), s)
  unfolding oauth_google active_user_by_email
  oauth_google_existing user a b c d e f = ground arith

-- A Google login that fails, wherever it fails, leaves users, subscriptions and queues as they were.
pub oauth_google_fails :
    {Store : Type 0} (parse_uuid : String → Option ℕ) (out : Outside) (tokens : Tokens)
    (verified : Option Claims) (s : State Store) (e : AuthError)
    → (oauth_google parse_uuid out tokens verified s).0 ≡ err e
    → (oauth_google parse_uuid out tokens verified s).1 ≡ s
unfolding oauth_google active_user_by_email insert_user
oauth_google_fails parse_uuid out tokens none s e h = refl
oauth_google_fails parse_uuid out tokens (some claims) s e h = ground arith
