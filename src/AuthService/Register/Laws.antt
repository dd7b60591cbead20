-- ===== src/AuthService/Register/Laws.antt =====
-- What a registration guarantees (services/auth_service.py).
use pid_docs.Prelude.{
  ℕ, String, ◌≡◌, refl, true, false, Option, none, some, Option-cases, inl, inr, get_or, [], ◌∷◌,
  ◌++◌, arith, List, filter,
}
use pid_docs.Prelude.Exec.{ok, err}
use pid_docs.Db.{User}
use pid_docs.AuthService.{
  AuthError, integrity_error, Reply, replied, refused, failed, Body, AuthResponse, State, called,
  sign_up, enqueue_notification, session_tokens, user_public,
}
use pid_docs.AuthService.Users.Unique.{Unique, clashes-middle, find_active-deleted}
use pid_docs.AuthService.Users.{is_active, active_user_by_email, insert_user, find_active, clashes}
use pid_docs.AuthService.Register.{Outside, after_sign_up, password_user, register}

module _ {Store : Type 0} (parse_uuid : String → Option ℕ) (str : ℕ → String) (out : Outside) where
  -- An account is created only from a reply whose user id is a UUID.
  after_sign_up-ok :
      (email display_name : String) (rep : Reply Body) (s : State Store) (res : AuthResponse)
      → (after_sign_up parse_uuid str out email display_name rep s).0 ≡ ok res
      → (body : Body) × (id : ℕ) × (rep ≡ replied body)
        × (parse_uuid (get_or body.user_id "") ≡ some id)
  unfolding after_sign_up
  after_sign_up-ok email display_name failed s res h = absurd (ground arith)
  after_sign_up-ok email display_name (refused status code) s res h = absurd (ground arith)
  after_sign_up-ok email display_name (replied body) s res h =
      elim (Option-cases (parse_uuid (get_or body.user_id ""))) [
        | inl e ↦ absurd (ground arith)
        | inr (id, e) ↦ (body, id, refl, e)
      ]

module _ {Store : Type 0} (parse_uuid : String → Option ℕ) (str : ℕ → String) (out : Outside)
    (email display_name : String) (s : State Store) where
  -- A registration that succeeds has added one user, who is unverified, has the plain role and the
  -- marker of a password account, and one active free subscription of this user, in one commit; no row,
  -- deleted or not, held the address or the id before.
  pub register_succeeds :
      (res : AuthResponse)
      → (register parse_uuid str out email display_name s).0 ≡ ok res
      → (id : ℕ) × (body : Body) × (out.reply ≡ replied body)
        × (res ≡ record {
          tokens = session_tokens body;
          user = user_public (password_user id email display_name);
        })
        × (clashes (password_user id email display_name) s.world.users ≡ false)
        × ((register parse_uuid str out email display_name s).1.world.users
            ≡ s.world.users ++ password_user id email display_name ∷ [])
        × ((register parse_uuid str out email display_name s).1.world.subscriptions
            ≡ s.world.subscriptions
              ++ record {
                id = out.subscription_id;
                user_id = some id;
                team_id = none;
                tier_id = "free";
                billing_state = "Active";
              }
                ∷ [])
  unfolding register active_user_by_email insert_user enqueue_notification
  register_succeeds res h =
      let none_active : find_active email s.world.users ≡ ok none = ground arith in
      let (body, id, rep, uuid) =
        after_sign_up-ok parse_uuid str out email display_name out.reply (called (sign_up email) s)
          res (ground arith) in
      (id, body, rep, ground arith, ground arith, ground arith, ground arith)

  -- A registration that fails, wherever it fails, has added neither a user nor a subscription, and has
  -- queued no email.
  pub register_fails :
      (e : AuthError)
      → (register parse_uuid str out email display_name s).0 ≡ err e
      → let w = (register parse_uuid str out email display_name s).1.world in w ≡ s.world
  unfolding register active_user_by_email insert_user enqueue_notification
  register_fails e h = ground arith

  -- With addresses and ids unique, a registration of the address of a soft-deleted account, to which Supabase
  -- answers with a user id that is a UUID, ends in the unhandled integrity error of the insertion, behind the one
  -- call that creates the account at Supabase, and with the database as it was.
  pub register_soft_deleted :
      (body : Body) (id : ℕ) (raw : String) (row : User) (before after : List User) (deleted : ℕ)
      → Unique s.world.users
      → s.world.users ≡ before ++ row ∷ after
      → row.email ≡ email
      → row.deleted_at ≡ some deleted
      → out.reply ≡ replied body
      → body.user_id ≡ some raw
      → parse_uuid raw ≡ some id
      → register parse_uuid str out email display_name s
        ≡ (err integrity_error, called (sign_up email) s)
  unfolding register active_user_by_email insert_user find_active
  register_soft_deleted body id raw row before after deleted unique users a b c d e =
      let none_found : filter (is_active email) s.world.users ≡ [] =
        rw users (find_active-deleted email row before after deleted (rw (← users) unique) a b) in
      let taken : clashes (password_user id email display_name) s.world.users ≡ true =
        rw users (clashes-middle (password_user id email display_name) row before after a) in
      ground arith
