-- ===== src/AuthService/PasswordReset/Laws.antt =====
-- What a password reset guarantees (services/password_reset.py).
use pid_docs.Prelude.{
  refl, ◌⊎◌, inl, inr, Option-cases, Bool-cases, ℕ, String, ◌≡◌, true, false, Option, none, some,
  [], ◌∷◌, ◌++◌, arith,
}
use pid_docs.Prelude.Exec.{ok, err}
use pid_docs.Db.{User, get_user, update_user}
use pid_docs.Db.Tables.{get-update_self}
use pid_docs.AuthService.{
  AuthError, sign_out_failed, reset_password, admin_sign_out, Reply, replied, refused, failed,
  State, called, write_audit, enqueue_notification,
}
use pid_docs.AuthService.Users.{active_user_by_email, find_active}
use pid_docs.AuthService.PasswordReset.{Outside, invalidated, request_reset, confirm_reset}

module _ {Store : Type 0} (parse_uuid : String → Option ℕ) (str : ℕ → String) (out : Outside)
    (s : State Store) where
  -- Rule #12: if the revocation of the sessions fails, the flow ends with that error, and no row of the
  -- database and no queue has changed.
  pub confirm_reset-revocation :
      (raw : String) (uid : ℕ)
      → out.reset ≡ replied (some raw)
      → parse_uuid raw ≡ some uid
      → out.signs_out ≡ false
      → confirm_reset parse_uuid str out s
        ≡ (err sign_out_failed, called (admin_sign_out uid) (called reset_password s))
  unfolding confirm_reset
  confirm_reset-revocation raw uid a b c = ground arith

  -- A confirmation that succeeds has revoked the sessions of the user behind the token; if the user has
  -- a row, this row carries the time of the confirmation, and no other field of it has changed.
  pub confirm_reset_succeeds :
      (raw : String) (uid : ℕ)
      → out.reset ≡ replied (some raw)
      → parse_uuid raw ≡ some uid
      → let (res, s') = confirm_reset parse_uuid str out s in
        res ≡ ok tt
        → (out.signs_out ≡ true)
          × (s'.world.signed_out ≡ s.world.signed_out ++ uid ∷ [])
          × ((row : User)
              → get_user uid s.world.users ≡ some row
              → get_user uid s'.world.users ≡ some (invalidated out.now row))
  unfolding confirm_reset write_audit
  confirm_reset_succeeds raw uid a b h = (
    ground arith,
    ground arith,
    λ row found. ground (
      arith,
      found,
      get-update_self (λ (u : User). u.id) uid (invalidated out.now) s.world.users,
    ),
  )

  -- Whatever goes wrong before the database is reached, no user's `token_invalidated_at` changes: the
  -- rows of the users are as before, unless the revocation succeeded.
  pub confirm_reset-users :
      out.signs_out ≡ false → (confirm_reset parse_uuid str out s).1.world.users ≡ s.world.users
  unfolding confirm_reset write_audit
  confirm_reset-users h = ground arith

-- A reset request answers the same for a registered and an unregistered address while no address has
-- two active rows: it returns normally if its read of the user succeeds, and changes neither rows nor counters.
pub request_reset_ok :
    {Store : Type 0} (parse_uuid : String → Option ℕ) (str : ℕ → String) (out : Outside)
    (email : String) (found : Option User) (s : State Store)
    → find_active email s.world.users ≡ ok found
    → out.reads ≡ true
    → let (res, s') = request_reset parse_uuid str out email s in
      (res ≡ ok tt)
      × (s'.world.users ≡ s.world.users)
      × (s'.counters ≡ s.counters)
      × (found ≡ none → s' ≡ s)
unfolding request_reset active_user_by_email enqueue_notification
request_reset_ok parse_uuid str out email found s h r = ground arith

confirm_reset_row :
    {Store : Type 0} (parse_uuid : String → Option ℕ) (str : ℕ → String) (out : Outside)
    (s : State Store) (rep : Reply (Option String))
    → out.reset ≡ rep
    → let users = (confirm_reset parse_uuid str out s).1.world.users in
      (users ≡ s.world.users)
      ⊎ ((uid : ℕ) × (users ≡ update_user uid (invalidated out.now) s.world.users))
unfolding confirm_reset write_audit
confirm_reset_row parse_uuid str out s failed h = inl (ground arith)
confirm_reset_row parse_uuid str out s (refused status code) h = inl (ground arith)
confirm_reset_row parse_uuid str out s (replied none) h = inl (ground arith)
confirm_reset_row parse_uuid str out s (replied (some raw)) h =
    elim (Option-cases (parse_uuid raw)) [
      | inl e ↦ inl (ground arith)
      | inr (uid, e) ↦ elim (Bool-cases out.signs_out) [
        | inr r ↦ inl (ground arith)
        | inl r ↦ elim (Option-cases (get_user uid s.world.users)) [
          | inl n ↦ inl (ground arith)
          | inr (u, f) ↦ elim (Bool-cases out.commits) [
            | inl c ↦ inr (uid, ground arith)
            | inr c ↦ inl (ground arith)
          ]
        ]
      ]
    ]

-- A confirmation leaves the table of users alone, or writes the time of the invalidation into one row.
pub confirm_reset_rewrites :
    {Store : Type 0} (parse_uuid : String → Option ℕ) (str : ℕ → String) (out : Outside)
    (s : State Store)
    → let users = (confirm_reset parse_uuid str out s).1.world.users in
      (users ≡ s.world.users)
      ⊎ ((uid : ℕ) × (users ≡ update_user uid (invalidated out.now) s.world.users))
confirm_reset_rewrites parse_uuid str out s = confirm_reset_row parse_uuid str out s out.reset refl

-- However a reset request ends, it changes no user.
pub request_reset-users :
    {Store : Type 0} (parse_uuid : String → Option ℕ) (str : ℕ → String) (out : Outside)
    (email : String) (s : State Store)
    → (request_reset parse_uuid str out email s).1.world.users ≡ s.world.users
unfolding request_reset active_user_by_email enqueue_notification
request_reset-users parse_uuid str out email s = ground arith

-- A confirmation that fails, wherever it fails, has changed no user.
pub confirm_reset_fails :
    {Store : Type 0} (parse_uuid : String → Option ℕ) (str : ℕ → String) (out : Outside)
    (s : State Store) (e : AuthError)
    → (confirm_reset parse_uuid str out s).0 ≡ err e
    → (confirm_reset parse_uuid str out s).1.world.users ≡ s.world.users
unfolding confirm_reset write_audit
confirm_reset_fails parse_uuid str out s e h = ground arith
