-- ===== src/Routers/Auth/Statuses.antt =====
-- Which status a handler of api/routers/auth.py answers, and what has happened then.
use pid_docs.Prelude.{
  ℕ, String, ◌≡◌, ◌≢◌, ◌↔◌, refl, ◌⊎◌, inl, inr, Bool, true, false, Option, [], ◌∷◌, ◌++◌, ◌==◌,
  arith, Bool-cases,
}
use pid_docs.Prelude.Exec.{ok, err, Result-cases}
use pid_docs.Redis.{Redis}
use pid_docs.Auth.BruteForce.{is_locked_out, lockout_ttl}
use pid_docs.AuthService.{
  AuthError, State, account_locked, account_not_found, invalid_credentials,
  email_already_registered,
}
use pid_docs.AuthService.Users.{active_user_by_email}
use pid_docs.AuthService.PasswordReset.Laws.{confirm_reset_fails}
use pid_docs.AuthService.Login as Login
use pid_docs.AuthService.Login.Laws.{login_locked}
use pid_docs.AuthService.Register as Register
use pid_docs.AuthService.Register.Laws.{register_succeeds, register_fails}
use pid_docs.AuthService.PasswordReset as PasswordReset
use pid_docs.Routers.{retry, no_content}
use pid_docs.Routers.Email.{valid_email}
use pid_docs.Routers.Auth.{Answer, on_register, on_login, register, login, password_reset_confirm}

-- Is this the answer to a creation?
abbrev pub is_created : Answer → Bool
is_created (ok res) = res.status_code == 201
is_created (err e) = false

-- Is this the answer to a locked account?
abbrev pub is_too_many : Answer → Bool
is_too_many (ok res) = res.status_code == 429
is_too_many (err e) = false

on_register_error : (e : AuthError) → is_created (on_register e) ≡ false
unfolding on_register
on_register_error email_already_registered = refl
on_register_error e = refl

on_login_other :
    (e : AuthError)
    → ((seconds : ℕ) → e ≡ account_locked seconds → ⊥)
    → is_too_many (on_login e) ≡ false
unfolding on_login
on_login_other (account_locked seconds) h = absurd (h seconds refl)
on_login_other account_not_found h = refl
on_login_other invalid_credentials h = refl
on_login_other e h = refl

module _ {Store : Type 0} (parse_uuid : String → Option ℕ) (str : ℕ → String)
    (out : Register.Outside) (email display_name : String) (s : State Store) where
  -- A registration is answered 201 exactly if it has added the new unverified user, whose address has the
  -- right shape; on any other answer, and on an exception, the database and the queues are as before.
  pub register_201 :
      let (answer, s') = register parse_uuid str out email display_name s in
      ((is_created answer ≡ true)
        × (valid_email email ≡ true)
        × ((id : ℕ) × (s'.world.users
              ≡ s.world.users ++ Register.password_user id email display_name ∷ [])))
      ⊎ ((is_created answer ≡ false) × (s'.world ≡ s.world))
  unfolding register
  register_201 = elim (Bool-cases (valid_email email)) [
    | inr bad ↦ inr (ground arith, ground arith)
    | inl good ↦ elim (Result-cases (Register.register parse_uuid str out email display_name s).0) [
      | inl (e, h) ↦ inr (
        ground (arith, on_register_error e),
        ground (arith, register_fails parse_uuid str out email display_name s e h),
      )
      | inr (res, h) ↦
          let (id, body, rep, seen, free, users, subs) =
            register_succeeds parse_uuid str out email display_name s res h in
          inl (ground arith, good, (id, ground (arith, users)))
    ]
  ]

module _ (r : Redis) (out : Login.Outside) (email : String) (s : State (Redis.Store r)) where
  login_locks :
      (seconds : ℕ)
      → (Login.login r out email s).0 ≡ err (account_locked seconds)
      → is_locked_out r email out.seconds s.counters ≡ true
  unfolding Login.login active_user_by_email
  login_locks seconds h = ground arith

  -- A login is answered 429 exactly while the address is locked, and then with the seconds that are left.
  pub login_429 :
      let answer = (login r out email s).0 in
      (is_too_many answer ≡ is_locked_out r email out.seconds s.counters)
      × ((is_locked_out r email out.seconds s.counters ≡ true) ↔ (
          answer
          ≡ ok (record {
            status_code = 429;
            content = retry "account_locked" (lockout_ttl r email out.seconds s.counters);
          })))
  unfolding login
  login_429 = elim (Bool-cases (is_locked_out r email out.seconds s.counters)) [
    | inl locked ↦
        let shut = (login_locked r out email s locked).0 in
        (ground arith, (λ h. ground arith, λ h. locked))
    | inr open_ ↦ elim (Result-cases (Login.login r out email s).0) [
      | inr (a, e) ↦ (ground arith, (λ h. absurd (ground arith), λ h. absurd (ground arith)))
      | inl (e, f) ↦
          let other : is_too_many (on_login e) ≡ false =
            on_login_other e (λ seconds g. absurd (ground (arith, login_locks seconds))) in
          (ground arith, (λ h. absurd (ground arith), λ h. absurd (ground arith)))
    ]
  ]

module _ {Store : Type 0} (parse_uuid : String → Option ℕ) (str : ℕ → String)
    (out : PasswordReset.Outside) (s : State Store) where
  -- Unless a confirmation is answered 204, no row of a user has changed.
  pub password_reset_confirm-users :
      (password_reset_confirm parse_uuid str out s).0 ≢ ok no_content
      → (password_reset_confirm parse_uuid str out s).1.world.users ≡ s.world.users
  unfolding password_reset_confirm
  password_reset_confirm-users h =
      elim (Result-cases (PasswordReset.confirm_reset parse_uuid str out s).0) [
        | inl (e, f) ↦ confirm_reset_fails parse_uuid str out s e f
        | inr (a, f) ↦ absurd (h (ground arith))
      ]
