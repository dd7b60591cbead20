-- ===== src/System/Tables.antt =====
-- What each operation of System.antt does to the subscriptions and the consents.
use pid_docs.Prelude.{
  All-filter, ℕ, String, Bool, not, Option, none, some, List, ◌≡◌, ◌⊎◌, refl, inl, inr, arith,
  filter, Option-cases, Bool-cases, holds, get_or,
}
use pid_docs.Prelude.Exec.{Result-cases}
use pid_docs.Redis.{Redis}
use pid_docs.Db.{MlTrainingConsent, get_user}
use pid_docs.Account.{World}
use pid_docs.Account.Deletion as Deletion
use pid_docs.Account.Erasure as Erasure
use pid_docs.AuthService.{State, Reply, Body, Tokens, write_audit, enqueue_notification}
use pid_docs.AuthService.Users.{active_user_by_email, insert_user, find_active}
use pid_docs.AuthService.Register as Register
use pid_docs.AuthService.Register.Laws.{register_succeeds, register_fails}
use pid_docs.AuthService.Login as Login
use pid_docs.AuthService.OAuth as OAuth
use pid_docs.AuthService.OAuth.Laws.{oauth_google_fails}
use pid_docs.AuthService.Session as Session
use pid_docs.AuthService.PasswordReset as PasswordReset
use pid_docs.Db.Schema.Accounts.{ml_training_consent_table}
use pid_docs.Db.Schema.Rows.{consent_row, Fits, ConsentsFit}
use pid_docs.System.Constraints.{Subscribes}

-- The subscriptions and the consents of two worlds are the same.
abbrev pub Same : World → World → Type 0
Same w w' = (w'.subscriptions ≡ w.subscriptions) × (w'.consents ≡ w.consents)

module _ {Store : Type 0} (s : State Store) where
  pub register-Subscribes :
      (parse_uuid : String → Option ℕ) (str : ℕ → String) (out : Register.Outside)
      (email display_name : String)
      → Subscribes s.world.subscriptions
          (Register.register parse_uuid str out email display_name s).1.world.subscriptions
  register-Subscribes parse_uuid str out email display_name =
      elim (Result-cases (Register.register parse_uuid str out email display_name s).0) [
        | inl (e, h) ↦ inl (rw (register_fails parse_uuid str out email display_name s e h) refl)
        | inr (res, h) ↦
            let (id, body, rep, shown, free, users, subs) =
              register_succeeds parse_uuid str out email display_name s res h in
            inr (out.subscription_id, id, subs)
      ]

  pub register-consents :
      (parse_uuid : String → Option ℕ) (str : ℕ → String) (out : Register.Outside)
      (email display_name : String)
      → (Register.register parse_uuid str out email display_name s).1.world.consents
        ≡ s.world.consents
  unfolding Register.register active_user_by_email insert_user enqueue_notification
  register-consents parse_uuid str out email display_name = ground arith

  pub oauth_google-consents :
      (parse_uuid : String → Option ℕ) (out : OAuth.Outside) (tokens : Tokens)
      (verified : Option OAuth.Claims)
      → (OAuth.oauth_google parse_uuid out tokens verified s).1.world.consents ≡ s.world.consents
  unfolding OAuth.oauth_google active_user_by_email insert_user write_audit
  oauth_google-consents parse_uuid out tokens verified = ground arith

  pub login-Same :
      (r : Redis) (out : Login.Outside) (email : String) (t : State (Redis.Store r))
      → Same t.world (Login.login r out email t).1.world
  unfolding Login.login write_audit active_user_by_email
  login-Same r out email t = ground arith

  pub logout-Same :
      (reply : Reply (Unit {0})) (audits : Bool) (audit_id now uid : ℕ)
      → Same s.world (Session.logout reply audits audit_id now uid s).1.world
  unfolding Session.logout write_audit
  logout-Same reply audits audit_id now uid = ground arith

  pub refresh-Same : (reply : Reply Body) → Same s.world (Session.refresh reply s).1.world
  unfolding Session.refresh
  refresh-Same reply = (refl, refl)

  pub request_reset-Same :
      (parse_uuid : String → Option ℕ) (str : ℕ → String) (out : PasswordReset.Outside)
      (email : String)
      → Same s.world (PasswordReset.request_reset parse_uuid str out email s).1.world
  unfolding PasswordReset.request_reset active_user_by_email enqueue_notification
  request_reset-Same parse_uuid str out email = ground arith

  pub confirm_reset-Same :
      (parse_uuid : String → Option ℕ) (str : ℕ → String) (out : PasswordReset.Outside)
      → Same s.world (PasswordReset.confirm_reset parse_uuid str out s).1.world
  unfolding PasswordReset.confirm_reset write_audit
  confirm_reset-Same parse_uuid str out = ground arith

module _ (w : World) where
  pub delete_account-Same :
      (str : ℕ → String) (out : Deletion.Outside) (uid : ℕ)
      → Same w (Deletion.initiate_account_deletion str out uid w).1
  unfolding Deletion.initiate_account_deletion
  delete_account-Same str out uid = ground arith

  pub erase-subscriptions :
      (hmac : String → String → String) (str : ℕ → String) (at : Erasure.Attempt) (uid : ℕ)
      → (Erasure.purge_user_pii hmac str at uid w).1.subscriptions ≡ w.subscriptions
  unfolding Erasure.purge_user_pii
  erase-subscriptions hmac str at uid = ground arith

  -- The consents of one user are gone, or none.
  abbrev pub Forgets : ℕ → List MlTrainingConsent → Type 0
  Forgets uid cs =
      (cs ≡ w.consents)
      ⊎ (cs ≡ filter (λ (c : MlTrainingConsent). not (holds c.user_id uid)) w.consents)

  purge_rows-Forgets :
      (hmac : String → String → String) (str : ℕ → String) (at : Erasure.Attempt) (uid : ℕ)
      (a : String)
      → Forgets uid (Erasure.purge_rows hmac str at uid a w).1.consents
  unfolding Erasure.purge_rows
  purge_rows-Forgets hmac str at uid a = elim (Option-cases (get_user uid w.users)) [
    | inl e ↦ inl (ground arith)
    | inr (u, e) ↦ elim (Bool-cases (Erasure.email_taken uid (Erasure.erased_email a) w.users)) [
      | inl t ↦ inl (ground arith)
      | inr t ↦ elim (Bool-cases at.commits_purge) [
        | inl c ↦ inr (ground arith)
        | inr c ↦ inl (ground arith)
      ]
    ]
  ]

  ensure_anonymous_id-consents :
      (hmac : String → String → String) (str : ℕ → String) (at : Erasure.Attempt) (uid : ℕ)
      → (Erasure.ensure_anonymous_id hmac str at uid w).1.consents ≡ w.consents
  unfolding Erasure.ensure_anonymous_id
  ensure_anonymous_id-consents hmac str at uid = ground arith

  pub Forgets-ConsentsFit :
      (uid : ℕ) (cs : List MlTrainingConsent)
      → Forgets uid cs
      → ConsentsFit w.consents
      → ConsentsFit cs
  Forgets-ConsentsFit uid cs (inl e) h = rw e h
  Forgets-ConsentsFit uid cs (inr e) h = rw e (
      All-filter (λ k. Fits ml_training_consent_table (consent_row k))
        (λ (k : MlTrainingConsent). not (holds k.user_id uid)) w.consents h)

pub erase-Forgets :
    (hmac : String → String → String) (str : ℕ → String) (at : Erasure.Attempt) (uid : ℕ)
    (w : World)
    → Forgets w uid (Erasure.purge_user_pii hmac str at uid w).1.consents
unfolding Erasure.purge_user_pii
erase-Forgets hmac str at uid w =
    let w' = (Erasure.ensure_anonymous_id hmac str at uid w).1 in
    let kept = ensure_anonymous_id-consents w hmac str at uid in
    elim (Result-cases (Erasure.ensure_anonymous_id hmac str at uid w).0) [
      | inl (e, f) ↦ inl (ground arith)
      | inr (a, f) ↦ elim (purge_rows-Forgets w' hmac str at uid a) [
        | inl g ↦ inl (ground arith)
        | inr g ↦ inr (ground arith)
      ]
    ]

module _ {Store : Type 0} (s : State Store) where
  pub oauth_google-Subscribes :
      (parse_uuid : String → Option ℕ) (out : OAuth.Outside) (tokens : Tokens)
      (verified : Option OAuth.Claims)
      → Subscribes s.world.subscriptions
          (OAuth.oauth_google parse_uuid out tokens verified s).1.world.subscriptions
  unfolding OAuth.oauth_google active_user_by_email insert_user write_audit
  oauth_google-Subscribes parse_uuid out tokens none = inl refl
  oauth_google-Subscribes parse_uuid out tokens (some claims) =
      let email = get_or claims.email "" in
      let sub = get_or claims.sub "" in
      elim (Result-cases (OAuth.oauth_google parse_uuid out tokens (some claims) s).0) [
        | inl (e, h) ↦ inl (rw (oauth_google_fails parse_uuid out tokens (some claims) s e h) refl)
        | inr (a, h) ↦ elim (Result-cases (find_active email s.world.users)) [
          | inl (e, f) ↦ absurd (ground arith)
          | inr (found, f) ↦ elim (Option-cases found) [
            | inr (u, g) ↦ inl (ground arith)
            | inl g ↦ elim (Option-cases (parse_uuid sub)) [
              | inl n ↦ absurd (ground arith)
              | inr (id, p) ↦ inr (out.subscription_id, id, ground arith)
            ]
          ]
        ]
      ]
