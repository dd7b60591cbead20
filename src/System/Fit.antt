-- ===== src/System/Fit.antt =====
-- Every operation of System.antt keeps the rows of users, subscriptions and consents within the constraints of
-- the first migration.
use pid_docs.Prelude.{ℕ, String, Option, refl, inl}
use pid_docs.Redis.{Redis}
use pid_docs.Account.{World}
use pid_docs.Db.Schema.Rows.{UsersFit, SubscriptionsFit, ConsentsFit}
use pid_docs.Account.Erasure.Scan.{scan-tables}
use pid_docs.System.{
  Database, Step, register, login, oauth_google, refresh, logout, request_reset, confirm_reset,
  delete_account, erase, scan, patch_account, patch_consent, Reach, start, next,
}
use pid_docs.System.Accounts.{Step-Changes}
use pid_docs.System.Constraints.{
  Subscribes, Changes-UsersFit, Subscribes-SubscriptionsFit, set_user_consent-ConsentsFit,
}
use pid_docs.System.Tables.{
  Forgets-ConsentsFit, confirm_reset-Same, delete_account-Same, erase-Forgets, erase-subscriptions,
  login-Same, logout-Same, oauth_google-Subscribes, oauth_google-consents, refresh-Same,
  register-Subscribes, register-consents, request_reset-Same,
}

-- Every row satisfies NOT NULL and the checks of the first migration.
pub record RowsFit (w : World) : Type 0 where
  pub users : UsersFit w.users
  pub subscriptions : SubscriptionsFit w.subscriptions
  pub consents : ConsentsFit w.consents

module _ (r : Redis) (parse_uuid : String → Option ℕ) (str : ℕ → String)
    (hmac : String → String → String) where
  step-Subscribes :
      {s t : Database r parse_uuid str hmac}
      → Step r parse_uuid str hmac s t
      → Subscribes s.world.subscriptions t.world.subscriptions
  step-Subscribes {s} (register out email display_name) =
      register-Subscribes s parse_uuid str out email display_name
  step-Subscribes {s} (login out email) = inl (login-Same s r out email s).0
  step-Subscribes {s} (oauth_google out tokens verified) =
      oauth_google-Subscribes s parse_uuid out tokens verified
  step-Subscribes {s} (refresh reply) = inl (refresh-Same s reply).0
  step-Subscribes {s} (logout reply audits audit_id now uid) =
      inl (logout-Same s reply audits audit_id now uid).0
  step-Subscribes {s} (request_reset out email) =
      inl (request_reset-Same s parse_uuid str out email).0
  step-Subscribes {s} (confirm_reset out) = inl (confirm_reset-Same s parse_uuid str out).0
  step-Subscribes {s} (delete_account out uid) = inl (delete_account-Same s.world str out uid).0
  step-Subscribes {s} (erase at uid) = inl (erase-subscriptions s.world hmac str at uid)
  step-Subscribes {s} (scan accepts now) = inl (scan-tables str accepts now s.world).0
  step-Subscribes {s} (patch_account commits uid p) = inl refl
  step-Subscribes {s} (patch_consent fresh now uid opted_in) = inl refl

  step-ConsentsFit :
      {s t : Database r parse_uuid str hmac}
      → Step r parse_uuid str hmac s t
      → ConsentsFit s.world.consents
      → ConsentsFit t.world.consents
  step-ConsentsFit {s} (register out email display_name) h =
      rw (register-consents s parse_uuid str out email display_name) h
  step-ConsentsFit {s} (login out email) h = rw ((login-Same s r out email s).1) h
  step-ConsentsFit {s} (oauth_google out tokens verified) h =
      rw (oauth_google-consents s parse_uuid out tokens verified) h
  step-ConsentsFit {s} (refresh reply) h = rw ((refresh-Same s reply).1) h
  step-ConsentsFit {s} (logout reply audits audit_id now uid) h =
      rw ((logout-Same s reply audits audit_id now uid).1) h
  step-ConsentsFit {s} (request_reset out email) h =
      rw ((request_reset-Same s parse_uuid str out email).1) h
  step-ConsentsFit {s} (confirm_reset out) h = rw ((confirm_reset-Same s parse_uuid str out).1) h
  step-ConsentsFit {s} (delete_account out uid) h =
      rw ((delete_account-Same s.world str out uid).1) h
  step-ConsentsFit {s} (erase at uid) h =
      Forgets-ConsentsFit s.world uid _ (erase-Forgets hmac str at uid s.world) h
  step-ConsentsFit {s} (scan accepts now) h = rw ((scan-tables str accepts now s.world).1) h
  step-ConsentsFit {s} (patch_account commits uid p) h = h
  step-ConsentsFit {s} (patch_consent fresh now uid opted_in) h =
      set_user_consent-ConsentsFit fresh now uid opted_in s.world.consents h

  -- Whatever operations run, in whatever order and whatever fails, every row of users, subscriptions and consents
  -- keeps to NOT NULL and to the checks of the first migration, if all did at the start: no operation gives
  -- the database a row that it would refuse for these.
  pub Reach-RowsFit :
      {s t : Database r parse_uuid str hmac}
      → RowsFit s.world
      → Reach r parse_uuid str hmac s t
      → RowsFit t.world
  Reach-RowsFit h start = h
  Reach-RowsFit h (next {t} {u} run st) =
      let fit = Reach-RowsFit h run in
      record {
        users = Changes-UsersFit (Step-Changes r parse_uuid str hmac st) fit.users;
        subscriptions =
            Subscribes-SubscriptionsFit t.world.subscriptions u.world.subscriptions
              (step-Subscribes st) fit.subscriptions;
        consents = step-ConsentsFit st fit.consents;
      }
