-- ===== src/Account/Erasure/Purge.antt =====
-- One run of `purge_user_pii` (workers/gdpr/anonymizer.py).
use pid_docs.Prelude.{
  ℕ, String, ◌≡◌, ◌≢◌, refl, true, false, not, none, some, List, [], ◌∷◌, arith, holds, filter,
  update_where, All,
}
use pid_docs.Prelude.Exec.{ok, err}
use pid_docs.Db.{User, AuditLog, MlTrainingConsent, get_user, update_user}
use pid_docs.Db.Tables.{get-update_self, get-update_ne, update}
use pid_docs.Account.{World, database_error}
use pid_docs.Account.Erasure.{
  Attempt, named, purged, unlinked, stored, email_taken, erased_email, compute_anonymous_id,
  ensure_anonymous_id, purge_rows, purge_user_pii,
}

All-unlinked :
    (uid : ℕ) (log : List AuditLog)
    → All
        (λ (e : AuditLog). holds e.user_id uid ≡ false)
        (update_where (λ (e : AuditLog). holds e.user_id uid) unlinked log)
All-unlinked uid [] = tt
All-unlinked uid (e ∷ log) = ground (arith, All-unlinked uid log)

All-kept :
    (uid : ℕ) (consents : List MlTrainingConsent)
    → All
        (λ (c : MlTrainingConsent). holds c.user_id uid ≡ false)
        (filter (λ (c : MlTrainingConsent). not (holds c.user_id uid)) consents)
All-kept uid [] = tt
All-kept uid (c ∷ cs) = ground (arith, All-kept uid cs)

-- An update of the row `uid` itself frees or takes no address for another row.
pub email_taken-update :
    (uid : ℕ) (email : String) (f : User → User) (us : List User)
    → ((u : User) → (f u).id ≡ u.id)
    → email_taken uid email (update_user uid f us) ≡ email_taken uid email us
unfolding email_taken update
email_taken-update uid email f [] same = refl
email_taken-update uid email f (u ∷ us) same =
    ground (arith, email_taken-update uid email f us same, same u)

module _ (hmac : String → String → String) (str : ℕ → String) (at : Attempt) (uid : ℕ)
    (w : World) where
  -- With an identifier stored, the first transaction is a read.
  pub ensure_anonymous_id-stored :
      (row : User) (a : String)
      → get_user uid w.users ≡ some row
      → stored row.anonymous_id ≡ some a
      → ensure_anonymous_id hmac str at uid w ≡ (ok a, w)
  unfolding ensure_anonymous_id
  ensure_anonymous_id-stored row a found s = ground arith

  pub purge_user_pii-stored :
      (row : User) (a : String)
      → get_user uid w.users ≡ some row
      → stored row.anonymous_id ≡ some a
      → purge_user_pii hmac str at uid w ≡ purge_rows hmac str at uid a w
  unfolding purge_user_pii
  purge_user_pii-stored row a found s = ground (arith, ensure_anonymous_id-stored row a found s)

  pub purge_user_pii-fresh :
      (row : User)
      → get_user uid w.users ≡ some row
      → stored row.anonymous_id ≡ none
      → at.commits_id ≡ true
      → let a = compute_anonymous_id hmac str at.secret uid in
        purge_user_pii hmac str at uid w
        ≡ purge_rows hmac str at uid a (record w { users = update_user uid (named a) w.users })
  unfolding purge_user_pii ensure_anonymous_id
  purge_user_pii-fresh row found s c = ground arith

  ensure_anonymous_id-others :
      (j : ℕ)
      → j ≢ uid
      → get_user j (ensure_anonymous_id hmac str at uid w).1.users ≡ get_user j w.users
  unfolding ensure_anonymous_id
  ensure_anonymous_id-others j ne = ground (
    arith,
    get-update_ne (λ (u : User). u.id) j uid (named (compute_anonymous_id hmac str at.secret uid))
        w.users,
  )

  purge_rows-others :
      (j : ℕ) (a : String)
      → j ≢ uid
      → get_user j (purge_rows hmac str at uid a w).1.users ≡ get_user j w.users
  unfolding purge_rows
  purge_rows-others j a ne =
      ground (arith, get-update_ne (λ (u : User). u.id) j uid (purged a) w.users (λ u. refl) ne)

-- The rows of the other users stay as they are, however the run ends.
pub purge_user_pii-others :
    (hmac : String → String → String) (str : ℕ → String) (at : Attempt) (uid : ℕ) (w : World)
    (j : ℕ)
    → j ≢ uid
    → get_user j (purge_user_pii hmac str at uid w).1.users ≡ get_user j w.users
unfolding purge_user_pii
purge_user_pii-others hmac str at uid w j ne =
    grind (arith, ensure_anonymous_id-others hmac str at uid w j ne, purge_rows-others)

-- Rule 11: for a user that has no identifier yet and whose new address is free, if the first
-- transaction commits and the second one fails, exactly the identifier has been written; no
-- personal data, audit entry or consent has changed.
pub purge_user_pii-crash :
    (hmac : String → String → String) (str : ℕ → String) (at : Attempt) (uid : ℕ) (w : World)
    (row : User)
    → get_user uid w.users ≡ some row
    → stored row.anonymous_id ≡ none
    → at.commits_id ≡ true
    → at.commits_purge ≡ false
    → let a = compute_anonymous_id hmac str at.secret uid in
      email_taken uid (erased_email a) w.users ≡ false
      → purge_user_pii hmac str at uid w
        ≡ (err database_error, record w { users = update_user uid (named a) w.users })
unfolding purge_rows
purge_user_pii-crash hmac str at uid w row found s c p free =
    let a = compute_anonymous_id hmac str at.secret uid in
    rw (purge_user_pii-fresh hmac str at uid w row found s c) (
      ground (
        arith,
        get-update_self (λ (u : User). u.id) uid (named a) w.users,
        email_taken-update uid (erased_email a) (named a) w.users (λ u. refl),
      ))

-- A run whose two transactions are committed, on a user that has no identifier yet and whose new
-- address is free, returns normally and leaves: the placeholder address and name, no password flag,
-- the identifier, every other field as it was; no audit entry and no consent of the user.
pub purge_user_pii-erases :
    (hmac : String → String → String) (str : ℕ → String) (at : Attempt) (uid : ℕ) (w : World)
    (row : User)
    → get_user uid w.users ≡ some row
    → stored row.anonymous_id ≡ none
    → at.commits_id ≡ true
    → at.commits_purge ≡ true
    → let a = compute_anonymous_id hmac str at.secret uid in
      email_taken uid (erased_email a) w.users ≡ false
      → let (r, w') = purge_user_pii hmac str at uid w in
        (r ≡ ok tt)
        × (get_user uid w'.users
            ≡ some (record row {
              email = erased_email a;
              display_name = "Deleted User";
              password_hash = none;
              anonymous_id = some a;
            }))
        × All (λ (e : AuditLog). holds e.user_id uid ≡ false) w'.audit_log
        × All (λ (c : MlTrainingConsent). holds c.user_id uid ≡ false) w'.consents
unfolding purge_rows
purge_user_pii-erases hmac str at uid w row found s c p free =
    let a = compute_anonymous_id hmac str at.secret uid in
    let us : List User = update_user uid (named a) w.users in
    rw (purge_user_pii-fresh hmac str at uid w row found s c) (
      ground (
        arith,
        get-update_self (λ (u : User). u.id) uid (named a) w.users (λ u. refl),
        get-update_self (λ (u : User). u.id) uid (purged a) us (λ u. refl),
        email_taken-update uid (erased_email a) (named a) w.users (λ u. refl),
        All-unlinked uid w.audit_log,
        All-kept uid w.consents,
      ))
