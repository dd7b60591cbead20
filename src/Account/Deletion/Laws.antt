-- ===== src/Account/Deletion/Laws.antt =====
-- What the start of an erasure guarantees (services/gdpr_init_service.py).
use pid_docs.Prelude.{
  ℕ, String, ◌≡◌, ◌≢◌, refl, true, false, Option, none, some, [], ◌∷◌, ◌++◌, ◌⊎◌, arith,
}
use pid_docs.Prelude.Exec.{ok, err}
use pid_docs.Auth.Middleware.{Claims, Identity, authenticate_request}
use pid_docs.Auth.Middleware.Sound.{authenticate_request_deleted}
use pid_docs.Db.{User, get_user}
use pid_docs.Db.Tables.{get-update_self, get-update_ne}
use pid_docs.Account.{World, database_error, text}
use pid_docs.Account.Deletion.{
  Outside, deleted, erasure_countdown, gdpr_erasure_task_name, gdpr_erasure_queue,
  initiate_account_deletion,
}

module _ (str : ℕ → String) (out : Outside) (uid : ℕ) (w : World) where
  -- Once the commit has succeeded the call returns normally and the user's row carries the time of
  -- the deletion in both columns, whether or not Supabase, Redis and the broker answer.
  pub initiate_account_deletion-commits :
      (row : User)
      → get_user uid w.users ≡ some row
      → row.deleted_at ≡ none
      → out.commits ≡ true
      → let (r, w') = initiate_account_deletion str out uid w in
        (r ≡ ok tt) × (get_user uid w'.users ≡ some (deleted out.now row))
  unfolding initiate_account_deletion
  initiate_account_deletion-commits row found live c =
      ground (arith, get-update_self (λ (u : User). u.id) uid (deleted out.now) w.users)

  -- If the commit fails, nothing has happened: no row, no session, no cache entry and no queue has
  -- changed, and the failure leaves the call.
  pub initiate_account_deletion-fails :
      (row : User)
      → get_user uid w.users ≡ some row
      → row.deleted_at ≡ none
      → out.commits ≡ false
      → initiate_account_deletion str out uid w ≡ (err database_error, w)
  unfolding initiate_account_deletion
  initiate_account_deletion-fails row found live c = ground arith

  -- Whatever happens outside, the rows of the other users stay as they are.
  pub initiate_account_deletion-others :
      (j : ℕ)
      → j ≢ uid
      → get_user j (initiate_account_deletion str out uid w).1.users ≡ get_user j w.users
  unfolding initiate_account_deletion
  initiate_account_deletion-others j ne =
      ground (arith, get-update_ne (λ (u : User). u.id) j uid (deleted out.now) w.users)

  -- At most one job is queued; one that is queued stands behind the jobs that were there.
  pub sent-initiate_account_deletion :
      let w' = (initiate_account_deletion str out uid w).1 in
      (w'.sent ≡ w.sent)
      ⊎ (w'.sent
          ≡ w.sent
            ++ record {
              task = gdpr_erasure_task_name;
              args = text (str uid) ∷ [];
              queue = gdpr_erasure_queue;
              countdown = erasure_countdown out.environment;
            }
              ∷ [])
  unfolding initiate_account_deletion
  sent-initiate_account_deletion = ground arith

-- An account that is deleted for the first time, with the broker up, has its erasure queued.
pub initiate_account_deletion-enqueues :
    (str : ℕ → String) (out : Outside) (uid : ℕ) (user : User) (w : World)
    → out.commits ≡ true
    → out.enqueues ≡ true
    → get_user uid w.users ≡ some user
    → user.deleted_at ≡ none
    → (initiate_account_deletion str out uid w).1.sent
      ≡ w.sent
        ++ record {
          task = gdpr_erasure_task_name;
          args = text (str uid) ∷ [];
          queue = gdpr_erasure_queue;
          countdown = erasure_countdown out.environment;
        }
          ∷ []
unfolding initiate_account_deletion
initiate_account_deletion-enqueues str out uid user w c q e d = ground arith

-- A second request for the same account, whatever happens outside during it, changes nothing once the
-- first one has committed: the erasure is queued once for an account.
pub initiate_account_deletion_twice :
    (str : ℕ → String) (out out' : Outside) (uid : ℕ) (w : World)
    → out.commits ≡ true
    → let w' = (initiate_account_deletion str out uid w).1 in
      initiate_account_deletion str out' uid w' ≡ (ok tt, w')
unfolding initiate_account_deletion
initiate_account_deletion_twice str out out' uid w c =
    ground (arith, get-update_self (λ (u : User). u.id) uid (deleted out.now) w.users)

-- From the moment the soft-delete of an existing user is committed no request is accepted as this
-- user, whatever token it carries and whether or not Supabase revoked the sessions.
pub initiate_account_deletion-locks :
    (decode : String → Option Claims) (parse_uuid : String → Option ℕ) (str : ℕ → String)
    (out : Outside) (w : World) (header : Option String) (ident : Identity) (row : User)
    → get_user ident.id w.users ≡ some row
    → row.deleted_at ≡ none
    → out.commits ≡ true
    → authenticate_request decode parse_uuid header
        (initiate_account_deletion str out ident.id w).1.users
      ≢ some ident
initiate_account_deletion-locks decode parse_uuid str out w header ident row found live c =
    authenticate_request_deleted decode parse_uuid header _ ident (deleted out.now row) out.now
      (initiate_account_deletion-commits str out ident.id w row found live c).1 refl
