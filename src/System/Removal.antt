-- ===== src/System/Removal.antt =====
-- What the deletion and the erasure of an account do to the table of users.
use pid_docs.Prelude.{ℕ, String, false, ◌≡◌, ◌⊎◌, refl, inl, inr, arith, Option-cases, Bool-cases}
use pid_docs.Prelude.Exec.{Result-cases}
use pid_docs.Db.{get_user, update_user}
use pid_docs.Account.{World}
use pid_docs.Account.Deletion as Deletion
use pid_docs.Account.Erasure as Erasure
use pid_docs.System.Change.{
  edits, deletes, rewrite, delete, Changes, unchanged, changed, Changes-trans,
}

module _ (w : World) where
  deletion_deletes :
      (str : ℕ → String) (out : Deletion.Outside) (uid : ℕ)
      → let vs = (Deletion.initiate_account_deletion str out uid w).1.users in
        (vs ≡ w.users) ⊎ (vs ≡ update_user uid (Deletion.deleted out.now) w.users)
  unfolding Deletion.initiate_account_deletion
  deletion_deletes str out uid = elim (Option-cases (get_user uid w.users)) [
    | inl e ↦ inl (ground arith)
    | inr (u, e) ↦ elim (Option-cases u.deleted_at) [
      | inr (t, d) ↦ inl (ground arith)
      | inl d ↦ elim (Bool-cases out.commits) [
        | inl c ↦ inr (ground arith)
        | inr c ↦ inl (ground arith)
      ]
    ]
  ]

  pub delete_account-Changes :
      (str : ℕ → String) (out : Deletion.Outside) (uid : ℕ)
      → Changes (deletes uid) w.users (Deletion.initiate_account_deletion str out uid w).1.users
  delete_account-Changes str out uid = elim (deletion_deletes str out uid) [
    | inl e ↦ unchanged e
    | inr e ↦ changed e (delete uid out.now refl)
  ]

  named_row :
      (hmac : String → String → String) (str : ℕ → String) (at : Erasure.Attempt) (uid : ℕ)
      → let (a, w') = Erasure.ensure_anonymous_id hmac str at uid w in
        (w'.users ≡ w.users)
        ⊎ ((a : String) × (w'.users ≡ update_user uid (Erasure.named a) w.users))
  unfolding Erasure.ensure_anonymous_id
  named_row hmac str at uid = elim (Option-cases (get_user uid w.users)) [
    | inl e ↦ inl (ground arith)
    | inr (u, e) ↦ elim (Option-cases (Erasure.stored u.anonymous_id)) [
      | inr (a, d) ↦ inl (ground arith)
      | inl d ↦ elim (Bool-cases at.commits_id) [
        | inl c ↦ inr (Erasure.compute_anonymous_id hmac str at.secret uid, ground arith)
        | inr c ↦ inl (ground arith)
      ]
    ]
  ]

  purged_row :
      (hmac : String → String → String) (str : ℕ → String) (at : Erasure.Attempt) (uid : ℕ)
      (a : String)
      → let vs = (Erasure.purge_rows hmac str at uid a w).1.users in
        (vs ≡ w.users)
        ⊎ ((vs ≡ update_user uid (Erasure.purged a) w.users)
            × (Erasure.email_taken uid (Erasure.erased_email a) w.users ≡ false))
  unfolding Erasure.purge_rows
  purged_row hmac str at uid a = elim (Option-cases (get_user uid w.users)) [
    | inl e ↦ inl (ground arith)
    | inr (u, e) ↦ elim (Bool-cases (Erasure.email_taken uid (Erasure.erased_email a) w.users)) [
      | inl t ↦ inl (ground arith)
      | inr t ↦ elim (Bool-cases at.commits_purge) [
        | inl c ↦ inr (ground arith, t)
        | inr c ↦ inl (ground arith)
      ]
    ]
  ]

  ensure_anonymous_id-Changes :
      (hmac : String → String → String) (str : ℕ → String) (at : Erasure.Attempt) (uid : ℕ)
      → Changes edits w.users (Erasure.ensure_anonymous_id hmac str at uid w).1.users
  ensure_anonymous_id-Changes hmac str at uid = elim (named_row hmac str at uid) [
    | inl e ↦ unchanged e
    | inr (a, e) ↦
        changed e
          (rewrite uid (Erasure.named a) (λ u. refl) (λ u. refl) (λ u. refl) (inl (λ u. refl)))
  ]

  purge_rows-Changes :
      (hmac : String → String → String) (str : ℕ → String) (at : Erasure.Attempt) (uid : ℕ)
      (a : String)
      → Changes edits w.users (Erasure.purge_rows hmac str at uid a w).1.users
  purge_rows-Changes hmac str at uid a = elim (purged_row hmac str at uid a) [
    | inl e ↦ unchanged e
    | inr (e, free) ↦ changed e (
        rewrite uid (Erasure.purged a) (λ u. refl) (λ u. refl) (λ u. refl)
          (inr (Erasure.erased_email a, λ u. refl, free)))
  ]

pub erase-Changes :
    (hmac : String → String → String) (str : ℕ → String) (at : Erasure.Attempt) (uid : ℕ)
    (w : World)
    → Changes edits w.users (Erasure.purge_user_pii hmac str at uid w).1.users
unfolding Erasure.purge_user_pii
erase-Changes hmac str at uid w =
    let named = ensure_anonymous_id-Changes w hmac str at uid in
    elim (Result-cases (Erasure.ensure_anonymous_id hmac str at uid w).0) [
      | inl (e, h) ↦ Changes-trans named (unchanged (ground arith))
      | inr (a, h) ↦ Changes-trans named (
          Changes-trans
            (purge_rows-Changes (Erasure.ensure_anonymous_id hmac str at uid w).1 hmac str at uid a)
            (unchanged (ground arith)))
    ]
