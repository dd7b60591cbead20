-- ===== src/Account/Erasure/Retry.antt =====
-- Retries of `purge_user_pii` (workers/gdpr/anonymizer.py): crashes, rotated secrets, repetition.
use pid_docs.Prelude.{
  ℕ, String, ◌≡◌, refl, true, false, not, none, some, List, [], ◌∷◌, arith, holds, filter,
  update_where, Bool, ◌⊎◌, inl, inr, ◌∙◌,
}
use pid_docs.Prelude.Text.{is_empty}
use pid_docs.Prelude.Exec.{ok}
use pid_docs.Db.{User, AuditLog, MlTrainingConsent, get_user, update_user}
use pid_docs.Db.Tables.{get-update_self, update-update}
use pid_docs.Account.{World}
use pid_docs.Account.Erasure.{
  Attempt, named, purged, unlinked, stored, email_taken, erased_email, compute_anonymous_id,
  erase_rows, purge_rows, purge_user_pii,
}
use pid_docs.Account.Erasure.Purge.{email_taken-update, purge_user_pii-stored, purge_user_pii-fresh}

filter_idem {ℓ} : {A : Type ℓ} (p : A → Bool) (xs : List A) → filter p (filter p xs) ≡ filter p xs
filter_idem p [] = refl
filter_idem p (x ∷ xs) = ground (arith, filter_idem p xs)

unlink_idem :
    (uid : ℕ) (log : List AuditLog)
    → let p = λ (e : AuditLog). holds e.user_id uid in
      update_where p unlinked (update_where p unlinked log) ≡ update_where p unlinked log
unlink_idem uid [] = refl
unlink_idem uid (e ∷ log) = ground (arith, unlink_idem uid log)

module _ (hmac : String → String → String) (str : ℕ → String) (uid : ℕ) where
  -- Erasing the rows a second time changes nothing.
  pub erase_rows_idem :
      (a : String) (w : World)
      → erase_rows hmac str uid a (erase_rows hmac str uid a w) ≡ erase_rows hmac str uid a w
  unfolding erase_rows
  erase_rows_idem a w = ground (
    arith,
    update-update (λ (u : User). u.id) uid (purged a) (purged a) w.users (λ u. refl) (λ u. refl),
    unlink_idem uid w.audit_log,
    filter_idem (λ (c : MlTrainingConsent). not (holds c.user_id uid)) w.consents,
  )

  -- The attempts of a job, one after the other: what each leaves is what the next one starts from.
  pub retries : List Attempt → World → World
  retries [] w = w
  retries (at ∷ ats) w = retries ats (purge_user_pii hmac str at uid w).1

  -- The state `w`, or the state in which its rows have been erased.
  abbrev pub Begun : String → World → World → Type 0
  Begun a w v = (v ≡ w) ⊎ (v ≡ erase_rows hmac str uid a w)

  abbrev pub Ready : String → World → Type 0
  Ready a w =
      (row : User) × (get_user uid w.users ≡ some row)
      × (stored row.anonymous_id ≡ some a)
      × (email_taken uid (erased_email a) w.users ≡ false)

  pub erase_rows-Ready :
      (a : String) (w : World) → Ready a w → Ready a (erase_rows hmac str uid a w)
  unfolding erase_rows
  erase_rows-Ready a w (row, found, s, free) = (
    purged a row,
    rw (get-update_self (λ (u : User). u.id) uid (purged a) w.users (λ u. refl)) (rw found),
    s,
    rw (email_taken-update uid (erased_email a) (purged a) w.users (λ u. refl)) free,
  )

  -- The first transaction makes a user without an identifier ready.
  pub named-Ready :
      (a : String) (w : World) (row : User)
      → get_user uid w.users ≡ some row
      → is_empty a ≡ false
      → email_taken uid (erased_email a) w.users ≡ false
      → Ready a (record w { users = update_user uid (named a) w.users })
  named-Ready a w row found digest free = (
    named a row,
    rw (get-update_self (λ (u : User). u.id) uid (named a) w.users (λ u. refl)) (rw found),
    ground arith,
    rw (email_taken-update uid (erased_email a) (named a) w.users (λ u. refl)) free,
  )

  Begun-purge_user_pii :
      (a : String) (w : World) (at : Attempt)
      → Ready a w
      → Begun a w (purge_user_pii hmac str at uid w).1
  Begun-purge_user_pii a w at (row, found, s, free) =
      rw (purge_user_pii-stored hmac str at uid w row a found s) (unfold purge_rows in ground arith)

  pub Begun-step :
      (a : String) (w v : World) (at : Attempt)
      → Ready a w
      → Begun a w v
      → Begun a w (purge_user_pii hmac str at uid v).1
  Begun-step a w v at ready (inl e) = rw e (Begun-purge_user_pii a w at ready)
  Begun-step a w v at ready (inr e) =
      rw e
        (elim (Begun-purge_user_pii a (erase_rows hmac str uid a w) at
          (erase_rows-Ready a w ready)) [
            | inl same ↦ inr same
            | inr again ↦ inr (again ∙ erase_rows_idem a w)
          ])

  Begun-retries :
      (a : String) (w v : World) (ats : List Attempt)
      → Ready a w
      → Begun a w v
      → Begun a w (retries ats v)
  unfolding retries
  Begun-retries a w v [] ready b = b
  Begun-retries a w v (at ∷ ats) ready b =
      Begun-retries a w (purge_user_pii hmac str at uid v).1 ats ready (Begun-step a w v at ready b)

  purge_user_pii-Ready :
      (a : String) (w : World) (at : Attempt)
      → Ready a w
      → at.commits_purge ≡ true
      → purge_user_pii hmac str at uid w ≡ (ok tt, erase_rows hmac str uid a w)
  purge_user_pii-Ready a w at (row, found, s, free) c =
      rw (purge_user_pii-stored hmac str at uid w row a found s) (unfold purge_rows in ground arith)

  purge_user_pii-Begun :
      (a : String) (w v : World) (at : Attempt)
      → Ready a w
      → at.commits_purge ≡ true
      → Begun a w v
      → purge_user_pii hmac str at uid v ≡ (ok tt, erase_rows hmac str uid a w)
  purge_user_pii-Begun a w v at ready c (inl e) = rw e (purge_user_pii-Ready a w at ready c)
  purge_user_pii-Begun a w v at ready c (inr e) = rw e (
      rw (purge_user_pii-Ready a (erase_rows hmac str uid a w) at (erase_rows-Ready a w ready) c)
        (rw (erase_rows_idem a w)))

  -- Once one attempt has committed the identifier, any number of further attempts that fail anywhere,
  -- under any secrets, followed by one whose second transaction is committed, erase exactly what a
  -- single undisturbed run with the first secret would have erased: the identifier is not recomputed.
  pub purge_user_pii-retries :
      (first last : Attempt) (ats : List Attempt) (w : World) (row : User)
      → let a = compute_anonymous_id hmac str first.secret uid in
        get_user uid w.users ≡ some row
        → stored row.anonymous_id ≡ none
        → is_empty a ≡ false
        → email_taken uid (erased_email a) w.users ≡ false
        → first.commits_id ≡ true
        → last.commits_purge ≡ true
        → purge_user_pii hmac str last uid (retries (first ∷ ats) w) ≡ (
          ok tt,
          erase_rows hmac str uid a (record w { users = update_user uid (named a) w.users }),
        )
  unfolding retries
  purge_user_pii-retries first last ats w row found s digest free c d =
      let a = compute_anonymous_id hmac str first.secret uid in
      let v : World = record w { users = update_user uid (named a) w.users } in
      let ready = named-Ready a w row found digest free in
      let begun : Begun a v (purge_user_pii hmac str first uid w).1 =
        rw (purge_user_pii-fresh hmac str first uid w row found s c)
          (unfold purge_rows in ground arith) in
      purge_user_pii-Begun a v _ last ready d (Begun-retries a v _ ats ready begun)
