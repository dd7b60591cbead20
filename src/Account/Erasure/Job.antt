-- ===== src/Account/Erasure/Job.antt =====
-- `erase_user_pii` of workers/gdpr/tasks.py as a task of the base class (workers/base.py): one message of the queue
-- from its first delivery to its end.
use pid_docs.Prelude.{
  ℕ, String, ◌≡◌, refl, true, false, none, some, List, ◌∷◌, ◌++◌, ◌≤◌, ◌∙◌, ap, sym, All, ◌⊎◌, inl,
  inr, arith, Bool-cases,
}
use pid_docs.Prelude.Text.{is_empty}
use pid_docs.Prelude.Exec.{Exec, ok, err}
use pid_docs.Db.{User, get_user, update_user}
use pid_docs.Account.{World, Error, database_error}
use pid_docs.Account.Erasure.{
  Attempt, named, stored, email_taken, erased_email, compute_anonymous_id, erase_rows,
  ensure_anonymous_id, purge_rows, purge_user_pii,
}
use pid_docs.Account.Erasure.Retry.{
  Begun, Ready, named-Ready, erase_rows-Ready, erase_rows_idem, Begun-step,
}
use pid_docs.Account.Erasure.Purge.{purge_user_pii-stored, purge_user_pii-fresh}
use pid_docs.Workers.Base.{Delivery, ended, succeeded, Celery, base_task}
use pid_docs.Workers.Base.Runs.{run_of, ended_runs, Repeatable, work_from}

module _ (hmac : String → String → String) (str : ℕ → String) (uid : ℕ) (secret : String) where
  -- The task opens a session of its own, which is closed however the purge ends.
  unfoldable pub erase_user_pii : Attempt → Exec World Error (Unit {0})
  erase_user_pii at = purge_user_pii hmac str at uid

  abbrev pub digest : String
  digest = compute_anonymous_id hmac str secret uid

  abbrev pub with_id : World → World
  with_id w = record w { users = update_user uid (named digest) w.users }

  abbrev pub erased : World → World
  erased w = erase_rows hmac str uid digest (with_id w)

  -- The runs are made under one secret.
  abbrev pub IsRun : Attempt → Type 0
  IsRun at = at.secret ≡ secret

  -- A user without an identifier, whose new address is free.
  pub record IsFresh (w : World) : Type 0 where
    pub row : User
    pub found : get_user uid w.users ≡ some row
    pub no_id : stored row.anonymous_id ≡ none
    pub has_digest : is_empty digest ≡ false
    pub is_free : email_taken uid (erased_email digest) w.users ≡ false

  -- nothing committed, the identifier committed, or everything
  abbrev Stage : World → World → Type 0
  Stage w v = (v ≡ w) ⊎ Begun hmac str uid digest (with_id w) v

  module _ (w : World) (fresh : IsFresh w) where
    ready : Ready hmac str uid digest (with_id w)
    ready = named-Ready hmac str uid digest w fresh.row fresh.found fresh.has_digest fresh.is_free

    run_fresh :
        (at : Attempt)
        → IsRun at
        → at.commits_id ≡ true
        → purge_user_pii hmac str at uid w ≡ purge_user_pii hmac str at uid (with_id w)
    run_fresh at run c =
        let (row, found, s, free) = ready in
        let same = ap (λ (k : String). compute_anonymous_id hmac str k uid) run in
        rw (purge_user_pii-fresh hmac str at uid w fresh.row fresh.found fresh.no_id c, same)
          (sym (purge_user_pii-stored hmac str at uid (with_id w) row digest found s))

    run_lost :
        (at : Attempt)
        → at.commits_id ≡ false
        → purge_user_pii hmac str at uid w ≡ (err database_error, w)
    unfolding purge_user_pii ensure_anonymous_id
    run_lost at c = ground (arith, fresh.found, fresh.no_id)

    keeps :
        (at : Attempt) (v : World)
        → IsRun at
        → Stage w v
        → Stage w (purge_user_pii hmac str at uid v).1
    keeps at v run (inl e) = rw e (elim (Bool-cases at.commits_id) [
      | inl c ↦ inr (
          rw (run_fresh at run c)
            (Begun-step hmac str uid digest (with_id w) (with_id w) at ready (inl refl)))
      | inr c ↦ inl (rw (run_lost at c) refl)
    ])
    keeps at v run (inr b) = inr (Begun-step hmac str uid digest (with_id w) v at ready b)

    purge_rows-completes :
        (at : Attempt) (v : World)
        → Ready hmac str uid digest v
        → (purge_user_pii hmac str at uid v).0 ≡ ok tt
        → (purge_user_pii hmac str at uid v).1 ≡ erase_rows hmac str uid digest v
    purge_rows-completes at v (row, found, s, free) =
        rw (purge_user_pii-stored hmac str at uid v row digest found s)
          (unfold purge_rows in ground arith)

    purge_rows-good :
        (at : Attempt) (v : World)
        → Ready hmac str uid digest v
        → at.commits_purge ≡ true
        → (purge_user_pii hmac str at uid v).0 ≡ ok tt
    purge_rows-good at v (row, found, s, free) c =
        rw (purge_user_pii-stored hmac str at uid v row digest found s)
          (unfold purge_rows in ground arith)

    Begun-completes :
        (at : Attempt) (v : World)
        → Begun hmac str uid digest (with_id w) v
        → (purge_user_pii hmac str at uid v).0 ≡ ok tt
        → (purge_user_pii hmac str at uid v).1 ≡ erased w
    Begun-completes at v (inl e) = rw e (purge_rows-completes at (with_id w) ready)
    Begun-completes at v (inr e) = rw e (λ done.
        purge_rows-completes at (erased w) (erase_rows-Ready hmac str uid digest (with_id w) ready)
          done
        ∙ erase_rows_idem hmac str uid digest (with_id w))

    completes :
        (at : Attempt) (v : World)
        → IsRun at
        → Stage w v
        → (purge_user_pii hmac str at uid v).0 ≡ ok tt
        → (purge_user_pii hmac str at uid v).1 ≡ erased w
    completes at v run (inr b) = Begun-completes at v b
    completes at v run (inl e) = rw e (elim (Bool-cases at.commits_id) [
      | inl c ↦ rw (run_fresh at run c) (Begun-completes at (with_id w) (inl refl))
      | inr c ↦ rw (run_lost at c) (λ done. absurd (ground arith))
    ])

    good :
        (at : Attempt) (v : World)
        → IsRun at
        → at.commits_id ≡ true
        → at.commits_purge ≡ true
        → Stage w v
        → (purge_user_pii hmac str at uid v).0 ≡ ok tt
    good at v run c d (inl e) = rw (e, run_fresh at run c) (purge_rows-good at (with_id w) ready d)
    good at v run c d (inr (inl e)) = rw e (purge_rows-good at (with_id w) ready d)
    good at v run c d (inr (inr e)) =
        rw e
          (purge_rows-good at (erased w) (erase_rows-Ready hmac str uid digest (with_id w) ready) d)

    repeatable : Repeatable (erase_user_pii) IsRun (Stage w) (erased w)
    unfolding erase_user_pii
    repeatable = record { keeps = keeps; completes = completes }

  -- The message that erases a user without an identifier, under one secret and with a free address: however often its
  -- worker is lost, and if at most three of its runs end in an error before one in which the database commits both
  -- transactions, the task succeeds, and leaves exactly what one undisturbed run leaves.
  pub work-erase_user_pii :
      (celery : Celery Attempt World Error) (w : World) (before after : List (Delivery Attempt))
      (last : Attempt)
      → IsFresh w
      → All (λ d. IsRun (run_of d)) before
      → ended_runs before ≤ 3
      → IsRun last
      → last.commits_id ≡ true
      → last.commits_purge ≡ true
      → celery.work base_task erase_user_pii (before ++ ended last ∷ after) 0 w
        ≡ (succeeded, erased w)
  unfolding erase_user_pii
  work-erase_user_pii celery w before after last fresh runs few run c d =
      work_from celery erase_user_pii IsRun (Stage w) (erased w) (repeatable w fresh) last run
        (λ v stage. good w fresh last v run c d stage) after before 0 w runs (inl refl)
        (omega arith)
