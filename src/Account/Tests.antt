-- ===== src/Account/Tests.antt =====
-- Deletion and erasure at concrete inputs.
use pid_docs.Prelude.{true, false, none, some, [], ◌∷◌, ◌++◌, ◌≡◌, refl, arith, All, holds}
use pid_docs.Prelude.Exec.{ok}
use pid_docs.Auth.Middleware.{Identity}
use pid_docs.Db.{AuditLog, MlTrainingConsent, get_user}
use pid_docs.Db.Tables.{get, update}
use pid_docs.Prelude.Text.{prefix}
use pid_docs.Account.Deletion.{Outside}
use pid_docs.Account.Erasure.{
  Attempt, email_taken, erased_email, compute_anonymous_id, purge_user_pii,
}
use pid_docs.Account.Erasure.Purge.{purge_user_pii-erases}
use pid_docs.Account.Erasure.Job.{erase_user_pii, erased, work-erase_user_pii}
use pid_docs.Workers.Base.{lost, ended, succeeded, Celery, base_task}
use pid_docs.Workers.Base.Memory.{memory_queue}
use pid_docs.Samples.{ann, world, str, hmac}

abbrev outside : Outside
outside = record {
  now = 8000000;
  environment = "production";
  commits = true;
  signs_out = false;
  drops_flags = true;
  enqueues = true;
}

abbrev ident : Identity
ident = record { id = 1; email = "ann@x.org"; role = "user"; team_id = some 7 }

abbrev good_attempt : Attempt
good_attempt = record { secret = "k"; commits_id = true; commits_purge = true }

abbrev bad_attempt : Attempt
bad_attempt = record { secret = "k"; commits_id = true; commits_purge = false }

purge_user_pii-erases_example :
    let w' = (purge_user_pii hmac str good_attempt 1 world).1 in
    ((purge_user_pii hmac str good_attempt 1 world).0 ≡ ok tt)
    × (get_user 1 w'.users
        ≡ some (record ann {
          email = "erased_0123456789abcdef@erased.invalid";
          display_name = "Deleted User";
          password_hash = none;
          anonymous_id = some "0123456789abcdef";
        }))
    × All (λ (e : AuditLog). holds e.user_id 1 ≡ false) w'.audit_log
    × All (λ (c : MlTrainingConsent). holds c.user_id 1 ≡ false) w'.consents
unfolding email_taken erased_email compute_anonymous_id get update prefix
purge_user_pii-erases_example =
    purge_user_pii-erases hmac str good_attempt 1 world ann refl refl refl refl refl

-- The worker is lost between the two transactions, and two runs fail before a good one.
work-erase_user_pii_example :
    Celery.work memory_queue base_task
      (erase_user_pii hmac str 1 "k")
      ((lost bad_attempt ∷ ended bad_attempt ∷ ended bad_attempt ∷ [])
        ++ ended good_attempt ∷ lost bad_attempt ∷ [])
      0
      world
    ≡ (succeeded, erased hmac str 1 "k" world)
unfolding email_taken erased_email compute_anonymous_id get update prefix
work-erase_user_pii_example =
    work-erase_user_pii hmac str 1 "k" memory_queue world
      (lost bad_attempt ∷ ended bad_attempt ∷ ended bad_attempt ∷ []) (lost bad_attempt ∷ [])
      good_attempt
      (record { row = ann; found = refl; no_id = refl; has_digest = refl; is_free = refl })
      (refl, (refl, (refl, tt))) (ground arith) refl refl refl
