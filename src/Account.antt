-- ===== src/Account.antt =====
-- What the account services change: rows of the database, and the effects on Supabase, on the Redis
-- cache and on the Celery broker, each as the list of what was accepted, oldest first.
pub mod Deletion
pub mod Erasure
mod Tests
use pid_docs.Prelude.{ℕ, String, Bool, List, ◌++◌, [], ◌∷◌}
use pid_docs.Db.{User, Subscription, AuditLog, MlTrainingConsent}

-- An argument of a Celery task: a text, or a dict of texts.
pub data Value : Type 0 where
  text : String → Value
  dict : List (String × String) → Value

-- `celery_app.send_task(task, args, queue, countdown)`
pub record Message : Type 0 where
  pub task : String
  pub args : List Value
  pub queue : String
  pub countdown : ℕ

pub record World : Type 0 where
  pub users : List User
  pub subscriptions : List Subscription
  pub audit_log : List AuditLog
  pub consents : List MlTrainingConsent
  pub signed_out : List ℕ
  pub flags_dropped : List ℕ
  pub sent : List Message

-- The exceptions that leave a service.
pub data Error : Type 0 where
  database_error integrity_error value_error : Error
