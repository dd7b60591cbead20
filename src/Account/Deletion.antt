-- ===== src/Account/Deletion.antt =====
-- services/gdpr_init_service.py: the start of a right-to-erasure.
pub mod Laws
use pid_docs.Prelude.{ℕ, ◌*◌, String, text_eq, Bool, none, some, [], ◌∷◌, ◌++◌, if◌then◌else◌}
use pid_docs.Prelude.Exec.{ok, err, Exec, ◌>>=◌, ◌>>◌, modify}
use pid_docs.Db.{User, get_user, update_user}
use pid_docs.Account.{text, World, Error, database_error}

-- What happens outside while one request runs: the clock, and which calls succeed.
pub record Outside : Type 0 where
  pub now : ℕ
  pub environment : String
  pub commits : Bool
  pub signs_out : Bool
  pub drops_flags : Bool
  pub enqueues : Bool

abbrev pub gdpr_erasure_task_name : String
gdpr_erasure_task_name = "backend.app.workers.gdpr.tasks.gdpr_erasure_task"

abbrev pub gdpr_erasure_queue : String
gdpr_erasure_queue = "gdpr_erasure"

unfoldable pub erasure_countdown : String → ℕ
erasure_countdown environment = if text_eq environment "production" then 30 * 24 * 3600 else 0

-- the user row with both timestamps
abbrev pub deleted : ℕ → User → User
deleted now u = record u { deleted_at = some now; token_invalidated_at = some now }

-- `str` writes a UUID out.
module _ (str : ℕ → String) (out : Outside) where
  -- both timestamps, in one commit
  soft_delete : ℕ → Exec World Error Unit
  soft_delete uid w =
      if out.commits
      then (ok tt, record w { users = update_user uid (deleted out.now) w.users })
      else (err database_error, w)

  -- The three best-effort calls: a failure is logged and swallowed.
  sign_out : ℕ → World → World
  sign_out uid w = if out.signs_out then record w { signed_out = w.signed_out ++ uid ∷ [] } else w

  drop_flags : ℕ → World → World
  drop_flags uid w =
      if out.drops_flags then record w { flags_dropped = w.flags_dropped ++ uid ∷ [] } else w

  enqueue : ℕ → World → World
  unfolding erasure_countdown
  enqueue uid w =
      if out.enqueues
      then record w {
        sent =
            w.sent
            ++ record {
              task = gdpr_erasure_task_name;
              args = text (str uid) ∷ [];
              queue = gdpr_erasure_queue;
              countdown = erasure_countdown out.environment;
            }
              ∷ [];
      }
      else w

  begin_erasure : ℕ → Exec World Error Unit
  unfolding soft_delete sign_out drop_flags enqueue
  begin_erasure uid = do
    soft_delete uid
    modify (sign_out uid)
    modify (drop_flags uid)
    modify (enqueue uid)

  unfoldable pub initiate_account_deletion : ℕ → Exec World Error Unit
  unfolding begin_erasure
  initiate_account_deletion uid w = elim (get_user uid w.users) [
    | none ↦ (ok tt, w)
    | some user ↦ elim user.deleted_at [ some t ↦ (ok tt, w) | none ↦ begin_erasure uid w ]
  ]
