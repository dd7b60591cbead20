-- ===== src/Workers.antt =====
-- The registered Celery tasks (workers/*/tasks.py), by name and number of arguments: a message is run only
-- by a task of its name, and Python binds its arguments only if their number is right.
pub mod Notification
pub mod Messages
pub mod SendGrid
pub mod Base
pub mod Delivery
pub mod Templates
pub mod Tasks
pub mod Queues
mod Tests
use pid_docs.Prelude.{
  ℕ, String, text_eq, Bool, true, false, Option, none, some, List, [], ◌∷◌, leb, ◌&&◌,
  if◌then◌else◌, length,
}
use pid_docs.Auth.Permissions.{lookup}
use pid_docs.Account.{Message}

-- The names of the tasks, with the least and the greatest number of arguments that each takes.
abbrev pub registered_tasks : List (String × (ℕ × ℕ))
registered_tasks =
    ("notification.send_verification_email", (4, 4))
    ∷ ("notification.send_password_reset_email", (4, 4))
    ∷ ("notification.send_grace_day1_email", (4, 4))
    ∷ ("notification.send_grace_day6_email", (4, 4))
    ∷ ("notification.send_team_invitation_email", (5, 5))
    ∷ ("gdpr_erasure.erase_user_pii", (1, 1))
    ∷ ("gdpr_erasure.scan_and_dispatch_erasure_jobs", (0, 1))
    ∷ ("backend.app.workers.scan.tasks.scan_drawing", (1, 1))
    ∷ []

takes : Message → Option (ℕ × ℕ) → Bool
takes m none = false
takes m (some (least, most)) = leb least (length m.args) && leb (length m.args) most

-- a registered task runs the message
pub binds : Message → Bool
unfolding takes
binds m = takes m (lookup m.task registered_tasks)
