-- ===== src/Workers/Messages.antt =====
-- Which messages of the services a worker can run (services/auth_service.py and
-- services/gdpr_init_service.py against workers/notification/tasks.py and workers/gdpr/tasks.py).
use pid_docs.Prelude.{ℕ, String, true, false, List, [], ◌∷◌, ◌++◌, ◌≡◌, refl, All, some, none}
use Prim.Native.String as Text
use pid_docs.Account.{Message, World, dict, text}
use pid_docs.AuthService.{State, enqueue_notification}
use pid_docs.Auth.Permissions.{lookup}
use pid_docs.Workers.{binds}
use pid_docs.Account.Deletion.{
  Outside, initiate_account_deletion, gdpr_erasure_task_name, gdpr_erasure_queue, erasure_countdown,
}
use pid_docs.Account.Deletion.Laws.{initiate_account_deletion-enqueues}
use pid_docs.Db.{User, get_user}

-- the message that `enqueue_notification` adds
abbrev pub notification : String → List (String × String) → Message
notification task_name payload = record {
  task = Text.◌++◌ "notification." task_name;
  args = dict (("task_name", task_name) ∷ payload) ∷ [];
  queue = "notification";
  countdown = 0;
}

-- The message that `enqueue_notification` adds for the verification email and for the reset email
-- binds to no registered task, whatever its payload: the payload is its one argument, and the tasks
-- of these names take four.
pub enqueue_notification-binds :
    {Store : Type 0} (payload : List (String × String)) (s : State Store)
    → All
        (λ (task_name : String).
          (m : Message) × ((enqueue_notification task_name payload s).world.sent
            ≡ s.world.sent ++ m ∷ [])
          × (binds m ≡ false))
        ("send_verification_email" ∷ "send_password_reset_email" ∷ [])
unfolding enqueue_notification binds lookup
enqueue_notification-binds payload s = (
  (notification "send_verification_email" payload, refl, refl),
  ((notification "send_password_reset_email" payload, refl, refl), tt),
)

-- For an existing user that is not deleted, with the commit and the broker succeeding, the deletion
-- adds one message, and this message binds to no registered task: none has its name.
pub initiate_account_deletion-binds :
    (str : ℕ → String) (out : Outside) (uid : ℕ) (user : User) (w : World)
    → out.commits ≡ true
    → out.enqueues ≡ true
    → get_user uid w.users ≡ some user
    → user.deleted_at ≡ none
    → (m : Message) × ((initiate_account_deletion str out uid w).1.sent ≡ w.sent ++ m ∷ [])
      × (binds m ≡ false)
unfolding binds lookup
initiate_account_deletion-binds str out uid user w c q e d = (
  record {
    task = gdpr_erasure_task_name;
    args = text (str uid) ∷ [];
    queue = gdpr_erasure_queue;
    countdown = erasure_countdown out.environment;
  },
  initiate_account_deletion-enqueues str out uid user w c q e d,
  refl,
)
