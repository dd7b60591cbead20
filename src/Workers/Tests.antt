-- ===== src/Workers/Tests.antt =====
-- Messages and retries at concrete inputs.
use pid_docs.Prelude.{
  ℕ, String, true, false, none, some, [], ◌∷◌, ◌≡◌, refl, All, arith, ◌==◌, if◌then◌else◌,
}
use pid_docs.Account.{Message}
use pid_docs.Account.Deletion.{Outside, initiate_account_deletion}
use pid_docs.AuthService.{State, enqueue_notification}
use pid_docs.Db.Tables.{get}
use pid_docs.Workers.{binds}
use pid_docs.Workers.Messages.{enqueue_notification-binds, initiate_account_deletion-binds}
use pid_docs.Workers.Notification.{SendGridError}
use pid_docs.Workers.SendGrid.{Sdk, response, exception, absent}
use pid_docs.Prelude.Exec.{ok}
use pid_docs.Workers.Delivery.{Report, Ended}
use pid_docs.Workers.Tasks.{
  send_verification_email, build_mail, content_of, run_task, run_task_terminates,
}
use pid_docs.Workers.Templates.{Calendar, build_verification_email}
use pid_docs.Samples.{ann, world, str}

abbrev state : State ℕ
state = record { world = world; counters = 0; calls = [] }

enqueue_notification-binds_example :
    All
      (λ (task_name : String).
        (m : Message) × ((enqueue_notification task_name (("email", "a") ∷ []) state).world.sent
          ≡ m ∷ [])
        × (binds m ≡ false))
      ("send_verification_email" ∷ "send_password_reset_email" ∷ [])
enqueue_notification-binds_example = enqueue_notification-binds (("email", "a") ∷ []) state

abbrev outside : Outside
outside = record {
  now = 8;
  environment = "production";
  commits = true;
  signs_out = true;
  drops_flags = true;
  enqueues = true;
}

initiate_account_deletion-binds_example :
    (m : Message) × ((initiate_account_deletion str outside 1 world).1.sent ≡ m ∷ [])
    × (binds m ≡ false)
unfolding get
initiate_account_deletion-binds_example =
    initiate_account_deletion-binds str outside 1 ann world refl refl refl refl

abbrev bad_address : SendGridError
bad_address = record { status_code = some 400; headers = [] }

-- The transport fails once, and then SendGrid takes the mail.
abbrev replies : ℕ → Sdk
replies n = if n == 0 then exception else response (some 202) absent

abbrev calendar : Calendar
calendar = record {
  M = String;
  fromisoformat = λ s. some s;
  has_zone = λ m. true;
  replace_utc = λ m. m;
  astimezone_utc = λ m. m;
  month_name = λ m. "January";
  day = λ m. "22";
  year = λ m. "2024";
  clock = λ m. "00:00";
}

run_task_terminates_example :
    (r : Report) × (run_task calendar
        (λ n. n)
        (λ s. none)
        replies
        4
        "ann@x.org"
        "Ann"
        (send_verification_email "t")
      ≡ ok (build_mail "ann@x.org" (build_verification_email "Ann" "t"), r))
    × Ended (λ n. n) (λ s. none) replies 0 r
unfolding content_of
run_task_terminates_example =
    run_task_terminates calendar (λ n. n) (λ s. none) replies 4 "ann@x.org" "Ann"
      (send_verification_email "t") (build_verification_email "Ann" "t") (omega arith) refl
