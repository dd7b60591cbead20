-- ===== src/Workers/Tasks.antt =====
-- The email tasks of workers/notification/tasks.py, from their arguments to the mail and its delivery.
use pid_docs.Prelude.{ℕ, ◌≤◌, String, ◌≡◌, Option, none, some, List, [], ◌∷◌, arith}
use pid_docs.Prelude.Exec.{Result, ok, err}
use pid_docs.Workers.SendGrid.{Sdk}
use pid_docs.Workers.Delivery.{Report, deliver, Ended, deliver_terminates}
use pid_docs.Workers.Templates.{
  EmailContent, Calendar, build_verification_email, build_password_reset_email,
  build_grace_day1_email, build_grace_day6_email,
}

-- A task with its last argument: the token, or the end of the grace period.
pub data Task : Type 0 where
  send_verification_email send_password_reset_email : String → Task
  send_grace_day1_email send_grace_day6_email : String → Task

pub record Mail : Type 0 where
  pub from_email : String
  pub to_email : String
  pub subject : String
  -- the parts with their types, in their order
  pub contents : List (String × String)

pub build_mail : String → EmailContent → Mail
build_mail to_email content = record {
  from_email = "no-reply@pidextract.com";
  to_email = to_email;
  subject = content.subject;
  contents = ("text/plain", content.plain_text_body) ∷ ("text/html", content.html_body) ∷ [];
}

-- `none` is a `ValueError`: it is raised before anything is sent, and fails the task, which retries nothing by
-- itself (`autoretry_for=()`).
unfoldable pub content_of : Calendar → String → Task → Option EmailContent
content_of calendar display_name (send_verification_email token) =
    some (build_verification_email display_name token)
content_of calendar display_name (send_password_reset_email token) =
    some (build_password_reset_email display_name token)
content_of calendar display_name (send_grace_day1_email grace_period_end) =
    build_grace_day1_email calendar display_name grace_period_end
content_of calendar display_name (send_grace_day6_email grace_period_end) =
    build_grace_day6_email calendar display_name grace_period_end

pub data TaskError : Type 0 where
  value_error out_of_fuel : TaskError

module _ (calendar : Calendar) {I : Type 0} (of_nat : ℕ → I) (parse_int : String → Option I)
    (replies : ℕ → Sdk) where
  delivered : Option Report → Mail → Result TaskError (Mail × Report)
  delivered none mail = err out_of_fuel
  delivered (some r) mail = ok (mail, r)

  pub run_task : ℕ → String → String → Task → Result TaskError (Mail × Report)
  unfolding content_of build_mail delivered
  run_task fuel email display_name task = elim (content_of calendar display_name task) [
    | none ↦ err value_error
    | some content ↦ delivered (deliver of_nat parse_int replies fuel 0) (build_mail email content)
  ]

  -- Whatever SendGrid does, an email task whose content can be built ends, after at most three retries, with
  -- this content in a mail to the given address. It is delivered exactly if its last send was accepted, and
  -- every send before had failed in a way that is retried.
  pub run_task_terminates :
      (fuel : ℕ) (email display_name : String) (task : Task) (content : EmailContent)
      → 4 ≤ fuel
      → content_of calendar display_name task ≡ some content
      → (r : Report) × (run_task fuel email display_name task ≡ ok (build_mail email content, r))
        × Ended of_nat parse_int replies 0 r
  unfolding run_task
  run_task_terminates fuel email display_name task content h e =
      let (r, run, end) = deliver_terminates of_nat parse_int replies fuel h in
      (r, ground (arith, e, run), end)
