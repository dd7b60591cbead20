-- ===== src/Workers/Templates.antt =====
-- The bodies of the emails (workers/notification/templates.py). Python's `datetime` is a parameter: `M` is the
-- type of its moments, with what is read off them.
pub mod Bodies
use Prim.Native.Char.{code}
use Prim.Native.String.{◌++◌}
use mathlib.Core.Option
use pid_docs.Prelude.{String, Bool, Option, none, some, ◌==◌, if◌then◌else◌}
use pid_docs.Prelude.Text.{strip}

pub record EmailContent : Type 0 where
  pub subject : String
  pub html_body : String
  pub plain_text_body : String

abbrev pub app_base_url : String
app_base_url = "https://app.pidextract.com"

abbrev pub verify_path : String
verify_path = "/verify-email"

abbrev pub reset_path : String
reset_path = "/reset-password"

-- What the builders read of `datetime`; a text that `fromisoformat` refuses is none.
pub record Calendar : Type 1 where
  pub M : Type 0
  pub fromisoformat : String → Option M
  pub has_zone : M → Bool
  pub replace_utc : M → M
  pub astimezone_utc : M → M
  pub month_name : M → String
  pub day : M → String
  pub year : M → String
  pub clock : M → String

-- `s[:-1] + "+00:00"` if `s` ends in `Z`
pub without_z : String → String
without_z String.[] = String.[]
without_z (String.◌∷◌ c String.[]) = if code c == b'Z' then "+00:00" else String.◌∷◌ c String.[]
without_z (String.◌∷◌ c (String.◌∷◌ d s)) = String.◌∷◌ c (without_z (String.◌∷◌ d s))

pub build_verification_email : String → String → EmailContent
build_verification_email display_name verification_token =
    let link = app_base_url ++ verify_path ++ "?token=" ++ verification_token in
    record {
      subject = "Verify your email address";
      html_body =
          "<p>Hi " ++ display_name
          ++ ",</p><p>Welcome to P&amp;ID Extract. Please confirm your email address by clicking the link below:</p><p><a href=\""
          ++ link
          ++ "\">Verify my email</a></p><p>If the button does not work, paste this URL into your browser:</p><p>"
          ++ link ++ "</p><p>If you did not create this account, you can ignore this email.</p>";
      plain_text_body =
          "Hi " ++ display_name
          ++ ",\n\nWelcome to P&ID Extract. Confirm your email address by visiting:\n" ++ link
          ++ "\n\nIf you did not create this account, you can ignore this email.";
    }

pub build_password_reset_email : String → String → EmailContent
build_password_reset_email display_name reset_token =
    let link = app_base_url ++ reset_path ++ "?token=" ++ reset_token in
    record {
      subject = "Reset your password";
      html_body =
          "<p>Hi " ++ display_name
          ++ ",</p><p>We received a request to reset your password. Click the link below to choose a new one:</p><p><a href=\""
          ++ link
          ++ "\">Reset my password</a></p><p>If the button does not work, paste this URL into your browser:</p><p>"
          ++ link
          ++ "</p><p>If you did not request a password reset, you can safely ignore this email; your password will not change.</p>";
      plain_text_body =
          "Hi " ++ display_name
          ++ ",\n\nWe received a request to reset your password. Visit the link below to choose a new one:\n"
          ++ link ++ "\n\nIf you did not request a password reset, you can ignore this email.";
    }

pub grace_day1 : String → String → EmailContent
grace_day1 display_name end_human = record {
  subject = "Action needed: your payment could not be processed";
  html_body =
      "<p>Hi " ++ display_name
      ++ ",</p><p>We were unable to process the most recent payment for your subscription, so your account has entered a grace period.</p><p>You will keep full access until <strong>"
      ++ end_human
      ++ "</strong>. Please update your payment method before then to avoid any interruption.</p><p>You can update your billing details from your account settings.</p>";
  plain_text_body =
      "Hi " ++ display_name
      ++ ",\n\nWe were unable to process the most recent payment for your subscription, so your account has entered a grace period.\n\nYou will keep full access until "
      ++ end_human ++ ". Please update your payment method before then to avoid any interruption.";
}

pub grace_day6 : String → String → EmailContent
grace_day6 display_name end_human = record {
  subject = "Final reminder: access ends within 24 hours";
  html_body =
      "<p>Hi " ++ display_name
      ++ ",</p><p><strong>This is your final reminder.</strong> Your payment is still outstanding and your access will be revoked within the next 24 hours.</p><p>Your grace period ends on <strong>"
      ++ end_human
      ++ "</strong>. Update your payment method now to keep your account active and avoid losing access to your drawings and exports.</p>";
  plain_text_body =
      "Hi " ++ display_name
      ++ ",\n\nThis is your final reminder. Your payment is still outstanding and your access will be revoked within the next 24 hours.\n\nYour grace period ends on "
      ++ end_human ++ ". Update your payment method now to keep your account active.";
}

module _ (calendar : Calendar) where
  open calendar use {
    M, fromisoformat, has_zone, replace_utc, astimezone_utc, month_name, day, year, clock,
  }

  pub human : M → String
  human m = month_name m ++ " " ++ day m ++ ", " ++ year m ++ " at " ++ clock m ++ " UTC"

  -- `none` is the `ValueError` of a text that is no timestamp.
  pub format_grace_period_end : String → Option String
  unfolding without_z human
  format_grace_period_end grace_period_end =
      elim (fromisoformat (without_z (strip grace_period_end))) [
        | none ↦ none
        | some parsed ↦
            some (human (astimezone_utc (if has_zone parsed then parsed else replace_utc parsed)))
      ]

  pub build_grace_day1_email : String → String → Option EmailContent
  unfolding format_grace_period_end grace_day1
  build_grace_day1_email display_name grace_period_end =
      Option.map (grace_day1 display_name) (format_grace_period_end grace_period_end)

  pub build_grace_day6_email : String → String → Option EmailContent
  unfolding format_grace_period_end grace_day6
  build_grace_day6_email display_name grace_period_end =
      Option.map (grace_day6 display_name) (format_grace_period_end grace_period_end)
