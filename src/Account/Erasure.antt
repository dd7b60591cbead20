-- ===== src/Account/Erasure.antt =====
-- workers/gdpr/anonymizer.py and workers/gdpr/tasks.py: the purge of a user's personal data, and the
-- periodic scan that starts it. HMAC-SHA256 is Python's `hmac` and `hashlib`: `hmac secret message`
-- is a parameter, as is the textual form `str` of a UUID.
pub mod Job
pub mod Purge
pub mod Retry
pub mod Scan
use pid_docs.Prelude.{
  ℕ, zero, suc, ◌+◌, ◌-◌, ◌*◌, String, text_eq, Bool, true, false, not, ◌&&◌, ◌||◌, Option, none,
  some, List, [], ◌∷◌, ◌++◌, ltb, ◌==◌, if◌then◌else◌, holds, filter, update_where,
}
use pid_docs.Prelude.Text.{is_empty, prefix}
use Prim.Native.String as Text
use pid_docs.Prelude.Exec.{ok, err, Exec, ◌>>=◌, ◌>>◌}
use pid_docs.Db.{User, AuditLog, MlTrainingConsent, get_user, update_user}
use pid_docs.Account.{
  Value, text, Message, World, Error, database_error, integrity_error, value_error,
}

-- `erased_{anonymous_id[:16]}@erased.invalid`
unfoldable pub erased_email : String → String
erased_email anonymous_id =
    Text.◌++◌ "erased_" (Text.◌++◌ (prefix 16 anonymous_id) "@erased.invalid")

abbrev pub erased_display_name : String
erased_display_name = "Deleted User"

-- Would the address break `user_email_unique`: does another row hold it?
unfoldable pub email_taken : ℕ → String → List User → Bool
email_taken uid email [] = false
email_taken uid email (u ∷ us) =
    (not (u.id == uid) && text_eq u.email email) || email_taken uid email us

-- What a row becomes.
abbrev pub named : String → User → User
named a u = record u { anonymous_id = some a }

abbrev pub purged : String → User → User
purged a u = record u {
  email = erased_email a;
  display_name = erased_display_name;
  password_hash = none;
}

abbrev pub unlinked : AuditLog → AuditLog
unlinked a = record a { user_id = none }

-- The truth of `user.anonymous_id`
abbrev pub stored : Option String → Option String
stored none = none
stored (some a) = if is_empty a then none else some a

-- What happens outside during one attempt: the configured secret, and whether each of the two
-- transactions can be committed.
pub record Attempt : Type 0 where
  pub secret : String
  pub commits_id : Bool
  pub commits_purge : Bool

module _ (hmac : String → String → String) (str : ℕ → String) where
  unfoldable pub compute_anonymous_id : String → ℕ → String
  compute_anonymous_id secret uid = hmac secret (str uid)

  -- Transaction 1
  write_anonymous_id : Attempt → ℕ → Exec World Error String
  write_anonymous_id at uid w =
      let a = compute_anonymous_id at.secret uid in
      if at.commits_id
      then (ok a, record w { users = update_user uid (named a) w.users })
      else (err database_error, w)

  unfoldable pub ensure_anonymous_id : Attempt → ℕ → Exec World Error String
  unfolding write_anonymous_id
  ensure_anonymous_id at uid w = elim (get_user uid w.users) [
    | none ↦ (err value_error, w)
    | some user ↦ elim (stored user.anonymous_id) [
      | some a ↦ (ok a, w)
      | none ↦ write_anonymous_id at uid w
    ]
  ]

  -- Transaction 2; the unique constraint is checked when it is flushed.
  pub erase_rows : ℕ → String → World → World
  erase_rows uid a w = record w {
    users = update_user uid (purged a) w.users;
    audit_log = update_where (λ (e : AuditLog). holds e.user_id uid) unlinked w.audit_log;
    consents = filter (λ (c : MlTrainingConsent). not (holds c.user_id uid)) w.consents;
  }

  unfoldable pub purge_rows : Attempt → ℕ → String → Exec World Error Unit
  unfolding erase_rows email_taken
  purge_rows at uid a w = elim (get_user uid w.users) [
    | none ↦ (err value_error, w)
    | some user ↦
        if email_taken uid (erased_email a) w.users
        then (err integrity_error, w)
        else if at.commits_purge
        then (ok tt, erase_rows uid a w)
        else (err database_error, w)
  ]

  unfoldable pub purge_user_pii : Attempt → ℕ → Exec World Error Unit
  unfolding ensure_anonymous_id purge_rows
  purge_user_pii at uid = do a ← ensure_anonymous_id at uid; purge_rows at uid a

abbrev pub erasure_delay : ℕ
erasure_delay = 30 * 24 * 3600 * 1000000

-- the `WHERE` of the scan
pub is_due : ℕ → User → Bool
is_due now u = elim u.deleted_at [ none ↦ false | some t ↦ ltb t (now - erasure_delay) ]

abbrev pub erase_task_name : String
erase_task_name = "gdpr_erasure.erase_user_pii"

pub erase_job : (ℕ → String) → ℕ → Message
erase_job str uid = record {
  task = erase_task_name;
  args = text (str uid) ∷ [];
  queue = "gdpr_erasure";
  countdown = 0;
}

-- The loop over the ids that the query returned; the broker may refuse a job, which ends the task.
dispatch : (ℕ → String) → (ℕ → Bool) → List User → Exec World Error Unit
unfolding erase_job
dispatch str accepts [] w = (ok tt, w)
dispatch str accepts (u ∷ us) w = elim (accepts u.id) [
  | true ↦ dispatch str accepts us (record w { sent = w.sent ++ erase_job str u.id ∷ [] })
  | false ↦ (err database_error, w)
]

pub scan_and_dispatch_erasure_jobs : (ℕ → String) → (ℕ → Bool) → ℕ → Exec World Error Unit
unfolding dispatch is_due
scan_and_dispatch_erasure_jobs str accepts now w =
    dispatch str accepts (filter (is_due now) w.users) w
