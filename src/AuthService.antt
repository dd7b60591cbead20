-- ===== src/AuthService.antt =====
-- services/auth_service.py and services/password_reset.py: the state of the flows, the replies of
-- Supabase Auth, and the helpers that the flows share.
pub mod Users
pub mod Login
pub mod Register
pub mod OAuth
pub mod Session
pub mod PasswordReset
pub mod GoTrue
pub mod Admin
mod Tests
use Prim.Native.String as Text
use text.Mathlib.Text.{find?}
use pid_docs.Prelude.{
  ℕ, String, Bool, true, false, ◌||◌, Option, none, some, List, [], ◌∷◌, ◌++◌, ◌==◌, is_some,
  get_or, if◌then◌else◌,
}
use pid_docs.Prelude.Text.{lower}
use pid_docs.Prelude.Exec.{Result, ok, err, Exec}
use pid_docs.Db.{User, Subscription, AuditLog}
use pid_docs.Account.{World, Message, dict}

abbrev pub supabase_managed_sentinel : String
supabase_managed_sentinel = "<SUPABASE_MANAGED>"

-- The exceptions that leave a flow, those of Supabase, the network and the database included.
pub data AuthError : Type 0 where
  email_already_registered invalid_credentials account_not_found invalid_refresh_token : AuthError
  invalid_reset_token sign_out_failed : AuthError
  supabase_error network_error database_error integrity_error multiple_results value_error :
      AuthError
  account_locked : ℕ → AuthError
  account_link_required : String → AuthError

-- A call of the GoTrue API that was made.
pub data Call : Type 0 where
  sign_up sign_in_password generate_link : String → Call
  refresh_session sign_out reset_password : Call
  admin_sign_out : ℕ → Call

-- What a call brings: JSON, a `SupabaseAuthError` with its status and code, or any other failure.
pub data Reply {ℓ} (A : Type ℓ) : Type ℓ where
  replied : A → Reply A
  refused : Option ℕ → Option String → Reply A
  failed : Reply A

pub record Tokens : Type 0 where
  pub access_token : Option String
  pub refresh_token : Option String

-- The parts of a GoTrue body that are read: `user.id`, the `session` object and the tokens outside it.
pub record Body : Type 0 where
  pub user_id : Option String
  pub session : Option Tokens
  pub top : Tokens

pub session_tokens : Body → Tokens
session_tokens b = get_or b.session b.top

contains : String → String → Bool
contains s part = is_some (find? s part)

-- `_looks_like_duplicate`
is_duplicate_status : Option ℕ → Bool
is_duplicate_status none = false
is_duplicate_status (some n) = n == 409 || n == 422

pub looks_like_duplicate : Option ℕ → Option String → Bool
unfolding contains is_duplicate_status
looks_like_duplicate status code =
    is_duplicate_status status
    || let c = lower (get_or code "") in
      contains c "already" || contains c "exist" || contains c "registered"

-- `_user_public`
pub record PublicUser : Type 0 where
  pub id : ℕ
  pub email : String
  pub display_name : String
  pub email_verified : Bool

pub user_public : User → PublicUser
user_public u = record {
  id = u.id;
  email = u.email;
  display_name = u.display_name;
  email_verified = u.email_verified;
}

pub record AuthResponse : Type 0 where
  pub tokens : Tokens
  pub user : PublicUser

-- The database with its queues, the counters of failed logins, and the calls made so far.
pub record State (Store : Type 0) : Type 0 where
  pub world : World
  pub counters : Store
  pub calls : List Call

abbrev pub Flow : Type 0 → Type 0 → Type 0
Flow Store A = Exec (State Store) AuthError A

module _ {Store : Type 0} where
  abbrev pub called : Call → State Store → State Store
  called c s = record s { calls = s.calls ++ c ∷ [] }

  -- `_write_audit`: committed by itself, and a failure is swallowed.
  unfoldable pub write_audit : Bool → ℕ → ℕ → String → Option ℕ → State Store → State Store
  write_audit commits id now action_type user_id s =
      if commits
      then record s {
        world = record s.world {
          audit_log =
              s.world.audit_log
              ++ record { id = id; user_id = user_id; action_type = action_type; occurred_at = now }
                ∷ [];
        };
      }
      else s

  -- `enqueue_notification`: the payload dict is the one positional argument of the task.
  unfoldable pub enqueue_notification : String → List (String × String) → State Store → State Store
  enqueue_notification task_name payload s = record s {
    world = record s.world {
      sent =
          s.world.sent
          ++ record {
            task = Text.◌++◌ "notification." task_name;
            args = dict (("task_name", task_name) ∷ payload) ∷ [];
            queue = "notification";
            countdown = 0;
          }
            ∷ [];
    };
  }
