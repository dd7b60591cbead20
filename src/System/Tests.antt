-- ===== src/System/Tests.antt =====
-- Runs of the system at concrete inputs.
use pid_docs.System.Fit.{RowsFit, Reach-RowsFit}
use pid_docs.Db.Schema.{fits, is_given, passes}
use pid_docs.Auth.Permissions.{lookup}
use pid_docs.Prelude.{true, some, [], ◌≡◌, ◌≢◌, refl}
use pid_docs.Auth.Middleware.{Identity, authenticate_request}
use pid_docs.Db.Tables.{get}
use pid_docs.Redis.Memory.{memory, no_keys, Keys}
use pid_docs.AuthService.{State, failed}
use pid_docs.AuthService.Users.{clashes}
use pid_docs.AuthService.Users.Unique.{Unique}
use pid_docs.Account.Deletion as Deletion
use pid_docs.Account.Erasure as Erasure
use pid_docs.System.{on_world, delete_account, erase, Reach, start, next}
use pid_docs.System.Change.{deletes}
use pid_docs.System.Lifecycle.{status, Move}
use pid_docs.Prelude.Exec.{ok}
use pid_docs.AuthService.PasswordReset as PasswordReset
use pid_docs.Routers.{no_content}
use pid_docs.Routers.Auth.{password_reset_request}
use pid_docs.System.Answers.{Reach-password_reset_request}
use pid_docs.System.Accounts.{Reach-Unique, Step-Move, Reach-authenticate_request}
use pid_docs.Samples.{bob, world, decode, parse_uuid, str, hmac}

abbrev state : State Keys
state = record { world = world; counters = no_keys; calls = [] }

abbrev outside : Deletion.Outside
outside = record {
  now = 8000000;
  environment = "production";
  commits = true;
  signs_out = true;
  drops_flags = true;
  enqueues = true;
}

abbrev attempt : Erasure.Attempt
attempt = record { secret = "k"; commits_id = true; commits_purge = true }

abbrev removed : State Keys
removed = on_world (Deletion.initiate_account_deletion str outside 1) state

abbrev erased : State Keys
erased = on_world (Erasure.purge_user_pii hmac str attempt 1) removed

abbrev run : Reach memory parse_uuid str hmac state erased
run = next (next start (delete_account outside 1)) (erase attempt 1)

Reach-Unique_example : Unique erased.world.users
unfolding clashes
Reach-Unique_example = Reach-Unique memory parse_uuid str hmac (refl, (refl, tt)) run

Step-Move_example : Move (deletes 1) 1 (status 1 state.world.users) (status 1 removed.world.users)
Step-Move_example = Step-Move memory parse_uuid str hmac {s = state} 1 (delete_account outside 1)

abbrev bob_ident : Identity
bob_ident = record { id = 2; email = "bob@x.org"; role = "team_member"; team_id = some 7 }

Reach-authenticate_request_example :
    authenticate_request decode parse_uuid (some "Bearer good") erased.world.users ≢ some bob_ident
unfolding get
Reach-authenticate_request_example =
    Reach-authenticate_request memory parse_uuid str hmac decode (some "Bearer good") bob_ident bob
      4000000 refl refl run

abbrev reset_outside : PasswordReset.Outside
reset_outside = record {
  reads = true;
  link = failed;
  enqueues = true;
  reset = failed;
  signs_out = true;
  now = 8000000;
  commits = true;
  audit_id = 2;
  audits = true;
}

Reach-password_reset_request_example :
    (password_reset_request parse_uuid str reset_outside "no@x.org" erased).0 ≡ ok no_content
unfolding clashes
Reach-password_reset_request_example =
    Reach-password_reset_request memory parse_uuid str hmac reset_outside "no@x.org"
      (refl, (refl, tt)) run

Reach-RowsFit_example : RowsFit erased.world
unfolding fits is_given passes lookup
Reach-RowsFit_example =
    Reach-RowsFit memory parse_uuid str hmac
      (record { users = (refl, (refl, tt)); subscriptions = tt; consents = (refl, (refl, tt)) }) run
