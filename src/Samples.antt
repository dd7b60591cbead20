-- ===== src/Samples.antt =====
-- The concrete users, tables and parameters that the tests of the components share.
use pid_docs.Prelude.{
  ℕ, String, text_eq, true, false, Option, none, some, List, [], ◌∷◌, if◌then◌else◌,
}
use pid_docs.Db.{User, MlTrainingConsent, Drawing, ProcessingState}
use pid_docs.Auth.Permissions.{CurrentUser}
use pid_docs.Auth.Middleware.{Claims}
use pid_docs.Account.{World}

abbrev pub ann : User
ann = record {
  id = 1;
  email = "ann@x.org";
  display_name = "Ann";
  password_hash = some "<SUPABASE_MANAGED>";
  email_verified = true;
  team_id = some 7;
  role = "user";
  deleted_at = none;
  anonymous_id = none;
  token_invalidated_at = some 5000000;
}

abbrev pub bob : User
bob = record ann {
  id = 2;
  email = "bob@x.org";
  role = "team_member";
  password_hash = none;
  deleted_at = some 4000000;
}

abbrev pub users : List User
users = ann ∷ bob ∷ []

abbrev pub annotator : CurrentUser
annotator = record { id = 1; email = "ann@x.org"; role = "user"; team_id = some 7 }

abbrev pub claims : Claims
claims = record { sub = some "1"; iat = some 9; email = some "ann@x.org" }

abbrev pub decode : String → Option Claims
decode token = if text_eq token "good" then some claims else none

abbrev pub parse_uuid : String → Option ℕ
parse_uuid s = if text_eq s "1" then some 1 else if text_eq s "3" then some 3 else none

abbrev pub str : ℕ → String
str n = "id"

abbrev pub hmac : String → String → String
hmac secret message = "0123456789abcdef"

abbrev pub consents : List MlTrainingConsent
consents =
    record { id = 1; user_id = none; team_id = some 7; opted_in = true; updated_at = 0 }
    ∷ record { id = 2; user_id = some 1; team_id = none; opted_in = false; updated_at = 0 }
    ∷ []

abbrev pub world : World
world = record {
  users = users;
  subscriptions = [];
  audit_log =
      record { id = 1; user_id = some 1; action_type = "login_success"; occurred_at = 1 } ∷ [];
  consents = consents;
  signed_out = [];
  flags_dropped = [];
  sent = [];
}

abbrev pub drawing : Drawing
drawing = record {
  id = 3;
  owner_user_id = some 1;
  owner_team_id = none;
  processing_state = ProcessingState.complete;
}
