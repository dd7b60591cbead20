-- ===== src/AuthService/Tests.antt =====
-- The flows of the auth service at concrete inputs.
use pid_docs.Prelude.{
  Option, String, ◌⊎◌, get_or, ◌*◌, ◌≤◌, true, false, none, some, [], ◌∷◌, ◌≡◌, refl,
}
use pid_docs.Prelude.Exec.{ok, err}
use pid_docs.Prelude.Text.{lower, partition, strip}
use pid_docs.Auth.Middleware.{Identity, authenticate_request, admit, get_bearer_token}
use pid_docs.Auth.Middleware.Sound.{Accepted}
use pid_docs.Auth.BruteForce.{is_locked_out, clear_failures}
use pid_docs.Db.{User}
use pid_docs.Db.Tables.{get, update}
use pid_docs.Redis.Memory.{memory, no_keys, Keys}
use pid_docs.AuthService.{
  integrity_error, replied, failed, Tokens, Body, session_tokens, user_public, AuthResponse, State,
  called, sign_up, write_audit,
}
use pid_docs.AuthService.Users.{is_active, find_active, clashes, active_user_by_email}
use pid_docs.AuthService.Login as Login
use pid_docs.AuthService.Login.Laws.{login_succeeds}
use pid_docs.AuthService.Register as Register
use pid_docs.AuthService.Register.Laws.{register_soft_deleted}
use pid_docs.AuthService.OAuth as OAuth
use pid_docs.AuthService.PasswordReset as PasswordReset
use pid_docs.AuthService.PasswordReset.Tokens.{confirm_reset-authenticate_request}
use pid_docs.AuthService.GoTrue.{
  Request, Http, Reads, verify_request, update_request, supabase_reset_password,
}
use pid_docs.AuthService.GoTrue.Reset.{Verifies, IsUnverified, supabase_reset_password-requests}
use pid_docs.Samples.{ann, bob, users, world, decode, parse_uuid, str}

abbrev tokens : Tokens
tokens = record { access_token = some "a"; refresh_token = some "r" }

abbrev body : Body
body = record { user_id = some "3"; session = some tokens; top = tokens }

abbrev state : State Keys
state = record { world = world; counters = no_keys; calls = [] }

abbrev login_outside : Login.Outside
login_outside = record {
  reply = replied body;
  seconds = 8;
  now = 8000000;
  audit_id = 2;
  audits = true;
}

abbrev logged_in : AuthResponse
logged_in = record { tokens = tokens; user = user_public ann }

abbrev registered : AuthResponse
registered = record {
  tokens = tokens;
  user = user_public (Register.password_user 3 "cy@x.org" "Cy");
}

login_succeeds_example :
    (is_locked_out memory "ann@x.org" 8 no_keys ≡ false)
    × ((b : Body) × (user : User) × (replied body ≡ replied b)
        × (find_active "ann@x.org" users ≡ ok (some user))
        × (logged_in ≡ record { tokens = session_tokens b; user = user_public user })
        × ((Login.login memory login_outside "ann@x.org" state).1.counters
            ≡ clear_failures memory "ann@x.org" no_keys))
unfolding Login.login is_locked_out active_user_by_email find_active is_active session_tokens
    user_public
login_succeeds_example = login_succeeds memory login_outside "ann@x.org" state logged_in refl

abbrev register_outside : Register.Outside
register_outside = record {
  reply = replied body;
  link = replied "url";
  subscription_id = 9;
  commits = true;
  enqueues = true;
}

register_soft_deleted_example :
    Register.register parse_uuid str register_outside "bob@x.org" "Bob" state
    ≡ (err integrity_error, called (sign_up "bob@x.org") state)
unfolding find_active is_active clashes
register_soft_deleted_example =
    register_soft_deleted parse_uuid str register_outside "bob@x.org" "Bob" state body 3 "3" bob
      (ann ∷ []) [] 4000000 (refl, (refl, tt)) refl refl refl refl refl refl

abbrev oauth_outside : OAuth.Outside
oauth_outside = record { subscription_id = 9; commits = true; now = 8; audit_id = 2; audits = true }

abbrev google_claims : OAuth.Claims
google_claims = record { email = some "ann@x.org"; sub = some "3"; meta_name = none }

abbrev reset_outside : PasswordReset.Outside
reset_outside = record {
  reads = true;
  link = failed;
  enqueues = true;
  reset = replied (some "1");
  signs_out = true;
  now = 8000000;
  commits = true;
  audit_id = 2;
  audits = true;
}

abbrev ident : Identity
ident = record { id = 1; email = "ann@x.org"; role = "user"; team_id = some 7 }

confirm_reset-authenticate_request_example :
    (a : Accepted decode parse_uuid
      (some "Bearer good")
      (PasswordReset.confirm_reset parse_uuid str reset_outside state).1.world.users
      ident)
    × (8000000 ≤ a.iat * 1000000)
unfolding PasswordReset.confirm_reset write_audit get update authenticate_request admit
    get_bearer_token lower partition strip
confirm_reset-authenticate_request_example =
    confirm_reset-authenticate_request decode parse_uuid str reset_outside state
      (some "Bearer good") "1" ident ann refl refl refl refl refl

abbrev reads : Reads String
reads = record {
  nothing = "";
  action_link = λ body. some body;
  access_token = λ body. some body;
  user = λ body. some body;
  of_user = λ u. u;
}

abbrev http : Request → Option (Http String)
http request = some (record { status_code = 200; has_content = true; json = some "a"; code = none })

supabase_reset_password-requests_example :
    let requests = (supabase_reset_password reads http "t" "new").1 in
    ((verified : String) × Verifies reads http (http (verify_request "t")) verified
      × (requests
          ≡ verify_request "t"
            ∷ update_request (get_or (reads.access_token verified) "") "new"
            ∷ []))
    ⊎ (IsUnverified reads http (http (verify_request "t")) × (requests ≡ verify_request "t" ∷ []))
supabase_reset_password-requests_example = supabase_reset_password-requests reads http "t" "new"
