-- ===== src/Routers/Tests.antt =====
-- The handlers at concrete inputs.
use pid_docs.Prelude.{ℕ, ◌≡◌, ◌↔◌, ◌⊎◌, true, false, none, some, [], ◌∷◌, ◌++◌, refl}
use pid_docs.Prelude.Exec.{ok, err}
use pid_docs.Redis.Memory.{memory, no_keys, Keys}
use pid_docs.Db.Tables.{get}
use pid_docs.Account.Deletion as Deletion
use pid_docs.Auth.Middleware.{authenticate_request, admit, get_bearer_token}
use pid_docs.Auth.Dependencies.{unauthenticated, get_current_user}
use pid_docs.Prelude.Text.{lower, partition, strip}
use pid_docs.AuthService.{State, replied, refused, Tokens}
use pid_docs.AuthService.Login as Login
use pid_docs.AuthService.Register as Register
use pid_docs.Routers.Auth as Auth
use pid_docs.Routers.Auth.Statuses.{is_created, register_201}
use pid_docs.Routers.Auth.Privacy.{login_private}
use pid_docs.Routers.Account.{denied, delete_account}
use pid_docs.Routers.Account.Requests.{delete_account_twice}
use pid_docs.Routers.Email.{codes, valid_email}
use pid_docs.Routers.Email.Shape.{IsEmail, valid_email_iff}
use pid_docs.Routers.Table as Table
use pid_docs.Routers.Table.{real, route, lit}
use pid_docs.Routers.Table.Shadowing.{is_built_stub, resolve-is_built_stub}
use pid_docs.Samples.{world, decode, parse_uuid, str, annotator}

valid_email_cases :
    (valid_email "ann@x.org" ≡ true)
    × (valid_email "ann@x.org\n" ≡ true)
    × (valid_email "ann@.org" ≡ false)
    × (valid_email "ann@.o.g" ≡ true)
    × (valid_email "ann@x" ≡ false)
    × (valid_email "@x.org" ≡ false)
    × (valid_email "a b@x.org" ≡ false)
    × (valid_email "a@b@x.org" ≡ false)
unfolding valid_email
valid_email_cases = (refl, refl, refl, refl, refl, refl, refl, refl)

valid_email_iff_example : (valid_email "ann@x.org\n" ≡ true) ↔ IsEmail (codes "ann@x.org\n")
valid_email_iff_example = valid_email_iff "ann@x.org\n"

abbrev state : State Keys
state = record { world = world; counters = no_keys; calls = [] }

abbrev empty_state : State Keys
empty_state = record state { world = record world { users = [] } }

abbrev tokens : Tokens
tokens = record { access_token = some "a"; refresh_token = some "r" }

abbrev register_outside : Register.Outside
register_outside = record {
  reply = replied (record { user_id = some "3"; session = some tokens; top = tokens });
  link = replied "url";
  subscription_id = 9;
  commits = true;
  enqueues = true;
}

register_201_example :
    ((is_created (Auth.register parse_uuid str register_outside "cy@x.org" "Cy" state).0 ≡ true)
      × (valid_email "cy@x.org" ≡ true)
      × ((id : ℕ) × ((Auth.register parse_uuid str register_outside "cy@x.org" "Cy"
              state).1.world.users
            ≡ world.users ++ Register.password_user id "cy@x.org" "Cy" ∷ [])))
    ⊎ ((is_created (Auth.register parse_uuid str register_outside "cy@x.org" "Cy" state).0 ≡ false)
        × ((Auth.register parse_uuid str register_outside "cy@x.org" "Cy" state).1.world ≡ world))
register_201_example = register_201 parse_uuid str register_outside "cy@x.org" "Cy" state

abbrev refusing : Login.Outside
refusing = record {
  reply = refused (some 400) none;
  seconds = 8;
  now = 8000000;
  audit_id = 2;
  audits = true;
}

login_private_example :
    (Auth.login memory refusing "ann@x.org" state).0
    ≡ (Auth.login memory refusing "ann@x.org" empty_state).0
login_private_example =
    login_private memory refusing "ann@x.org" state empty_state (some 400) none refl refl

abbrev removal : Deletion.Outside
removal = record {
  now = 8000000;
  environment = "production";
  commits = true;
  signs_out = false;
  drops_flags = false;
  enqueues = false;
}

delete_account_twice_example :
    ((delete_account decode parse_uuid (some "Bearer good") str removal world).0 ≡ ok tt)
    × (delete_account decode parse_uuid
          (some "Bearer good")
          str
          removal
          (delete_account decode parse_uuid (some "Bearer good") str removal world).1
        ≡ (
          err (denied unauthenticated),
          (delete_account decode parse_uuid (some "Bearer good") str removal world).1,
        ))
unfolding get_current_user authenticate_request admit get_bearer_token lower partition strip get
delete_account_twice_example =
    delete_account_twice decode parse_uuid (some "Bearer good") world annotator str removal removal
      refl refl

abbrev login_request : Table.Request
login_request = record { method = "POST"; segments = "auth" ∷ "login" ∷ [] }

resolve-is_built_stub_example : is_built_stub (real "login") ≡ false
unfolding Table.resolve
resolve-is_built_stub_example =
    resolve-is_built_stub login_request
      (route "POST" (lit "auth" ∷ lit "login" ∷ []) (real "login")) refl
