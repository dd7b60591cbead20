-- ===== src/Auth/Tests.antt =====
-- Requests, permissions and lockouts at concrete inputs.
use pid_docs.Prelude.{String, true, Option, none, some, [], ◌∷◌, ◌≡◌, refl, arith}
use pid_docs.Prelude.Text.{lower, partition, strip}
use pid_docs.Auth.Permissions.{check_permission, may, resolve_ownership, lookup}
use pid_docs.Auth.Permissions.Roles.{correct}
use pid_docs.Auth.Permissions.Access.{Related, Related-may}
use pid_docs.Auth.Middleware.{Identity, admit, authenticate_request, get_bearer_token}
use pid_docs.Auth.Middleware.Sound.{Accepted, authenticate_request-Accepted}
use pid_docs.Auth.BruteForce.{lockout_key, is_locked_out, lockout_ttl}
use pid_docs.Auth.BruteForce.Window.{fail_at, is_locked_out_window, is_locked_out_forever}
use pid_docs.Db.Tables.{get}
use pid_docs.Redis.Memory.{memory, no_keys}
use pid_docs.Samples.{users, annotator, decode, parse_uuid}

abbrev ident : Identity
ident = record { id = 1; email = "ann@x.org"; role = "user"; team_id = some 7 }

abbrev header : Option String
header = some "Bearer good"

accepted : authenticate_request decode parse_uuid header users ≡ some ident
unfolding authenticate_request admit get get_bearer_token lower partition strip
accepted = refl

authenticate_request-Accepted_example : Accepted decode parse_uuid header users ident
authenticate_request-Accepted_example =
    authenticate_request-Accepted decode parse_uuid header users ident accepted

Related-may_example : Related annotator (some 1) none
unfolding may check_permission resolve_ownership lookup
Related-may_example = Related-may annotator (some 1) none "symbol_correct" correct refl

is_locked_out_window_example :
    let s = fail_at memory "Ann@x.org" (10 ∷ 20 ∷ 30 ∷ 40 ∷ 50 ∷ []) no_keys in
    (is_locked_out memory "Ann@x.org" 100 s ≡ true) × (lockout_ttl memory "Ann@x.org" 100 s ≡ 810)
is_locked_out_window_example =
    is_locked_out_window memory "Ann@x.org" 10 100 (20 ∷ 30 ∷ 40 ∷ 50 ∷ []) no_keys refl
      (ground arith) (ground arith) (ground arith)

is_locked_out_forever_example :
    let s =
      fail_at memory "a" (20 ∷ 30 ∷ 40 ∷ 50 ∷ []) (memory.incr 10 (lockout_key "a") no_keys) in
    (is_locked_out memory "a" 1000000 s ≡ true) × (lockout_ttl memory "a" 1000000 s ≡ 0)
is_locked_out_forever_example =
    is_locked_out_forever memory "a" 10 1000000 (20 ∷ 30 ∷ 40 ∷ 50 ∷ []) no_keys refl (ground arith)
      (ground arith) (ground arith)
