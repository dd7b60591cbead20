-- ===== src/System/Accounts.antt =====
-- What holds of the accounts in every state that a run of the operations of System.antt reaches.
use pid_docs.Prelude.{ℕ, String, Option, some, ◌≡◌, ◌≢◌}
use pid_docs.Db.{User, get_user}
use pid_docs.Redis.{Redis}
use pid_docs.Auth.Middleware as Middleware
use pid_docs.Auth.Middleware.Sound.{authenticate_request_deleted}
use pid_docs.AuthService.Users.Unique.{Unique}
use pid_docs.AuthService.Login.Laws.{login-users}
use pid_docs.AuthService.Session.{logout-users, refresh-users}
use pid_docs.AuthService.PasswordReset.Laws.{request_reset-users}
use pid_docs.Account.Erasure.Scan.{scan-users}
use pid_docs.System.{
  Database, Step, register, login, oauth_google, refresh, logout, request_reset, confirm_reset,
  delete_account, erase, scan, patch_account, patch_consent, Reach, start, next,
}
use pid_docs.System.Change.{
  Right, edits, creates, deletes, Changes, same, unchanged, Changes-Unique,
}
use pid_docs.System.Lifecycle.{
  status, Move, Life, born, moved, Changes-Move, Life-gone, gone_status, status_gone,
}
use pid_docs.System.Effects.{
  register-Changes, oauth_google-Changes, confirm_reset-Changes, patch_account-Changes,
}
use pid_docs.System.Removal.{delete_account-Changes, erase-Changes}

module _ (r : Redis) (parse_uuid : String → Option ℕ) (str : ℕ → String)
    (hmac : String → String → String) where
  -- What an operation is entitled to do to the table of users.
  abbrev pub right : {s t : Database r parse_uuid str hmac} → Step r parse_uuid str hmac s t → Right
  right (register out email display_name) = creates
  right (oauth_google out tokens verified) = creates
  right (delete_account out uid) = deletes uid
  right st = edits

  pub Step-Changes :
      {s t : Database r parse_uuid str hmac} (st : Step r parse_uuid str hmac s t)
      → Changes (right st) s.world.users t.world.users
  Step-Changes {s} (register out email display_name) =
      register-Changes s parse_uuid str out email display_name
  Step-Changes {s} (login out email) = unchanged (login-users r out email s)
  Step-Changes {s} (oauth_google out tokens verified) =
      oauth_google-Changes s parse_uuid out tokens verified
  Step-Changes {s} (refresh reply) = unchanged (refresh-users reply s)
  Step-Changes {s} (logout reply audits audit_id now uid) =
      unchanged (logout-users reply audits audit_id now uid s)
  Step-Changes {s} (request_reset out email) =
      unchanged (request_reset-users parse_uuid str out email s)
  Step-Changes {s} (confirm_reset out) = confirm_reset-Changes s parse_uuid str out
  Step-Changes {s} (delete_account out uid) = delete_account-Changes s.world str out uid
  Step-Changes {s} (erase at uid) = erase-Changes hmac str at uid s.world
  Step-Changes {s} (scan accepts now) = unchanged (scan-users str accepts now s.world)
  Step-Changes {s} (patch_account commits uid p) = patch_account-Changes commits uid p s.world.users
  Step-Changes {s} (patch_consent fresh now uid opted_in) = same

  -- Whatever operations run, in whatever order and whatever fails, no two users, deleted ones included,
  -- ever share an id or an address, if they did not at the start.
  pub Reach-Unique :
      {s t : Database r parse_uuid str hmac}
      → Unique s.world.users
      → Reach r parse_uuid str hmac s t
      → Unique t.world.users
  Reach-Unique u start = u
  Reach-Unique u (next run st) = Changes-Unique (Step-Changes st) (Reach-Unique u run)

  -- Every operation, whatever fails on the way, moves each account by at most one step of its abstract life
  -- (absent, live, deleted): it is created only by a registration or a login by Google, and deleted only
  -- by a deletion request of this very user.
  pub Step-Move :
      {s t : Database r parse_uuid str hmac} (uid : ℕ) (st : Step r parse_uuid str hmac s t)
      → Move (right st) uid (status uid s.world.users) (status uid t.world.users)
  Step-Move uid st = Changes-Move uid (Step-Changes st)

  Reach-Life :
      {s t : Database r parse_uuid str hmac} (uid : ℕ)
      → Reach r parse_uuid str hmac s t
      → Life uid (status uid s.world.users) (status uid t.world.users)
  Reach-Life uid start = born
  Reach-Life uid (next run st) = moved (Reach-Life uid run) (Step-Move uid st)

  -- After a user is deleted no request is ever accepted as this user again, whatever operations run in
  -- whatever order and whatever header comes, also after the erasure of the personal data.
  pub Reach-authenticate_request :
      (decode : String → Option Middleware.Claims) (header : Option String)
      {s t : Database r parse_uuid str hmac} (ident : Middleware.Identity) (row : User) (at : ℕ)
      → get_user ident.id s.world.users ≡ some row
      → row.deleted_at ≡ some at
      → Reach r parse_uuid str hmac s t
      → Middleware.authenticate_request decode parse_uuid header t.world.users ≢ some ident
  Reach-authenticate_request decode header {s} {t} ident row at found gone run =
      let (row', at', found', gone') = status_gone ident.id t.world.users (
        Life-gone (Reach-Life ident.id run)
          (gone_status ident.id s.world.users row at found gone)) in
      authenticate_request_deleted decode parse_uuid header t.world.users ident row' at' found'
        gone'
