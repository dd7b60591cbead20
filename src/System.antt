-- ===== src/System.antt =====
-- The account operations of backend/app/services and backend/app/workers/gdpr as the steps of one system: a
-- run is any sequence of them, in any order, whatever succeeds or fails outside.
pub mod Change
pub mod Effects
pub mod Removal
pub mod Lifecycle
pub mod Accounts
pub mod Answers
pub mod Constraints
pub mod Tables
pub mod Fit
mod Tests
use pid_docs.Prelude.{ℕ, String, Bool, Option, List}
use pid_docs.Prelude.Exec.{Result, Exec}
use pid_docs.Redis.{Redis}
use pid_docs.Account.{World, Error}
use pid_docs.Account.Deletion as Deletion
use pid_docs.Account.Erasure as Erasure
use pid_docs.AuthService.{State, Reply, Body, Tokens}
use pid_docs.AuthService.Login as Login
use pid_docs.AuthService.Register as Register
use pid_docs.AuthService.OAuth as OAuth
use pid_docs.AuthService.Session as Session
use pid_docs.AuthService.PasswordReset as PasswordReset
use pid_docs.Consent.{set_user_consent}
use pid_docs.Profile as Profile

module _ {Store : Type 0} where
  -- an operation of the account services or workers, on the world in the state
  abbrev pub on_world : Exec World Error Unit → State Store → State Store
  on_world m s = record s { world = (m s.world).1 }

module _ (r : Redis) (parse_uuid : String → Option ℕ) (str : ℕ → String)
    (hmac : String → String → String) where
  abbrev pub Database : Type 0
  Database = State (Redis.Store r)

  -- One operation, run to its end, with whatever happens outside.
  pub data Step (s : Database) : Database → Type 0 where
    register :
        (out : Register.Outside) (email display_name : String)
        → Step s (Register.register parse_uuid str out email display_name s).1
    login : (out : Login.Outside) (email : String) → Step s (Login.login r out email s).1
    oauth_google :
        (out : OAuth.Outside) (tokens : Tokens) (verified : Option OAuth.Claims)
        → Step s (OAuth.oauth_google parse_uuid out tokens verified s).1
    refresh : (reply : Reply Body) → Step s (Session.refresh reply s).1
    logout :
        (reply : Reply (Unit {0})) (audits : Bool) (audit_id now uid : ℕ)
        → Step s (Session.logout reply audits audit_id now uid s).1
    request_reset :
        (out : PasswordReset.Outside) (email : String)
        → Step s (PasswordReset.request_reset parse_uuid str out email s).1
    confirm_reset :
        (out : PasswordReset.Outside) → Step s (PasswordReset.confirm_reset parse_uuid str out s).1
    delete_account :
        (out : Deletion.Outside) (uid : ℕ)
        → Step s (on_world (Deletion.initiate_account_deletion str out uid) s)
    erase :
        (at : Erasure.Attempt) (uid : ℕ)
        → Step s (on_world (Erasure.purge_user_pii hmac str at uid) s)
    scan :
        (accepts : ℕ → Bool) (now : ℕ)
        → Step s (on_world (Erasure.scan_and_dispatch_erasure_jobs str accepts now) s)
    patch_account :
        (commits : Bool) (uid : ℕ) (p : Profile.PatchAccountRequest)
        → Step s (record s {
          world = record s.world { users = (Profile.patch_account commits uid p s.world.users).1 };
        })
    patch_consent :
        (fresh now uid : ℕ) (opted_in : Bool)
        → Step s (record s {
          world = record s.world {
            consents = set_user_consent fresh now uid opted_in s.world.consents;
          };
        })

  pub data Reach (s : Database) : Database → Type 0 where
    start : Reach s s
    next : {t u : Database} → Reach s t → Step t u → Reach s u
