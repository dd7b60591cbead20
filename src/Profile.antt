-- ===== src/Profile.antt =====
-- The change of a profile (services/account_service.py and `patch_account` of api/routers/account.py). A
-- field that the request leaves out and one that it sets to null are both none.
pub mod Laws
use pid_docs.Prelude.{
  ℕ, String, text_eq, Bool, true, false, not, ◌&&◌, ◌||◌, Option, none, some, List, [], ◌∷◌, ◌==◌,
  if◌then◌else◌, get_or,
}
use pid_docs.Prelude.Exec.{Result, ok, err}
use pid_docs.Db.{User, get_user, update_user}

pub record PatchAccountRequest : Type 0 where
  pub display_name : Option String
  pub email : Option String

pub record AccountProfileResponse : Type 0 where
  pub id : ℕ
  pub email : String
  pub display_name : String
  pub email_verified : Bool
  pub role : String
  pub team_id : Option ℕ

pub data Failure : Type 0 where
  attribute_error integrity_error database_error : Failure

with_email : Option String → User → User
with_email none u = u
with_email (some e) u = record u { email = e; email_verified = false }

unfoldable pub apply_profile_update : PatchAccountRequest → User → User
unfolding with_email
apply_profile_update p u =
    with_email p.email (record u { display_name = get_or p.display_name u.display_name })

pub profile : User → AccountProfileResponse
profile u = record {
  id = u.id;
  email = u.email;
  display_name = u.display_name;
  email_verified = u.email_verified;
  role = u.role;
  team_id = u.team_id;
}

-- `user_email_unique`: does another row have the address?
unfoldable pub held_by_other : User → List User → Bool
held_by_other new [] = false
held_by_other new (u ∷ us) =
    (not (u.id == new.id) && text_eq u.email new.email) || held_by_other new us

unfoldable pub patch_account :
    Bool → ℕ → PatchAccountRequest → List User → Result Failure AccountProfileResponse × List User
unfolding apply_profile_update profile held_by_other
patch_account commits uid p users = elim (get_user uid users) [
  | none ↦ (err attribute_error, users)
  | some user ↦
      let user' = apply_profile_update p user in
      if held_by_other user' users
      then (err integrity_error, users)
      else if commits
      then (ok (profile user'), update_user uid (apply_profile_update p) users)
      else (err database_error, users)
]
