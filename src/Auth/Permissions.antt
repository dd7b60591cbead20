-- ===== src/Auth/Permissions.antt =====
-- The role-permission matrix and its evaluation (auth/permissions.py), and the classification
-- of a user's relationship to a resource (auth/dependencies.py).
pub mod Access
pub mod Roles
use pid_docs.Prelude.{
  ℕ, String, text_eq, Bool, true, false, Option, none, some, List, [], ◌∷◌, ◌==◌, ◌&&◌, holds,
  if◌then◌else◌, get_or,
}

pub data Ownership : Type 0 where
  own team : Ownership

-- A value of the matrix: `True`, `False`, `"own"`, `"team"`.
pub data Permission : Type 0 where
  always never if_own if_team : Permission

module _ {ℓ} {V : Type ℓ} where
  -- `d.get(k)` of a Python dict literal
  unfoldable pub lookup : String → List (String × V) → Option V
  lookup k [] = none
  lookup k ((j, v) ∷ d) = if text_eq j k then some v else lookup k d

abbrev pub Row : Type 0
Row = List (String × Permission)

abbrev user_row : Row
user_row =
    ("drawing_upload", always)
    ∷ ("drawing_view", if_own)
    ∷ ("drawing_delete", if_own)
    ∷ ("drawing_retry", if_own)
    ∷ ("symbol_correct", if_own)
    ∷ ("export_initiate", if_own)
    ∷ ("team_manage", never)
    ∷ ("billing_manage", always)
    ∷ ("gdpr_delete_account", always)
    ∷ []

abbrev team_member_row : Row
team_member_row =
    ("drawing_upload", always)
    ∷ ("drawing_view", if_team)
    ∷ ("drawing_delete", never)
    ∷ ("drawing_retry", if_team)
    ∷ ("symbol_correct", if_team)
    ∷ ("export_initiate", if_team)
    ∷ ("team_manage", never)
    ∷ ("billing_manage", never)
    ∷ ("gdpr_delete_account", always)
    ∷ []

abbrev team_admin_row : Row
team_admin_row =
    ("drawing_upload", always)
    ∷ ("drawing_view", if_team)
    ∷ ("drawing_delete", if_team)
    ∷ ("drawing_retry", if_team)
    ∷ ("symbol_correct", if_team)
    ∷ ("export_initiate", if_team)
    ∷ ("team_manage", always)
    ∷ ("billing_manage", always)
    ∷ ("gdpr_delete_account", always)
    ∷ []

abbrev pub role_permissions : List (String × Row)
role_permissions =
    ("user", user_row) ∷ ("team_member", team_member_row) ∷ ("team_admin", team_admin_row) ∷ []

-- the `if` ladder of `check_permission`
pub grants : Permission → Option Ownership → Bool
grants always o = true
grants never o = false
grants if_own none = false
grants if_own (some own) = true
grants if_own (some team) = false
grants if_team none = false
grants if_team (some o) = true

unfoldable pub check_permission : String → String → Option Ownership → Bool
unfolding grants lookup
check_permission role action ownership =
    grants (get_or (lookup action (get_or (lookup role role_permissions) [])) never) ownership

-- auth/dependencies.py: the authenticated identity
pub record CurrentUser : Type 0 where
  pub id : ℕ
  pub email : String
  pub role : String
  pub team_id : Option ℕ

-- `a is not None and b is not None and a == b`
abbrev both_equal : Option ℕ → Option ℕ → Bool
both_equal none b = false
both_equal (some a) b = holds b a

unfoldable pub resolve_ownership : CurrentUser → Option ℕ → Option ℕ → Option Ownership
resolve_ownership user owner_user_id owner_team_id =
    if holds owner_user_id user.id
    then some own
    else if both_equal owner_team_id user.team_id
    then some team
    else none

-- the test of `require_permission` and of `assert_drawing_access`
unfoldable pub may : CurrentUser → String → Option ℕ → Option ℕ → Bool
may user action owner_user_id owner_team_id =
    check_permission user.role action (resolve_ownership user owner_user_id owner_team_id)
