-- ===== src/Auth/Permissions/Roles.antt =====
-- What the matrix of auth/permissions.py grants to each role.
use pid_docs.Prelude.{String, eq_iff, ◌≡◌, ◌≢◌, true, false, Option, none, some, arith}
use pid_docs.Auth.Permissions.{Ownership, own, team, Permission, grants, check_permission}

-- The actions on a drawing, an export or a symbol.
pub data OnResource : String → Type 0 where
  view : OnResource "drawing_view"
  delete : OnResource "drawing_delete"
  retry : OnResource "drawing_retry"
  correct : OnResource "symbol_correct"
  export : OnResource "export_initiate"

-- Whatever the role, known or not, somebody with no relationship to a resource may do none of the
-- five actions on it.
pub check_permission_stranger :
    (role action : String) → OnResource action → check_permission role action none ≡ false
unfolding check_permission
check_permission_stranger role _ view = ground arith
check_permission_stranger role _ delete = ground arith
check_permission_stranger role _ retry = ground arith
check_permission_stranger role _ correct = ground arith
check_permission_stranger role _ export = ground arith

grants_mono :
    (p : Permission)
    → (grants p none ≡ true → grants p (some team) ≡ true)
      × (grants p (some team) ≡ true → grants p (some own) ≡ true)
unfolding grants
grants_mono p = ground arith

-- A closer relationship never loses a right: what a stranger may do a team mate may do, and what a
-- team mate may do the owner may do, for every role and action.
pub check_permission_mono :
    (role action : String)
    → (check_permission role action none ≡ true → check_permission role action (some team) ≡ true)
      × (check_permission role action (some team) ≡ true
          → check_permission role action (some own) ≡ true)
unfolding check_permission
check_permission_mono role action = grants_mono _

-- An administrator of a team may do whatever a member may do, in the same relationship.
pub check_permission_admin :
    (action : String) (o : Option Ownership)
    → check_permission "team_member" action o ≡ true
    → check_permission "team_admin" action o ≡ true
unfolding check_permission
check_permission_admin action o h = ground arith

-- A role that is none of the three of the matrix may do nothing at all.
pub check_permission_unknown :
    (role action : String) (o : Option Ownership)
    → role ≢ "user"
    → role ≢ "team_member"
    → role ≢ "team_admin"
    → check_permission role action o ≡ false
unfolding check_permission
check_permission_unknown role action o a b c =
    ground (arith, eq_iff "user" role, eq_iff "team_member" role, eq_iff "team_admin" role)
