-- ===== src/Auth/Permissions/Access.antt =====
-- The whole decision of `require_permission` and `assert_drawing_access`: ownership and matrix.
use pid_docs.Prelude.{ℕ, String, ◌≡◌, ◌≢◌, ◌⊎◌, inl, inr, refl, true, Option, none, some, arith}
use pid_docs.Auth.Permissions.{
  CurrentUser, Ownership, own, resolve_ownership, check_permission, may,
}
use pid_docs.Auth.Permissions.Roles.{
  OnResource, view, delete, retry, correct, export, check_permission_stranger,
}

-- The user owns the resource, or belongs to the team that owns it.
abbrev pub Related : CurrentUser → Option ℕ → Option ℕ → Type 0
Related user owner_user_id owner_team_id =
    (owner_user_id ≡ some user.id) ⊎ ((t : ℕ) × (owner_team_id ≡ some t) × (user.team_id ≡ some t))

module _ (user : CurrentUser) (ou ot : Option ℕ) where
  Related-resolve_ownership : resolve_ownership user ou ot ≢ none → Related user ou ot
  unfolding resolve_ownership
  Related-resolve_ownership h = ground arith

  pub resolve_ownership-own : resolve_ownership user ou ot ≡ some own → ou ≡ some user.id
  unfolding resolve_ownership
  resolve_ownership-own h = ground arith

  -- An action on a resource is allowed only to its owner and to members of the team that owns it.
  pub Related-may :
      (action : String) → OnResource action → may user action ou ot ≡ true → Related user ou ot
  unfolding may
  Related-may action on h =
      Related-resolve_ownership (λ e. ground (arith, check_permission_stranger user.role action on))

-- With the plain role a user has to be the owner: a team gives no right to him.
plain_owns :
    (action : String) (o : Option Ownership)
    → OnResource action
    → check_permission "user" action o ≡ true
    → o ≡ some own
unfolding check_permission
plain_owns _ o view h = ground arith
plain_owns _ o delete h = ground arith
plain_owns _ o retry h = ground arith
plain_owns _ o correct h = ground arith
plain_owns _ o export h = ground arith

-- A user with the plain role is allowed an action on a resource only if he owns it himself: sharing
-- a team with it is not enough.
pub may_plain :
    (user : CurrentUser) (action : String) (ou ot : Option ℕ)
    → OnResource action
    → user.role ≡ "user"
    → may user action ou ot ≡ true
    → ou ≡ some user.id
unfolding may
may_plain user action ou ot on plain h =
    resolve_ownership-own user ou ot (plain_owns action _ on (ground arith))

own_rights :
    (role : String)
    → (role ≡ "user") ⊎ (role ≡ "team_member") ⊎ (role ≡ "team_admin")
    → (check_permission role "drawing_view" (some own) ≡ true)
      × (check_permission role "symbol_correct" (some own) ≡ true)
unfolding check_permission
own_rights role (inl e) = rw e (refl, refl)
own_rights role (inr (inl e)) = rw e (refl, refl)
own_rights role (inr (inr e)) = rw e (refl, refl)

owner_resolves :
    (user : CurrentUser) (ot : Option ℕ) → resolve_ownership user (some user.id) ot ≡ some own
unfolding resolve_ownership
owner_resolves user ot = ground arith

-- In each of the three roles the owner of a drawing may view it and correct its symbols.
pub may_owner :
    (user : CurrentUser) (ot : Option ℕ)
    → (user.role ≡ "user") ⊎ (user.role ≡ "team_member") ⊎ (user.role ≡ "team_admin")
    → (may user "drawing_view" (some user.id) ot ≡ true)
      × (may user "symbol_correct" (some user.id) ot ≡ true)
unfolding may
may_owner user ot role = rw owner_resolves (own_rights user.role role)
