-- ===== src/Auth/Dependencies.antt =====
-- The guards of the routes (auth/dependencies.py) and the ASGI middleware (auth/middleware.py). A role outside
-- `UserRole` is refused by pydantic.
use pid_docs.Prelude.{
  ℕ, String, text_eq, ◌≡◌, refl, inl, inr, Bool, true, false, ◌||◌, Option, none, some, List, [],
  ◌∷◌, arith, is_some, if◌then◌else◌, Option-cases, Bool-cases,
}
use pid_docs.Prelude.Exec.{Result, ok, err}
use pid_docs.Db.{User}
use pid_docs.Auth.Permissions.{CurrentUser}
use pid_docs.Auth.Middleware.{Claims, Identity, get_bearer_token, authenticate_request}
use pid_docs.Auth.Middleware.Sound.{Accepted, authenticate_request-Accepted}

-- Why a guard refuses: 401, 403, or a `ValidationError`
pub data Denied : Type 0 where
  unauthenticated forbidden validation_error : Denied

abbrev pub is_one_of : String → List String → Bool
is_one_of r [] = false
is_one_of r (s ∷ roles) = text_eq r s || is_one_of r roles

abbrev pub user_roles : List String
user_roles = "user" ∷ "team_member" ∷ "team_admin" ∷ []

unfoldable pub as_user : Identity → CurrentUser
as_user i = record { id = i.id; email = i.email; role = i.role; team_id = i.team_id }

as_user-role : (i : Identity) → (as_user i).role ≡ i.role
unfolding as_user
as_user-role i = refl

module _ (decode : String → Option Claims) (parse_uuid : String → Option ℕ) where
  unfoldable pub get_current_user : Option String → List User → Result Denied CurrentUser
  unfolding as_user
  get_current_user header users = elim (authenticate_request decode parse_uuid header users) [
    | none ↦ err unauthenticated
    | some i ↦ if is_one_of i.role user_roles then ok (as_user i) else err validation_error
  ]

  -- the guard of a route behind `get_current_user`
  allowed : List String → Result Denied CurrentUser → Result Denied CurrentUser
  allowed roles (err d) = err d
  allowed roles (ok user) = if is_one_of user.role roles then ok user else err forbidden

  pub require_role : List String → Option String → List User → Result Denied CurrentUser
  unfolding allowed
  require_role roles header users = allowed roles (get_current_user header users)

  -- what `AuthMiddleware.dispatch` leaves in `request.state.user`
  pub dispatch : Option String → List User → Option Identity
  dispatch header users =
      if is_some (get_bearer_token header)
      then authenticate_request decode parse_uuid header users
      else none

  -- The middleware attaches a user exactly where the guard of a route finds one, and the same.
  pub dispatch-eq-authenticate_request :
      (header : Option String) (users : List User)
      → dispatch header users ≡ authenticate_request decode parse_uuid header users
  unfolding dispatch authenticate_request
  dispatch-eq-authenticate_request header users = ground arith

  pub get_current_user-ok :
      (header : Option String) (users : List User) (user : CurrentUser)
      → get_current_user header users ≡ ok user
      → (i : Identity) × (authenticate_request decode parse_uuid header users ≡ some i)
        × (user ≡ as_user i)
        × (is_one_of i.role user_roles ≡ true)
  unfolding get_current_user
  get_current_user-ok header users user h =
      elim (Option-cases (authenticate_request decode parse_uuid header users)) [
        | inl e ↦ absurd (ground arith)
        | inr (i, e) ↦ elim (Bool-cases (is_one_of i.role user_roles)) [
          | inl k ↦ (i, e, ground arith, k)
          | inr k ↦ absurd (ground arith)
        ]
      ]

  allowed-ok :
      (roles : List String) (r : Result Denied CurrentUser) (user : CurrentUser)
      → allowed roles r ≡ ok user
      → (r ≡ ok user) × (is_one_of user.role roles ≡ true)
  unfolding allowed
  allowed-ok roles (err d) user h = absurd (ground arith)
  allowed-ok roles (ok u) user h = elim (Bool-cases (is_one_of u.role roles)) [
    | inl e ↦ (ground arith, ground arith)
    | inr e ↦ absurd (ground arith)
  ]

  -- A route for some roles lets a request pass only as the user of an accepted request whose role, which is
  -- that of the row in the database, is one of them.
  pub require_role-Accepted :
      (roles : List String) (header : Option String) (users : List User) (user : CurrentUser)
      → require_role roles header users ≡ ok user
      → (i : Identity) × Accepted decode parse_uuid header users i
        × (user ≡ as_user i)
        × (is_one_of i.role roles ≡ true)
  unfolding require_role
  require_role-Accepted roles header users user h =
      let (passed, among) = allowed-ok roles (get_current_user header users) user h in
      let (i, accepted, shown, known) = get_current_user-ok header users user passed in
      (
        i,
        authenticate_request-Accepted decode parse_uuid header users i accepted,
        shown,
        ground (arith, as_user-role i),
      )
