-- ===== src/Auth/Middleware.antt =====
-- Resolving a request to an identity: the bearer token (auth/jwt_verifier.py) and the state of the
-- user's row (auth/middleware.py). Decoding and verifying a JSON Web Token is PyJWT's, and
-- reading a UUID is Python's: `decode` and `parse_uuid` are parameters.
pub mod Sound
use pid_docs.Prelude.{
  ℕ, ◌*◌, String, text_eq, Bool, true, false, Option, none, some, List, ltb, if◌then◌else◌, get_or,
}
use pid_docs.Prelude.Text.{is_empty, lower, strip, partition}
use pid_docs.Db.{User, get_user}

-- The decoded claims that the code reads; `sub` and `iat` may be missing.
pub record Claims : Type 0 where
  pub sub : Option String
  pub iat : Option ℕ
  pub email : Option String

-- `ResolvedIdentity`
pub record Identity : Type 0 where
  pub id : ℕ
  pub email : String
  pub role : String
  pub team_id : Option ℕ

unfoldable pub get_bearer_token : Option String → Option String
get_bearer_token none = none
get_bearer_token (some header) =
    let (scheme, token) = partition header in
    if is_empty header
    then none
    else if text_eq (lower scheme) "bearer"
    then (if is_empty (strip token) then none else some (strip token))
    else none

-- Rule #12, on `datetime.fromtimestamp(int(iat))` in microseconds
unfoldable pub issued_before : ℕ → Option ℕ → Bool
issued_before iat none = false
issued_before iat (some invalidated_at) = ltb (iat * 1000000) invalidated_at

-- the checks on the row that was found
unfoldable pub admit : ℕ → Claims → ℕ → Option User → Option Identity
unfolding issued_before
admit iat claims uid none = none
admit iat claims uid (some row) = elim row.deleted_at [
  | some _ ↦ none
  | none ↦
      if issued_before iat row.token_invalidated_at
      then none
      else some (record {
        id = uid;
        email = get_or claims.email "";
        role = row.role;
        team_id = row.team_id;
      })
]

module _ (decode : String → Option Claims) (parse_uuid : String → Option ℕ) where
  -- `none` is `TokenVerificationError`
  unfoldable pub verify_token : String → Option Claims
  verify_token token = if is_empty token then none else decode token

  pub with_sub : List User → Claims → Option ℕ → Option String → Option Identity
  with_sub users claims none sub = none
  with_sub users claims (some iat) none = none
  with_sub users claims (some iat) (some sub) =
      if is_empty sub then none else elim (parse_uuid sub) [
        | none ↦ none
        | some uid ↦ admit iat claims uid (get_user uid users)
      ]

  -- `authenticate_request`; `none` is the 401 that every failure raises
  unfoldable pub authenticate_request : Option String → List User → Option Identity
  unfolding verify_token with_sub
  authenticate_request header users = elim (get_bearer_token header) [
    | none ↦ none
    | some token ↦ elim (verify_token token) [
      | none ↦ none
      | some claims ↦ with_sub users claims claims.iat claims.sub
    ]
  ]
