-- ===== src/Auth/Middleware/Sound.antt =====
-- What an accepted request has shown (auth/middleware.py), and which ones are refused.
use pid_docs.Prelude.{
  ℕ, ◌*◌, ◌≤◌, String, ◌≡◌, ◌≢◌, false, Option, none, some, List, arith, Option-cases, inl, inr,
  refl, get_or,
}
use pid_docs.Prelude.Text.{is_empty}
use pid_docs.Db.{User, get_user}
use pid_docs.Auth.Middleware.{
  Claims, Identity, get_bearer_token, issued_before, admit, verify_token, with_sub,
  authenticate_request,
}

-- The row lets the identity in: the user exists, is not deleted, and the token is not older than the
-- last invalidation.
pub record Admits (users : List User) (iat : ℕ) (ident : Identity) : Type 0 where
  pub row : User
  pub found : get_user ident.id users ≡ some row
  pub live : row.deleted_at ≡ none
  pub fresh : issued_before iat row.token_invalidated_at ≡ false
  pub role : ident.role ≡ row.role
  pub team : ident.team_id ≡ row.team_id

module _ (decode : String → Option Claims) (parse_uuid : String → Option ℕ) where
  -- A request that was accepted carried a token that decodes to claims whose subject is the
  -- identity's id.
  pub record Accepted (header : Option String) (users : List User) (ident : Identity) : Type 0 where
    pub token : String
    pub claims : Claims
    pub iat : ℕ
    pub sub : String
    pub bearer : get_bearer_token header ≡ some token
    pub decoded : decode token ≡ some claims
    pub issued : claims.iat ≡ some iat
    pub subject : claims.sub ≡ some sub
    pub parsed : parse_uuid sub ≡ some ident.id
    pub admits : Admits users iat ident

admit_inv :
    (iat : ℕ) (claims : Claims) (uid : ℕ) (users : List User) (ident : Identity)
    → admit iat claims uid (get_user uid users) ≡ some ident
    → (ident.id ≡ uid) × Admits users iat ident
unfolding admit
admit_inv iat claims uid users ident h = elim (Option-cases (get_user uid users)) [
  | inl e ↦ absurd (ground arith)
  | inr (row, e) ↦ (
    ground arith,
    record {
      row = row;
      found = ground arith;
      live = ground arith;
      fresh = ground arith;
      role = ground arith;
      team = ground arith;
    },
  )
]

module _ (decode : String → Option Claims) (parse_uuid : String → Option ℕ) where
  with_sub_inv :
      (users : List User) (claims : Claims) (oi : Option ℕ) (os : Option String) (ident : Identity)
      → with_sub decode parse_uuid users claims oi os ≡ some ident
      → (iat : ℕ) × (sub : String) × (oi ≡ some iat)
        × (os ≡ some sub)
        × (parse_uuid sub ≡ some ident.id)
        × Admits users iat ident
  unfolding with_sub
  with_sub_inv users claims none os ident h = cc
  with_sub_inv users claims (some iat) none ident h = cc
  with_sub_inv users claims (some iat) (some sub) ident h = elim (Option-cases (parse_uuid sub)) [
    | inl e ↦ absurd (ground arith)
    | inr (uid, e) ↦
        let (same, adm) = admit_inv iat claims uid users ident (ground arith) in
        (iat, sub, refl, refl, ground arith, adm)
  ]

  -- A request is accepted only on a token that decodes and verifies, whose subject is the UUID of an
  -- existing user that is not deleted, and that was not issued before the user's last invalidation.
  pub authenticate_request-Accepted :
      (header : Option String) (users : List User) (ident : Identity)
      → authenticate_request decode parse_uuid header users ≡ some ident
      → Accepted decode parse_uuid header users ident
  unfolding authenticate_request
  authenticate_request-Accepted header users ident h =
      elim (Option-cases (get_bearer_token header)) [
        | inl e ↦ absurd (ground arith)
        | inr (token, e) ↦ elim (Option-cases (decode token)) [
          | inl d ↦ absurd (ground arith)
          | inr (claims, d) ↦
              let (iat, sub, ei, es, pu, adm) =
                with_sub_inv users claims claims.iat claims.sub ident (ground arith) in
              record {
                token = token;
                claims = claims;
                iat = iat;
                sub = sub;
                bearer = e;
                decoded = d;
                issued = ei;
                subject = es;
                parsed = pu;
                admits = adm;
              }
        ]
      ]

  -- No request is accepted as a user whose row carries a deletion time, whatever its token.
  pub authenticate_request_deleted :
      (header : Option String) (users : List User) (ident : Identity) (row : User) (t : ℕ)
      → get_user ident.id users ≡ some row
      → row.deleted_at ≡ some t
      → authenticate_request decode parse_uuid header users ≢ some ident
  authenticate_request_deleted header users ident row t found gone h =
      let a = (authenticate_request-Accepted header users ident h).admits in
      cc (found, gone, a.found, a.live)

  -- Rule #12: no request is accepted on a token that was issued, by its whole seconds, before the
  -- user's `token_invalidated_at`.
  pub authenticate_request_invalidated :
      (header : Option String) (users : List User) (ident : Identity) (row : User) (t : ℕ)
      → get_user ident.id users ≡ some row
      → row.token_invalidated_at ≡ some t
      → authenticate_request decode parse_uuid header users ≡ some ident
      → (a : Accepted decode parse_uuid header users ident) × (t ≤ a.iat * 1000000)
  unfolding issued_before
  authenticate_request_invalidated header users ident row t found inv h =
      let a = authenticate_request-Accepted header users ident h in
      let b = a.admits in (a, ground (arith, found, inv, b.found, b.fresh))

  -- A bearer token that verifies to an issue time and a non-empty subject, the UUID of a user that
  -- exists, is not deleted and was not invalidated since, is accepted with the role and the team of
  -- the user's row.
  pub authenticate_request_accepts :
      (header : Option String) (users : List User) (token : String) (claims : Claims) (iat : ℕ)
      (sub : String) (uid : ℕ) (row : User)
      → get_bearer_token header ≡ some token
      → verify_token decode parse_uuid token ≡ some claims
      → claims.iat ≡ some iat
      → claims.sub ≡ some sub
      → is_empty sub ≡ false
      → parse_uuid sub ≡ some uid
      → get_user uid users ≡ some row
      → row.deleted_at ≡ none
      → issued_before iat row.token_invalidated_at ≡ false
      → authenticate_request decode parse_uuid header users
        ≡ some (record {
          id = uid;
          email = get_or claims.email "";
          role = row.role;
          team_id = row.team_id;
        })
  unfolding authenticate_request admit
  authenticate_request_accepts header users token claims iat sub uid row a b c d e f g h i =
      ground arith
