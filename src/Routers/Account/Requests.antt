-- ===== src/Routers/Account/Requests.antt =====
-- Requests to api/routers/account.py, one after the other.
use pid_docs.Prelude.{
  ℕ, String, ◌≡◌, refl, sym, ap, ◌∙◌, inl, inr, true, Option, none, some, List, arith, Option-cases,
}
use pid_docs.Prelude.Exec.{ok, err}
use pid_docs.Db.{User, get_user}
use pid_docs.Account.{World}
use pid_docs.Account.Deletion as Deletion
use pid_docs.Account.Deletion.Laws.{initiate_account_deletion-commits}
use pid_docs.Auth.Permissions.{CurrentUser}
use pid_docs.Auth.Middleware.{Claims, Identity, authenticate_request}
use pid_docs.Auth.Middleware.Sound.{
  Accepted, authenticate_request-Accepted, authenticate_request_deleted,
}
use pid_docs.Auth.Dependencies.{unauthenticated, get_current_user, get_current_user-ok, as_user}
use pid_docs.Consent.{resolve_consent_with_source}
use pid_docs.Profile as Profile
use pid_docs.Routers.Account.{denied, get_account, get_consent, delete_account}

module _ (decode : String → Option Claims) (parse_uuid : String → Option ℕ) where
  -- Two accepted requests with the same header are of the same user.
  same_header :
      (header : Option String) (us vs : List User) (i j : Identity)
      → Accepted decode parse_uuid header us i
      → Accepted decode parse_uuid header vs j
      → i.id ≡ j.id
  same_header header us vs i j a b =
      let same_token : a.token ≡ b.token = cc (a.bearer, b.bearer) in
      let same_claims : a.claims ≡ b.claims = cc (same_token, a.decoded, b.decoded) in
      let same_sub : a.sub ≡ b.sub =
        cc (ap (λ (c : Claims). c.sub) same_claims, a.subject, b.subject) in
      cc (same_sub, a.parsed, b.parsed)

  -- A header that was accepted for a user is refused once the user's row is deleted.
  refused_after :
      (header : Option String) (us vs : List User) (i : Identity) (row : User) (t : ℕ)
      → Accepted decode parse_uuid header us i
      → get_user i.id vs ≡ some row
      → row.deleted_at ≡ some t
      → get_current_user decode parse_uuid header vs ≡ err unauthenticated
  unfolding get_current_user
  refused_after header us vs i row t a found gone =
      elim (Option-cases (authenticate_request decode parse_uuid header vs)) [
        | inl e ↦ ground arith
        | inr (j, e) ↦
            let same : i.id ≡ j.id =
              same_header header us vs i j a
                (authenticate_request-Accepted decode parse_uuid header vs j e) in
            absurd (
              authenticate_request_deleted decode parse_uuid header vs j row t
                (ap (λ (k : ℕ). get_user k vs) (sym same) ∙ found) gone e)
      ]

module _ (decode : String → Option Claims) (parse_uuid : String → Option ℕ) (header : Option String)
    (w : World) (current : CurrentUser) where
  -- The row of the user that the guard brings: it is there, and not deleted.
  guarded_row :
      get_current_user decode parse_uuid header w.users ≡ ok current
      → (i : Identity) × (row : User) × Accepted decode parse_uuid header w.users i
        × (current.id ≡ i.id)
        × (get_user current.id w.users ≡ some row)
        × (row.deleted_at ≡ none)
  unfolding as_user
  guarded_row h =
      let (i, accepted, shown, known) =
        get_current_user-ok decode parse_uuid header w.users current h in
      let a = authenticate_request-Accepted decode parse_uuid header w.users i accepted in
      let same : current.id ≡ i.id = ap (λ (c : CurrentUser). c.id) shown in
      (
        i,
        a.admits.row,
        a,
        same,
        ap (λ (k : ℕ). get_user k w.users) same ∙ a.admits.found,
        a.admits.live,
      )

  -- A request that passes the guard and asks for the profile or the consent gets those of the caller's row,
  -- which is there, and changes nothing.
  pub get_account-guarded :
      get_current_user decode parse_uuid header w.users ≡ ok current
      → (row : User) × (get_user current.id w.users ≡ some row)
        × (get_account decode parse_uuid header w ≡ (ok (Profile.profile row), w))
        × (get_consent decode parse_uuid header w
            ≡ (ok (resolve_consent_with_source row w.consents), w))
  unfolding get_account get_consent
  get_account-guarded h =
      let (i, row, a, same, found, live) = guarded_row h in (row, found, ground arith, ground arith)

  -- A deletion that passes the guard and whose commit succeeds is answered 204 (here `ok tt`), whatever
  -- Supabase, Redis and the broker do; then the same header is refused, so that a second deletion with it
  -- is answered 401 and changes nothing.
  pub delete_account_twice :
      (str : ℕ → String) (out out' : Deletion.Outside)
      → get_current_user decode parse_uuid header w.users ≡ ok current
      → out.commits ≡ true
      → let (answer, w') = delete_account decode parse_uuid header str out w in
        (answer ≡ ok tt)
        × (delete_account decode parse_uuid header str out' w' ≡ (err (denied unauthenticated), w'))
  unfolding delete_account
  delete_account_twice str out out' h c =
      let (i, row, a, same, found, live) = guarded_row h in
      let (returned, gone) =
        initiate_account_deletion-commits str out current.id w row found live c in
      let w' = (Deletion.initiate_account_deletion str out current.id w).1 in
      let found' : get_user i.id w'.users ≡ some (Deletion.deleted out.now row) =
        ap (λ (k : ℕ). get_user k w'.users) (sym same) ∙ gone in
      let refused =
        refused_after decode parse_uuid header w.users w'.users i (Deletion.deleted out.now row)
          out.now a found' refl in
      (ground arith, ground arith)
