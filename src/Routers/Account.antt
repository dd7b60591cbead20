-- ===== src/Routers/Account.antt =====
-- The handlers of api/routers/account.py, behind `get_current_user`, on the tables of the account services.
pub mod Requests
use pid_docs.Prelude.{ℕ, String, Bool, true, false, Option, none, some, List, if◌then◌else◌}
use pid_docs.Prelude.Exec.{Result, ok, err, Exec}
use pid_docs.Db.{User, get_user, MlTrainingConsent}
use pid_docs.Account.{World, Error, database_error}
use pid_docs.Account.Deletion as Deletion
use pid_docs.Auth.Permissions.{CurrentUser}
use pid_docs.Auth.Middleware.{Claims}
use pid_docs.Auth.Dependencies.{Denied, get_current_user}
use pid_docs.Consent.{ConsentSource, resolve_consent_with_source, set_user_consent}
use pid_docs.Profile as Profile

-- What leaves a handler besides an answer: the refusal of the guard, an exception of a service, of the change
-- of a profile, or an `AttributeError` on a user that is not there.
pub data Problem : Type 0 where
  denied : Denied → Problem
  raised : Error → Problem
  profile_raised : Profile.Failure → Problem
  attribute_error : Problem

abbrev Handler : Type 0 → Type 0
Handler A = Exec World Problem A

module _ (decode : String → Option Claims) (parse_uuid : String → Option ℕ)
    (header : Option String) where
  -- `Depends(get_current_user)` before the body of a handler
  abbrev guarded : {A : Type 0} → (CurrentUser → Handler A) → Handler A
  guarded body w = elim (get_current_user decode parse_uuid header w.users) [
    | err d ↦ (err (denied d), w)
    | ok current ↦ body current w
  ]

  unfoldable pub get_account : Handler Profile.AccountProfileResponse
  get_account = guarded (λ current w. (
    elim (get_user current.id w.users) [
      | none ↦ err attribute_error
      | some user ↦ ok (Profile.profile user)
    ],
    w,
  ))

  unfoldable pub patch_account :
      Bool → Profile.PatchAccountRequest → Handler Profile.AccountProfileResponse
  patch_account commits p = guarded (λ current w.
      let (res, users) = Profile.patch_account commits current.id p w.users in
      (elim res [ ok a ↦ ok a | err e ↦ err (profile_raised e) ], record w { users = users }))

  unfoldable pub get_consent : Handler (Bool × ConsentSource)
  get_consent = guarded (λ current w. (
    elim (get_user current.id w.users) [
      | none ↦ err attribute_error
      | some user ↦ ok (resolve_consent_with_source user w.consents)
    ],
    w,
  ))

  unfoldable pub patch_consent : Bool → ℕ → ℕ → Bool → Handler (Bool × ConsentSource)
  patch_consent commits fresh now opted_in = guarded (λ current w.
      elim (get_user current.id w.users) [
        | none ↦ (err attribute_error, w)
        | some user ↦
            let consents = set_user_consent fresh now user.id opted_in w.consents in
            if commits
            then (ok (resolve_consent_with_source user consents), record w { consents = consents })
            else (err (raised database_error), w)
      ])

  -- the 204, or what `initiate_account_deletion` raises
  initiate : (ℕ → String) → Deletion.Outside → ℕ → Handler Unit
  initiate str out uid w =
      let (res, w') = Deletion.initiate_account_deletion str out uid w in
      (elim res [ ok _ ↦ ok tt | err e ↦ err (raised e) ], w')

  unfoldable pub delete_account : (ℕ → String) → Deletion.Outside → Handler Unit
  unfolding initiate
  delete_account str out = guarded (λ current w. elim (get_user current.id w.users) [
    | none ↦ initiate str out current.id w
    | some user ↦ elim user.deleted_at [
      | some t ↦ (ok tt, w)
      | none ↦ initiate str out current.id w
    ]
  ])
