-- ===== src/System/Effects.antt =====
-- What each operation of System.antt does to the table of users: changes as in System/Change.antt.
use pid_docs.Prelude.{
  ℕ, String, Bool, false, Option, none, some, List, [], ◌∷◌, ◌++◌, ◌≡◌, ◌⊎◌, refl, inl, inr, arith,
  Option-cases, Bool-cases, get_or,
}
use pid_docs.Prelude.Exec.{Result-cases}
use pid_docs.Db.{User, get_user}
use pid_docs.Db.Tables.{key-get}
use pid_docs.Account.Erasure as Erasure
use pid_docs.AuthService.{State, Tokens, write_audit}
use pid_docs.AuthService.Users.{active_user_by_email, insert_user, clashes, find_active}
use pid_docs.AuthService.Register as Register
use pid_docs.AuthService.Register.Laws.{register_succeeds, register_fails}
use pid_docs.AuthService.OAuth as OAuth
use pid_docs.AuthService.PasswordReset as PasswordReset
use pid_docs.AuthService.PasswordReset.Laws.{confirm_reset_rewrites}
use pid_docs.AuthService.OAuth.Laws.{oauth_google_fails}
use pid_docs.Profile as Profile
use pid_docs.System.Change.{edits, creates, add, rewrite, Changes, unchanged, changed, Address}

module _ {Store : Type 0} (s : State Store) where
  abbrev us : List User
  us = s.world.users

  pub register-Changes :
      (parse_uuid : String → Option ℕ) (str : ℕ → String) (out : Register.Outside)
      (email display_name : String)
      → Changes creates us (Register.register parse_uuid str out email display_name s).1.world.users
  register-Changes parse_uuid str out email display_name =
      elim (Result-cases (Register.register parse_uuid str out email display_name s).0) [
        | inl (e, h) ↦
            rw (register_fails parse_uuid str out email display_name s e h) (unchanged refl)
        | inr (res, h) ↦
            let (id, body, rep, shown, free, users, subs) =
              register_succeeds parse_uuid str out email display_name s res h in
            changed users (add (Register.password_user id email display_name) refl free refl refl)
      ]

  -- A login by Google leaves the users alone or adds one whose id and address were free.
  oauth_google_adds :
      (parse_uuid : String → Option ℕ) (out : OAuth.Outside) (tokens : Tokens)
      (verified : Option OAuth.Claims)
      → let vs = (OAuth.oauth_google parse_uuid out tokens verified s).1.world.users in
        (vs ≡ us)
        ⊎ ((id : ℕ) × (email : String) × (name : String) × (vs
              ≡ us ++ OAuth.google_user id email name ∷ [])
            × (clashes (OAuth.google_user id email name) us ≡ false))
  unfolding OAuth.oauth_google active_user_by_email insert_user write_audit
  oauth_google_adds parse_uuid out tokens none = inl refl
  oauth_google_adds parse_uuid out tokens (some claims) =
      let email = get_or claims.email "" in
      let sub = get_or claims.sub "" in
      elim (Result-cases (OAuth.oauth_google parse_uuid out tokens (some claims) s).0) [
        | inl (e, h) ↦ inl (rw (oauth_google_fails parse_uuid out tokens (some claims) s e h))
        | inr (a, h) ↦ elim (Result-cases (find_active email us)) [
          | inl (e, f) ↦ absurd (ground arith)
          | inr (found, f) ↦ elim (Option-cases found) [
            | inr (u, g) ↦ inl (ground arith)
            | inl g ↦ elim (Option-cases (parse_uuid sub)) [
              | inl n ↦ absurd (ground arith)
              | inr (id, p) ↦
                  inr (id, email, OAuth.oauth_display_name claims email, ground arith, ground arith)
            ]
          ]
        ]
      ]

  -- The new row of a login by Google is an active one.
  pub oauth_google-Changes :
      (parse_uuid : String → Option ℕ) (out : OAuth.Outside) (tokens : Tokens)
      (verified : Option OAuth.Claims)
      → Changes creates us (OAuth.oauth_google parse_uuid out tokens verified s).1.world.users
  oauth_google-Changes parse_uuid out tokens verified =
      elim (oauth_google_adds parse_uuid out tokens verified) [
        | inl e ↦ unchanged e
        | inr (id, email, name, e, free) ↦
            changed e (add (OAuth.google_user id email name) refl free refl refl)
      ]

  pub confirm_reset-Changes :
      (parse_uuid : String → Option ℕ) (str : ℕ → String) (out : PasswordReset.Outside)
      → Changes edits us (PasswordReset.confirm_reset parse_uuid str out s).1.world.users
  confirm_reset-Changes parse_uuid str out = elim (confirm_reset_rewrites parse_uuid str out s) [
    | inl e ↦ unchanged e
    | inr (uid, e) ↦ changed e (
        rewrite uid (PasswordReset.invalidated out.now) (λ u. refl) (λ u. refl) (λ u. refl)
          (inl (λ u. refl)))
  ]

held_by_other-eq-email_taken :
    (new : User) (us : List User)
    → Profile.held_by_other new us ≡ Erasure.email_taken new.id new.email us
unfolding Profile.held_by_other Erasure.email_taken
held_by_other-eq-email_taken new [] = refl
held_by_other-eq-email_taken new (u ∷ us) = ground (arith, held_by_other-eq-email_taken new us)

new-Address :
    (uid : ℕ) (p : Profile.PatchAccountRequest) (u : User) (us : List User)
    → u.id ≡ uid
    → Profile.held_by_other (Profile.apply_profile_update p u) us ≡ false
    → Address uid (Profile.apply_profile_update p) us
unfolding Profile.apply_profile_update
new-Address uid p u us e h = elim (Option-cases p.email) [
  | inl n ↦ inl (λ v. ground arith)
  | inr (email, n) ↦ inr (
    email,
    λ v. ground arith,
    ground (arith, held_by_other-eq-email_taken (Profile.apply_profile_update p u) us),
  )
]

update_keeps :
    (p : Profile.PatchAccountRequest) (u : User)
    → let u' = Profile.apply_profile_update p u in
      (u'.id ≡ u.id) × (u'.deleted_at ≡ u.deleted_at) × (u'.role ≡ u.role)
unfolding Profile.apply_profile_update
update_keeps p u = elim (Option-cases p.email) [
  | inl n ↦ ground arith
  | inr (email, n) ↦ ground arith
]

pub patch_account-Changes :
    (commits : Bool) (uid : ℕ) (p : Profile.PatchAccountRequest) (us : List User)
    → Changes edits us (Profile.patch_account commits uid p us).1
unfolding Profile.patch_account
patch_account-Changes commits uid p us = elim (Option-cases (get_user uid us)) [
  | inl e ↦ unchanged (ground arith)
  | inr (u, e) ↦ elim (Bool-cases (Profile.held_by_other (Profile.apply_profile_update p u) us)) [
    | inl t ↦ unchanged (ground arith)
    | inr t ↦ elim (Bool-cases commits) [
      | inr c ↦ unchanged (ground arith)
      | inl c ↦ changed (ground arith) (
          rewrite uid (Profile.apply_profile_update p) (λ v. (update_keeps p v).0)
            (λ v. (update_keeps p v).1) (λ v. (update_keeps p v).2)
            (new-Address uid p u us (key-get (λ (v : User). v.id) uid us u e) t))
    ]
  ]
]
