-- ===== src/Profile/Laws.antt =====
-- The change of a profile (services/account_service.py, api/routers/account.py).
use pid_docs.Prelude.{
  ℕ, String, Bool, false, Option, none, some, List, ◌≡◌, ◌≢◌, ◌⊎◌, inl, inr, refl, ap, get_or,
  Option-cases, Bool-cases, arith,
}
use pid_docs.Prelude.Exec.{ok, err}
use pid_docs.Db.{User, get_user}
use pid_docs.Db.Tables.{get-update_self, get-update_ne}
use pid_docs.Profile.{
  PatchAccountRequest, Failure, apply_profile_update, with_email, profile, held_by_other,
  patch_account, attribute_error, integrity_error, database_error,
}

with_email_lem :
    (o : Option String) (u : User) (name : String)
    → let v = with_email o (record u { display_name = name }) in
      (v ≡ record u {
        display_name = v.display_name;
        email = v.email;
        email_verified = v.email_verified;
      })
      × ((v.email ≢ u.email) → v.email_verified ≡ false)
      × ((o ≡ none) → (v.email ≡ u.email) × (v.email_verified ≡ u.email_verified))
unfolding with_email
with_email_lem none u name = (refl, λ ne. absurd (ne refl), λ n. (refl, refl))
with_email_lem (some a) u name = (refl, λ ne. refl, λ n. absurd (ground arith))

-- A patch can change nothing but the name, the address and its verification, and an address that changes
-- is not verified any more.
pub apply_profile_update_lem :
    (p : PatchAccountRequest) (u : User)
    → let v = apply_profile_update p u in
      (v ≡ record u {
        display_name = v.display_name;
        email = v.email;
        email_verified = v.email_verified;
      })
      × ((v.email ≢ u.email) → v.email_verified ≡ false)
      × ((p.email ≡ none) → (v.email ≡ u.email) × (v.email_verified ≡ u.email_verified))
unfolding apply_profile_update
apply_profile_update_lem p u = with_email_lem p.email u (get_or p.display_name u.display_name)

apply_profile_update-id :
    (p : PatchAccountRequest) (u : User) → (apply_profile_update p u).id ≡ u.id
apply_profile_update-id p u = ap (λ (v : User). v.id) (apply_profile_update_lem p u).0

-- A request that fails changes no row; one that succeeds answers the row that it leaves, and touches no
-- other one.
pub patch_account_lem :
    (commits : Bool) (uid : ℕ) (p : PatchAccountRequest) (users : List User) (j : ℕ)
    → j ≢ uid
    → let (r, users') = patch_account commits uid p users in
      ((e : Failure) × (r ≡ err e) × (users' ≡ users))
      ⊎ ((user : User) × (get_user uid users ≡ some user)
          × (r ≡ ok (profile (apply_profile_update p user)))
          × (get_user uid users' ≡ some (apply_profile_update p user))
          × (get_user j users' ≡ get_user j users))
unfolding patch_account
patch_account_lem commits uid p users j ne = elim (Option-cases (get_user uid users)) [
  | inl e ↦ inl (attribute_error, ground arith, ground arith)
  | inr (user, e) ↦ elim (Bool-cases (held_by_other (apply_profile_update p user) users)) [
    | inl h ↦ inl (integrity_error, ground arith, ground arith)
    | inr h ↦ elim (Bool-cases commits) [
      | inr c ↦ inl (database_error, ground arith, ground arith)
      | inl c ↦
          let found =
            get-update_self (λ (u : User). u.id) uid (apply_profile_update p) users
              (apply_profile_update-id p) in
          let kept =
            get-update_ne (λ (u : User). u.id) j uid (apply_profile_update p) users
              (apply_profile_update-id p) in
          inr (user, e, ground arith, ground (arith, found), ground (arith, kept ne))
    ]
  ]
]
