-- ===== src/AuthService/Users/Unique.antt =====
-- The uniqueness of ids and addresses, which the table enforces, and what it gives the services
-- (services/auth_service.py).
use pid_docs.Prelude.{
  ℕ, String, text_eq, eq_iff, ◌≡◌, refl, Bool, true, false, ◌||◌, Option, none, some, List, [], ◌∷◌,
  ◌++◌, ◌==◌, arith, sym, ◌∙◌, filter, Bool-cases, inl, inr,
}
use pid_docs.Prelude.Exec.{ok}
use pid_docs.Db.{User}
use pid_docs.AuthService.{State}
use pid_docs.AuthService.Users.{is_active, find_active, clashes, insert_user}

-- No two rows share an id or an address.
abbrev pub Unique : List User → Type 0
Unique [] = Unit
Unique (u ∷ us) = (clashes u us ≡ false) × Unique us

clashes-append :
    (new u : User) (us : List User)
    → clashes u us ≡ false
    → (u.id == new.id) || text_eq u.email new.email ≡ false
    → clashes u (us ++ new ∷ []) ≡ false
unfolding clashes
clashes-append new u [] a b = ground (arith, eq_iff u.email new.email, eq_iff new.email u.email)
clashes-append new u (v ∷ us) a b = ground (arith, clashes-append new u us)

pub Unique-append :
    (new : User) (us : List User) → clashes new us ≡ false → Unique us → Unique (us ++ new ∷ [])
unfolding clashes
Unique-append new [] a h = (refl, tt)
Unique-append new (u ∷ us) a h = ground (arith, Unique-append new us, clashes-append new u us)

-- Inserting a user keeps ids and addresses unique, whether the insertion succeeds or not.
pub insert_user-Unique :
    {Store : Type 0} (commits : Bool) (subscription_id : ℕ) (new : User) (s : State Store)
    → Unique s.world.users
    → Unique (insert_user commits subscription_id new s).1.world.users
unfolding insert_user
insert_user-Unique commits subscription_id new s h = ground (arith, Unique-append new s.world.users)

none_active :
    (email : String) (u : User) (us : List User)
    → clashes u us ≡ false
    → is_active email u ≡ true
    → filter (is_active email) us ≡ []
unfolding clashes is_active
none_active email u [] c a = refl
none_active email u (v ∷ us) c a = ground (
  arith,
  none_active email u us,
  eq_iff u.email email,
  eq_iff v.email email,
  eq_iff v.email u.email,
)

-- While addresses are unique, looking up an active user never fails on two matches.
pub find_active-Unique :
    (email : String) (us : List User)
    → Unique us
    → (found : Option User) × (find_active email us ≡ ok found)
unfolding find_active
find_active-Unique email [] h = (none, refl)
find_active-Unique email (u ∷ us) h =
    let (found, e) = find_active-Unique email us h.1 in
    elim (Bool-cases (is_active email u)) [
      | inl a ↦ (some u, ground (arith, none_active email u us h.0 a))
      | inr n ↦ (found, ground (arith, e))
    ]

-- Behind a row with the address no row is found for it.
none_behind :
    (email : String) (u : User) (us : List User)
    → clashes u us ≡ false
    → u.email ≡ email
    → filter (is_active email) us ≡ []
unfolding clashes is_active
none_behind email u [] c e = refl
none_behind email u (v ∷ us) c e =
    ground (arith, none_behind email u us, eq_iff v.email email, eq_iff v.email u.email)

pub clashes-middle :
    (new row : User) (before after : List User)
    → row.email ≡ new.email
    → clashes new (before ++ row ∷ after) ≡ true
unfolding clashes
clashes-middle new row [] after e = ground (arith, eq_iff row.email new.email)
clashes-middle new row (u ∷ before) after e = ground (arith, clashes-middle new row before after e)

-- The address of a soft-deleted row is active nowhere, but no row can be inserted with it.
pub find_active-deleted :
    (email : String) (row : User) (before after : List User) (deleted : ℕ)
    → Unique (before ++ row ∷ after)
    → row.email ≡ email
    → row.deleted_at ≡ some deleted
    → filter (is_active email) (before ++ row ∷ after) ≡ []
unfolding is_active
find_active-deleted email row [] after deleted h e d =
    ground (arith, none_behind email row after h.0 e)
find_active-deleted email row (u ∷ before) after deleted h e d =
    elim (Bool-cases (text_eq u.email email)) [
      | inl same ↦
          let clash : clashes u (before ++ row ∷ after) ≡ true =
            clashes-middle u row before after (e ∙ sym ((eq_iff u.email email).0 same)) in
          absurd (ground (arith, h.0))
      | inr other ↦ ground (arith, find_active-deleted email row before after deleted h.1 e d)
    ]
