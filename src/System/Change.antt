-- ===== src/System/Change.antt =====
-- What the operations may do to the table of users: add an active row of a plain user, or rewrite one row but
-- for its role. The constraints of the table and the deletions survive both.
use pid_docs.Prelude.{
  ℕ, String, eq_iff, false, none, List, [], ◌∷◌, ◌++◌, ◌==◌, ◌≡◌, ◌≢◌, ◌⊎◌, inl, inr, refl, arith,
  Bool-cases,
}
use pid_docs.Db.{User, update_user}
use pid_docs.Db.Tables.{update}
use pid_docs.Account.Deletion.{deleted}
use pid_docs.Account.Erasure.{email_taken}
use pid_docs.AuthService.Users.{clashes}
use pid_docs.AuthService.Users.Unique.{Unique, Unique-append}

-- The new address of the row `uid`: the old one, or one that no other row holds.
abbrev pub Address : ℕ → (User → User) → List User → Type 0
Address uid f us =
    ((u : User) → (f u).email ≡ u.email)
    ⊎ ((e : String) × ((u : User) → (f u).email ≡ e) × (email_taken uid e us ≡ false))

-- What an operation is entitled to: nothing but edits, the creation of accounts, or one deletion.
pub data Right : Type 0 where
  edits creates : Right
  deletes : ℕ → Right

pub data Change (r : Right) (us : List User) : List User → Type 0 where
  add :
      (new : User)
      → r ≡ creates
      → clashes new us ≡ false
      → new.deleted_at ≡ none
      → new.role ≡ "user"
      → Change r us (us ++ new ∷ [])
  rewrite :
      (uid : ℕ) (f : User → User)
      → ((u : User) → (f u).id ≡ u.id)
      → ((u : User) → (f u).deleted_at ≡ u.deleted_at)
      → ((u : User) → (f u).role ≡ u.role)
      → Address uid f us
      → Change r us (update_user uid f us)
  delete : (uid now : ℕ) → r ≡ deletes uid → Change r us (update_user uid (deleted now) us)

pub data Changes (r : Right) (us : List User) : List User → Type 0 where
  same : Changes r us us
  more : {vs ws : List User} → Changes r us vs → Change r vs ws → Changes r us ws

pub Changes-trans :
    {r : Right} {us vs ws : List User} → Changes r us vs → Changes r vs ws → Changes r us ws
Changes-trans cs same = cs
Changes-trans cs (more ds d) = more (Changes-trans cs ds) d

pub unchanged : {r : Right} {us vs : List User} → vs ≡ us → Changes r us vs
unchanged e = rw e same

pub changed : {r : Right} {us vs ws : List User} → vs ≡ ws → Change r us ws → Changes r us vs
changed e c = rw e (more same c)

clashes-update_ne :
    (u : User) (uid : ℕ) (f : User → User) (us : List User)
    → ((v : User) → (f v).id ≡ v.id)
    → u.id ≢ uid
    → ((v : User) → (f v).email ≡ v.email)
      ⊎ ((e : String) × ((v : User) → (f v).email ≡ e) × (e ≢ u.email))
    → clashes u us ≡ false
    → clashes u (update_user uid f us) ≡ false
unfolding clashes update
clashes-update_ne u uid f [] ids ne h c = refl
clashes-update_ne u uid f (v ∷ us) ids ne (inl kept) c =
    ground (arith, clashes-update_ne u uid f us ids ne (inl kept), ids v, kept v)
clashes-update_ne u uid f (v ∷ us) ids ne (inr (e, new, free)) c = ground (
  arith,
  clashes-update_ne u uid f us ids ne (inr (e, new, free)),
  ids v,
  new v,
  eq_iff (f v).email u.email,
)

update_missing :
    (u : User) (f : User → User) (us : List User)
    → clashes u us ≡ false
    → update_user u.id f us ≡ us
unfolding clashes update
update_missing u f [] c = refl
update_missing u f (v ∷ us) c = ground (arith, update_missing u f us)

clashes-renamed :
    (u v : User) (us : List User)
    → v.id ≡ u.id
    → (v.email ≡ u.email) ⊎ (email_taken u.id v.email us ≡ false)
    → clashes u us ≡ false
    → clashes v us ≡ false
unfolding clashes email_taken
clashes-renamed u v [] e h c = refl
clashes-renamed u v (x ∷ us) e (inl kept) c = ground (arith, clashes-renamed u v us e (inl kept))
clashes-renamed u v (x ∷ us) e (inr free) c =
    ground (arith, clashes-renamed u v us e (inr (ground arith)))

Address-tail :
    (uid : ℕ) (f : User → User) (u : User) (us : List User)
    → Address uid f (u ∷ us)
    → Address uid f us
unfolding email_taken
Address-tail uid f u us (inl kept) = inl kept
Address-tail uid f u us (inr (e, new, free)) = inr (e, new, ground arith)

-- The row that is rewritten clashes with none of the others.
clashes-rewritten :
    (x : User) (uid : ℕ) (f : User → User) (us : List User)
    → ((u : User) → (f u).id ≡ u.id)
    → Address uid f (x ∷ us)
    → x.id ≡ uid
    → clashes x us ≡ false
    → clashes (f x) us ≡ false
unfolding email_taken
clashes-rewritten x uid f us ids (inl kept) eq c =
    clashes-renamed x (f x) us (ids x) (inl (kept x)) c
clashes-rewritten x uid f us ids (inr (e, new, free)) eq c =
    clashes-renamed x (f x) us (ids x) (inr (ground (arith, new x))) c

-- A row that is not rewritten clashes with none of the others, the rewritten one included.
clashes-untouched :
    (x : User) (uid : ℕ) (f : User → User) (us : List User)
    → ((u : User) → (f u).id ≡ u.id)
    → Address uid f (x ∷ us)
    → x.id ≢ uid
    → clashes x us ≡ false
    → clashes x (update_user uid f us) ≡ false
unfolding email_taken
clashes-untouched x uid f us ids (inl kept) ne c = clashes-update_ne x uid f us ids ne (inl kept) c
clashes-untouched x uid f us ids (inr (e, new, free)) ne c =
    clashes-update_ne x uid f us ids ne (inr (e, new, λ same. ground (arith, eq_iff x.email e, ne)))
      c

Unique-update :
    (uid : ℕ) (f : User → User) (us : List User)
    → ((u : User) → (f u).id ≡ u.id)
    → Address uid f us
    → Unique us
    → Unique (update_user uid f us)
unfolding update
Unique-update uid f [] ids a u = tt
Unique-update uid f (x ∷ us) ids a (c, h) = elim (Bool-cases (x.id == uid)) [
  | inl e ↦
      let eq : x.id ≡ uid = ground arith in
      let still : clashes (f x) us ≡ false = clashes-rewritten x uid f us ids a eq c in
      let rest : update_user uid f us ≡ us = ground (arith, update_missing x f us c) in
      rw e (rw rest (still, h))
  | inr n ↦
      let ne : x.id ≢ uid = λ same. ground arith in
      rw n (
        clashes-untouched x uid f us ids a ne c,
        Unique-update uid f us ids (Address-tail uid f x us a) h,
      )
]

-- Changes keep ids and addresses unique.
Change-Unique : {r : Right} {us vs : List User} → Change r us vs → Unique us → Unique vs
Change-Unique {us = us} (add new may c live plain) u = Unique-append new us c u
Change-Unique {us = us} (rewrite uid f ids kept roles a) u = Unique-update uid f us ids a u
Change-Unique {us = us} (delete uid now may) u =
    Unique-update uid (deleted now) us (λ v. refl) (inl (λ v. refl)) u

pub Changes-Unique : {r : Right} {us vs : List User} → Changes r us vs → Unique us → Unique vs
Changes-Unique same u = u
Changes-Unique (more cs c) u = Change-Unique c (Changes-Unique cs u)
