-- ===== src/System/Lifecycle.antt =====
-- The abstract life of one account, which the operations of System.antt follow: it does not exist, it is
-- live, it is deleted (deleted_at in db/models/user.py).
use pid_docs.Prelude.{
  ℕ, Option, none, some, List, [], ◌∷◌, ◌++◌, ◌==◌, ◌≡◌, refl, inl, inr, arith, Option-cases,
  Bool-cases,
}
use pid_docs.Db.{User, get_user, update_user}
use pid_docs.Db.Tables.{get, update, get-update_self, get-update_ne}
use pid_docs.Account.Deletion.{deleted}
use pid_docs.System.Change.{
  Right, creates, deletes, Change, add, rewrite, delete, Changes, same, more,
}

pub data Status : Type 0 where
  absent live gone : Status

pub status_of : Option User → Status
status_of none = absent
status_of (some u) = elim u.deleted_at [ none ↦ live | some t ↦ gone ]

pub status : ℕ → List User → Status
unfolding status_of
status uid us = status_of (get_user uid us)

-- What one operation may do to the account `uid`: nothing; bring it into being, if it is entitled to
-- create accounts; delete it, if it is entitled to delete this one.
pub data Move (r : Right) (uid : ℕ) : Status → Status → Type 0 where
  stay : {a : Status} → Move r uid a a
  create : r ≡ creates → Move r uid absent live
  remove : r ≡ deletes uid → Move r uid live gone

-- A life: any number of moves of any operations.
pub data Life (uid : ℕ) (a : Status) : Status → Type 0 where
  born : Life uid a a
  moved : {r : Right} {b c : Status} → Life uid a b → Move r uid b c → Life uid a c

Move-trans :
    {r : Right} {uid : ℕ} {a b c : Status} → Move r uid a b → Move r uid b c → Move r uid a c
Move-trans stay n = n
Move-trans (create e) stay = create e
Move-trans (create e) (remove e') = absurd (cc)
Move-trans (remove e) stay = remove e

get-append :
    (uid : ℕ) (new : User) (us : List User)
    → get_user uid us ≡ none
    → get_user uid (us ++ new ∷ []) ≡ get_user uid (new ∷ [])
unfolding get
get-append uid new [] e = refl
get-append uid new (u ∷ us) e = ground (arith, get-append uid new us)

get-append_found :
    (uid : ℕ) (new u : User) (us : List User)
    → get_user uid us ≡ some u
    → get_user uid (us ++ new ∷ []) ≡ some u
unfolding get
get-append_found uid new u [] e = ground arith
get-append_found uid new u (v ∷ us) e = ground (arith, get-append_found uid new u us)

stay_eq : {r : Right} {uid : ℕ} {a b : Status} → a ≡ b → Move r uid a b
stay_eq e = rw e stay

Move-eq : {r : Right} {uid : ℕ} {a b x y : Status} → a ≡ x → b ≡ y → Move r uid x y → Move r uid a b
Move-eq e f m = rw e (rw f m)

status-rewrite :
    (uid k : ℕ) (f : User → User) (us : List User)
    → ((u : User) → (f u).id ≡ u.id)
    → ((u : User) → (f u).deleted_at ≡ u.deleted_at)
    → status uid us ≡ status uid (update_user k f us)
unfolding status get update
status-rewrite uid k f [] ids kept = refl
status-rewrite uid k f (u ∷ us) ids kept =
    ground (arith, ids u, kept u, status-rewrite uid k f us ids kept)

Change-Move :
    {r : Right} {us vs : List User} (uid : ℕ)
    → Change r us vs
    → Move r uid (status uid us) (status uid vs)
unfolding status get
Change-Move {us = us} uid (add new may free fresh plain) = elim (Option-cases (get_user uid us)) [
  | inr (u, e) ↦ stay_eq (ground (arith, get-append_found uid new u us))
  | inl e ↦ elim (Bool-cases (new.id == uid)) [
    | inl n ↦ Move-eq (ground arith) (ground (arith, get-append uid new us)) (create may)
    | inr n ↦ stay_eq (ground (arith, get-append uid new us))
  ]
]
Change-Move {us = us} uid (rewrite k f ids kept roles a) =
    stay_eq (status-rewrite uid k f us ids kept)
Change-Move {us = us} uid (delete k now may) = elim (Bool-cases (uid == k)) [
  | inr n ↦
      stay_eq
        (ground (arith, get-update_ne (λ (u : User). u.id) uid k (deleted now) us (λ u. refl)))
  | inl eq ↦
      let e : k ≡ uid = ground arith in
      elim (Option-cases (get_user uid us)) [
        | inl missing ↦
            stay_eq (
              ground (arith, get-update_self (λ (u : User). u.id) uid (deleted now) us (λ u. refl)))
        | inr (u, found) ↦
            let after : get_user uid (update_user k (deleted now) us) ≡ some (deleted now u) =
              rw e (
                ground
                  (arith, get-update_self (λ (u : User). u.id) uid (deleted now) us (λ u. refl))) in
            elim (Option-cases u.deleted_at) [
              | inr (t, d) ↦ stay_eq (ground arith)
              | inl d ↦ Move-eq (ground arith) (ground arith) (remove (ground arith))
            ]
      ]
]

pub Changes-Move :
    {r : Right} {us vs : List User} (uid : ℕ)
    → Changes r us vs
    → Move r uid (status uid us) (status uid vs)
Changes-Move uid same = stay
Changes-Move uid (more cs c) = Move-trans (Changes-Move uid cs) (Change-Move uid c)

Move-gone : {r : Right} {uid : ℕ} {a b : Status} → Move r uid a b → a ≡ gone → b ≡ gone
Move-gone stay e = e
Move-gone (create may) e = cc
Move-gone (remove may) e = refl

-- A deleted account stays deleted.
pub Life-gone : {uid : ℕ} {a b : Status} → Life uid a b → a ≡ gone → b ≡ gone
Life-gone born e = e
Life-gone (moved l m) e = Move-gone m (Life-gone l e)

pub gone_status :
    (uid : ℕ) (us : List User) (row : User) (at : ℕ)
    → get_user uid us ≡ some row
    → row.deleted_at ≡ some at
    → status uid us ≡ gone
unfolding status
gone_status uid us row at found deleted_row = ground arith

pub status_gone :
    (uid : ℕ) (us : List User)
    → status uid us ≡ gone
    → (row : User) × (at : ℕ) × (get_user uid us ≡ some row) × (row.deleted_at ≡ some at)
unfolding status
status_gone uid us e = elim (Option-cases (get_user uid us)) [
  | inl n ↦ absurd (ground arith)
  | inr (row, found) ↦ elim (Option-cases row.deleted_at) [
    | inl n ↦ absurd (ground arith)
    | inr (at, d) ↦ (row, at, found, d)
  ]
]
