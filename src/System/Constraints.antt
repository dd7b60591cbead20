-- ===== src/System/Constraints.antt =====
-- The constraints that the first migration puts on the rows of users, subscriptions and consents
-- (alembic/versions/0001_initial_schema.py), against the operations of System.antt.
use pid_docs.Prelude.{
  ℕ, Bool, none, some, List, [], ◌∷◌, ◌++◌, ◌≡◌, ◌⊎◌, refl, inl, inr, All-append, Option-cases,
}
use pid_docs.Db.{User, Subscription, MlTrainingConsent}
use pid_docs.Db.Tables.{All-update}
use pid_docs.Account.Deletion.{deleted}
use pid_docs.System.Change.{Right, Change, add, rewrite, delete, Changes, same, more}
use pid_docs.Consent.{set_user_consent, rewritten, user_record}
use pid_docs.Db.Schema.{fits, is_given, passes}
use pid_docs.Auth.Permissions.{lookup}
use pid_docs.Db.Schema.Accounts.{user_table, subscription_table, ml_training_consent_table}
use pid_docs.Db.Schema.Rows.{
  user_row, subscription_row, consent_row, Fits, UsersFit, SubscriptionsFit, ConsentsFit,
}

-- The constraints on a user are those on the role: the rest of the row is never null.
user_row-Fits :
    (u v : User) → v.role ≡ u.role → Fits user_table (user_row u) → Fits user_table (user_row v)
unfolding fits is_given passes lookup
user_row-Fits u v e h = rw e h

plain-Fits : (u : User) → u.role ≡ "user" → Fits user_table (user_row u)
unfolding fits is_given passes lookup
plain-Fits u e = rw e refl

Change-UsersFit : {r : Right} {us vs : List User} → Change r us vs → UsersFit us → UsersFit vs
Change-UsersFit {us = us} (add new may c live plain) h =
    All-append (λ u. Fits user_table (user_row u)) us new h (plain-Fits new plain)
Change-UsersFit {us = us} (rewrite uid f ids kept roles a) h =
    All-update (λ u. Fits user_table (user_row u)) (λ (u : User). u.id) uid f us
      (λ u. user_row-Fits u (f u) (roles u)) h
Change-UsersFit {us = us} (delete uid now may) h =
    All-update (λ u. Fits user_table (user_row u)) (λ (u : User). u.id) uid (deleted now) us
      (λ u. user_row-Fits u (deleted now u) refl) h

pub Changes-UsersFit : {r : Right} {us vs : List User} → Changes r us vs → UsersFit us → UsersFit vs
Changes-UsersFit same h = h
Changes-UsersFit (more cs c) h = Change-UsersFit c (Changes-UsersFit cs h)

-- A free subscription of the new user is added, or none.
abbrev pub Subscribes : List Subscription → List Subscription → Type 0
Subscribes ss ts =
    (ts ≡ ss)
    ⊎ ((id uid : ℕ) × (ts
          ≡ ss
            ++ record {
              id = id;
              user_id = some uid;
              team_id = none;
              tier_id = "free";
              billing_state = "Active";
            }
              ∷ []))

pub Subscribes-SubscriptionsFit :
    (ss ts : List Subscription) → Subscribes ss ts → SubscriptionsFit ss → SubscriptionsFit ts
unfolding fits is_given passes lookup
Subscribes-SubscriptionsFit ss ts (inl e) h = rw e h
Subscribes-SubscriptionsFit ss ts (inr (id, uid, e)) h =
    rw e (All-append (λ s. Fits subscription_table (subscription_row s)) ss _ h refl)

rewritten-Fits :
    (now : ℕ) (opted_in : Bool) (c : MlTrainingConsent)
    → Fits ml_training_consent_table (consent_row c)
    → Fits ml_training_consent_table (consent_row (rewritten now opted_in c))
unfolding fits is_given passes lookup
rewritten-Fits now opted_in c h = h

pub set_user_consent-ConsentsFit :
    (fresh now uid : ℕ) (opted_in : Bool) (cs : List MlTrainingConsent)
    → ConsentsFit cs
    → ConsentsFit (set_user_consent fresh now uid opted_in cs)
unfolding set_user_consent fits is_given passes lookup
set_user_consent-ConsentsFit fresh now uid opted_in cs h =
    elim (Option-cases (user_record uid cs)) [
      | inl e ↦
          rw (set_user_consent, e)
            (All-append (λ c. Fits ml_training_consent_table (consent_row c)) cs _ h refl)
      | inr (c, e) ↦
          rw (set_user_consent, e)
            (All-update (λ c. Fits ml_training_consent_table (consent_row c))
              (λ (r : MlTrainingConsent). r.id) c.id (rewritten now opted_in) cs
              (rewritten-Fits now opted_in) h)
    ]
