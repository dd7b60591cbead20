-- ===== src/Consent/Write.antt =====
-- `set_user_consent` (services/consent_service.py), run by itself.
use pid_docs.Prelude.{
  ℕ, ◌+◌, ◌≡◌, ◌≢◌, refl, Bool, none, some, List, [], ◌∷◌, ◌++◌, arith, holds, if◌then◌else◌,
  Option-cases, is_some, inl, inr,
}
use pid_docs.Db.{MlTrainingConsent}
use pid_docs.Db.Tables.{update}
use pid_docs.Consent.{
  user_record, new_record, rewritten, set_user_consent, resolve_personal, from_user,
}

-- The records of one user.
abbrev pub records : ℕ → List MlTrainingConsent → ℕ
records uid [] = 0
records uid (c ∷ cs) = (if holds c.user_id uid then 1 else 0) + records uid cs

module _ (uid now : ℕ) (opted_in : Bool) where
  pub records-rewritten :
      (k : ℕ) (cs : List MlTrainingConsent)
      → records uid (update (λ (r : MlTrainingConsent). r.id) k (rewritten now opted_in) cs)
        ≡ records uid cs
  unfolding update
  records-rewritten k [] = refl
  records-rewritten k (c ∷ cs) = ground (arith, records-rewritten k cs)

  pub has_record-rewritten :
      (k : ℕ) (cs : List MlTrainingConsent)
      → is_some
          (user_record uid (update (λ (r : MlTrainingConsent). r.id) k (rewritten now opted_in) cs))
        ≡ is_some (user_record uid cs)
  unfolding user_record update
  has_record-rewritten k [] = refl
  has_record-rewritten k (c ∷ cs) = ground (arith, has_record-rewritten k cs)

  pub records-new :
      (fresh : ℕ) (cs : List MlTrainingConsent)
      → records uid (cs ++ new_record fresh now uid opted_in ∷ []) ≡ records uid cs + 1
  records-new fresh [] = ground arith
  records-new fresh (c ∷ cs) = ground (arith, records-new fresh cs)

  pub user_record-new :
      (fresh : ℕ) (cs : List MlTrainingConsent)
      → user_record uid cs ≡ none
      → user_record uid (cs ++ new_record fresh now uid opted_in ∷ [])
        ≡ some (new_record fresh now uid opted_in)
  unfolding user_record
  user_record-new fresh [] h = ground arith
  user_record-new fresh (c ∷ cs) h = ground (arith, user_record-new fresh cs)

  pub user_record-rewritten :
      (cs : List MlTrainingConsent) (c : MlTrainingConsent)
      → user_record uid cs ≡ some c
      → user_record uid (update (λ (r : MlTrainingConsent). r.id) c.id (rewritten now opted_in) cs)
        ≡ some (rewritten now opted_in c)
  unfolding user_record update
  user_record-rewritten [] c h = ground arith
  user_record-rewritten (d ∷ cs) c h = ground (arith, user_record-rewritten cs c)

pub records-none :
    (uid : ℕ) (cs : List MlTrainingConsent) → user_record uid cs ≡ none → records uid cs ≡ 0
unfolding user_record
records-none uid [] h = refl
records-none uid (c ∷ cs) h = ground (arith, records-none uid cs)

-- Run by itself, an update leaves the user with one record if he had none, and otherwise with as many
-- as he had; and the personal resolution answers the value that was written.
pub set_user_consent_lem :
    (fresh now uid : ℕ) (opted_in : Bool) (cs : List MlTrainingConsent)
    → let cs' = set_user_consent fresh now uid opted_in cs in
      (resolve_personal uid cs' ≡ (opted_in, from_user))
      × (user_record uid cs ≡ none → records uid cs' ≡ 1)
      × (user_record uid cs ≢ none → records uid cs' ≡ records uid cs)
unfolding set_user_consent resolve_personal
set_user_consent_lem fresh now uid opted_in cs = elim (Option-cases (user_record uid cs)) [
  | inl e ↦ ground (
    arith,
    user_record-new uid now opted_in fresh cs e,
    records-new uid now opted_in fresh cs,
    records-none uid cs e,
  )
  | inr (c, e) ↦ ground (
    arith,
    user_record-rewritten uid now opted_in cs c e,
    records-rewritten uid now opted_in c.id cs,
  )
]
