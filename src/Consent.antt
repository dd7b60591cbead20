-- ===== src/Consent.antt =====
-- services/consent_service.py: resolution and update of the consent to ML training, and the inline
-- resolution of services/correction_service.py. Rows come in the order of the table.
pub mod Resolve
pub mod Write
pub mod Race
mod Tests
use pid_docs.Prelude.{ℕ, Bool, true, false, Option, none, some, List, [], ◌∷◌, ◌++◌, find?, holds}
use pid_docs.Db.{User, MlTrainingConsent, Drawing, get_user}
use pid_docs.Db.Tables.{update}

pub data ConsentSource : Type 0 where
  from_user from_team : ConsentSource

-- `select(MLTrainingConsent).where(team_id == t).limit(1)`, and the same for a user
unfoldable pub team_record : ℕ → List MlTrainingConsent → Option MlTrainingConsent
team_record t = find? (λ (c : MlTrainingConsent). holds c.team_id t)

unfoldable pub user_record : ℕ → List MlTrainingConsent → Option MlTrainingConsent
user_record uid = find? (λ (c : MlTrainingConsent). holds c.user_id uid)

-- the personal record, or the default
pub resolve_personal : ℕ → List MlTrainingConsent → Bool × ConsentSource
resolve_personal uid consents = elim (user_record uid consents) [
  | some c ↦ (c.opted_in, from_user)
  | none ↦ (false, from_user)
]

resolve_team : ℕ → Option ℕ → List MlTrainingConsent → Bool × ConsentSource
resolve_team uid none consents = resolve_personal uid consents
resolve_team uid (some t) consents = elim (team_record t consents) [
  | some c ↦ (c.opted_in, from_team)
  | none ↦ resolve_personal uid consents
]

-- `_resolve` and `resolve_consent_with_source`
unfoldable pub resolve_consent_with_source : User → List MlTrainingConsent → Bool × ConsentSource
unfolding resolve_personal resolve_team
resolve_consent_with_source user consents = resolve_team user.id user.team_id consents

pub resolve_training_consent : ℕ → List User → List MlTrainingConsent → Bool
unfolding resolve_consent_with_source
resolve_training_consent uid users consents = elim (get_user uid users) [
  | none ↦ false
  | some user ↦ (resolve_consent_with_source user consents).0
]

-- correction_service: `bool(opted_in) if opted_in is not None else False`
pub snapshot : Option MlTrainingConsent → Bool
snapshot none = false
snapshot (some c) = c.opted_in

-- `_resolve_training_consent` of the correction service
pub drawing_consent : Drawing → List MlTrainingConsent → Bool
unfolding snapshot
drawing_consent d consents = elim d.owner_team_id [
  | some t ↦ snapshot (team_record t consents)
  | none ↦ elim d.owner_user_id [ some u ↦ snapshot (user_record u consents) | none ↦ false ]
]

-- The row that `set_user_consent` inserts; the database chooses its id.
abbrev pub new_record : ℕ → ℕ → ℕ → Bool → MlTrainingConsent
new_record fresh now uid opted_in = record {
  id = fresh;
  user_id = some uid;
  team_id = none;
  opted_in = opted_in;
  updated_at = now;
}

abbrev pub rewritten : ℕ → Bool → MlTrainingConsent → MlTrainingConsent
rewritten now opted_in c = record c { opted_in = opted_in; updated_at = now }

unfoldable pub set_user_consent : ℕ → ℕ → ℕ → Bool → List MlTrainingConsent → List MlTrainingConsent
set_user_consent fresh now uid opted_in consents = elim (user_record uid consents) [
  | none ↦ consents ++ new_record fresh now uid opted_in ∷ []
  | some c ↦ update (λ (r : MlTrainingConsent). r.id) c.id (rewritten now opted_in) consents
]
