-- ===== src/Consent/Resolve.antt =====
-- The precedence of consent records (services/consent_service.py), and how the resolution at
-- correction time differs (services/correction_service.py).
use pid_docs.Prelude.{ℕ, ◌≡◌, ◌≢◌, ◌⊎◌, true, none, some, List, arith}
use pid_docs.Db.{User, MlTrainingConsent, Drawing}
use pid_docs.Consent.{
  from_user, from_team, team_record, user_record, resolve_consent_with_source, drawing_consent,
}

-- A record of the user's team decides, whatever the personal record says, and is reported as such.
pub resolve_consent-team :
    (user : User) (consents : List MlTrainingConsent) (t : ℕ) (c : MlTrainingConsent)
    → user.team_id ≡ some t
    → team_record t consents ≡ some c
    → resolve_consent_with_source user consents ≡ (c.opted_in, from_team)
unfolding resolve_consent_with_source
resolve_consent-team user consents t c e f = ground arith

-- A yes always has a record behind it: the team's if the source is the team, and the user's own
-- otherwise; with no record at all the answer is no.
pub resolve_consent-backed :
    (user : User) (consents : List MlTrainingConsent)
    → (resolve_consent_with_source user consents).0 ≡ true
    → let source = (resolve_consent_with_source user consents).1 in
      ((t : ℕ) × (c : MlTrainingConsent) × (source ≡ from_team)
        × (user.team_id ≡ some t)
        × (team_record t consents ≡ some c)
        × (c.opted_in ≡ true))
      ⊎ ((c : MlTrainingConsent) × (source ≡ from_user)
          × (user_record user.id consents ≡ some c)
          × (c.opted_in ≡ true))
unfolding resolve_consent_with_source
resolve_consent-backed user consents h = ground arith

-- For a team's drawing and a user of that team whose record exists, the correction service snapshots
-- what the consent service answers.
pub drawing_consent-agrees :
    (d : Drawing) (user : User) (consents : List MlTrainingConsent) (t : ℕ) (c : MlTrainingConsent)
    → d.owner_team_id ≡ some t
    → user.team_id ≡ some t
    → team_record t consents ≡ some c
    → drawing_consent d consents ≡ (resolve_consent_with_source user consents).0
unfolding resolve_consent_with_source drawing_consent
drawing_consent-agrees d user consents t c a b e = ground arith

-- For a drawing that a team member owns personally, whose team and owner both have a record, the
-- snapshot of a correction and the answer of the consent service differ whenever the two records
-- do.
pub drawing_consent-differs :
    (d : Drawing) (user : User) (consents : List MlTrainingConsent) (t : ℕ)
    (c p : MlTrainingConsent)
    → d.owner_team_id ≡ none
    → d.owner_user_id ≡ some user.id
    → user.team_id ≡ some t
    → team_record t consents ≡ some c
    → user_record user.id consents ≡ some p
    → c.opted_in ≢ p.opted_in
    → drawing_consent d consents ≢ (resolve_consent_with_source user consents).0
unfolding resolve_consent_with_source drawing_consent
drawing_consent-differs d user consents t c p a b e f g ne = ground arith
