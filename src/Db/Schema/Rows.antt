-- ===== src/Db/Schema/Rows.antt =====
-- The rows of Db.antt as rows of the tables that the first migration creates. The columns that the model of a row
-- leaves out may be null.
use pid_docs.Prelude.{true, Option, none, some, List, [], ◌∷◌, ◌≡◌, All}
use pid_docs.Db.{User, Subscription, MlTrainingConsent}
use pid_docs.Db.Schema.{Cell, null, text, number, flag, Row, Table, fits}
use pid_docs.Db.Schema.Accounts.{user_table, subscription_table, ml_training_consent_table}

abbrev pub optional {ℓ} : {A : Type ℓ} → (A → Cell) → Option A → Cell
optional f none = null
optional f (some a) = f a

abbrev pub user_row : User → Row
user_row u =
    ("id", number u.id)
    ∷ ("email", text u.email)
    ∷ ("display_name", text u.display_name)
    ∷ ("password_hash", optional text u.password_hash)
    ∷ ("email_verified", flag u.email_verified)
    ∷ ("team_id", optional number u.team_id)
    ∷ ("role", text u.role)
    ∷ ("deleted_at", optional number u.deleted_at)
    ∷ ("anonymous_id", optional text u.anonymous_id)
    ∷ ("token_invalidated_at", optional number u.token_invalidated_at)
    ∷ []

abbrev pub subscription_row : Subscription → Row
subscription_row s =
    ("id", number s.id)
    ∷ ("user_id", optional number s.user_id)
    ∷ ("team_id", optional number s.team_id)
    ∷ ("tier_id", text s.tier_id)
    ∷ ("billing_state", text s.billing_state)
    ∷ []

abbrev pub consent_row : MlTrainingConsent → Row
consent_row c =
    ("id", number c.id)
    ∷ ("user_id", optional number c.user_id)
    ∷ ("team_id", optional number c.team_id)
    ∷ ("opted_in", flag c.opted_in)
    ∷ ("updated_at", number c.updated_at)
    ∷ []

-- The row satisfies NOT NULL and the checks of its table.
abbrev pub Fits : Table → Row → Type 0
Fits t row = fits t row ≡ true

abbrev pub AllFit : {A : Type 0} → Table → (A → Row) → List A → Type 0
AllFit t row xs = All (λ a. Fits t (row a)) xs

abbrev pub UsersFit : List User → Type 0
UsersFit = AllFit user_table user_row

abbrev pub SubscriptionsFit : List Subscription → Type 0
SubscriptionsFit = AllFit subscription_table subscription_row

abbrev pub ConsentsFit : List MlTrainingConsent → Type 0
ConsentsFit = AllFit ml_training_consent_table consent_row
