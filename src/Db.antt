-- ===== src/Db.antt =====
-- The rows of backend/app/db/models and the tables that the services read and write.
-- A UUID is a number, a time is a number of microseconds since the epoch, and a float is a
-- value of a type that is never computed with.
pub mod Tables
pub mod Partitions
pub mod Schema
mod Tests
use pid_docs.Prelude.{ℕ, String, Bool, Option, List, ◌==◌}
use Tables.{get, update}

-- db/models/user.py
pub record User : Type 0 where
  pub id : ℕ
  pub email : String
  pub display_name : String
  pub password_hash : Option String
  pub email_verified : Bool
  pub team_id : Option ℕ
  pub role : String
  pub deleted_at : Option ℕ
  pub anonymous_id : Option String
  pub token_invalidated_at : Option ℕ

-- db/models/subscription.py
pub record Subscription : Type 0 where
  pub id : ℕ
  pub user_id : Option ℕ
  pub team_id : Option ℕ
  pub tier_id : String
  pub billing_state : String

-- db/models/audit_log.py
pub record AuditLog : Type 0 where
  pub id : ℕ
  pub user_id : Option ℕ
  pub action_type : String
  pub occurred_at : ℕ

-- db/models/ml_training_consent.py
pub record MlTrainingConsent : Type 0 where
  pub id : ℕ
  pub user_id : Option ℕ
  pub team_id : Option ℕ
  pub opted_in : Bool
  pub updated_at : ℕ

-- The states of db/models/drawing.py
pub data ProcessingState : Type 0 where
  pending queued scanning processing complete under_review failed scan_failed : ProcessingState

pub record Drawing : Type 0 where
  pub id : ℕ
  pub owner_user_id : Option ℕ
  pub owner_team_id : Option ℕ
  pub processing_state : ProcessingState

-- `UPDATE "user" SET f WHERE id = uid`, and `db.get(User, uid)`
abbrev pub get_user : ℕ → List User → Option User
get_user = get (λ (u : User). u.id)

abbrev pub update_user : ℕ → (User → User) → List User → List User
update_user = update (λ (u : User). u.id)

abbrev pub get_drawing : ℕ → List Drawing → Option Drawing
get_drawing = get (λ (d : Drawing). d.id)

abbrev pub update_drawing : ℕ → (Drawing → Drawing) → List Drawing → List Drawing
update_drawing = update (λ (d : Drawing). d.id)
