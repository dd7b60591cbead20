-- ===== src/Review.antt =====
-- The review of a drawing (services/symbol_service.py, services/correction_service.py): the tables that
-- it reads and writes, and the access checks that its operations share.
pub mod Page
pub mod Corrections
pub mod Constraints
mod Tests
use pid_docs.Prelude.{
  ℕ, String, Bool, true, false, Option, none, some, List, [], ◌∷◌, ◌++◌, if◌then◌else◌, get_or,
}
use pid_docs.Prelude.Exec.{Result, ok, err}
use pid_docs.Auth.Permissions.{CurrentUser, may}
use pid_docs.Db.{Drawing, MlTrainingConsent, get_drawing}

-- The values of `bbox` and `confidence` are floats: they are stored and passed on, never computed with,
-- and stand for a type `F`.
pub record BoundingBox (F : Type 0) : Type 0 where
  pub x : F
  pub y : F
  pub w : F
  pub h : F

pub data SymbolSource : Type 0 where
  ml manual : SymbolSource

-- db/models/detected_symbol.py
pub record DetectedSymbol (F : Type 0) : Type 0 where
  pub id : ℕ
  pub drawing_id : ℕ
  pub entity_class_id : String
  pub subtype : Option String
  pub tag_label : Option String
  pub confidence : F
  pub bbox : BoundingBox F
  pub source : SymbolSource
  pub rejected : Bool
  pub page_number : ℕ

pub data CorrectionType : Type 0 where
  reclassify reject restore manual_add : CorrectionType

-- db/models/user_correction.py
pub record UserCorrection : Type 0 where
  pub id : ℕ
  pub detected_symbol_id : Option ℕ
  pub table_cell_id : Option ℕ
  pub user_id : ℕ
  pub correction_type : CorrectionType
  pub new_class_id : Option String
  pub training_consent : Bool
  pub created_at : ℕ

pub record Tables (F : Type 0) : Type 0 where
  pub drawings : List Drawing
  pub symbols : List (DetectedSymbol F)
  pub corrections : List UserCorrection
  pub consents : List MlTrainingConsent

-- `HTTPException` by its status, and what is no HTTP error.
pub data Failure : Type 0 where
  not_found forbidden unprocessable : Failure
  not_implemented integrity_error database_error : Failure

module _ (parse_uuid : String → Option ℕ) where
  unfoldable pub get_drawing_or_404 : String → List Drawing → Result Failure Drawing
  get_drawing_or_404 raw drawings = elim (parse_uuid raw) [
    | none ↦ err not_found
    | some pk ↦ elim (get_drawing pk drawings) [ none ↦ err not_found | some d ↦ ok d ]
  ]

pub assert_drawing_access : CurrentUser → Drawing → String → Result Failure Unit
assert_drawing_access user d action =
    if may user action d.owner_user_id d.owner_team_id then ok tt else err forbidden
