-- ===== src/Review/Corrections.antt =====
-- services/correction_service.py: the writes of a review, and the request checks of
-- api/routers/symbols.py in front of them.
pub mod Effects
pub mod Laws
pub mod Manual
use pid_docs.Prelude.{
  ℕ, String, text_eq, ◌||◌, Bool, true, false, leb, Option, none, some, List, [], ◌∷◌, ◌++◌,
  if◌then◌else◌, update_where, ◌==◌, ◌&&◌,
}
use pid_docs.Prelude.Exec.{Result, ok, err, Exec}
use pid_docs.Auth.Permissions.{CurrentUser}
use pid_docs.Consent.{drawing_consent}
use pid_docs.Db.{Drawing, get_drawing, update_drawing}
use pid_docs.Db
use pid_docs.Db.Tables.{get, update}
use pid_docs.Review.{
  BoundingBox, SymbolSource, DetectedSymbol, CorrectionType, UserCorrection, Tables, Failure,
  get_drawing_or_404, assert_drawing_access, not_found, unprocessable, not_implemented,
  integrity_error, database_error,
}
use pid_docs.Review
use pid_docs.Review.Page.{SymbolRecord, to_symbol_record}

pub record SymbolCorrectionRequest : Type 0 where
  pub correction_type : CorrectionType
  pub new_class_id : Option String
  pub table_cell_id : Option String

pub record ManualSymbolCreateRequest (F : Type 0) : Type 0 where
  pub entity_class_id : String
  pub subtype : String
  pub tag_label : Option String
  pub bbox : BoundingBox F
  pub page_number : ℕ

-- One request's surroundings: the ids that the database chooses, its clock, whether the transaction
-- goes through, and whether the analytics event is taken.
pub record Outside : Type 0 where
  pub symbol_id : ℕ
  pub correction_id : ℕ
  pub now : ℕ
  pub commits : Bool
  pub emits : Bool

pub record Event : Type 0 where
  pub user_id : ℕ
  pub drawing_id : ℕ
  pub symbol_id : ℕ

-- The tables and the `correction_action` events sent.
pub record World (F : Type 0) : Type 0 where
  pub tables : Tables F
  pub events : List Event

abbrev pub under_review : Drawing → Drawing
under_review d = record d { processing_state = Db.under_review }

abbrev pub is_complete : Drawing → Bool
is_complete d = elim d.processing_state [ Db.complete ↦ true | _ ↦ false ]

unfoldable pub transition_to_under_review : ℕ → List Drawing → List Drawing
transition_to_under_review k =
    update_where (λ (d : Drawing). (d.id == k) && is_complete d) under_review

-- `EntityClassId`
abbrev entity_class_ids : List String
entity_class_ids =
    "pipe" ∷ "valve_gate" ∷ "valve_globe" ∷ "valve_ball" ∷ "valve_butterfly" ∷ "valve_check"
    ∷ "valve_control" ∷ "instrument" ∷ []

is_one_of : String → List String → Bool
is_one_of c [] = false
is_one_of c (k ∷ ks) = text_eq c k || is_one_of c ks

unfoldable pub is_entity_class : String → Bool
unfolding is_one_of
is_entity_class c = is_one_of c entity_class_ids

-- the type of the field `new_class_id`
unfoldable pub is_class_or_none : Option String → Bool
unfolding is_entity_class
is_class_or_none none = true
is_class_or_none (some c) = is_entity_class c

-- `_validate_correction`
pub has_class : SymbolCorrectionRequest → Result Failure Unit
has_class p = elim p.correction_type [
  | Review.manual_add ↦ err unprocessable
  | Review.reclassify ↦ elim p.new_class_id [ none ↦ err unprocessable | some c ↦ ok tt ]
  | _ ↦ ok tt
]

-- the types of the fields, and then the validator of the model
pub validate_correction : SymbolCorrectionRequest → Result Failure Unit
unfolding is_class_or_none has_class
validate_correction p = if is_class_or_none p.new_class_id then has_class p else err unprocessable

-- the row of `UserCorrection(...)`
abbrev pub new_correction :
    Outside → CurrentUser → ℕ → CorrectionType → Option String → Bool → UserCorrection
new_correction out user k kind class_id consent = record {
  id = out.correction_id;
  detected_symbol_id = some k;
  table_cell_id = none;
  user_id = user.id;
  correction_type = kind;
  new_class_id = class_id;
  training_consent = consent;
  created_at = out.now;
}

module _ {F : Type 0} where
  abbrev pub get_symbol : ℕ → List (DetectedSymbol F) → Option (DetectedSymbol F)
  get_symbol = get (λ (s : DetectedSymbol F). s.id)

  abbrev pub update_symbol :
      ℕ → (DetectedSymbol F → DetectedSymbol F) → List (DetectedSymbol F) → List (DetectedSymbol F)
  update_symbol = update (λ (s : DetectedSymbol F). s.id)

  unfoldable pub get_symbol_or_404 :
      (String → Option ℕ) → String → List (DetectedSymbol F) → Result Failure (DetectedSymbol F)
  get_symbol_or_404 parse_uuid raw symbols = elim (parse_uuid raw) [
    | none ↦ err not_found
    | some pk ↦ elim (get_symbol pk symbols) [ none ↦ err not_found | some s ↦ ok s ]
  ]

  -- What the request does to the symbol, and the `new_class_id` it records; a class of None breaks
  -- the NOT NULL of the column.
  unfoldable pub apply_correction :
      SymbolCorrectionRequest → DetectedSymbol F → Option (DetectedSymbol F × Option String)
  apply_correction p s = elim p.correction_type [
    | Review.reclassify ↦ elim p.new_class_id [
      | none ↦ none
      | some c ↦ some (record s { entity_class_id = c }, some c)
    ]
    | Review.reject ↦ some (record s { rejected = true }, none)
    | Review.restore ↦ some (record s { rejected = false }, none)
    | Review.manual_add ↦ some (s, none)
  ]

  -- what the transaction leaves of the tables when it commits
  unfoldable pub corrected :
      Outside
      → SymbolCorrectionRequest
      → CurrentUser
      → Drawing
      → DetectedSymbol F
      → Option String
      → Tables F
      → Tables F
  unfolding transition_to_under_review
  corrected out p user d s class_id t = record {
    drawings = transition_to_under_review d.id t.drawings;
    symbols = update_symbol s.id (λ _. s) t.symbols;
    corrections =
        t.corrections
        ++ new_correction out user s.id p.correction_type class_id (drawing_consent d t.consents)
          ∷ [];
    consents = t.consents;
  }

  -- commit and then the event, whose failure is swallowed; or the rollback
  pub finish : Outside → Event → SymbolRecord F → Tables F → Exec (World F) Failure (SymbolRecord F)
  finish out event answer t w =
      if out.commits
      then (
        ok answer,
        record { tables = t; events = if out.emits then w.events ++ event ∷ [] else w.events },
      )
      else (err database_error, w)

  -- behind the access check
  pub write_correction :
      Outside
      → SymbolCorrectionRequest
      → CurrentUser
      → Drawing
      → DetectedSymbol F
      → Exec (World F) Failure (SymbolRecord F)
  unfolding apply_correction corrected finish
  write_correction out p user d s w = elim (apply_correction p s) [
    | none ↦ (err integrity_error, w)
    | some (s', class_id) ↦
        finish out (record { user_id = user.id; drawing_id = d.id; symbol_id = s.id })
          (to_symbol_record s') (corrected out p user d s' class_id w.tables) w
  ]

  pub correct_symbol :
      Outside
      → SymbolCorrectionRequest
      → CurrentUser
      → DetectedSymbol F
      → Exec (World F) Failure (SymbolRecord F)
  unfolding write_correction
  correct_symbol out p user s w = elim (get_drawing s.drawing_id w.tables.drawings) [
    | none ↦ (err not_found, w)
    | some d ↦ elim (assert_drawing_access user d "symbol_correct") [
      | err e ↦ (err e, w)
      | ok _ ↦ write_correction out p user d s w
    ]
  ]

  pub create_correction :
      (String → Option ℕ)
      → Outside
      → String
      → SymbolCorrectionRequest
      → CurrentUser
      → Exec (World F) Failure (SymbolRecord F)
  unfolding get_symbol_or_404 correct_symbol
  create_correction parse_uuid out raw p user w = elim p.table_cell_id [
    | some c ↦ (err not_implemented, w)
    | none ↦ elim (get_symbol_or_404 parse_uuid raw w.tables.symbols) [
      | err e ↦ (err e, w)
      | ok s ↦ correct_symbol out p user s w
    ]
  ]

  -- `PATCH /symbols/{id}`
  unfoldable pub patch_symbol :
      (String → Option ℕ)
      → Outside
      → String
      → SymbolCorrectionRequest
      → CurrentUser
      → Exec (World F) Failure (SymbolRecord F)
  unfolding validate_correction create_correction
  patch_symbol parse_uuid out raw p user w = elim (validate_correction p) [
    | err e ↦ (err e, w)
    | ok _ ↦ create_correction parse_uuid out raw p user w
  ]
