-- ===== src/Review/Constraints.antt =====
-- The constraints that the first migration puts on the rows of a review
-- (alembic/versions/0001_initial_schema.py), against the writes of services/correction_service.py.
use pid_docs.Prelude.{
  ℕ, String, Bool, true, ◌&&◌, ◌==◌, Option, none, some, List, [], ◌∷◌, ◌++◌, ◌≡◌, refl, inl, inr,
  arith, All-append, All-update_where, Option-cases,
}
use pid_docs.Prelude.Exec.{ok, Result-cases}
use pid_docs.Auth.Permissions.{CurrentUser, lookup}
use pid_docs.Db.{Drawing, ProcessingState}
use pid_docs.Db
use pid_docs.Db.Tables.{All-update, All-get}
use pid_docs.Db.Schema.{text, number, flag, within_unit, json, Row, fits, is_given, passes}
use pid_docs.Db.Schema.Drawings.{drawing_table, detected_symbol_table, user_correction_table}
use pid_docs.Db.Schema.Rows.{Fits, AllFit, optional}
use pid_docs.Review.{DetectedSymbol, SymbolSource, CorrectionType, UserCorrection, Tables, Failure}
use pid_docs.Review
use pid_docs.Review.Corrections.{
  SymbolCorrectionRequest, Outside, World, under_review, is_complete, transition_to_under_review,
  apply_correction, get_symbol, get_symbol_or_404, new_correction, corrected, patch_symbol,
  ManualSymbolCreateRequest,
}
use pid_docs.Review.Corrections.Laws.{patch_symbol-fails, patch_symbol-corrected}
use pid_docs.Review.Corrections.Manual.{
  manual_symbol, with_manual_symbol, post_symbol, post_symbol-with_manual_symbol,
}

-- The texts of the enumerations, as the columns hold them.
abbrev state_text : ProcessingState → String
state_text Db.pending = "Pending"
state_text Db.queued = "Queued"
state_text Db.scanning = "Scanning"
state_text Db.processing = "Processing"
state_text Db.complete = "Complete"
state_text Db.under_review = "Under_Review"
state_text Db.failed = "Failed"
state_text Db.scan_failed = "Scan_Failed"

abbrev source_text : SymbolSource → String
source_text Review.ml = "ml"
source_text Review.manual = "manual"

abbrev type_text : CorrectionType → String
type_text Review.reclassify = "reclassify"
type_text Review.reject = "reject"
type_text Review.restore = "restore"
type_text Review.manual_add = "manual_add"

-- The columns that the model of a drawing leaves out are no part of a constraint but `filename`, which is set when the
-- drawing is made.
abbrev pub drawing_row : String → Drawing → Row
drawing_row filename d =
    ("id", number d.id)
    ∷ ("owner_user_id", optional number d.owner_user_id)
    ∷ ("owner_team_id", optional number d.owner_team_id)
    ∷ ("filename", text filename)
    ∷ ("processing_state", text (state_text d.processing_state))
    ∷ []

abbrev pub correction_row : UserCorrection → Row
correction_row c =
    ("id", number c.id)
    ∷ ("detected_symbol_id", optional number c.detected_symbol_id)
    ∷ ("table_cell_id", optional number c.table_cell_id)
    ∷ ("user_id", number c.user_id)
    ∷ ("correction_type", text (type_text c.correction_type))
    ∷ ("new_class_id", optional text c.new_class_id)
    ∷ ("training_consent", flag c.training_consent)
    ∷ ("created_at", number c.created_at)
    ∷ []

-- `in_unit` is whether a float is at least 0 and at most 1.
module _ {F : Type 0} (in_unit : F → Bool) where
  abbrev pub symbol_row : DetectedSymbol F → Row
  symbol_row s =
      ("id", number s.id)
      ∷ ("drawing_id", number s.drawing_id)
      ∷ ("entity_class_id", text s.entity_class_id)
      ∷ ("subtype", optional text s.subtype)
      ∷ ("tag_label", optional text s.tag_label)
      ∷ ("confidence", within_unit (in_unit s.confidence))
      ∷ ("bbox", json)
      ∷ ("source", text (source_text s.source))
      ∷ ("rejected", flag s.rejected)
      ∷ ("page_number", number s.page_number)
      ∷ []

  -- Every row of a review satisfies NOT NULL and the checks of the first migration.
  pub record ReviewFit (t : Tables F) : Type 0 where
    pub drawings : AllFit drawing_table (drawing_row "f") t.drawings
    pub symbols : AllFit detected_symbol_table symbol_row t.symbols
    pub corrections : AllFit user_correction_table correction_row t.corrections

correction-Fits :
    (out : Outside) (user : CurrentUser) (k : ℕ) (kind : CorrectionType) (class_id : Option String)
    (consent : Bool)
    → Fits user_correction_table (correction_row (new_correction out user k kind class_id consent))
unfolding fits is_given passes lookup
correction-Fits out user k Review.reclassify class_id consent = refl
correction-Fits out user k Review.reject class_id consent = refl
correction-Fits out user k Review.restore class_id consent = refl
correction-Fits out user k Review.manual_add class_id consent = refl

under_review-Fits :
    (d : Drawing)
    → Fits drawing_table (drawing_row "f" d)
    → Fits drawing_table (drawing_row "f" (under_review d))
unfolding fits is_given passes lookup
under_review-Fits d h = ground arith

drawings-Fit :
    (k : ℕ) (ds : List Drawing)
    → AllFit drawing_table (drawing_row "f") ds
    → AllFit drawing_table (drawing_row "f") (transition_to_under_review k ds)
unfolding transition_to_under_review
drawings-Fit k ds h =
    All-update_where (λ d. Fits drawing_table (drawing_row "f" d))
      (λ d. (d.id == k) && is_complete d) under_review ds under_review-Fits h

corrections-Fit :
    (out : Outside) (user : CurrentUser) (k : ℕ) (kind : CorrectionType) (class_id : Option String)
    (consent : Bool) (cs : List UserCorrection)
    → AllFit user_correction_table correction_row cs
    → AllFit user_correction_table correction_row
        (cs ++ new_correction out user k kind class_id consent ∷ [])
corrections-Fit out user k kind class_id consent cs h =
    All-append (λ c. Fits user_correction_table (correction_row c)) cs _ h
      (correction-Fits out user k kind class_id consent)

module _ {F : Type 0} (in_unit : F → Bool) where
  symbol-Fits :
      (s s' : DetectedSymbol F)
      → s'.source ≡ s.source
      → s'.confidence ≡ s.confidence
      → Fits detected_symbol_table (symbol_row in_unit s)
      → Fits detected_symbol_table (symbol_row in_unit s')
  unfolding fits is_given passes lookup
  symbol-Fits s s' e f h = rw e (rw f h)

  apply_correction-keeps :
      (p : SymbolCorrectionRequest) (s s' : DetectedSymbol F) (c : Option String)
      → apply_correction p s ≡ some (s', c)
      → (s'.source ≡ s.source) × (s'.confidence ≡ s.confidence)
  unfolding apply_correction
  apply_correction-keeps p s s' c e = ground arith

  found-Fits :
      (parse_uuid : String → Option ℕ) (raw : String) (ss : List (DetectedSymbol F))
      (s : DetectedSymbol F)
      → get_symbol_or_404 parse_uuid raw ss ≡ ok s
      → AllFit detected_symbol_table (symbol_row in_unit) ss
      → Fits detected_symbol_table (symbol_row in_unit s)
  unfolding get_symbol_or_404
  found-Fits parse_uuid raw ss s e h = elim (Option-cases (parse_uuid raw)) [
    | inl n ↦ absurd (ground arith)
    | inr (pk, n) ↦ elim (Option-cases (get_symbol pk ss)) [
      | inl m ↦ absurd (ground arith)
      | inr (x, m) ↦
          All-get (λ y. Fits detected_symbol_table (symbol_row in_unit y))
            (λ (y : DetectedSymbol F). y.id) pk ss s h (ground arith)
    ]
  ]

  corrected-ReviewFit :
      (out : Outside) (p : SymbolCorrectionRequest) (user : CurrentUser) (d : Drawing)
      (s s' : DetectedSymbol F) (c : Option String) (t : Tables F)
      → apply_correction p s ≡ some (s', c)
      → Fits detected_symbol_table (symbol_row in_unit s)
      → ReviewFit in_unit t
      → ReviewFit in_unit (corrected out p user d s' c t)
  unfolding corrected
  corrected-ReviewFit out p user d s s' c t e f h =
      let (source, confidence) = apply_correction-keeps p s s' c e in
      record {
        drawings = drawings-Fit d.id t.drawings h.drawings;
        symbols =
            All-update (λ y. Fits detected_symbol_table (symbol_row in_unit y))
              (λ (y : DetectedSymbol F). y.id) s'.id (λ _. s') t.symbols
              (λ _ _. symbol-Fits s s' source confidence f) h.symbols;
        corrections =
            corrections-Fit out user s'.id p.correction_type c _ t.corrections h.corrections;
      }

  -- A correction, whatever comes of it, leaves every row of the review within NOT NULL and the checks of the
  -- first migration, if all rows were before.
  pub patch_symbol-ReviewFit :
      (parse_uuid : String → Option ℕ) (out : Outside) (raw : String) (p : SymbolCorrectionRequest)
      (user : CurrentUser) (w : World F)
      → ReviewFit in_unit w.tables
      → ReviewFit in_unit (patch_symbol parse_uuid out raw p user w).1.tables
  patch_symbol-ReviewFit parse_uuid out raw p user w h =
      elim (Result-cases (patch_symbol parse_uuid out raw p user w).0) [
        | inl (e, f) ↦ rw (patch_symbol-fails parse_uuid out raw user p w e f) h
        | inr (r, f) ↦
            let (s, d, s', c, found, drawing, may, applied, answer, tables) =
              patch_symbol-corrected parse_uuid out raw user p w r f in
            rw tables (
              corrected-ReviewFit out p user d s s' c w.tables applied
                (found-Fits parse_uuid raw w.tables.symbols s found h.symbols) h)
      ]

  -- A manual symbol, whatever comes of it, leaves every row of the review within NOT NULL and the checks of the first
  -- migration, if all rows were before, and 1.0 is at least 0 and at most 1.
  pub post_symbol-ReviewFit :
      (one : F) (parse_uuid : String → Option ℕ) (out : Outside) (raw : String)
      (p : ManualSymbolCreateRequest F) (user : CurrentUser) (w : World F)
      → in_unit one ≡ true
      → ReviewFit in_unit w.tables
      → ReviewFit in_unit (post_symbol one parse_uuid out raw p user w).1.tables
  unfolding with_manual_symbol fits is_given passes lookup
  post_symbol-ReviewFit one parse_uuid out raw p user w unit h =
      elim (post_symbol-with_manual_symbol one parse_uuid out raw p user w) [
        | inl (e, f, same) ↦ rw same h
        | inr (d, found, may, page, answer, tables) ↦ rw tables (record {
          drawings = drawings-Fit d.id w.tables.drawings h.drawings;
          symbols =
              All-append (λ y. Fits detected_symbol_table (symbol_row in_unit y)) w.tables.symbols
                (manual_symbol one out p d) h.symbols (ground arith);
          corrections =
              corrections-Fit out user out.symbol_id Review.manual_add none _ w.tables.corrections
                h.corrections;
        })
      ]

  -- Whatever comes of a correction and of a manual symbol, each leaves every row of the review within NOT NULL and the
  -- checks of the first migration, if all rows were before, and 1.0 is at least 0 and at most 1: no request gives
  -- the database a row that it would refuse for these.
  pub requests-ReviewFit :
      (one : F) (parse_uuid : String → Option ℕ) (out : Outside) (symbol_id drawing_id : String)
      (p : SymbolCorrectionRequest) (m : ManualSymbolCreateRequest F) (user : CurrentUser)
      (w : World F)
      → in_unit one ≡ true
      → ReviewFit in_unit w.tables
      → ReviewFit in_unit (patch_symbol parse_uuid out symbol_id p user w).1.tables
        × ReviewFit in_unit (post_symbol one parse_uuid out drawing_id m user w).1.tables
  requests-ReviewFit one parse_uuid out symbol_id drawing_id p m user w unit h = (
    patch_symbol-ReviewFit parse_uuid out symbol_id p user w h,
    post_symbol-ReviewFit one parse_uuid out drawing_id m user w unit h,
  )
