-- ===== src/Review/Tests.antt =====
-- Pages and corrections at concrete inputs.
use pid_docs.Prelude.{
  Bool, leb, ℕ, ◌≤◌, String, true, false, Option, none, some, [], ◌∷◌, ◌++◌, ◌≡◌, ◌⊎◌, refl,
}
use pid_docs.Prelude.Exec.{ok, err}
use pid_docs.Auth.Permissions.{CurrentUser, may, check_permission, resolve_ownership, lookup}
use pid_docs.Db.{Drawing, get_drawing}
use pid_docs.Db.Tables.{get}
use pid_docs.Db.Schema.{fits, is_given, passes}
use pid_docs.Review.Constraints.{ReviewFit, requests-ReviewFit}
use pid_docs.Review.{
  BoundingBox, SymbolSource, DetectedSymbol, UserCorrection, Tables, Failure, forbidden,
  get_drawing_or_404, assert_drawing_access,
}
use pid_docs.Review
use pid_docs.Review.Page.{
  Query, matches, page_rows, read_page, has_id, to_symbol_record, to_correction_record, order_by,
  before,
}
use pid_docs.Review.Page.Paging.{under, read_page-corrections}
use pid_docs.Review.Corrections.{
  SymbolCorrectionRequest, ManualSymbolCreateRequest, Outside, World, get_symbol_or_404,
  patch_symbol,
}
use pid_docs.Consent.{drawing_consent}
use pid_docs.Review.Corrections.Effects.{AreReviewed, AreCorrected, IsApplied, logged}
use pid_docs.Review.Corrections.Laws.{patch_symbol-fails, patch_symbol-succeeds}
use pid_docs.Review.Corrections.Manual.{post_symbol, post_symbol_lem}
use pid_docs.Samples.{drawing, annotator, consents, parse_uuid}

-- The floats of the tests are numbers.
abbrev bbox : BoundingBox ℕ
bbox = record { x = 1; y = 2; w = 3; h = 4 }

abbrev valve : DetectedSymbol ℕ
valve = record {
  id = 1;
  drawing_id = 3;
  entity_class_id = "valve";
  subtype = none;
  tag_label = some "V-1";
  confidence = 0;
  bbox = bbox;
  source = SymbolSource.ml;
  rejected = false;
  page_number = 2;
}

abbrev pump : DetectedSymbol ℕ
pump = record valve { id = 2; entity_class_id = "pump"; page_number = 1 }

abbrev rejection : UserCorrection
rejection = record {
  id = 5;
  detected_symbol_id = some 2;
  table_cell_id = none;
  user_id = 1;
  correction_type = Review.reject;
  new_class_id = none;
  training_consent = false;
  created_at = 1;
}

abbrev tables : Tables ℕ
tables = record {
  drawings = drawing ∷ [];
  symbols = valve ∷ pump ∷ [];
  corrections = rejection ∷ record rejection { id = 6; detected_symbol_id = some 1 } ∷ [];
  consents = consents;
}

abbrev query : Query
query = record {
  limit = 1;
  offset = 0;
  page_number = none;
  entity_class_id = none;
  rejected = none;
}

read_page-corrections_example :
    under 2 (read_page 3 query tables).corrections_by_symbol_id
    ≡ to_correction_record rejection ∷ []
unfolding has_id page_rows matches before order_by
read_page-corrections_example = read_page-corrections 3 query tables 2

abbrev outside : Outside
outside = record { symbol_id = 8; correction_id = 9; now = 7; commits = true; emits = true }

abbrev request : SymbolCorrectionRequest
request = record { correction_type = Review.reject; new_class_id = none; table_cell_id = none }

abbrev world : World ℕ
world = record { tables = tables; events = [] }

abbrev stranger : CurrentUser
stranger = record annotator { id = 4 }

patch_symbol-fails_example : (patch_symbol parse_uuid outside "1" request stranger world).1 ≡ world
unfolding patch_symbol get_symbol_or_404 get assert_drawing_access may check_permission
    resolve_ownership lookup
patch_symbol-fails_example =
    patch_symbol-fails parse_uuid outside "1" stranger request world forbidden refl

abbrev rejected_valve : DetectedSymbol ℕ
rejected_valve = record valve { rejected = true }

patch_symbol-succeeds_example :
    let t' = (patch_symbol parse_uuid outside "1" request annotator world).1.tables in
    (s : DetectedSymbol ℕ) × (d : Drawing) × (s' : DetectedSymbol ℕ) × (c : Option String)
    × (get_symbol_or_404 parse_uuid "1" tables.symbols ≡ ok s)
    × (get_drawing s.drawing_id tables.drawings ≡ some d)
    × (may annotator "symbol_correct" d.owner_user_id d.owner_team_id ≡ true)
    × IsApplied request s s' c
    × (to_symbol_record rejected_valve ≡ to_symbol_record s')
    × AreCorrected s' tables.symbols t'.symbols
    × (t'.corrections
        ≡ logged outside annotator s'.id Review.reject c
            (drawing_consent d consents)
            tables.corrections)
    × AreReviewed d tables.drawings t'.drawings
    × (t'.consents ≡ consents)
unfolding patch_symbol get_symbol_or_404 get assert_drawing_access may check_permission
    resolve_ownership lookup
patch_symbol-succeeds_example =
    patch_symbol-succeeds parse_uuid outside "1" annotator request world
      (to_symbol_record rejected_valve) refl

abbrev drawn : ManualSymbolCreateRequest ℕ
drawn = record {
  entity_class_id = "valve_gate";
  subtype = "gate";
  tag_label = none;
  bbox = bbox;
  page_number = 1;
}

post_symbol_lem_example :
    let (r, w') = post_symbol 1 parse_uuid outside "3" drawn annotator world in
    let t' = w'.tables in
    ((e : Failure) × (r ≡ err e) × (w' ≡ world))
    ⊎ ((d : Drawing) × (s : DetectedSymbol ℕ) × (get_drawing_or_404 parse_uuid "3" tables.drawings
          ≡ ok d)
        × (may annotator "symbol_correct" d.owner_user_id d.owner_team_id ≡ true)
        × (1 ≤ 1)
        × (s ≡ record {
          id = 8;
          drawing_id = d.id;
          entity_class_id = "valve_gate";
          subtype = some "gate";
          tag_label = none;
          confidence = 1;
          bbox = bbox;
          source = SymbolSource.manual;
          rejected = false;
          page_number = 1;
        })
        × (r ≡ ok (to_symbol_record s))
        × (t'.symbols ≡ tables.symbols ++ s ∷ [])
        × (t'.corrections
            ≡ logged outside annotator s.id Review.manual_add none
                (drawing_consent d consents)
                tables.corrections)
        × AreReviewed d tables.drawings t'.drawings
        × (t'.consents ≡ consents))
post_symbol_lem_example = post_symbol_lem 1 parse_uuid outside "3" drawn annotator world

abbrev in_unit : ℕ → Bool
in_unit x = leb x 1

tables-ReviewFit : ReviewFit in_unit tables
unfolding fits is_given passes lookup
tables-ReviewFit = record {
  drawings = (refl, tt);
  symbols = (refl, (refl, tt));
  corrections = (refl, (refl, tt));
}

requests-ReviewFit_example :
    ReviewFit in_unit (patch_symbol parse_uuid outside "1" request annotator world).1.tables
    × ReviewFit in_unit (post_symbol 1 parse_uuid outside "3" drawn annotator world).1.tables
requests-ReviewFit_example =
    requests-ReviewFit in_unit 1 parse_uuid outside "1" "3" request drawn annotator world refl
      tables-ReviewFit
