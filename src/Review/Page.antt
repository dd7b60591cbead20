-- ===== src/Review/Page.antt =====
-- `get_symbols_page` (services/symbol_service.py): one page of a drawing's symbols, with the
-- corrections of exactly these symbols.
pub mod Order
pub mod Paging
use pid_docs.Prelude.{
  ℕ, String, text_eq, Bool, true, false, ◌&&◌, ◌||◌, Option, none, some, List, [], ◌∷◌, ◌++◌, ◌==◌,
  ltb, if◌then◌else◌, filter, take, drop, length, map, holds, get_or,
}
use pid_docs.Prelude.Exec.{Result, ok, err}
use pid_docs.Auth.Permissions.{CurrentUser}
use pid_docs.Db.{Drawing}
use pid_docs.Review.{
  BoundingBox, SymbolSource, DetectedSymbol, CorrectionType, UserCorrection, Tables, Failure,
  get_drawing_or_404, assert_drawing_access,
}

-- The optional query parameters.
pub record Query : Type 0 where
  pub limit : ℕ
  pub offset : ℕ
  pub page_number : Option ℕ
  pub entity_class_id : Option String
  pub rejected : Option Bool

abbrev bool_eq : Bool → Bool → Bool
bool_eq true b = b
bool_eq false true = false
bool_eq false false = true

abbrev fits {ℓ} : {A : Type ℓ} → (A → Bool) → Option A → Bool
fits test none = true
fits test (some a) = test a

module _ {F : Type 0} where
  -- the conjunction of `filters`
  unfoldable pub matches : ℕ → Query → DetectedSymbol F → Bool
  matches drawing_id q s =
      s.drawing_id == drawing_id
      && (fits (λ n. s.page_number == n) q.page_number
          && (fits (λ c. text_eq s.entity_class_id c) q.entity_class_id
              && fits (λ b. bool_eq s.rejected b) q.rejected))

  -- `ORDER BY page_number, id`
  unfoldable pub before : DetectedSymbol F → DetectedSymbol F → Bool
  before a b = ltb a.page_number b.page_number || (a.page_number == b.page_number && ltb a.id b.id)

  insert_sorted : DetectedSymbol F → List (DetectedSymbol F) → List (DetectedSymbol F)
  insert_sorted a [] = a ∷ []
  insert_sorted a (b ∷ bs) = if before b a then b ∷ insert_sorted a bs else a ∷ b ∷ bs

  unfoldable pub order_by : List (DetectedSymbol F) → List (DetectedSymbol F)
  unfolding insert_sorted
  order_by [] = []
  order_by (a ∷ rows) = insert_sorted a (order_by rows)

  -- `detected_symbol_id IN (...)`
  unfoldable pub has_id : ℕ → List (DetectedSymbol F) → Bool
  has_id k [] = false
  has_id k (s ∷ ss) = s.id == k || has_id k ss

  -- a correction of one of the page's symbols; a NULL is in no list
  pub is_of : List (DetectedSymbol F) → UserCorrection → Bool
  unfolding has_id
  is_of page c = elim c.detected_symbol_id [ none ↦ false | some k ↦ has_id k page ]

-- `SymbolRecord`, whose subtype is a text: a NULL becomes the empty one.
pub record SymbolRecord (F : Type 0) : Type 0 where
  pub id : ℕ
  pub drawing_id : ℕ
  pub entity_class_id : String
  pub subtype : String
  pub tag_label : Option String
  pub confidence : F
  pub bbox : BoundingBox F
  pub source : SymbolSource
  pub rejected : Bool
  pub page_number : ℕ

pub to_symbol_record : {F : Type 0} → DetectedSymbol F → SymbolRecord F
to_symbol_record s = record {
  id = s.id;
  drawing_id = s.drawing_id;
  entity_class_id = s.entity_class_id;
  subtype = get_or s.subtype "";
  tag_label = s.tag_label;
  confidence = s.confidence;
  bbox = s.bbox;
  source = s.source;
  rejected = s.rejected;
  page_number = s.page_number;
}

-- `CorrectionRecord`, whose ids and time are texts of the row's.
pub record CorrectionRecord : Type 0 where
  pub id : ℕ
  pub detected_symbol_id : Option ℕ
  pub table_cell_id : Option ℕ
  pub user_id : ℕ
  pub correction_type : CorrectionType
  pub new_class_id : Option String
  pub training_consent : Bool
  pub created_at : ℕ

pub to_correction_record : UserCorrection → CorrectionRecord
to_correction_record c = record {
  id = c.id;
  detected_symbol_id = c.detected_symbol_id;
  table_cell_id = c.table_cell_id;
  user_id = c.user_id;
  correction_type = c.correction_type;
  new_class_id = c.new_class_id;
  training_consent = c.training_consent;
  created_at = c.created_at;
}

-- `d.setdefault(key, []).append(c)` on a dict in insertion order
abbrev pub Grouped : Type 0
Grouped = List (ℕ × List CorrectionRecord)

pub append_to : ℕ → CorrectionRecord → Grouped → Grouped
append_to k c [] = (k, c ∷ []) ∷ []
append_to k c ((j, cs) ∷ d) = if j == k then (j, cs ++ c ∷ []) ∷ d else (j, cs) ∷ append_to k c d

pub group : Grouped → List UserCorrection → Grouped
unfolding append_to to_correction_record
group d [] = d
group d (c ∷ cs) = group (append_to (get_or c.detected_symbol_id 0) (to_correction_record c) d) cs

pub record Page (F : Type 0) : Type 0 where
  pub symbols : List (SymbolRecord F)
  pub corrections_by_symbol_id : Grouped
  pub total : ℕ
  pub limit : ℕ
  pub offset : ℕ

module _ {F : Type 0} where
  -- `.order_by(...).limit(...).offset(...)`
  unfoldable pub page_rows : Query → List (DetectedSymbol F) → List (DetectedSymbol F)
  unfolding order_by
  page_rows q rows = take q.limit (drop q.offset (order_by rows))

  -- the queries behind the access check
  pub read_page : ℕ → Query → Tables F → Page F
  unfolding page_rows matches to_symbol_record is_of group
  read_page drawing_id q t =
      let rows = filter (matches drawing_id q) t.symbols in
      let symbols = page_rows q rows in
      record {
        symbols = map to_symbol_record symbols;
        corrections_by_symbol_id = group [] (filter (is_of symbols) t.corrections);
        total = length rows;
        limit = q.limit;
        offset = q.offset;
      }

  page_of : CurrentUser → Query → Tables F → Drawing → Result Failure (Page F)
  unfolding read_page
  page_of user q t d = elim (assert_drawing_access user d "drawing_view") [
    | err e ↦ err e
    | ok _ ↦ ok (read_page d.id q t)
  ]

  pub get_symbols_page :
      (String → Option ℕ) → String → CurrentUser → Query → Tables F → Result Failure (Page F)
  unfolding page_of
  get_symbols_page parse_uuid raw user q t = elim (get_drawing_or_404 parse_uuid raw t.drawings) [
    | err e ↦ err e
    | ok d ↦ page_of user q t d
  ]
