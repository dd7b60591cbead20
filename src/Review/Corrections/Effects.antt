-- ===== src/Review/Corrections/Effects.antt =====
-- What a correction and a manual symbol leave in the tables (services/correction_service.py), said without the
-- functions that write them.
use pid_docs.Prelude.{
  ℕ, String, Bool, true, false, ◌==◌, ◌&&◌, Option, none, some, List, [], ◌∷◌, ◌++◌, ◌≡◌, ◌⊎◌, refl,
  ap, ◌∙◌, inl, inr, arith, if◌then◌else◌, Bool-cases, Option-cases,
}
use mathlib.Core.Option
use pid_docs.Prelude.Exec.{ok}
use pid_docs.Auth.Permissions.{CurrentUser}
use pid_docs.Db.{Drawing, ProcessingState, get_drawing}
use pid_docs.Db
use pid_docs.Db.Tables.{get, update, get-replace_ne}
use pid_docs.Review.{DetectedSymbol, UserCorrection, CorrectionType, Tables}
use pid_docs.Review
use pid_docs.Review.Corrections.{
  SymbolCorrectionRequest, Outside, under_review, is_complete, transition_to_under_review,
  validate_correction, has_class, apply_correction, get_symbol, update_symbol,
}

-- A complete drawing goes under review, any other one stays as it is.
abbrev pub reviewed : Drawing → Drawing
reviewed d = elim d.processing_state [
  | Db.complete ↦ record d { processing_state = Db.under_review }
  | _ ↦ d
]

-- The drawings behind a review of `d`, which was found under its id
abbrev pub AreReviewed : Drawing → List Drawing → List Drawing → Type 0
AreReviewed d before after =
    (j : ℕ) → get_drawing j after ≡ (if j == d.id then some (reviewed d) else get_drawing j before)

-- The symbols behind a correction that makes `s`
abbrev pub AreCorrected :
    {F : Type 0} → DetectedSymbol F → List (DetectedSymbol F) → List (DetectedSymbol F) → Type 0
AreCorrected s before after =
    (j : ℕ) → get_symbol j after ≡ (if j == s.id then some s else get_symbol j before)

-- The one row that is added to the corrections, with the consent that the server finds at this moment
abbrev pub logged :
    Outside
    → CurrentUser
    → ℕ
    → CorrectionType
    → Option String
    → Bool
    → List UserCorrection
    → List UserCorrection
logged out user symbol_id kind class_id consent before =
    before
    ++ record {
      id = out.correction_id;
      detected_symbol_id = some symbol_id;
      table_cell_id = none;
      user_id = user.id;
      correction_type = kind;
      new_class_id = class_id;
      training_consent = consent;
      created_at = out.now;
    }
      ∷ []

-- A reclassification sets the class of the request and records it; a rejection and a restoration set the mark and
-- record no class.
abbrev pub IsApplied :
    {F : Type 0} → SymbolCorrectionRequest → (s s' : DetectedSymbol F) → Option String → Type 0
IsApplied p s s' c =
    ((n : String) × (p.correction_type ≡ Review.reclassify)
      × (p.new_class_id ≡ some n)
      × (s' ≡ record s { entity_class_id = n })
      × (c ≡ some n))
    ⊎ (((p.correction_type ≡ Review.reject) × (s' ≡ record s { rejected = true }) × (c ≡ none))
        ⊎ ((p.correction_type ≡ Review.restore)
            × (s' ≡ record s { rejected = false })
            × (c ≡ none)))

-- A correction moves a complete drawing to Under_Review; a drawing in any other state, and every other
-- drawing, is left as it is.
pub transition_to_under_review_lem :
    (j k : ℕ) (ds : List Drawing)
    → get_drawing j (transition_to_under_review k ds)
      ≡ Option.map
          (λ d. if (d.id == k) && is_complete d then under_review d else d)
          (get_drawing j ds)
unfolding transition_to_under_review get
transition_to_under_review_lem j k [] = refl
transition_to_under_review_lem j k (d ∷ ds) = ground (arith, transition_to_under_review_lem j k ds)

same_id : (j k : ℕ) → j == k ≡ true → j ≡ k
same_id j k h = ground arith

moved_reviewed :
    (state : ProcessingState) (d : Drawing)
    → d.processing_state ≡ state
    → (if (d.id == d.id) && is_complete d then under_review d else d) ≡ reviewed d
moved_reviewed Db.pending d e = ground arith
moved_reviewed Db.queued d e = ground arith
moved_reviewed Db.scanning d e = ground arith
moved_reviewed Db.processing d e = ground arith
moved_reviewed Db.complete d e = ground arith
moved_reviewed Db.under_review d e = ground arith
moved_reviewed Db.failed d e = ground arith
moved_reviewed Db.scan_failed d e = ground arith

transition-found :
    (d : Drawing) (ds : List Drawing)
    → get_drawing d.id ds ≡ some d
    → get_drawing d.id (transition_to_under_review d.id ds) ≡ some (reviewed d)
transition-found d ds e =
    transition_to_under_review_lem d.id d.id ds
    ∙ rw (e) (ap some (moved_reviewed d.processing_state d refl))

transition-other :
    (j k : ℕ) (ds : List Drawing)
    → j == k ≡ false
    → get_drawing j (transition_to_under_review k ds) ≡ get_drawing j ds
unfolding transition_to_under_review get
transition-other j k [] ne = refl
transition-other j k (x ∷ ds) ne = ground (arith, transition-other j k ds ne)

pub transition-AreReviewed :
    (d : Drawing) (ds : List Drawing)
    → get_drawing d.id ds ≡ some d
    → AreReviewed d ds (transition_to_under_review d.id ds)
transition-AreReviewed d ds e j = elim (Bool-cases (j == d.id)) [
  | inl same ↦ rw (same, same_id j d.id same) (transition-found d ds e)
  | inr other ↦ rw other (transition-other j d.id ds other)
]

module _ {F : Type 0} where
  get-replace_self :
      (s : DetectedSymbol F) (found : DetectedSymbol F) (symbols : List (DetectedSymbol F))
      → get_symbol s.id symbols ≡ some found
      → get_symbol s.id (update_symbol s.id (λ _. s) symbols) ≡ some s
  unfolding get update
  get-replace_self s found [] e = absurd (ground arith)
  get-replace_self s found (x ∷ symbols) e = ground (arith, get-replace_self s found symbols)

  pub replace-AreCorrected :
      (s found : DetectedSymbol F) (symbols : List (DetectedSymbol F))
      → get_symbol s.id symbols ≡ some found
      → AreCorrected s symbols (update_symbol s.id (λ _. s) symbols)
  replace-AreCorrected s found symbols e j = elim (Bool-cases (j == s.id)) [
    | inl same ↦ rw (same, same_id j s.id same) (get-replace_self s found symbols e)
    | inr other ↦
        rw other (get-replace_ne (λ (a : DetectedSymbol F). a.id) j s symbols (ground arith))
  ]

  apply_correction_kind :
      (kind : CorrectionType) (p : SymbolCorrectionRequest) (s s' : DetectedSymbol F)
      (c : Option String)
      → p.correction_type ≡ kind
      → validate_correction p ≡ ok tt
      → apply_correction p s ≡ some (s', c)
      → IsApplied p s s' c
  unfolding apply_correction validate_correction has_class
  apply_correction_kind Review.reclassify p s s' c k v e = elim (Option-cases p.new_class_id) [
    | inl none_given ↦ absurd (ground arith)
    | inr (n, given) ↦ inl (n, k, given, ground arith, ground arith)
  ]
  apply_correction_kind Review.reject p s s' c k v e = inr (inl (k, ground arith, ground arith))
  apply_correction_kind Review.restore p s s' c k v e = inr (inr (k, ground arith, ground arith))
  apply_correction_kind Review.manual_add p s s' c k v e = absurd (ground arith)

  -- A valid request that is applied is one of the three kinds, and keeps the id.
  pub apply_correction-IsApplied :
      (p : SymbolCorrectionRequest) (s s' : DetectedSymbol F) (c : Option String)
      → validate_correction p ≡ ok tt
      → apply_correction p s ≡ some (s', c)
      → IsApplied p s s' c
  unfolding apply_correction validate_correction has_class
  apply_correction-IsApplied p s s' c v e =
      apply_correction_kind p.correction_type p s s' c refl v e

  pub apply_correction-id :
      (p : SymbolCorrectionRequest) (s s' : DetectedSymbol F) (c : Option String)
      → apply_correction p s ≡ some (s', c)
      → s'.id ≡ s.id
  unfolding apply_correction
  apply_correction-id p s s' c e = ground arith
