-- ===== src/Review/Corrections/Laws.antt =====
-- The writes of a review (services/correction_service.py).
use pid_docs.Prelude.{
  ℕ, String, true, false, Option, none, some, List, [], ◌∷◌, ◌++◌, ◌≡◌, ◌≢◌, refl, arith,
  Option-cases, Bool-cases, inl, inr,
}
use pid_docs.Prelude.Exec.{ok, err, Result-cases}
use pid_docs.Auth.Permissions.{CurrentUser, may}
use pid_docs.Consent.{drawing_consent}
use pid_docs.Db.{Drawing, get_drawing}
use pid_docs.Db.Tables.{get-replace_ne, get-key}
use pid_docs.Review.{
  DetectedSymbol, UserCorrection, Tables, Failure, assert_drawing_access, integrity_error,
  database_error, forbidden,
}
use pid_docs.Review
use pid_docs.Review.Page.{SymbolRecord, to_symbol_record}
use pid_docs.Review.Corrections.Effects.{
  AreReviewed, AreCorrected, IsApplied, logged, replace-AreCorrected, transition-AreReviewed,
  apply_correction-IsApplied, apply_correction-id,
}
use pid_docs.Review.Corrections.{
  update_symbol, SymbolCorrectionRequest, Outside, World, transition_to_under_review,
  validate_correction, has_class, apply_correction, get_symbol, get_symbol_or_404, new_correction,
  corrected, finish, write_correction, correct_symbol, create_correction, patch_symbol,
}

-- Correcting a second time finds nothing to move.
pub transition_to_under_review_idem :
    (k : ℕ) (ds : List Drawing)
    → transition_to_under_review k (transition_to_under_review k ds)
      ≡ transition_to_under_review k ds
unfolding transition_to_under_review
transition_to_under_review_idem k [] = refl
transition_to_under_review_idem k (d ∷ ds) = ground (arith, transition_to_under_review_idem k ds)

module _ {F : Type 0} (out : Outside) (p : SymbolCorrectionRequest) (user : CurrentUser) where
  write_correction-ok :
      (d : Drawing) (s : DetectedSymbol F) (w : World F) (r : SymbolRecord F)
      → (write_correction out p user d s w).0 ≡ ok r
      → (s' : DetectedSymbol F) × (c : Option String) × (apply_correction p s ≡ some (s', c))
        × (r ≡ to_symbol_record s')
        × ((write_correction out p user d s w).1.tables ≡ corrected out p user d s' c w.tables)
  unfolding write_correction finish
  write_correction-ok d s w r h = elim (Option-cases (apply_correction p s)) [
    | inl e ↦ absurd (ground arith)
    | inr ((s', c), e) ↦ (s', c, e, ground arith, ground arith)
  ]

  correct_symbol-ok :
      (s : DetectedSymbol F) (w : World F) (r : SymbolRecord F)
      → (correct_symbol out p user s w).0 ≡ ok r
      → (d : Drawing) × (s' : DetectedSymbol F) × (c : Option String) × (get_drawing s.drawing_id
            w.tables.drawings
          ≡ some d)
        × (may user "symbol_correct" d.owner_user_id d.owner_team_id ≡ true)
        × (apply_correction p s ≡ some (s', c))
        × (r ≡ to_symbol_record s')
        × ((correct_symbol out p user s w).1.tables ≡ corrected out p user d s' c w.tables)
  unfolding correct_symbol assert_drawing_access
  correct_symbol-ok s w r h = elim (Option-cases (get_drawing s.drawing_id w.tables.drawings)) [
    | inl e ↦ absurd (ground arith)
    | inr (d, e) ↦ elim (Bool-cases (may user "symbol_correct" d.owner_user_id d.owner_team_id)) [
      | inr f ↦ absurd (ground arith)
      | inl f ↦
          let (s', c, g, i, j) = write_correction-ok d s w r (ground arith) in
          (d, s', c, e, f, g, i, ground arith)
    ]
  ]

module _ {F : Type 0} (parse_uuid : String → Option ℕ) (out : Outside) (raw : String)
    (user : CurrentUser) where
  -- A request that fails, at whatever check or in the transaction, leaves the tables as they were and
  -- sends no event.
  pub patch_symbol-fails :
      (p : SymbolCorrectionRequest) (w : World F) (e : Failure)
      → (patch_symbol parse_uuid out raw p user w).0 ≡ err e
      → (patch_symbol parse_uuid out raw p user w).1 ≡ w
  unfolding patch_symbol create_correction correct_symbol write_correction finish
  patch_symbol-fails p w e h = ground arith

  -- A request that succeeds has committed the transaction of `corrected`.
  pub patch_symbol-corrected :
      (p : SymbolCorrectionRequest) (w : World F) (r : SymbolRecord F)
      → (patch_symbol parse_uuid out raw p user w).0 ≡ ok r
      → (s : DetectedSymbol F) × (d : Drawing) × (s' : DetectedSymbol F) × (c : Option String)
        × (get_symbol_or_404 parse_uuid raw w.tables.symbols ≡ ok s)
        × (get_drawing s.drawing_id w.tables.drawings ≡ some d)
        × (may user "symbol_correct" d.owner_user_id d.owner_team_id ≡ true)
        × (apply_correction p s ≡ some (s', c))
        × (r ≡ to_symbol_record s')
        × ((patch_symbol parse_uuid out raw p user w).1.tables
            ≡ corrected out p user d s' c w.tables)
  unfolding patch_symbol create_correction correct_symbol write_correction finish
      assert_drawing_access
  patch_symbol-corrected p w r h = elim (Option-cases p.table_cell_id) [
    | inr (c, a) ↦ absurd (ground arith)
    | inl a ↦ elim (Result-cases (get_symbol_or_404 parse_uuid raw w.tables.symbols)) [
      | inl (e, b) ↦ absurd (ground arith)
      | inr (s, b) ↦
          let (d, s', c, e, f, g, i, j) = correct_symbol-ok out p user s w r (ground arith) in
          (s, d, s', c, b, e, f, g, i, ground arith)
    ]
  ]

  get_symbol-found :
      (symbols : List (DetectedSymbol F)) (s : DetectedSymbol F)
      → get_symbol_or_404 parse_uuid raw symbols ≡ ok s
      → get_symbol s.id symbols ≡ some s
  unfolding get_symbol_or_404
  get_symbol-found symbols s e = elim (Option-cases (parse_uuid raw)) [
    | inl f ↦ absurd (ground arith)
    | inr (pk, f) ↦
        let g : get_symbol pk symbols ≡ some s = ground arith in
        get-key (λ (x : DetectedSymbol F). x.id) pk symbols s g
  ]

  corrected-AreCorrected :
      (p : SymbolCorrectionRequest) (w : World F) (s s' : DetectedSymbol F) (c : Option String)
      → get_symbol_or_404 parse_uuid raw w.tables.symbols ≡ ok s
      → apply_correction p s ≡ some (s', c)
      → AreCorrected s' w.tables.symbols (update_symbol s'.id (λ _. s') w.tables.symbols)
  corrected-AreCorrected p w s s' c found applied =
      replace-AreCorrected s' s w.tables.symbols
        (rw (apply_correction-id p s s' c applied) (get_symbol-found w.tables.symbols s found))

  validated :
      (p : SymbolCorrectionRequest) (w : World F) (r : SymbolRecord F)
      → (patch_symbol parse_uuid out raw p user w).0 ≡ ok r
      → validate_correction p ≡ ok tt
  unfolding patch_symbol
  validated p w r h = elim (Result-cases (validate_correction p)) [
    | inl (e, f) ↦ absurd (ground arith)
    | inr (u, f) ↦ f
  ]

  -- A request that succeeds names an existing symbol whose drawing exists and may be corrected by the caller, and
  -- reclassifies, rejects or restores it. Behind it the symbol is the corrected one and the other symbols are as they
  -- were, the corrections have exactly one row more, that of this user and symbol with the consent found for the
  -- drawing, the drawing is under review if it was complete and every other one is as it was, and the consents are
  -- as they were; the answer is the corrected symbol.
  pub patch_symbol-succeeds :
      (p : SymbolCorrectionRequest) (w : World F) (r : SymbolRecord F)
      → (patch_symbol parse_uuid out raw p user w).0 ≡ ok r
      → let t = w.tables in
        let t' = (patch_symbol parse_uuid out raw p user w).1.tables in
        (s : DetectedSymbol F) × (d : Drawing) × (s' : DetectedSymbol F) × (c : Option String)
        × (get_symbol_or_404 parse_uuid raw t.symbols ≡ ok s)
        × (get_drawing s.drawing_id t.drawings ≡ some d)
        × (may user "symbol_correct" d.owner_user_id d.owner_team_id ≡ true)
        × IsApplied p s s' c
        × (r ≡ to_symbol_record s')
        × AreCorrected s' t.symbols t'.symbols
        × (t'.corrections
            ≡ logged out user s'.id p.correction_type c
                (drawing_consent d t.consents)
                t.corrections)
        × AreReviewed d t.drawings t'.drawings
        × (t'.consents ≡ t.consents)
  unfolding corrected
  patch_symbol-succeeds p w r h =
      let (s, d, s', c, found, drawing, allowed, applied, answer, tables) =
        patch_symbol-corrected p w r h in
      (
        s,
        d,
        s',
        c,
        found,
        drawing,
        allowed,
        apply_correction-IsApplied p s s' c (validated p w r h) applied,
        answer,
        rw tables (corrected-AreCorrected p w s s' c found applied),
        rw tables refl,
        rw tables (
            transition-AreReviewed d w.tables.drawings
              (get-key (λ (x : Drawing). x.id) s.drawing_id w.tables.drawings d drawing)),
        rw tables refl,
      )

  -- The request's checks keep the database from ever refusing a reclassification without a class.
  pub patch_symbol_valid :
      (p : SymbolCorrectionRequest) (w : World F)
      → (patch_symbol parse_uuid out raw p user w).0 ≢ err integrity_error
  unfolding patch_symbol validate_correction has_class create_correction get_symbol_or_404
      correct_symbol assert_drawing_access write_correction apply_correction finish
  patch_symbol_valid p w h = ground arith

module _ {F : Type 0} where
  -- The table of symbols keeps every row but the corrected one, and one correction is added at the end,
  -- which carries the consent that the server finds at this moment.
  pub corrected_lem :
      (out : Outside) (p : SymbolCorrectionRequest) (user : CurrentUser) (d : Drawing)
      (s : DetectedSymbol F) (c : Option String) (t : Tables F) (j : ℕ)
      → j ≢ s.id
      → let t' = corrected out p user d s c t in
        (get_symbol j t'.symbols ≡ get_symbol j t.symbols)
        × ((r : UserCorrection) × (t'.corrections ≡ t.corrections ++ r ∷ [])
            × (r.detected_symbol_id ≡ some s.id)
            × (r.user_id ≡ user.id)
            × (r.training_consent ≡ drawing_consent d t.consents))
  unfolding corrected
  corrected_lem out p user d s c t j ne = (
    get-replace_ne (λ (a : DetectedSymbol F). a.id) j s t.symbols ne,
    (
      new_correction out user s.id p.correction_type c (drawing_consent d t.consents),
      refl,
      refl,
      refl,
      refl,
    ),
  )

-- What `patch_symbol` does to the symbol by the kind of correction: a class that was given is set and
-- recorded, and a rejection and a restoration undo each other's effect on the symbol and record no class.
pub apply_correction_restore :
    {F : Type 0} (reject restore : SymbolCorrectionRequest) (s : DetectedSymbol F)
    → reject.correction_type ≡ Review.reject
    → restore.correction_type ≡ Review.restore
    → (s' : DetectedSymbol F) × (apply_correction reject s ≡ some (s', none))
      × (s'.rejected ≡ true)
      × (apply_correction restore s' ≡ some (record s { rejected = false }, none))
unfolding apply_correction
apply_correction_restore reject restore s a b =
    (record s { rejected = true }, ground arith, refl, ground arith)
