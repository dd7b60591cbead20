-- ===== src/Review/Corrections/Manual.antt =====
-- `create_manual_symbol` (services/correction_service.py): a symbol drawn by the user, with its
-- `manual_add` correction.
use pid_docs.Prelude.{
  ℕ, String, leb, ◌&&◌, true, false, Option, none, ◌≡◌, ◌⊎◌, ◌≤◌, ◌++◌, arith, Bool-cases,
  Option-cases, List, refl, inl, inr, some, [], ◌∷◌, if◌then◌else◌,
}
use pid_docs.Prelude.Exec.{ok, err, Exec, Result-cases}
use pid_docs.Auth.Permissions.{CurrentUser, may}
use pid_docs.Consent.{drawing_consent}
use pid_docs.Db.{Drawing, get_drawing}
use pid_docs.Db.Tables.{get-key}
use pid_docs.Review.Corrections.Effects.{AreReviewed, logged, transition-AreReviewed}
use pid_docs.Review.{
  SymbolSource, DetectedSymbol, Tables, Failure, get_drawing_or_404, assert_drawing_access,
  unprocessable, forbidden, database_error,
}
use pid_docs.Review
use pid_docs.Review.Page.{SymbolRecord, to_symbol_record}
use pid_docs.Review.Corrections.{
  ManualSymbolCreateRequest, Outside, World, new_correction, transition_to_under_review, finish,
  is_entity_class,
}

get_drawing_or_404-found :
    (parse_uuid : String → Option ℕ) (raw : String) (drawings : List Drawing) (d : Drawing)
    → get_drawing_or_404 parse_uuid raw drawings ≡ ok d
    → get_drawing d.id drawings ≡ some d
unfolding get_drawing_or_404
get_drawing_or_404-found parse_uuid raw drawings d e = elim (Option-cases (parse_uuid raw)) [
  | inl f ↦ absurd (ground arith)
  | inr (pk, f) ↦
      let g : get_drawing pk drawings ≡ some d = ground arith in
      get-key (λ (x : Drawing). x.id) pk drawings d g
]

-- `one` is the float 1.0.
module _ {F : Type 0} (one : F) where
  abbrev pub manual_symbol : Outside → ManualSymbolCreateRequest F → Drawing → DetectedSymbol F
  manual_symbol out p d = record {
    id = out.symbol_id;
    drawing_id = d.id;
    entity_class_id = p.entity_class_id;
    subtype = some p.subtype;
    tag_label = p.tag_label;
    confidence = one;
    bbox = p.bbox;
    source = SymbolSource.manual;
    rejected = false;
    page_number = p.page_number;
  }

  unfoldable pub with_manual_symbol :
      Outside → ManualSymbolCreateRequest F → CurrentUser → Drawing → Tables F → Tables F
  with_manual_symbol out p user d t = record {
    drawings = transition_to_under_review d.id t.drawings;
    symbols = t.symbols ++ manual_symbol out p d ∷ [];
    corrections =
        t.corrections
        ++ new_correction out user out.symbol_id Review.manual_add none
            (drawing_consent d t.consents)
          ∷ [];
    consents = t.consents;
  }

  pub create_manual_symbol :
      (String → Option ℕ)
      → Outside
      → String
      → ManualSymbolCreateRequest F
      → CurrentUser
      → Exec (World F) Failure (SymbolRecord F)
  unfolding with_manual_symbol
  create_manual_symbol parse_uuid out raw p user w =
      elim (get_drawing_or_404 parse_uuid raw w.tables.drawings) [
        | err e ↦ (err e, w)
        | ok d ↦ elim (assert_drawing_access user d "symbol_correct") [
          | err e ↦ (err e, w)
          | ok _ ↦
              finish out
                (record { user_id = user.id; drawing_id = d.id; symbol_id = out.symbol_id })
                (to_symbol_record (manual_symbol out p d))
                (with_manual_symbol out p user d w.tables) w
        ]
      ]

  -- `POST /drawings/{id}/symbols`, whose page number is at least 1 and whose class is one of the eight
  pub post_symbol :
      (String → Option ℕ)
      → Outside
      → String
      → ManualSymbolCreateRequest F
      → CurrentUser
      → Exec (World F) Failure (SymbolRecord F)
  unfolding create_manual_symbol
  post_symbol parse_uuid out raw p user w =
      if leb 1 p.page_number && is_entity_class p.entity_class_id
      then create_manual_symbol parse_uuid out raw p user w
      else (err unprocessable, w)

  post_symbol_found :
      (parse_uuid : String → Option ℕ) (out : Outside) (raw : String)
      (p : ManualSymbolCreateRequest F) (user : CurrentUser) (w : World F) (d : Drawing)
      → get_drawing_or_404 parse_uuid raw w.tables.drawings ≡ ok d
      → let (r, w') = post_symbol parse_uuid out raw p user w in
        ((e : Failure) × (r ≡ err e) × (w' ≡ w))
        ⊎ ((d : Drawing) × (get_drawing_or_404 parse_uuid raw w.tables.drawings ≡ ok d)
            × (may user "symbol_correct" d.owner_user_id d.owner_team_id ≡ true)
            × (1 ≤ p.page_number)
            × (r ≡ ok (to_symbol_record (manual_symbol out p d)))
            × (w'.tables ≡ with_manual_symbol out p user d w.tables))
  unfolding post_symbol create_manual_symbol finish assert_drawing_access
  post_symbol_found parse_uuid out raw p user w d h =
      elim (Bool-cases (leb 1 p.page_number && is_entity_class p.entity_class_id)) [
        | inr i ↦ inl (unprocessable, ground arith, ground arith)
        | inl i ↦ elim (Bool-cases (may user "symbol_correct" d.owner_user_id d.owner_team_id)) [
          | inr j ↦ inl (forbidden, ground arith, ground arith)
          | inl j ↦ elim (Bool-cases out.commits) [
            | inr k ↦ inl (database_error, ground arith, ground arith)
            | inl k ↦ inr (d, h, j, ground arith, ground arith, ground arith)
          ]
        ]
      ]

  -- A manual symbol that succeeds has committed the transaction of `with_manual_symbol`.
  pub post_symbol-with_manual_symbol :
      (parse_uuid : String → Option ℕ) (out : Outside) (raw : String)
      (p : ManualSymbolCreateRequest F) (user : CurrentUser) (w : World F)
      → let (r, w') = post_symbol parse_uuid out raw p user w in
        ((e : Failure) × (r ≡ err e) × (w' ≡ w))
        ⊎ ((d : Drawing) × (get_drawing_or_404 parse_uuid raw w.tables.drawings ≡ ok d)
            × (may user "symbol_correct" d.owner_user_id d.owner_team_id ≡ true)
            × (1 ≤ p.page_number)
            × (r ≡ ok (to_symbol_record (manual_symbol out p d)))
            × (w'.tables ≡ with_manual_symbol out p user d w.tables))
  unfolding post_symbol create_manual_symbol finish assert_drawing_access
  post_symbol-with_manual_symbol parse_uuid out raw p user w =
      elim (Result-cases (get_drawing_or_404 parse_uuid raw w.tables.drawings)) [
        | inl (e, h) ↦
            elim (Bool-cases (leb 1 p.page_number && is_entity_class p.entity_class_id)) [
              | inl i ↦ inl (e, ground arith, ground arith)
              | inr i ↦ inl (unprocessable, ground arith, ground arith)
            ]
        | inr (d, h) ↦ post_symbol_found parse_uuid out raw p user w d h
      ]

  -- A manual symbol either fails and changes nothing, or it is for an existing drawing that the caller may correct,
  -- with a page number of at least 1. Then exactly one symbol is added, the one of the request, unrejected, with the
  -- source "manual" and the confidence 1.0, and exactly one `manual_add` correction, of this user and symbol with the
  -- consent found for the drawing; the drawing is under review if it was complete, every other one and the consents
  -- are as they were, and the answer is the new symbol.
  pub post_symbol_lem :
      (parse_uuid : String → Option ℕ) (out : Outside) (raw : String)
      (p : ManualSymbolCreateRequest F) (user : CurrentUser) (w : World F)
      → let (r, w') = post_symbol parse_uuid out raw p user w in
        let t = w.tables in
        let t' = w'.tables in
        ((e : Failure) × (r ≡ err e) × (w' ≡ w))
        ⊎ ((d : Drawing) × (s : DetectedSymbol F) × (get_drawing_or_404 parse_uuid raw t.drawings
              ≡ ok d)
            × (may user "symbol_correct" d.owner_user_id d.owner_team_id ≡ true)
            × (1 ≤ p.page_number)
            × (s ≡ record {
              id = out.symbol_id;
              drawing_id = d.id;
              entity_class_id = p.entity_class_id;
              subtype = some p.subtype;
              tag_label = p.tag_label;
              confidence = one;
              bbox = p.bbox;
              source = SymbolSource.manual;
              rejected = false;
              page_number = p.page_number;
            })
            × (r ≡ ok (to_symbol_record s))
            × (t'.symbols ≡ t.symbols ++ s ∷ [])
            × (t'.corrections
                ≡ logged out user s.id Review.manual_add none
                    (drawing_consent d t.consents)
                    t.corrections)
            × AreReviewed d t.drawings t'.drawings
            × (t'.consents ≡ t.consents))
  unfolding with_manual_symbol
  post_symbol_lem parse_uuid out raw p user w =
      elim (post_symbol-with_manual_symbol parse_uuid out raw p user w) [
        | inl failed ↦ inl failed
        | inr (d, found, allowed, page, answer, tables) ↦ inr (
          d,
          manual_symbol out p d,
          found,
          allowed,
          page,
          refl,
          answer,
          rw tables refl,
          rw tables refl,
          rw tables (
              transition-AreReviewed d w.tables.drawings
                (get_drawing_or_404-found parse_uuid raw w.tables.drawings d found)),
          rw tables refl,
        )
      ]
