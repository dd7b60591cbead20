-- ===== src/Scan/Outcome.antt =====
-- One delivery of the scan task (workers/scan/tasks.py).
use pid_docs.Prelude.{
  ℕ, String, Option, none, some, List, ◌≡◌, ◌≢◌, ◌⊎◌, inl, inr, refl, ◌∙◌, Bool-cases, Option-cases,
  arith,
}
use mathlib.Core.Option
use pid_docs.Prelude.Exec.{ok, err}
use pid_docs.Db.{Drawing, ProcessingState, get_drawing, update_drawing}
use pid_docs.Db
use pid_docs.Db.Tables.{get-update_self}
use pid_docs.Scan.{
  ScanResult, clean, infected, Retry, Failure, ScanJobPayload, MlInferenceJobPayload, StatusEvent,
  Outside, World, scan_stream, is_scanning, with_state, commit_state, emit_status,
  commit_state_and_publish, send_ml_job, handle_unreachable, handle_clean, scan_file, scan_drawing,
  publish_error,
}
use pid_docs.Scan

-- the committed state of a drawing
abbrev pub state_of : ℕ → World → Option ProcessingState
state_of k w = Option.map (λ (d : Drawing). d.processing_state) (get_drawing k w.drawings)

-- The states that one delivery may take a drawing between.
pub data Move (out : Outside) : ProcessingState → ProcessingState → Type 0 where
  stays : (s : ProcessingState) → Move out s s
  passes : scan_stream out.reply ≡ some clean → Move out Db.scanning Db.processing
  rejects :
      (r : String) → scan_stream out.reply ≡ some (infected r) → Move out Db.scanning Db.scan_failed
  gives_up :
      scan_stream out.reply ≡ none → out.retry ≡ Scan.exceeded → Move out Db.scanning Db.failed

abbrev pub Moved : Outside → ℕ → Drawing → World → Type 0
Moved out k d w =
    (d' : Drawing) × (get_drawing k w.drawings ≡ some d')
    × Move out d.processing_state d'.processing_state

Retry-cases : (r : Retry) → (r ≡ Scan.exceeded) ⊎ ((r ≡ Scan.scheduled) ⊎ (r ≡ Scan.reraised))
Retry-cases Scan.scheduled = inr (inl refl)
Retry-cases Scan.exceeded = inl refl
Retry-cases Scan.reraised = inr (inr refl)

scanning-cases : (s : ProcessingState) → (s ≡ Db.scanning) ⊎ (s ≢ Db.scanning)
scanning-cases Db.scanning = inl refl
scanning-cases Db.pending = inr (λ e. ground arith)
scanning-cases Db.queued = inr (λ e. ground arith)
scanning-cases Db.processing = inr (λ e. ground arith)
scanning-cases Db.complete = inr (λ e. ground arith)
scanning-cases Db.under_review = inr (λ e. ground arith)
scanning-cases Db.failed = inr (λ e. ground arith)
scanning-cases Db.scan_failed = inr (λ e. ground arith)

module _ (out : Outside) (k : ℕ) (d : Drawing) where
  -- A world whose drawings are as before, or have the new state, is one that the drawing moved to.
  commit_state_and_publish-drawings :
      (w : World) (s : ProcessingState)
      → let w' = (commit_state_and_publish out k s w).1 in
        (w'.drawings ≡ w.drawings) ⊎ (w'.drawings ≡ update_drawing k (with_state s) w.drawings)
  unfolding commit_state_and_publish commit_state emit_status
  commit_state_and_publish-drawings w s = elim (Bool-cases out.commits) [
    | inr f ↦ inl (rw f refl)
    | inl f ↦ elim (Bool-cases out.publishes) [
      | inl g ↦ inr (rw (f, g) refl)
      | inr g ↦ inr (rw (f, g) refl)
    ]
  ]

  handle_clean-drawings :
      (p : ScanJobPayload) (w : World)
      → (handle_clean out p k w).1.drawings
        ≡ (commit_state_and_publish out k Db.processing w).1.drawings
  unfolding handle_clean send_ml_job
  handle_clean-drawings p w = ground arith

  Moved_by :
      (ds ds' : List Drawing) (s : ProcessingState)
      → get_drawing k ds ≡ some d
      → (ds' ≡ ds) ⊎ (ds' ≡ update_drawing k (with_state s) ds)
      → Move out d.processing_state s
      → (d' : Drawing) × (get_drawing k ds' ≡ some d')
        × Move out d.processing_state d'.processing_state
  Moved_by ds ds' s e (inl f) m = (d, rw f e, stays d.processing_state)
  Moved_by ds ds' s e (inr f) m = (
    with_state s d,
    rw f (get-update_self (λ (x : Drawing). x.id) k (with_state s) ds (λ _. refl) ∙ rw e refl),
    m,
  )

  commit_state_and_publish-Moved :
      (w : World) (s : ProcessingState)
      → get_drawing k w.drawings ≡ some d
      → Move out d.processing_state s
      → Moved out k d (commit_state_and_publish out k s w).1
  commit_state_and_publish-Moved w s e m =
      Moved_by w.drawings (commit_state_and_publish out k s w).1.drawings s e
        (commit_state_and_publish-drawings w s) m

  handle_unreachable-Moved :
      (w : World)
      → get_drawing k w.drawings ≡ some d
      → d.processing_state ≡ Db.scanning
      → scan_stream out.reply ≡ none
      → Moved out k d (handle_unreachable out k w).1
  unfolding handle_unreachable
  handle_unreachable-Moved w e h g = elim (Retry-cases out.retry) [
    | inl f ↦
        let q : handle_unreachable out k w ≡ commit_state_and_publish out k Db.failed w =
          ground arith in
        rw q (commit_state_and_publish-Moved w Db.failed e (rw h (gives_up g f)))
    | inr (inl f) ↦
        let q : handle_unreachable out k w ≡ (err Scan.retry_requested, w) = ground arith in
        rw q (d, e, stays d.processing_state)
    | inr (inr f) ↦
        let q : handle_unreachable out k w ≡ (err Scan.connection_error, w) = ground arith in
        rw q (d, e, stays d.processing_state)
  ]

  scan_file-Moved :
      (p : ScanJobPayload) (w : World)
      → get_drawing k w.drawings ≡ some d
      → d.processing_state ≡ Db.scanning
      → Moved out k d (scan_file out p k w).1
  unfolding scan_file
  scan_file-Moved p w e h = elim (Bool-cases out.fetches) [
    | inr f ↦
        let q : scan_file out p k w ≡ (err Scan.storage_error, w) = ground arith in
        rw q (d, e, stays d.processing_state)
    | inl f ↦ elim (Option-cases (scan_stream out.reply)) [
      | inl g ↦
          let q : scan_file out p k w ≡ handle_unreachable out k w = ground arith in
          rw q (handle_unreachable-Moved w e h g)
      | inr (clean, g) ↦
          let q : scan_file out p k w ≡ handle_clean out p k w = ground arith in
          rw (q, handle_clean-drawings p w)
            (commit_state_and_publish-Moved w Db.processing e (rw h (passes g)))
      | inr (infected r, g) ↦
          let q : scan_file out p k w ≡ commit_state_and_publish out k Db.scan_failed w =
            ground arith in
          rw q (commit_state_and_publish-Moved w Db.scan_failed e (rw h (rejects r g)))
    ]
  ]

module _ (parse_uuid : String → Option ℕ) (out : Outside) (p : ScanJobPayload) (k : ℕ)
    (parsed : parse_uuid p.drawing_id ≡ some k) where
  -- A drawing that is missing or not Scanning is left alone: a second delivery writes nothing, publishes
  -- nothing and sends nothing.
  pub scan_drawing_idle :
      (w : World) → state_of k w ≢ some Db.scanning → scan_drawing parse_uuid out p w ≡ (ok tt, w)
  unfolding scan_drawing
  scan_drawing_idle w ne = ground arith

  -- For an existing drawing that the payload names: whatever happens, a delivery leaves its state,
  -- or takes it from Scanning to Processing on a clean answer, to Scan_Failed on an infection, or
  -- to Failed when clamd is unreachable and `MaxRetriesExceededError` is raised.
  pub scan_drawing-Move :
      (w : World) (d : Drawing)
      → get_drawing k w.drawings ≡ some d
      → Moved out k d (scan_drawing parse_uuid out p w).1
  unfolding scan_drawing
  scan_drawing-Move w d e = elim (scanning-cases d.processing_state) [
    | inl f ↦
        let q : scan_drawing parse_uuid out p w ≡ scan_file out p k w = ground arith in
        rw q (scan_file-Moved out k d p w e f)
    | inr f ↦
        let q : scan_drawing parse_uuid out p w ≡ (ok tt, w) = ground arith in
        rw q (d, e, stays d.processing_state)
  ]
