-- ===== src/Scan/Deliveries.antt =====
-- Repeated deliveries of one scan job (workers/scan/tasks.py), each of which ends before the next one begins: a queue
-- may hand the same message out more than once, also after the task has failed. Scan/Overlap has those that overlap.
use pid_docs.Prelude.{
  ℕ, suc, ◌≤◌, String, Option, some, List, [], ◌∷◌, ◌++◌, ◌≡◌, ◌≢◌, ◌⊎◌, ◌∙◌, inl, inr, refl, ap,
  arith, length, length-append, Option-cases,
}
use mathlib.Core.Option
use pid_docs.Prelude.Exec.{Result, err}
use pid_docs.Db.{Drawing, ProcessingState, get_drawing, update_drawing}
use pid_docs.Db
use pid_docs.Db.Tables.{get-update_self}
use pid_docs.Scan.{
  clean, Failure, ScanJobPayload, MlInferenceJobPayload, Outside, World, scan_stream, with_state,
  commit_state, emit_status, commit_state_and_publish, send_ml_job, handle_unreachable,
  handle_clean, scan_file, scan_drawing, publish_error,
}
use pid_docs.Scan.Outcome.{state_of, scan_drawing_idle}

-- the job that a payload leads to: its user is the payload's
abbrev pub ml_job : ScanJobPayload → MlInferenceJobPayload
ml_job p = record {
  storage_reference = p.storage_reference;
  drawing_id = p.drawing_id;
  user_id = p.user_id;
}

module _ (parse_uuid : String → Option ℕ) (p : ScanJobPayload) where
  -- the task, once for each delivery, one behind the other
  pub deliver : List Outside → World → World
  deliver [] w = w
  deliver (out ∷ outs) w = deliver outs (scan_drawing parse_uuid out p w).1

  module _ (k : ℕ) (parsed : parse_uuid p.drawing_id ≡ some k) where
    deliver_idle :
        (outs : List Outside) (w : World) → state_of k w ≢ some Db.scanning → deliver outs w ≡ w
    unfolding deliver
    deliver_idle [] w ne = refl
    deliver_idle (out ∷ outs) w ne =
        ap (λ (r : Result Failure Unit × World). deliver outs r.1)
          (scan_drawing_idle parse_uuid out p k parsed w ne)
        ∙ deliver_idle outs w ne

    state-committed :
        (s : ProcessingState) (w : World) (d : Drawing)
        → get_drawing k w.drawings ≡ some d
        → Option.map
            (λ (x : Drawing). x.processing_state)
            (get_drawing k (update_drawing k (with_state s) w.drawings))
          ≡ some s
    state-committed s w d e =
        ground
          (arith, get-update_self (λ (x : Drawing). x.id) k (with_state s) w.drawings (λ _. refl))

    -- One delivery sends no ML job, or exactly one, for the payload's own user, and then the drawing has
    -- left Scanning for Processing.
    pub scan_drawing-ml_jobs :
        (out : Outside) (w : World)
        → let w' = (scan_drawing parse_uuid out p w).1 in
          (w'.ml_jobs ≡ w.ml_jobs)
          ⊎ ((w'.ml_jobs ≡ w.ml_jobs ++ ml_job p ∷ [])
              × (state_of k w ≡ some Db.scanning)
              × (scan_stream out.reply ≡ some clean)
              × (state_of k w' ≡ some Db.processing))
    unfolding scan_drawing scan_file handle_unreachable handle_clean commit_state_and_publish
        commit_state emit_status send_ml_job
    scan_drawing-ml_jobs out w = elim (Option-cases (get_drawing k w.drawings)) [
      | inl e ↦ inl (ground arith)
      | inr (d, e) ↦ ground (arith, state-committed Db.processing w d e)
    ]

    -- For a payload whose drawing id parses: any number of deliveries of which each ends before the next one begins,
    -- whichever calls of them fail, send at most one ML job.
    pub deliver_once :
        (outs : List Outside) (w : World) → length (deliver outs w).ml_jobs ≤ suc (length w.ml_jobs)
    unfolding deliver
    deliver_once [] w = omega arith
    deliver_once (out ∷ outs) w =
        let w' = (scan_drawing parse_uuid out p w).1 in
        elim (scan_drawing-ml_jobs out w) [
          | inl e ↦ ground (arith, deliver_once outs w')
          | inr (e, _, _, s) ↦
              ground (arith, deliver_idle outs w', length-append w.ml_jobs (ml_job p ∷ []))
        ]

    publish_error_state :
        (out : Outside) (w : World)
        → (scan_drawing parse_uuid out p w).0 ≡ err publish_error
        → scan_stream out.reply ≡ some clean
        → let w' = (scan_drawing parse_uuid out p w).1 in
          (state_of k w' ≡ some Db.processing) × (w'.ml_jobs ≡ w.ml_jobs)
    unfolding scan_drawing scan_file handle_unreachable handle_clean commit_state_and_publish
        commit_state emit_status send_ml_job
    publish_error_state out w h c = elim (Option-cases (get_drawing k w.drawings)) [
      | inl e ↦ absurd (ground arith)
      | inr (d, e) ↦ ground (arith, state-committed Db.processing w d e)
    ]

    -- If a delivery of a clean file ends in the error of the publication, which comes after the
    -- commit, then behind it and any further deliveries the drawing is Processing, and no ML job
    -- has been sent for it.
    pub deliver_after_publish_error :
        (out : Outside) (outs : List Outside) (w : World)
        → (scan_drawing parse_uuid out p w).0 ≡ err publish_error
        → scan_stream out.reply ≡ some clean
        → (state_of k (deliver (out ∷ outs) w) ≡ some Db.processing)
          × ((deliver (out ∷ outs) w).ml_jobs ≡ w.ml_jobs)
    unfolding deliver
    deliver_after_publish_error out outs w h c =
        let (s, j) = publish_error_state out w h c in
        rw (deliver_idle outs (scan_drawing parse_uuid out p w).1 (λ e. ground arith)) (s, j)

    -- A published state is the committed one: a delivery publishes nothing, or one event whose state is
    -- the state of the drawing after the delivery.
    pub scan_drawing-events :
        (out : Outside) (w : World) (s : ProcessingState)
        → state_of k (scan_drawing parse_uuid out p w).1 ≡ some s
        → let w' = (scan_drawing parse_uuid out p w).1 in
          (w'.events ≡ w.events)
          ⊎ (w'.events ≡ w.events ++ record { drawing_id = k; state = s } ∷ [])
    unfolding scan_drawing scan_file handle_unreachable handle_clean commit_state_and_publish
        commit_state emit_status send_ml_job
    scan_drawing-events out w s h = elim (Option-cases (get_drawing k w.drawings)) [
      | inl e ↦ inl (ground arith)
      | inr (d, e) ↦ ground (
        arith,
        state-committed Db.processing w d e,
        state-committed Db.failed w d e,
        state-committed Db.scan_failed w d e,
      )
    ]
