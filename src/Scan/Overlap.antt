-- ===== src/Scan/Overlap.antt =====
-- Two deliveries of one scan job that overlap (workers/scan/tasks.py): the task reads the drawing by `session.get`,
-- which takes no lock, and acts on what it read.
use pid_docs.Prelude.{ℕ, String, true, Option, some, [], ◌∷◌, ◌++◌, ◌≡◌, ◌∙◌, refl, arith}
use pid_docs.Db.{Drawing, get_drawing}
use pid_docs.Scan.{
  clean, ScanJobPayload, Outside, World, is_scanning, scan_stream, commit_state, emit_status,
  commit_state_and_publish, send_ml_job, handle_clean, scan_file, scan_drawing,
}
use pid_docs.Scan.Deliveries.{ml_job}

pub data Who : Type 0 where
  one two : Who

-- Where a delivery stands: before its read, behind a read that found the drawing Scanning, or at its end.
pub data Phase : Type 0 where
  start saw_scanning done : Phase

pub record State : Type 0 where
  pub world : World
  pub first : Phase
  pub second : Phase

abbrev pub phase : Who → State → Phase
phase one s = s.first
phase two s = s.second

abbrev pub move : Who → Phase → State → State
move one p s = record s { first = p }
move two p s = record s { second = p }

-- A clean file, and no call that fails.
pub record IsSmooth (out : Outside) : Type 0 where
  pub fetches : out.fetches ≡ true
  pub is_clean : scan_stream out.reply ≡ some clean
  pub commits : out.commits ≡ true
  pub publishes : out.publishes ≡ true
  pub sends : out.sends ≡ true

module _ (p : ScanJobPayload) (k : ℕ) (outside : Who → Outside) where
  pub data Step (s u : State) : Type 0 where
    read :
        (i : Who) (d : Drawing)
        → phase i s ≡ start
        → get_drawing k s.world.drawings ≡ some d
        → is_scanning d ≡ true
        → u ≡ move i saw_scanning s
        → Step s u
    act :
        (i : Who)
        → phase i s ≡ saw_scanning
        → u ≡ record (move i done s) { world = (scan_file (outside i) p k s.world).1 }
        → Step s u

  pub data Reach (s : State) : State → Type 0 where
    here : Reach s s
    next : {t u : State} → Reach s t → Step t u → Reach s u

  abbrev pub begun : World → State
  begun w = record { world = w; first = start; second = start }

  -- A delivery whose two steps follow each other is the task.
  pub scan_file-scan_drawing :
      (parse_uuid : String → Option ℕ) (i : Who) (w : World) (d : Drawing)
      → parse_uuid p.drawing_id ≡ some k
      → get_drawing k w.drawings ≡ some d
      → is_scanning d ≡ true
      → scan_drawing parse_uuid (outside i) p w ≡ scan_file (outside i) p k w
  unfolding scan_drawing
  scan_file-scan_drawing parse_uuid i w d parsed found scanning = ground arith

  smooth_job :
      (i : Who) (w : World)
      → IsSmooth (outside i)
      → (scan_file (outside i) p k w).1.ml_jobs ≡ w.ml_jobs ++ ml_job p ∷ []
  unfolding scan_file handle_clean commit_state_and_publish commit_state emit_status send_ml_job
  smooth_job i w h = ground arith

  -- Two deliveries that both read the drawing while it is Scanning, before either of them acts, can both go on: if
  -- the file is clean and no call fails, they send the ML job twice.
  pub Reach-two_jobs :
      (w : World) (d : Drawing)
      → get_drawing k w.drawings ≡ some d
      → is_scanning d ≡ true
      → IsSmooth (outside one)
      → IsSmooth (outside two)
      → (u : State) × Reach (begun w) u
        × (u.first ≡ done)
        × (u.second ≡ done)
        × (u.world.ml_jobs ≡ (w.ml_jobs ++ ml_job p ∷ []) ++ ml_job p ∷ [])
  Reach-two_jobs w d found scanning a b =
      let v = (scan_file (outside one) p k w).1 in
      (
        record { world = (scan_file (outside two) p k v).1; first = done; second = done },
        next
            (next
              (next (next here (read one d refl found scanning refl))
                (read two d refl found scanning refl))
              (act one refl refl))
            (act two refl refl),
        refl,
        refl,
        smooth_job two v b ∙ rw (smooth_job one w a) refl,
      )
