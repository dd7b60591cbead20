-- ===== src/Scan.antt =====
-- The scan worker: the answer of the virus scanner (workers/scan/clamav_client.py) and the task that moves
-- a drawing out of Scanning (workers/scan/tasks.py).
pub mod Deliveries
pub mod Overlap
pub mod Clamd
pub mod Outcome
mod Tests
use pid_docs.Prelude.{
  ℕ, String, text_eq, Bool, true, false, Option, none, some, List, [], ◌∷◌, ◌++◌, if◌then◌else◌,
}
use pid_docs.Prelude.Exec.{Result, ok, err}
use pid_docs.Db.{Drawing, ProcessingState, get_drawing, update_drawing}
use pid_docs.Db

-- `ScanResult`: clean, or the signature that was found.
pub data ScanResult : Type 0 where
  clean : ScanResult
  infected : String → ScanResult

-- What `self.retry(exc=...)` raises: Celery's `Retry`, its `MaxRetriesExceededError`, or `exc` itself.
pub data Retry : Type 0 where
  scheduled exceeded reraised : Retry

pub data Failure : Type 0 where
  bad_payload storage_error connection_error retry_requested : Failure
  commit_error publish_error send_error : Failure

-- `ScanJobPayload`
pub record ScanJobPayload : Type 0 where
  pub drawing_id : String
  pub storage_reference : String
  pub user_id : String

-- `MLInferenceJobPayload`, whose page range is none here
pub record MlInferenceJobPayload : Type 0 where
  pub storage_reference : String
  pub drawing_id : String
  pub user_id : String

-- `DrawingStatusSSEEvent`
pub record StatusEvent : Type 0 where
  pub drawing_id : ℕ
  pub state : ProcessingState

-- One delivery's surroundings: which calls succeed, what clamd answers (none when it is unreachable; an
-- empty answer stands for `None` too), and what Celery's retry raises.
pub record Outside : Type 0 where
  pub fetches : Bool
  pub reply : Option (List (String × String))
  pub retry : Retry
  pub commits : Bool
  pub publishes : Bool
  pub sends : Bool

-- The drawings, and the status events and ML jobs sent.
pub record World : Type 0 where
  pub drawings : List Drawing
  pub events : List StatusEvent
  pub ml_jobs : List MlInferenceJobPayload

-- the first FOUND of the answer
pub find_infection : List (String × String) → Option String
find_infection [] = none
find_infection ((status, reason) ∷ rest) =
    if text_eq status "FOUND" then some reason else find_infection rest

-- `scan_stream`, where none is a `ClamAVConnectionError`
pub scan_stream : Option (List (String × String)) → Option ScanResult
unfolding find_infection
scan_stream none = none
scan_stream (some []) = some clean
scan_stream (some (entry ∷ rest)) = elim (find_infection (entry ∷ rest)) [
  | some reason ↦ some (infected reason)
  | none ↦ none
]

abbrev pub Run : Type 0
Run = Result Failure Unit × World

abbrev pub is_scanning : Drawing → Bool
is_scanning d = elim d.processing_state [ Db.scanning ↦ true | _ ↦ false ]

abbrev pub with_state : ProcessingState → Drawing → Drawing
with_state s d = record d { processing_state = s }

commit_state : Outside → ℕ → ProcessingState → World → Run
commit_state out k s w =
    if out.commits
    then (ok tt, record w { drawings = update_drawing k (with_state s) w.drawings })
    else (err commit_error, w)

emit_status : Outside → ℕ → ProcessingState → World → Run
emit_status out k s w =
    if out.publishes
    then (ok tt, record w { events = w.events ++ record { drawing_id = k; state = s } ∷ [] })
    else (err publish_error, w)

-- the commit first, then the event
pub commit_state_and_publish : Outside → ℕ → ProcessingState → World → Run
unfolding commit_state emit_status
commit_state_and_publish out k s w =
    let (r, w') = commit_state out k s w in
    elim r [ err e ↦ (err e, w') | ok _ ↦ emit_status out k s w' ]

pub send_ml_job : Outside → ScanJobPayload → World → Run
send_ml_job out p w =
    if out.sends
    then (
      ok tt,
      record w {
        ml_jobs =
            w.ml_jobs
            ++ record {
              storage_reference = p.storage_reference;
              drawing_id = p.drawing_id;
              user_id = p.user_id;
            }
              ∷ [];
      },
    )
    else (err send_error, w)

pub handle_unreachable : Outside → ℕ → World → Run
unfolding commit_state_and_publish
handle_unreachable out k w = elim out.retry [
  | scheduled ↦ (err retry_requested, w)
  | exceeded ↦ commit_state_and_publish out k Db.failed w
  | reraised ↦ (err connection_error, w)
]

pub handle_clean : Outside → ScanJobPayload → ℕ → World → Run
unfolding commit_state_and_publish send_ml_job
handle_clean out p k w =
    let (r, w') = commit_state_and_publish out k Db.processing w in
    elim r [ err e ↦ (err e, w') | ok _ ↦ send_ml_job out p w' ]

-- behind the check that the drawing is Scanning
pub scan_file : Outside → ScanJobPayload → ℕ → World → Run
unfolding scan_stream handle_unreachable handle_clean commit_state_and_publish
scan_file out p k w =
    if out.fetches
    then elim (scan_stream out.reply) [
      | none ↦ handle_unreachable out k w
      | some clean ↦ handle_clean out p k w
      | some (infected reason) ↦ commit_state_and_publish out k Db.scan_failed w
    ]
    else (err storage_error, w)

unfoldable pub scan_drawing : (String → Option ℕ) → Outside → ScanJobPayload → World → Run
unfolding scan_file
scan_drawing parse_uuid out p w = elim (parse_uuid p.drawing_id) [
  | none ↦ (err bad_payload, w)
  | some k ↦ elim (get_drawing k w.drawings) [
    | none ↦ (ok tt, w)
    | some d ↦ if is_scanning d then scan_file out p k w else (ok tt, w)
  ]
]
