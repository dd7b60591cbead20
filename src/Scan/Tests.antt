-- ===== src/Scan/Tests.antt =====
-- Deliveries of a scan job at concrete inputs.
use pid_docs.Prelude.{◌≤◌, true, false, none, some, [], ◌∷◌, ◌≡◌, refl, length}
use pid_docs.Db.{Drawing, ProcessingState}
use pid_docs.Db
use pid_docs.Db.Tables.{get, update}
use pid_docs.Scan.{Outside, World, ScanJobPayload, scan_drawing, reraised}
use pid_docs.Scan.Outcome.{state_of, Moved, scan_drawing-Move}
use pid_docs.Scan.Deliveries.{deliver, deliver_once, deliver_after_publish_error}
use pid_docs.Samples.{drawing, parse_uuid}

abbrev payload : ScanJobPayload
payload = record { drawing_id = "3"; storage_reference = "drawings/3/original.pdf"; user_id = "1" }

abbrev waiting : Drawing
waiting = record drawing { processing_state = Db.scanning }

abbrev world : World
world = record { drawings = waiting ∷ []; events = []; ml_jobs = [] }

abbrev good : Outside
good = record {
  fetches = true;
  reply = some [];
  retry = reraised;
  commits = true;
  publishes = true;
  sends = true;
}

abbrev unpublished : Outside
unpublished = record good { publishes = false }

abbrev unreachable : Outside
unreachable = record good { reply = none }

scan_drawing-Move_example :
    Moved unreachable 3 waiting (scan_drawing parse_uuid unreachable payload world).1
unfolding get
scan_drawing-Move_example =
    scan_drawing-Move parse_uuid unreachable payload 3 refl world waiting refl

deliver_once_example :
    length (deliver parse_uuid payload (unreachable ∷ good ∷ good ∷ []) world).ml_jobs ≤ 1
deliver_once_example = deliver_once parse_uuid payload 3 refl (unreachable ∷ good ∷ good ∷ []) world

deliver_after_publish_error_example :
    (state_of 3 (deliver parse_uuid payload (unpublished ∷ good ∷ []) world) ≡ some Db.processing)
    × ((deliver parse_uuid payload (unpublished ∷ good ∷ []) world).ml_jobs ≡ [])
unfolding get update scan_drawing
deliver_after_publish_error_example =
    deliver_after_publish_error parse_uuid payload 3 refl unpublished (good ∷ []) world refl refl
