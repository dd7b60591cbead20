-- ===== src/Workers/Queues/Tests.antt =====
-- Where messages land, with patterns that are matched as documented.

use pid_docs.Prelude.{◌≡◌, refl, none}
use pid_docs.Prelude.Text.{split_at}
use pid_docs.Workers.Queues.{queue_of}
use pid_docs.Workers.Queues.Routing.{owner, queue_of-owner}
use pid_docs.Workers.Queues.Glob.{celery}

queue_of-owner_example :
    queue_of celery none none "gdpr_erasure.erase_user_pii" ≡ owner "gdpr_erasure.erase_user_pii"
queue_of-owner_example = queue_of-owner celery "gdpr_erasure.erase_user_pii"

-- The names of the scan task and of the ML task have no queue's prefix.
unrouted :
    (owner "backend.app.workers.scan.tasks.scan_drawing" ≡ "ingest")
    × (owner "backend.app.workers.ml.tasks.run_ml_inference" ≡ "ingest")
    × (owner "gdpr_erasure.erase_user_pii" ≡ "gdpr_erasure")
unfolding owner split_at
unrouted = (refl, refl, refl)
