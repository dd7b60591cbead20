-- ===== src/Workers/Queues.antt =====
-- The queues and the routing table of workers/queues.py, on the application of workers/celery_app.py. How
-- Celery matches a pattern and where it sends a message is documented behaviour, a parameter.
pub mod Routing
mod Glob
mod Tests
use Prim.Native.Char.{Char}
use Prim.Native.String as Text
use pid_docs.Prelude.{
  ℕ, String, text_eq, Bool, true, false, ◌||◌, Option, none, some, List, [], ◌∷◌, ◌≡◌, ◌↔◌, refl,
  ◌==◌, if◌then◌else◌,
}

abbrev pub queue_ingest : String
queue_ingest = "ingest"

abbrev pub queue_scan : String
queue_scan = "scan"

abbrev pub queue_ml : String
queue_ml = "ml_inference"

abbrev pub queue_export : String
queue_export = "export"

abbrev pub queue_gdpr : String
queue_gdpr = "gdpr_erasure"

abbrev pub queue_notification : String
queue_notification = "notification"

abbrev pub queue_names : List String
queue_names =
    queue_ingest ∷ queue_scan ∷ queue_ml ∷ queue_export ∷ queue_gdpr ∷ queue_notification ∷ []

-- each pattern with its queue, in the order of the dict
abbrev pub task_routes : List (String × String)
task_routes =
    ("ingest.*", queue_ingest)
    ∷ ("scan.*", queue_scan)
    ∷ ("ml_inference.*", queue_ml)
    ∷ ("export.*", queue_export)
    ∷ ("gdpr_erasure.*", queue_gdpr)
    ∷ ("notification.*", queue_notification)
    ∷ []

-- `task_default_queue`
abbrev pub task_default_queue : String
task_default_queue = queue_ingest

-- the names that begin with `p` and a dot and go on behind it
abbrev pub Below : String → String → Type 0
Below p name = (c : Char) × (rest : String) × (name ≡ Text.◌++◌ p (Text.◌∷◌ "." (Text.◌∷◌ c rest)))

-- Celery, as documented: a star stands for any characters, at least one; a message goes to the queue that the
-- call names, or else to that of the task's declaration, or else to that of the route, or else to the default.
pub record Celery : Type 0 where
  pub matches : String → String → Bool
  pub matches_star : (p name : String) → (matches (Text.◌++◌ p ".*") name ≡ true) ↔ Below p name
  pub destination : Option String → Option String → Option String → String → String
  pub named :
      (q d : String) (declared routed : Option String) → destination (some q) declared routed d ≡ q
  pub declared : (q d : String) (routed : Option String) → destination none (some q) routed d ≡ q
  pub routed : (q d : String) → destination none none (some q) d ≡ q
  pub default : (d : String) → destination none none none d ≡ d

module _ (celery : Celery) where
  open celery use {matches, destination}

  -- the first pattern that matches
  pub first_route : String → List (String × String) → Option String
  first_route name [] = none
  first_route name ((pattern, queue) ∷ routes) =
      if matches pattern name then some queue else first_route name routes

  -- the queue of a message by the queue that its call names, the one that its task declares, and its name
  pub queue_of : Option String → Option String → String → String
  unfolding first_route
  queue_of call task name = destination call task (first_route name task_routes) task_default_queue
