-- ===== src/DeadLetter/Events.antt =====
-- The nine events of analytics/events.py, and the switch of analytics/posthog_client.py.
use pid_docs.Prelude.{
  ℕ, String, text_eq, ◌≡◌, refl, Bool, true, false, not, ◌||◌, Option, none, some, List, [], ◌∷◌,
  ◌++◌, arith, if◌then◌else◌,
}
use pid_docs.Prelude.Exec.{Result, ok, err}
use pid_docs.Auth.Permissions.{lookup}
use pid_docs.Config.{Settings, unset, load_settings}
use pid_docs.Config.Startup.{posthog_api_key-load_settings}
use pid_docs.DeadLetter.{World}
use pid_docs.DeadLetter.Emit.{Envelope, EmitOutside, envelope, emit}

-- One call of an emitter, without the user: the ids and texts that it is given.
pub data Event : Type 0 where
  drawing_uploaded processing_complete processing_failed : String → Event
  correction_action export_downloaded free_limit_reached : String → String → Event
  export_initiated : String → String → String → Event
  subscription_upgraded subscription_downgraded : String → String → String → Event

pub event_name : Event → String
event_name (drawing_uploaded d) = "drawing_uploaded"
event_name (processing_complete d) = "processing_complete"
event_name (processing_failed d) = "processing_failed"
event_name (correction_action d s) = "correction_action"
event_name (export_initiated d e f) = "export_initiated"
event_name (export_downloaded d e) = "export_downloaded"
event_name (free_limit_reached d s) = "free_limit_reached"
event_name (subscription_upgraded s p n) = "subscription_upgraded"
event_name (subscription_downgraded s p n) = "subscription_downgraded"

pub event_properties : Event → List (String × String)
event_properties (drawing_uploaded d) = ("drawing_id", d) ∷ []
event_properties (processing_complete d) = ("drawing_id", d) ∷ []
event_properties (processing_failed d) = ("drawing_id", d) ∷ []
event_properties (correction_action d s) = ("drawing_id", d) ∷ ("symbol_id", s) ∷ []
event_properties (export_initiated d e f) =
    ("drawing_id", d) ∷ ("export_id", e) ∷ ("format", f) ∷ []
event_properties (export_downloaded d e) = ("drawing_id", d) ∷ ("export_id", e) ∷ []
event_properties (free_limit_reached d s) = ("drawing_id", d) ∷ ("subscription_id", s) ∷ []
event_properties (subscription_upgraded s p n) =
    ("subscription_id", s) ∷ ("previous_tier", p) ∷ ("new_tier", n) ∷ []
event_properties (subscription_downgraded s p n) =
    ("subscription_id", s) ∷ ("previous_tier", p) ∷ ("new_tier", n) ∷ []

is_export_format : String → Bool
is_export_format f = text_eq f "csv" || text_eq f "xlsx"

-- Does the emitter raise a `ValueError` before it emits?
pub is_rejected : Event → Bool
unfolding is_export_format
is_rejected (export_initiated d e f) = not (is_export_format f)
is_rejected event = false

-- the envelope that an emitter sends
pub sent_envelope : String → String → Event → Envelope
unfolding event_name event_properties
sent_envelope timestamp user_id event =
    envelope timestamp (event_name event) user_id (event_properties event)

-- What an emitter raises.
pub data Rejection : Type 0 where
  value_error : Rejection

module _ {Raw : Type 0} (dumps : Envelope → Raw) where
  -- the emitters
  pub emit_event :
      EmitOutside → String → Event → World Raw Envelope → Result Rejection Unit × World Raw Envelope
  unfolding event_name event_properties is_rejected
  emit_event out user_id event w =
      if is_rejected event
      then (err value_error, w)
      else (ok tt, emit dumps out (event_name event) user_id (event_properties event) w)

-- What every envelope carries, whatever its event.
pub record Stamped (timestamp user_id : String) (event : Event) (e : Envelope) : Type 0 where
  pub name : e.event ≡ event_name event
  pub who : e.distinct_id ≡ user_id
  pub when : lookup "timestamp" e.properties ≡ some timestamp
  pub user : lookup "user_id" e.properties ≡ some user_id

envelope-Stamped :
    (timestamp user_id : String) (event : Event)
    → Stamped timestamp user_id event (sent_envelope timestamp user_id event)
unfolding sent_envelope envelope lookup
envelope-Stamped timestamp user_id (drawing_uploaded d) = record {
  name = refl;
  who = refl;
  when = refl;
  user = refl;
}
envelope-Stamped timestamp user_id event = record {
  name = refl;
  who = refl;
  when = refl;
  user = refl;
}

rejected-export :
    (event : Event)
    → is_rejected event ≡ true
    → (d : String) × (x : String) × (f : String) × (event ≡ export_initiated d x f)
unfolding is_rejected
rejected-export (export_initiated d x f) h = (d, x, f, refl)
rejected-export (drawing_uploaded d) h = absurd (ground arith)
rejected-export event h = absurd (ground arith)

-- `configure` with the key of the settings: is analytics enabled?
pub configure : Option String → Bool
configure key = not (unset key)

module _ {Raw : Type 0} (dumps : Envelope → Raw) (out : EmitOutside) (user_id : String)
    (event : Event) (w : World Raw Envelope) where
  -- An event that is no export in another format than csv and xlsx is captured, while PostHog works, in one
  -- envelope with the name of the event, the user as its distinct id, and, unchanged by the properties of the
  -- event, the user and the timestamp of the server.
  pub emit_event-Stamped :
      is_rejected event ≡ false
      → out.enabled ≡ true
      → out.sends ≡ true
      → (e : Envelope) × Stamped out.timestamp user_id event e
        × (emit_event dumps out user_id event w ≡ (ok tt, record w { taken = w.taken ++ e ∷ [] }))
  unfolding emit_event emit sent_envelope
  emit_event-Stamped fine on up = (
    sent_envelope out.timestamp user_id event,
    envelope-Stamped out.timestamp user_id event,
    ground arith,
  )

  -- An export in another format is refused before anything is emitted, whether analytics is on or off.
  pub emit_event_rejects :
      is_rejected event ≡ true
      → (emit_event dumps out user_id event w ≡ (err value_error, w))
        × ((d : String) × (x : String) × (f : String) × (event ≡ export_initiated d x f))
  unfolding emit_event
  emit_event_rejects bad = (ground arith, rejected-export event bad)

-- In a process that was started without a PostHog key no emitter sends or stores anything.
pub emit_event-disabled :
    {Raw Int : Type 0} (dumps : Envelope → Raw) (int : ℕ → Int) (parse_int : String → Option Int)
    (env : String → Option String) (s : Settings Int) (out : EmitOutside) (user_id : String)
    (event : Event) (w : World Raw Envelope)
    → load_settings int parse_int env ≡ ok s
    → env "POSTHOG_API_KEY" ≡ none
    → out.enabled ≡ configure s.posthog_api_key
    → (emit_event dumps out user_id event w).1 ≡ w
unfolding emit_event emit configure
emit_event-disabled dumps int parse_int env s out user_id event w h k e =
    let key : s.posthog_api_key ≡ env "POSTHOG_API_KEY" =
      posthog_api_key-load_settings int parse_int env s h in
    ground arith
