-- ===== src/Redis/Pubsub/Fanout.antt =====
-- From the workers that publish to the client that listens (redis/pubsub.py).
use pid_docs.Prelude.{
  String, text_eq, eq_iff, Bool, true, false, ◌&&◌, some, List, [], ◌∷◌, ◌++◌, ◌≡◌, ◌≢◌, refl,
  arith, if◌then◌else◌, ◌∙◌, sym, Bool-cases, inl, inr,
}
use mathlib.Core.List.{append_assoc, append-nil}
use pid_docs.Prelude.Exec.{err}
use pid_docs.Redis.Pubsub.{
  Event, Json, channel, channel_inj, validation_error, Message, Frame, nothing, control, message,
  Call, subscribe, unsubscribe, aclose, End, Outside, publish_drawing_status, listen, listen-end,
  clean_up-ne, subscribe_drawing_status,
}

-- One call of `publish_drawing_status`, with whether Redis answers it.
pub record Publication : Type 0 where
  pub answers : Bool
  pub drawing_id : String
  pub event : Event

-- What a subscriber of the channel `ch` sees of the messages that are published while it is subscribed: Redis, as
-- documented, brings those of its channel, in order, between frames that are no messages.
pub data Delivers (ch : String) : List Message → List Frame → Type 0 where
  quiet : Delivers ch [] []
  confirmed :
      {ms : List Message} {fs : List Frame} → Delivers ch ms fs → Delivers ch ms (control ∷ fs)
  timeout :
      {ms : List Message} {fs : List Frame} → Delivers ch ms fs → Delivers ch ms (nothing ∷ fs)
  brought :
      {ms : List Message} {fs : List Frame} (to text : String)
      → to ≡ ch
      → Delivers ch ms fs
      → Delivers ch ((to, text) ∷ ms) (message text ∷ fs)
  elsewhere :
      {ms : List Message} {fs : List Frame} (to text : String)
      → to ≢ ch
      → Delivers ch ms fs
      → Delivers ch ((to, text) ∷ ms) fs

module _ (json : Json) where
  -- the messages of the calls, in their order
  unfoldable pub publish_all : List Publication → List Message → List Message
  publish_all [] log = log
  publish_all (p ∷ ps) log =
      publish_all ps (publish_drawing_status json p.answers p.drawing_id p.event log).1

  -- the events of the calls for the drawing that Redis answered
  pub events_of : String → List Publication → List Event
  events_of drawing_id [] = []
  events_of drawing_id (p ∷ ps) =
      let rest = events_of drawing_id ps in
      if p.answers && text_eq p.drawing_id drawing_id then p.event ∷ rest else rest

  -- the messages that Redis took
  messages : List Publication → List Message
  messages [] = []
  messages (p ∷ ps) =
      let rest = messages ps in
      if p.answers then (channel p.drawing_id, json.dump p.event) ∷ rest else rest

  publish_all-messages :
      (ps : List Publication) (log : List Message) → publish_all ps log ≡ log ++ messages ps
  unfolding publish_all publish_drawing_status messages
  publish_all-messages [] log = sym (append-nil log)
  publish_all-messages (p ∷ ps) log = elim (Bool-cases p.answers) [
    | inr e ↦ rw e (publish_all-messages ps log)
    | inl e ↦
        let m : Message = (channel p.drawing_id, json.dump p.event) in
        rw e (publish_all-messages ps (log ++ m ∷ []) ∙ append_assoc log (m ∷ []) (messages ps))
  ]

  -- The frames bring the events for the drawing, and none that does not read.
  abbrev Brings : String → End → List Publication → List Frame → Type 0
  Brings drawing_id ends ps frames =
      ((listen json ends frames).events ≡ events_of drawing_id ps)
      × ((listen json ends frames).left ≢ err validation_error)

  listen-Delivers :
      (drawing_id : String) (ends : End) (ps : List Publication) {ms : List Message}
      {frames : List Frame}
      → Delivers (channel drawing_id) ms frames
      → messages ps ≡ ms
      → Brings drawing_id ends ps frames
  unfolding messages events_of listen
  listen-Delivers drawing_id ends ps (confirmed d) e = listen-Delivers drawing_id ends ps d e
  listen-Delivers drawing_id ends ps (timeout d) e = listen-Delivers drawing_id ends ps d e
  listen-Delivers drawing_id ends [] quiet e = (refl, listen-end json ends)
  listen-Delivers drawing_id ends (p ∷ ps) quiet e = elim (Bool-cases p.answers) [
    | inl a ↦ absurd (ground arith)
    | inr a ↦ rw a (listen-Delivers drawing_id ends ps quiet (ground arith))
  ]
  listen-Delivers drawing_id ends [] (brought to text same d) e = absurd (ground arith)
  listen-Delivers drawing_id ends (p ∷ ps) (brought to text same d) e =
      elim (Bool-cases p.answers) [
        | inr a ↦ rw a (listen-Delivers drawing_id ends ps (brought to text same d) (ground arith))
        | inl a ↦
            let rest = listen-Delivers drawing_id ends ps d (ground arith) in
            let own : p.drawing_id ≡ drawing_id =
              channel_inj p.drawing_id drawing_id (ground arith) in
            let read : json.validate text ≡ some p.event =
              ground (arith, json.validate-dump p.event) in
            (ground (arith, rest.0, eq_iff p.drawing_id drawing_id), λ h. rest.1 (ground arith))
      ]
  listen-Delivers drawing_id ends [] (elsewhere to text other d) e = absurd (ground arith)
  listen-Delivers drawing_id ends (p ∷ ps) (elsewhere to text other d) e =
      elim (Bool-cases p.answers) [
        | inr a ↦
            rw a (listen-Delivers drawing_id ends ps (elsewhere to text other d) (ground arith))
        | inl a ↦
            let rest = listen-Delivers drawing_id ends ps d (ground arith) in
            let apart : text_eq p.drawing_id drawing_id ≡ false =
              elim (Bool-cases (text_eq p.drawing_id drawing_id)) [
                | inr f ↦ f
                | inl f ↦
                    let own : p.drawing_id ≡ drawing_id = (eq_iff _ _).0 f in
                    absurd (other (ground arith))
              ] in
            (ground (arith, rest.0), rest.1)
      ]

-- How a subscription is left: the connection is opened, and closed again whatever happens behind.
abbrev pub TidiesUp : String → List Call → Type 0
TidiesUp drawing_id calls =
    calls ≡ subscribe (channel drawing_id) ∷ unsubscribe (channel drawing_id) ∷ aclose ∷ []

module _ (json : Json) (out : Outside) (drawing_id : String) (ps : List Publication) where
  -- While workers publish for any drawings, in any order, and Redis refuses some of the calls, a client that is
  -- subscribed to one drawing is given exactly the events that were published for it, unchanged and in order,
  -- never an error of the validation; and however the subscription ends, it is cancelled and its connection
  -- closed.
  pub subscribe-publish :
      out.subscribes ≡ true
      → Delivers (channel drawing_id) (publish_all json ps []) out.frames
      → let (heard, calls) = subscribe_drawing_status json out drawing_id in
        (heard.events ≡ events_of json drawing_id ps)
        × (heard.left ≢ err validation_error)
        × TidiesUp drawing_id calls
  unfolding subscribe_drawing_status
  subscribe-publish s d =
      let (events, left) =
        listen-Delivers json drawing_id out.ends ps d (sym (publish_all-messages json ps [])) in
      (
        ground arith,
        λ h. clean_up-ne json out (listen json out.ends out.frames).left left (ground arith),
        ground arith,
      )
