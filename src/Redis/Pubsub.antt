-- ===== src/Redis/Pubsub.antt =====
-- redis/pubsub.py: the status events of drawings over Redis's channels. Pydantic's JSON and what a connection
-- brings are parameters.
pub mod Fanout
mod Codec
mod Tests
use Prim.Native.String as Text
use text.Mathlib.TextLemmas.{append_cancel_left}
use pid_docs.Prelude.{
  String, text_eq, eq_iff, Bool, true, false, Option, none, some, List, [], ◌∷◌, ◌++◌, ◌≡◌, ◌≢◌,
  refl, arith, if◌then◌else◌, ap, ◌∙◌, Bool-cases, inl, inr,
}
use pid_docs.Db.{ProcessingState}
use pid_docs.Prelude.Exec.{Result, ok, err}

-- `DrawingStatusSSEEvent`
pub record Event : Type 0 where
  pub drawing_id : String
  pub state : ProcessingState
  pub timestamp : String

-- Pydantic's `model_dump_json` and `model_validate_json`, of which the second reads what the first wrote.
pub record Json : Type 0 where
  pub dump : Event → String
  pub validate : String → Option Event
  pub validate-dump : (e : Event) → validate (dump e) ≡ some e

abbrev channel_prefix : String
channel_prefix = "drawing:status:"

unfoldable pub channel : String → String
channel drawing_id = Text.◌++◌ channel_prefix drawing_id

pub channel_inj : (a b : String) → channel a ≡ channel b → a ≡ b
unfolding channel
channel_inj a b e = append_cancel_left channel_prefix a b e

pub data Failure : Type 0 where
  redis_error validation_error : Failure

-- A message is its channel and its text.
abbrev pub Message : Type 0
Message = String × String

-- A frame of `pubsub.listen()`: none, one that is no message, or a message.
pub data Frame : Type 0 where
  nothing control : Frame
  message : String → Frame

pub data Call : Type 0 where
  subscribe unsubscribe : String → Call
  aclose : Call

-- How the frames end: the connection drops, or the consumer closes the generator, or they are over.
pub data End : Type 0 where
  dropped closed over : End

-- What one subscription meets outside.
pub record Outside : Type 0 where
  pub subscribes : Bool
  pub frames : List Frame
  pub ends : End
  pub unsubscribes : Bool
  pub closes : Bool

-- The events that were yielded, and how the loop was left.
pub record Heard : Type 0 where
  pub events : List Event
  pub left : Result Failure (Unit {0})

module _ (json : Json) where
  -- `log` is what was published so far; a call that fails raises.
  unfoldable pub publish_drawing_status :
      Bool → String → Event → List Message → Result Failure (Unit {0}) × List Message
  publish_drawing_status answers drawing_id event log =
      if answers
      then (ok tt, log ++ (channel drawing_id, json.dump event) ∷ [])
      else (err redis_error, log)

  leave : End → Result Failure (Unit {0})
  leave dropped = err redis_error
  leave closed = ok tt
  leave over = ok tt

  -- the loop over the frames
  pub listen : End → List Frame → Heard
  unfolding leave
  listen ends [] = record { events = []; left = leave ends }
  listen ends (nothing ∷ frames) = listen ends frames
  listen ends (control ∷ frames) = listen ends frames
  listen ends (message d ∷ frames) = elim (json.validate d) [
    | none ↦ record { events = []; left = err validation_error }
    | some e ↦
        let rest = listen ends frames in record { events = e ∷ rest.events; left = rest.left }
  ]

  pub listen-end : (ends : End) → (listen ends []).left ≢ err validation_error
  unfolding listen
  listen-end dropped = λ e. cc
  listen-end closed = λ e. cc
  listen-end over = λ e. cc

  -- The two nested `finally`: the last exception wins.
  pub clean_up : Outside → Result Failure (Unit {0}) → Result Failure (Unit {0})
  clean_up out left =
      if out.closes then (if out.unsubscribes then left else err redis_error) else err redis_error

  pub clean_up-ne :
      (out : Outside) (left : Result Failure (Unit {0}))
      → left ≢ err validation_error
      → clean_up out left ≢ err validation_error
  unfolding clean_up
  clean_up-ne out left ne e = ground (arith, ne)

  pub subscribe_drawing_status : Outside → String → Heard × List Call
  unfolding listen clean_up
  subscribe_drawing_status out drawing_id =
      let heard = listen out.ends out.frames in
      if out.subscribes
      then (
        record { events = heard.events; left = clean_up out heard.left },
        subscribe (channel drawing_id) ∷ unsubscribe (channel drawing_id) ∷ aclose ∷ [],
      )
      else (record { events = []; left = err redis_error }, subscribe (channel drawing_id) ∷ [])
