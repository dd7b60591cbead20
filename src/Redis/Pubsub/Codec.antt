-- ===== src/Redis/Pubsub/Codec.antt =====
-- An encoding of events that reads back, for tests: a letter for the state, the drawing's id with a 1 before each
-- character and a 0 behind, and the time.
use Prim.Native.String as Text
use Prim.Native.Char.{Char, code}
use mathlib.Core.Option
use pid_docs.Prelude.{String, Option, none, some, ◌≡◌, refl, ◌==◌, if◌then◌else◌}
use pid_docs.Db.{
  ProcessingState, pending, queued, scanning, processing, complete, under_review, failed,
  scan_failed,
}
use pid_docs.Redis.Pubsub.{Event, Json}

letter : ProcessingState → Char
letter pending = "a"
letter queued = "b"
letter scanning = "c"
letter processing = "d"
letter complete = "e"
letter under_review = "f"
letter failed = "g"
letter scan_failed = "h"

state : Char → Option ProcessingState
state c =
    if code c == b'a'
    then some pending
    else if code c == b'b'
    then some queued
    else if code c == b'c'
    then some scanning
    else if code c == b'd'
    then some processing
    else if code c == b'e'
    then some complete
    else if code c == b'f'
    then some under_review
    else if code c == b'g'
    then some failed
    else if code c == b'h'
    then some scan_failed
    else none

state-letter : (s : ProcessingState) → state (letter s) ≡ some s
unfolding state letter
state-letter pending = refl
state-letter queued = refl
state-letter scanning = refl
state-letter processing = refl
state-letter complete = refl
state-letter under_review = refl
state-letter failed = refl
state-letter scan_failed = refl

marked : String → String → String
marked Text.[] rest = Text.◌∷◌ "0" rest
marked (Text.◌∷◌ c s) rest = Text.◌∷◌ "1" (Text.◌∷◌ c (marked s rest))

unmarked : String → Option (String × String)
unmarked Text.[] = none
unmarked (Text.◌∷◌ m Text.[]) = if code m == b'0' then some (Text.[], Text.[]) else none
unmarked (Text.◌∷◌ m (Text.◌∷◌ c s)) =
    let rest = unmarked s in
    if code m == b'0'
    then some (Text.[], Text.◌∷◌ c s)
    else Option.map (λ (p : String × String). (Text.◌∷◌ c p.0, p.1)) rest

unmarked-marked : (s rest : String) → unmarked (marked s rest) ≡ some (s, rest)
unfolding marked unmarked
unmarked-marked Text.[] Text.[] = refl
unmarked-marked Text.[] (Text.◌∷◌ c rest) = refl
unmarked-marked (Text.◌∷◌ c s) rest = rw (unmarked-marked s rest) refl

dump : Event → String
dump e = Text.◌∷◌ (letter e.state) (marked e.drawing_id e.timestamp)

together : Option ProcessingState → Option (String × String) → Option Event
together (some s) (some (d, t)) = some (record { drawing_id = d; state = s; timestamp = t })
together _ _ = none

validate : String → Option Event
validate Text.[] = none
validate (Text.◌∷◌ c s) = together (state c) (unmarked s)

validate-dump : (e : Event) → validate (dump e) ≡ some e
unfolding validate dump together
validate-dump e = rw (state-letter e.state) (rw (unmarked-marked e.drawing_id e.timestamp) refl)

pub codec : Json
codec = record { dump = dump; validate = validate; validate-dump = validate-dump }
