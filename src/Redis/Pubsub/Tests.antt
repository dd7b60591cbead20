-- ===== src/Redis/Pubsub/Tests.antt =====
-- Three publications, one of them refused and one for another drawing, and a subscriber that is then cut off.
use pid_docs.Prelude.{String, List, text_eq, eq_iff, true, false, [], ◌∷◌, ◌≡◌, ◌≢◌, refl}
use pid_docs.Prelude.Exec.{err}
use pid_docs.Db.{scanning, processing, failed}
use pid_docs.Redis.Pubsub.{
  Event, Json, channel, channel_inj, validation_error, control, message, dropped, Outside,
  publish_drawing_status, subscribe_drawing_status,
}
use pid_docs.Redis.Pubsub.Codec.{codec}
use pid_docs.Redis.Pubsub.Fanout.{
  Publication, Delivers, quiet, confirmed, brought, elsewhere, publish_all, events_of, TidiesUp,
  subscribe-publish,
}

abbrev first : Event
first = record { drawing_id = "7"; state = scanning; timestamp = "t1" }

abbrev other : Event
other = record { drawing_id = "8"; state = failed; timestamp = "t2" }

abbrev second : Event
second = record { drawing_id = "7"; state = processing; timestamp = "t3" }

abbrev publications : List Publication
publications =
    record { answers = true; drawing_id = "7"; event = first }
    ∷ record { answers = true; drawing_id = "8"; event = other }
    ∷ record { answers = false; drawing_id = "7"; event = first }
    ∷ record { answers = true; drawing_id = "7"; event = second }
    ∷ []

abbrev outside : Outside
outside = record {
  subscribes = true;
  frames = control ∷ message (Json.dump codec first) ∷ message (Json.dump codec second) ∷ [];
  ends = dropped;
  unsubscribes = true;
  closes = true;
}

other_channel : channel "8" ≢ channel "7"
other_channel e =
    let same : ◌≡◌ {A = String} "8" "7" = channel_inj "8" "7" e in
    let equal : text_eq "8" "7" ≡ true = (eq_iff "8" "7").1 same in cc

deliveries : Delivers (channel "7") (publish_all codec publications []) outside.frames
unfolding publish_all publish_drawing_status
deliveries = confirmed (brought _ _ refl (elsewhere _ _ other_channel (brought _ _ refl quiet)))

subscribe-publish_example :
    let (heard, calls) = subscribe_drawing_status codec outside "7" in
    (heard.events ≡ events_of codec "7" publications)
    × (heard.left ≢ err validation_error)
    × TidiesUp "7" calls
subscribe-publish_example = subscribe-publish codec outside "7" publications refl deliveries
