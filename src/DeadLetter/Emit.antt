-- ===== src/DeadLetter/Emit.antt =====
-- analytics/events.py: the emission of an event, which goes to the dead letters when PostHog does not take
-- it. `json.dumps` of an envelope is the parameter `dumps`.
use pid_docs.Prelude.{
  ℕ, String, text_eq, Bool, true, false, Option, some, List, [], ◌∷◌, ◌++◌, ◌≡◌, arith,
  if◌then◌else◌,
}
use pid_docs.Prelude.Exec.{ok}
use pid_docs.DeadLetter.{PushOutside, push_to_dead_letter, ltrim, Outside, World, retry_dead_letter}
use pid_docs.DeadLetter.Drain.{retry_dead_letter_lem}

-- the dict that is stored and replayed
pub record Envelope : Type 0 where
  pub event : String
  pub distinct_id : String
  pub properties : List (String × String)

-- `d[k] = v` on a dict in insertion order
set_item : String → String → List (String × String) → List (String × String)
set_item k v [] = (k, v) ∷ []
set_item k v ((j, w) ∷ d) = if text_eq j k then (j, v) ∷ d else (j, w) ∷ set_item k v d

-- `d.update(e)`
pub update_dict : List (String × String) → List (String × String) → List (String × String)
unfolding set_item
update_dict d [] = d
update_dict d ((k, v) ∷ e) = update_dict (set_item k v d) e

unfoldable pub envelope : String → String → String → List (String × String) → Envelope
unfolding update_dict
envelope timestamp event user_id properties = record {
  event = event;
  distinct_id = user_id;
  properties = update_dict (("timestamp", timestamp) ∷ ("user_id", user_id) ∷ []) properties;
}

-- One emission's surroundings: is analytics enabled, does PostHog take the event, does the push succeed.
pub record EmitOutside : Type 0 where
  pub enabled : Bool
  pub sends : Bool
  pub push : PushOutside
  pub timestamp : String

module _ {Raw : Type 0} (dumps : Envelope → Raw) where
  -- `_emit`
  unfoldable pub emit :
      EmitOutside
      → String
      → String
      → List (String × String)
      → World Raw Envelope
      → World Raw Envelope
  unfolding envelope
  emit out event user_id properties w =
      let e = envelope out.timestamp event user_id properties in
      if out.enabled
      then if out.sends
        then record w { taken = w.taken ++ e ∷ [] }
        else record w { queue = push_to_dead_letter out.push (dumps e) w.queue }
      else w

  -- An event that PostHog does not take is not lost: if Redis takes it into an empty queue, a later retry in
  -- which PostHog takes everything and Redis answers sends exactly this event, with the timestamp and the user
  -- of its emission, and leaves the queue empty; this needs of JSON that it reads back what it wrote.
  pub retry_dead_letter-emit :
      (parse : Raw → Option Envelope) (out : EmitOutside) (retry : Outside Envelope)
      (event user_id : String) (properties : List (String × String)) (w : World Raw Envelope)
      → ((e : Envelope) → parse (dumps e) ≡ some e)
      → out.enabled ≡ true
      → out.sends ≡ false
      → out.push.pushes ≡ true
      → w.queue ≡ []
      → retry.enabled ≡ true
      → retry.reachable ≡ true
      → ((i : ℕ) → retry.pops i ≡ true)
      → ((i : ℕ) → retry.requeues i ≡ true)
      → ((i : ℕ) (e : Envelope) → retry.sends i e ≡ true)
      → retry_dead_letter parse retry (emit out event user_id properties w) ≡ (
        ok 1,
        record {
          queue = [];
          taken = w.taken ++ envelope out.timestamp event user_id properties ∷ [];
        },
      )
  unfolding emit push_to_dead_letter ltrim
  retry_dead_letter-emit parse out retry event user_id properties w back on down pushed empty
        enabled reachable pops requeues sends =
      let e = envelope out.timestamp event user_id properties in
      ground (
        arith,
        retry_dead_letter_lem parse retry pops requeues (emit out event user_id properties w)
            enabled reachable,
        back e,
        sends 0 e,
      )
