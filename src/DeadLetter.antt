-- ===== src/DeadLetter.antt =====
-- analytics/dead_letter.py: the queue of analytics events that could not be sent. `json.loads` and the
-- reads of the three keys are the parameter `parse`.
pub mod Drain
pub mod Emit
pub mod Events
mod Tests
use pid_docs.Prelude.{
  ℕ, zero, suc, ◌+◌, ◌-◌, Bool, true, false, Option, none, some, List, [], ◌∷◌, ◌++◌, if◌then◌else◌,
  length, drop,
}
use pid_docs.Prelude.Exec.{Result, ok, err}

-- Which calls of one push succeed.
pub record PushOutside : Type 0 where
  pub pushes : Bool
  pub trims : Bool

-- `ltrim(key, -n, -1)`
pub ltrim {ℓ} : {A : Type ℓ} → ℕ → List A → List A
ltrim n q = drop (length q - n) q

abbrev pub max_dead_letter_entries : ℕ
max_dead_letter_entries = 10000

-- Any failure is swallowed; what was pushed stays pushed.
pub push_to_dead_letter {ℓ} : {A : Type ℓ} → PushOutside → A → List A → List A
unfolding ltrim
push_to_dead_letter out raw q =
    if out.pushes
    then if out.trims then ltrim max_dead_letter_entries (q ++ raw ∷ []) else q ++ raw ∷ []
    else q

-- One retry's surroundings, by the round of the loop: does `lpop` answer, is the event taken, does the push
-- back succeed.
pub record Outside (Envelope : Type 0) : Type 0 where
  pub enabled : Bool
  pub reachable : Bool
  pub pops : ℕ → Bool
  pub sends : ℕ → Envelope → Bool
  pub requeues : ℕ → Bool

-- The queue, and the events that PostHog has taken.
pub record World (Raw Envelope : Type 0) : Type 0 where
  pub queue : List Raw
  pub taken : List Envelope

pub data Failure : Type 0 where
  redis_error : Failure

module _ {Raw Envelope : Type 0} (parse : Raw → Option Envelope) (out : Outside Envelope) where
  abbrev pub requeued : ℕ → Raw → List Raw → List Raw
  requeued i raw q = if out.requeues i then q ++ raw ∷ [] else q

  -- The rounds of the loop that are left, the round's number, the count so far.
  pub retry_loop : ℕ → ℕ → ℕ → List Raw → List Envelope → Result Failure ℕ × World Raw Envelope
  retry_loop zero i resent q taken = (ok resent, record { queue = q; taken = taken })
  retry_loop (suc n) i resent [] taken =
      (if out.pops i then ok resent else err redis_error, record { queue = []; taken = taken })
  retry_loop (suc n) i resent (raw ∷ q) taken =
      let discarded = retry_loop n (suc i) resent q taken in
      let failed = retry_loop n (suc i) resent (requeued i raw q) taken in
      elim (out.pops i) [
        | false ↦ (err redis_error, record { queue = raw ∷ q; taken = taken })
        | true ↦ elim (parse raw) [
          | none ↦ discarded
          | some e ↦ elim (out.sends i e) [
            | true ↦ retry_loop n (suc i) (suc resent) q (taken ++ e ∷ [])
            | false ↦ failed
          ]
        ]
      ]

  pub retry_dead_letter : World Raw Envelope → Result Failure ℕ × World Raw Envelope
  unfolding retry_loop
  retry_dead_letter w =
      if out.enabled
      then if out.reachable then retry_loop (length w.queue) 0 0 w.queue w.taken else (ok 0, w)
      else (ok 0, w)
