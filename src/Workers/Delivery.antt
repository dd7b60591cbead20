-- ===== src/Workers/Delivery.antt =====
-- One email task from its first run to its end (workers/notification/tasks.py): each run sends the mail once,
-- and `task.retry` runs the task again, unless MAX_RETRIES retries have been made: then, as Celery documents,
-- it raises the error, and the task has failed. `replies n` is what the SDK does on the n-th run, from 0.
use pid_docs.Prelude.{
  ℕ, zero, suc, ◌+◌, ◌≤◌, ◌<◌, String, ◌≡◌, refl, ◌⊎◌, inl, inr, Bool, true, false, Option, none,
  some, arith, ltb, ◌&&◌, if◌then◌else◌, Bool-cases,
}
use pid_docs.Workers.Notification.{Outcome, sent, permanent_failure, retry_after, dispatch}
use pid_docs.Workers.SendGrid.{Sdk, raised}

abbrev pub max_retries : ℕ
max_retries = 3

-- The end of the task, with the number of retries before: one mail more was handed to SendGrid.
pub record Report : Type 0 where
  pub delivered : Bool
  pub retries_done : ℕ

abbrev pub is_sent : {I : Type 0} → Outcome I → Bool
is_sent sent = true
is_sent permanent_failure = false
is_sent (retry_after c) = false

abbrev pub is_retry : {I : Type 0} → Outcome I → Bool
is_retry sent = false
is_retry permanent_failure = false
is_retry (retry_after c) = true

Outcome-cases :
    {I : Type 0} (o : Outcome I)
    → (o ≡ sent) ⊎ (o ≡ permanent_failure) ⊎ ((c : I) × (o ≡ retry_after c))
Outcome-cases sent = inl refl
Outcome-cases permanent_failure = inr (inl refl)
Outcome-cases (retry_after c) = inr (inr (c, refl))

module _ {I : Type 0} (of_nat : ℕ → I) (parse_int : String → Option I) (replies : ℕ → Sdk) where
  abbrev pub attempt : ℕ → Outcome I
  attempt retries = dispatch of_nat parse_int (raised (replies retries)) retries

  -- The task from its run number `retries` on; `none` means that the fuel did not suffice.
  pub deliver : ℕ → ℕ → Option Report
  deliver zero retries = none
  deliver (suc fuel) retries =
      let again = deliver fuel (suc retries) in
      elim (attempt retries) [
        | sent ↦ some (record { delivered = true; retries_done = retries })
        | permanent_failure ↦ some (record { delivered = false; retries_done = retries })
        | retry_after countdown ↦
            if ltb retries max_retries
            then again
            else some (record { delivered = false; retries_done = retries })
      ]

  -- Was each of the first `n` runs, from the run `from` on, to be retried?
  abbrev pub were_retried : ℕ → ℕ → Bool
  were_retried from zero = true
  were_retried from (suc n) = is_retry (attempt from) && were_retried (suc from) n

  -- How a task that has reached the run `from` ends: `more` runs later.
  pub record Ended (from : ℕ) (r : Report) : Type 0 where
    pub more : ℕ
    pub count : r.retries_done ≡ from + more
    pub bound : r.retries_done ≤ max_retries
    pub success : r.delivered ≡ is_sent (attempt r.retries_done)
    pub retried : were_retried from more ≡ true

  Ended-here :
      (retries : ℕ) (b : Bool)
      → retries < 4
      → b ≡ is_sent (attempt retries)
      → Ended retries (record { delivered = b; retries_done = retries })
  Ended-here retries b h e = record {
    more = 0;
    count = omega arith;
    bound = omega arith;
    success = e;
    retried = refl;
  }

  Ended-later :
      (retries : ℕ) (r : Report)
      → is_retry (attempt retries) ≡ true
      → Ended (suc retries) r
      → Ended retries r
  Ended-later retries r e later = record {
    more = suc later.more;
    count = omega (arith, later.count);
    bound = later.bound;
    success = later.success;
    retried = rw e later.retried;
  }

  deliver_from :
      (fuel retries : ℕ)
      → retries < 4
      → 4 ≤ fuel + retries
      → (r : Report) × (deliver fuel retries ≡ some r) × Ended retries r
  unfolding deliver
  deliver_from zero retries h k = absurd (omega arith)
  deliver_from (suc fuel) retries h k = elim (Outcome-cases (attempt retries)) [
    | inl e ↦ (
      record { delivered = true; retries_done = retries },
      ground arith,
      Ended-here retries true h (ground arith),
    )
    | inr (inl e) ↦ (
      record { delivered = false; retries_done = retries },
      ground arith,
      Ended-here retries false h (ground arith),
    )
    | inr (inr (c, e)) ↦ elim (Bool-cases (ltb retries 3)) [
      | inl again ↦
          let (r, run, end) = deliver_from fuel (suc retries) (ground arith) (omega arith) in
          (r, ground arith, Ended-later retries r (ground arith) end)
      | inr last ↦ (
        record { delivered = false; retries_done = retries },
        ground arith,
        Ended-here retries false h (ground arith),
      )
    ]
  ]

  -- Whatever SendGrid does, an email task ends, after at most three retries. It is delivered exactly if its
  -- last send was accepted, and every send before had failed in a way that is retried.
  pub deliver_terminates :
      (fuel : ℕ) → 4 ≤ fuel → (r : Report) × (deliver fuel 0 ≡ some r) × Ended 0 r
  deliver_terminates fuel h = deliver_from fuel 0 (omega arith) (omega arith)
