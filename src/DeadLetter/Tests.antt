-- ===== src/DeadLetter/Tests.antt =====
-- The dead-letter queue at concrete inputs.
use pid_docs.Prelude.{ℕ, true, false, Option, none, some, [], ◌∷◌, ◌≡◌, refl, ◌==◌, if◌then◌else◌}
use pid_docs.Prelude.Exec.{ok}
use pid_docs.DeadLetter.{PushOutside, Outside, retry_dead_letter}
use pid_docs.DeadLetter.Emit.{EmitOutside, Envelope}
use pid_docs.DeadLetter.Drain.{retry_dead_letter_lem}

abbrev pushed : PushOutside
pushed = record { pushes = true; trims = true }

-- 0 is malformed, and 2 is refused.
abbrev parse : ℕ → Option ℕ
parse n = if n == 0 then none else some n

abbrev outside : Outside ℕ
outside = record {
  enabled = true;
  reachable = true;
  pops = λ i. true;
  sends = λ i e. if e == 2 then false else true;
  requeues = λ i. true;
}

retry_dead_letter_lem_example :
    retry_dead_letter parse outside (record { queue = 0 ∷ 1 ∷ 2 ∷ 3 ∷ []; taken = [] })
    ≡ (ok 2, record { queue = 2 ∷ []; taken = 1 ∷ 3 ∷ [] })
retry_dead_letter_lem_example =
    retry_dead_letter_lem parse outside (λ i. refl) (λ i. refl)
      (record { queue = 0 ∷ 1 ∷ 2 ∷ 3 ∷ []; taken = [] }) refl refl

-- The text of the tests is the envelope itself.
abbrev failing : EmitOutside
failing = record { enabled = true; sends = false; push = pushed; timestamp = "t" }

abbrev retried : Outside Envelope
retried = record {
  enabled = true;
  reachable = true;
  pops = λ i. true;
  sends = λ i e. true;
  requeues = λ i. true;
}
