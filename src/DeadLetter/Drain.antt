-- ===== src/DeadLetter/Drain.antt =====
-- The capped queue and its retry (analytics/dead_letter.py).
use pid_docs.Prelude.{
  ℕ, suc, ◌+◌, ◌-◌, min, true, Option, none, some, List, [], ◌∷◌, ◌++◌, ◌≡◌, arith, if◌then◌else◌,
  length, drop, length-append, length-drop, Bool-cases, Option-cases, inl, inr,
}
use mathlib.Core.List.{append-nil, append_assoc}
use pid_docs.Prelude.Exec.{ok}
use pid_docs.DeadLetter.{
  PushOutside, ltrim, push_to_dead_letter, Outside, World, retry_loop, retry_dead_letter,
}

-- A push whose two Redis calls succeed leaves the newest entries, 10,000 at most, and drops exactly
-- the oldest ones beyond this number.
pub push_to_dead_letter_cap {ℓ} :
    {A : Type ℓ} (out : PushOutside) (raw : A) (q : List A)
    → out.pushes ≡ true
    → out.trims ≡ true
    → let q' = push_to_dead_letter out raw q in
      (length q' ≡ min (suc (length q)) 10000)
      × ((n : ℕ) × (q' ≡ drop n (q ++ raw ∷ [])) × (n ≡ suc (length q) - 10000))
unfolding push_to_dead_letter ltrim
push_to_dead_letter_cap out raw q a b = (
  ground (
    arith,
    length-append q (raw ∷ []),
    length-drop (length (q ++ raw ∷ []) - 10000) (q ++ raw ∷ []),
  ),
  (length (q ++ raw ∷ []) - 10000, ground arith, omega (arith, length-append q (raw ∷ []))),
)

module _ {Raw Envelope : Type 0} (parse : Raw → Option Envelope) (out : Outside Envelope) where
  -- the entries that one pass sends, and those it keeps for the next one
  abbrev pub sent_of : ℕ → List Raw → List Envelope
  sent_of i [] = []
  sent_of i (raw ∷ q) =
      let rest = sent_of (suc i) q in
      elim (parse raw) [ none ↦ rest | some e ↦ if out.sends i e then e ∷ rest else rest ]

  abbrev pub kept_of : ℕ → List Raw → List Raw
  kept_of i [] = []
  kept_of i (raw ∷ q) =
      let rest = kept_of (suc i) q in
      elim (parse raw) [ none ↦ rest | some e ↦ if out.sends i e then rest else raw ∷ rest ]

  module _ (pops : (i : ℕ) → out.pops i ≡ true) (requeues : (i : ℕ) → out.requeues i ≡ true) where
    retry_loop_lem :
        (i resent : ℕ) (q back : List Raw) (taken : List Envelope)
        → retry_loop parse out (length q) i resent (q ++ back) taken ≡ (
          ok (resent + length (sent_of i q)),
          record { queue = back ++ kept_of i q; taken = taken ++ sent_of i q },
        )
    unfolding retry_loop
    retry_loop_lem i resent [] back taken = rw (append-nil back, append-nil taken) (ground arith)
    retry_loop_lem i resent (raw ∷ q) back taken = elim (Option-cases (parse raw)) [
      | inl e ↦ ground (arith, pops i, retry_loop_lem (suc i) resent q back taken)
      | inr (v, e) ↦ elim (Bool-cases (out.sends i v)) [
        | inl s ↦ ground (
          arith,
          pops i,
          retry_loop_lem (suc i) (suc resent) q back (taken ++ v ∷ []),
          append_assoc taken (v ∷ []) (sent_of (suc i) q),
        )
        | inr s ↦ ground (
          arith,
          pops i,
          requeues i,
          retry_loop_lem (suc i) resent q (back ++ raw ∷ []) taken,
          append_assoc back (raw ∷ []) (kept_of (suc i) q),
          append_assoc q back (raw ∷ []),
        )
      ]
    ]

    -- With analytics enabled and Redis answering every call, a retry handles every entry exactly once: it
    -- answers how many events were taken, the queue keeps the refused entries in their order, and malformed
    -- ones are gone.
    pub retry_dead_letter_lem :
        (w : World Raw Envelope)
        → out.enabled ≡ true
        → out.reachable ≡ true
        → retry_dead_letter parse out w ≡ (
          ok (length (sent_of 0 w.queue)),
          record { queue = kept_of 0 w.queue; taken = w.taken ++ sent_of 0 w.queue },
        )
    unfolding retry_dead_letter
    retry_dead_letter_lem w a b =
        ground (arith, retry_loop_lem 0 0 w.queue [] w.taken, append-nil w.queue)
