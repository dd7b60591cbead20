-- ===== src/Account/Erasure/Scan.antt =====
-- The periodic scan for erasures that are due (workers/gdpr/tasks.py).
use pid_docs.Prelude.{
  Bool-cases, inl, inr, ℕ, ◌+◌, ◌<◌, String, ◌≡◌, ◌↔◌, refl, Bool, true, some, List, [], ◌∷◌, ◌++◌,
  map, arith, filter, ap, ◌∙◌,
}
use mathlib.Core.List.{append-nil, append_assoc}
use pid_docs.Prelude.Exec.{ok}
use pid_docs.Db.{User, update_user}
use pid_docs.Db.Tables.{update}
use pid_docs.Account.{World, Message}
use pid_docs.Account.Erasure.{
  is_due, erasure_delay, erase_job, dispatch, scan_and_dispatch_erasure_jobs, purged, erase_rows,
}

-- A user is due exactly when he was deleted more than thirty days ago; one who is not deleted, or
-- was deleted thirty days ago to the microsecond, is not.
pub is_due_iff :
    (now : ℕ) (u : User)
    → (is_due now u ≡ true) ↔ ((t : ℕ) × (u.deleted_at ≡ some t) × (t + erasure_delay < now))
unfolding is_due
is_due_iff now u = ground arith

module _ (str : ℕ → String) (accepts : ℕ → Bool) where
  dispatch_all :
      (us : List User) (w : World)
      → ((uid : ℕ) → accepts uid ≡ true)
      → dispatch str accepts us w
        ≡ (ok tt, record w { sent = w.sent ++ map (λ (u : User). erase_job str u.id) us })
  unfolding dispatch
  dispatch_all [] w all = rw append-nil
  dispatch_all (u ∷ us) w all =
      rw (all u.id, dispatch)
        (dispatch_all us (record w { sent = w.sent ++ erase_job str u.id ∷ [] }) all
          ∙ ap (λ (l : List Message). (ok tt, record w { sent = l }))
              (append_assoc w.sent (erase_job str u.id ∷ [])
                (map (λ (v : User). erase_job str v.id) us)))

-- While the broker accepts the jobs, the scan returns normally and queues one erasure job for each
-- user that is due, in the order of the table, behind what was queued; it changes nothing else.
pub scan_dispatches :
    (str : ℕ → String) (accepts : ℕ → Bool) (now : ℕ) (w : World)
    → ((uid : ℕ) → accepts uid ≡ true)
    → scan_and_dispatch_erasure_jobs str accepts now w ≡ (
      ok tt,
      record w {
        sent = w.sent ++ map (λ (u : User). erase_job str u.id) (filter (is_due now) w.users);
      },
    )
unfolding scan_and_dispatch_erasure_jobs
scan_dispatches str accepts now w all = dispatch_all str accepts (filter (is_due now) w.users) w all

same_jobs :
    (str : ℕ → String) (now uid : ℕ) (a : String) (us : List User)
    → map (λ (u : User). erase_job str u.id) (filter (is_due now) (update_user uid (purged a) us))
      ≡ map (λ (u : User). erase_job str u.id) (filter (is_due now) us)
unfolding is_due update
same_jobs str now uid a [] = refl
same_jobs str now uid a (u ∷ us) = ground (arith, same_jobs str now uid a us)

-- An erased account stays due: while the broker accepts the jobs, the scan behind a completed
-- erasure of a user leaves the same queue as if the user had not been erased.
pub scan_repeats :
    (hmac : String → String → String) (str : ℕ → String) (accepts : ℕ → Bool) (now uid : ℕ)
    (a : String) (w : World)
    → ((j : ℕ) → accepts j ≡ true)
    → (scan_and_dispatch_erasure_jobs str accepts now (erase_rows hmac str uid a w)).1.sent
      ≡ (scan_and_dispatch_erasure_jobs str accepts now w).1.sent
unfolding erase_rows
scan_repeats hmac str accepts now uid a w all =
    rw (scan_dispatches str accepts now (erase_rows hmac str uid a w) all) (
      rw (scan_dispatches str accepts now w all)
        (ap (λ (l : List Message). w.sent ++ l) (same_jobs str now uid a w.users)))

dispatch-users :
    (str : ℕ → String) (accepts : ℕ → Bool) (us : List User) (w : World)
    → (dispatch str accepts us w).1.users ≡ w.users
unfolding dispatch
dispatch-users str accepts [] w = refl
dispatch-users str accepts (u ∷ us) w = elim (Bool-cases (accepts u.id)) [
  | inl e ↦
      rw (e, dispatch)
        (dispatch-users str accepts us (record w { sent = w.sent ++ erase_job str u.id ∷ [] }))
  | inr e ↦ ground arith
]

-- Whatever the broker answers, the scan changes no user.
pub scan-users :
    (str : ℕ → String) (accepts : ℕ → Bool) (now : ℕ) (w : World)
    → (scan_and_dispatch_erasure_jobs str accepts now w).1.users ≡ w.users
unfolding scan_and_dispatch_erasure_jobs
scan-users str accepts now w = dispatch-users str accepts (filter (is_due now) w.users) w

dispatch-tables :
    (str : ℕ → String) (accepts : ℕ → Bool) (us : List User) (w : World)
    → let w' = (dispatch str accepts us w).1 in
      (w'.subscriptions ≡ w.subscriptions) × (w'.consents ≡ w.consents)
unfolding dispatch
dispatch-tables str accepts [] w = (refl, refl)
dispatch-tables str accepts (u ∷ us) w = elim (Bool-cases (accepts u.id)) [
  | inl e ↦
      rw (e, dispatch)
        (dispatch-tables str accepts us (record w { sent = w.sent ++ erase_job str u.id ∷ [] }))
  | inr e ↦ ground arith
]

-- Nor does it change a subscription or a consent.
pub scan-tables :
    (str : ℕ → String) (accepts : ℕ → Bool) (now : ℕ) (w : World)
    → let w' = (scan_and_dispatch_erasure_jobs str accepts now w).1 in
      (w'.subscriptions ≡ w.subscriptions) × (w'.consents ≡ w.consents)
unfolding scan_and_dispatch_erasure_jobs
scan-tables str accepts now w = dispatch-tables str accepts (filter (is_due now) w.users) w
