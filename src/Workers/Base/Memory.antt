-- ===== src/Workers/Base/Memory.antt =====
-- A queue that behaves as the interface of Workers/Base says.
use pid_docs.Prelude.{ℕ, suc, Bool, true, ◌≡◌, ◌&&◌, List, [], ◌∷◌, ltb, refl, if◌then◌else◌}
use pid_docs.Prelude.Exec.{Exec, ok, err}
use pid_docs.Workers.Base.{
  TaskOptions, Delivery, lost, ended, Status, succeeded, failed, dropped, queued, Celery,
}

module _ {A S E : Type 0} (options : TaskOptions) (body : A → Exec S E (Unit {0})) where
  work : List (Delivery A) → ℕ → S → Status × S
  work [] retries s = (queued, s)
  work (lost a ∷ ds) retries s =
      let rest = work ds retries (body a s).1 in
      if options.acks_late && options.reject_on_worker_lost then rest else (dropped, (body a s).1)
  work (ended a ∷ ds) retries s =
      let rest = work ds (suc retries) (body a s).1 in
      elim (body a s).0 [
        | ok u ↦ (succeeded, (body a s).1)
        | err e ↦
            if options.autoretries && ltb retries options.max_retries
            then rest
            else (failed, (body a s).1)
      ]

if_both : {R : Type 0} (a b : Bool) (x y : R) → a ≡ true → b ≡ true → (if a && b then x else y) ≡ x
if_both a b x y e f = rw (e, f) refl

pub memory_queue : {A S E : Type 0} → Celery A S E
unfolding work
memory_queue = record {
  work = work;
  lost_lem =
      λ o body a ds n s late reject. if_both o.acks_late o.reject_on_worker_lost _ _ late reject;
  succeeded_lem = λ o body a ds n s e. rw (e, work) refl;
  retried_lem = λ o body a ds n s e f auto more.
      rw (f, work) (if_both o.autoretries (ltb n o.max_retries) _ _ auto more);
}
