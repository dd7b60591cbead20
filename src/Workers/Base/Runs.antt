-- ===== src/Workers/Base/Runs.antt =====
-- A task of the base class (workers/base.py) whose body may be repeated: it ends with the result of one good run.
use pid_docs.Prelude.{
  ℕ, suc, ◌+◌, ◌≤◌, ◌≡◌, refl, List, [], ◌∷◌, ◌++◌, All, inl, inr, arith, ap, ◌∙◌,
}
use pid_docs.Prelude.Exec.{Exec, ok, Result-cases}
use pid_docs.Workers.Base.{Delivery, lost, ended, succeeded, Celery, base_task}

abbrev pub run_of : {A : Type 0} → Delivery A → A
run_of (lost a) = a
run_of (ended a) = a

-- the deliveries whose body came to an end
abbrev pub ended_runs : {A : Type 0} → List (Delivery A) → ℕ
ended_runs [] = 0
ended_runs (lost a ∷ ds) = ended_runs ds
ended_runs (ended a ∷ ds) = suc (ended_runs ds)

-- A body whose runs can be repeated: each keeps the state at some stage on the way to `result`, and is there when
-- it succeeds.
pub record Repeatable {A S E : Type 0} (body : A → Exec S E (Unit {0})) (IsRun : A → Type 0)
    (Stage : S → Type 0) (result : S) : Type 0 where
  pub keeps : (a : A) (s : S) → IsRun a → Stage s → Stage (body a s).1
  pub completes : (a : A) (s : S) → IsRun a → Stage s → (body a s).0 ≡ ok tt → (body a s).1 ≡ result

module _ {A S E : Type 0} (celery : Celery A S E) (body : A → Exec S E (Unit {0}))
    (IsRun : A → Type 0) (Stage : S → Type 0) (result : S)
    (repeatable : Repeatable body IsRun Stage result) (last : A) (run_last : IsRun last)
    (good : (s : S) → Stage s → (body last s).0 ≡ ok tt) (after : List (Delivery A)) where
  -- With three ended runs at most before it, a good run ends the task with the result, whatever else was lost or
  -- failed.
  pub work_from :
      (before : List (Delivery A)) (retries : ℕ) (s : S)
      → All (λ d. IsRun (run_of d)) before
      → Stage s
      → ended_runs before + retries ≤ 3
      → celery.work base_task body (before ++ ended last ∷ after) retries s ≡ (succeeded, result)
  work_from [] retries s runs stage few =
      celery.succeeded_lem base_task body last after retries s (good s stage)
      ∙ ap (λ v. (succeeded, v)) (repeatable.completes last s run_last stage (good s stage))
  work_from (lost a ∷ before) retries s (run, runs) stage few =
      celery.lost_lem base_task body a (before ++ ended last ∷ after) retries s refl refl
      ∙ work_from before retries (body a s).1 runs (repeatable.keeps a s run stage) few
  work_from (ended a ∷ before) retries s (run, runs) stage few = elim (Result-cases (body a s).0) [
    | inl (e, f) ↦
        celery.retried_lem base_task body a (before ++ ended last ∷ after) retries s e f refl
          (ground arith)
        ∙ work_from before (suc retries) (body a s).1 runs (repeatable.keeps a s run stage)
            (omega arith)
    | inr (u, f) ↦
        celery.succeeded_lem base_task body a (before ++ ended last ∷ after) retries s f
        ∙ ap (λ v. (succeeded, v)) (repeatable.completes a s run stage f)
  ]
