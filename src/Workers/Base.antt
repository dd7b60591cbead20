-- ===== src/Workers/Base.antt =====
-- The base class of the tasks (workers/base.py), over what Celery documents of its attributes: an exception is
-- retried while retries are left, and a message whose worker is lost is delivered again, with the retries that it
-- had, if it is acknowledged late and rejected on the loss.
pub mod Runs
pub mod Memory
use pid_docs.Prelude.{ℕ, suc, Bool, true, List, ◌∷◌, ◌≡◌, ltb}
use pid_docs.Prelude.Exec.{Exec, ok, err}

abbrev pub default_max_retries : ℕ
default_max_retries = 3

abbrev pub retry_backoff_max_seconds : ℕ
retry_backoff_max_seconds = 600

-- `autoretries` stands for `autoretry_for = (Exception,)`.
pub record TaskOptions : Type 0 where
  pub acks_late : Bool
  pub reject_on_worker_lost : Bool
  pub autoretries : Bool
  pub retry_backoff : Bool
  pub retry_jitter : Bool
  pub max_retries : ℕ
  pub retry_backoff_max : ℕ

abbrev pub base_task : TaskOptions
base_task = record {
  acks_late = true;
  reject_on_worker_lost = true;
  autoretries = true;
  retry_backoff = true;
  retry_jitter = true;
  max_retries = default_max_retries;
  retry_backoff_max = retry_backoff_max_seconds;
}

-- One delivery of a message: its worker is lost behind what the body did, or the body ends.
pub data Delivery (A : Type 0) : Type 0 where
  lost ended : A → Delivery A

-- `queued`: it waits for its next delivery. `dropped`: it is gone without a result.
pub data Status : Type 0 where
  succeeded failed dropped queued : Status

-- Celery's documented treatment of a message: `work options body ds n s` is what becomes of it in the deliveries `ds`,
-- with `n` retries before, and the state that its runs leave.
pub record Celery (A S E : Type 0) : Type 0 where
  pub work : TaskOptions → (A → Exec S E (Unit {0})) → List (Delivery A) → ℕ → S → Status × S
  pub lost_lem :
      (options : TaskOptions) (body : A → Exec S E (Unit {0})) (a : A) (ds : List (Delivery A))
      (n : ℕ) (s : S)
      → options.acks_late ≡ true
      → options.reject_on_worker_lost ≡ true
      → work options body (lost a ∷ ds) n s ≡ work options body ds n (body a s).1
  pub succeeded_lem :
      (options : TaskOptions) (body : A → Exec S E (Unit {0})) (a : A) (ds : List (Delivery A))
      (n : ℕ) (s : S)
      → (body a s).0 ≡ ok tt
      → work options body (ended a ∷ ds) n s ≡ (succeeded, (body a s).1)
  pub retried_lem :
      (options : TaskOptions) (body : A → Exec S E (Unit {0})) (a : A) (ds : List (Delivery A))
      (n : ℕ) (s : S) (e : E)
      → (body a s).0 ≡ err e
      → options.autoretries ≡ true
      → ltb n options.max_retries ≡ true
      → work options body (ended a ∷ ds) n s ≡ work options body ds (suc n) (body a s).1
