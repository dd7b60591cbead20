-- ===== src/Redis/Client/Loops.antt =====
-- The publications of a worker process, each on an event loop of its own (workers/scan/tasks.py on redis/client.py).
use pid_docs.Prelude.{ℕ, String, Bool, false, none, some, List, [], ◌∷◌, ◌++◌, ◌≡◌, arith, sym, ◌∙◌}
use mathlib.Core.List.{append-nil, append_assoc}
use pid_docs.Prelude.Text.{is_empty}
use pid_docs.Redis.Client.{
  Use, made, published, closed, Process, require_redis_url, publish_then_close,
}

-- One task: its loop, and whether Redis answers.
pub record Emission : Type 0 where
  pub loop : ℕ
  pub answers : Bool

-- No client is kept.
pub record IsIdle (p : Process) : Type 0 where
  pub no_client : p.client ≡ none
  pub no_cache_read_client : p.cache_read_client ≡ none

-- What each task does: it makes a client, publishes with it, and closes it, all on its own loop.
pub sessions : List Emission → List Use
sessions [] = []
sessions (e ∷ es) = made e.loop ∷ published e.loop e.loop ∷ closed e.loop e.loop ∷ sessions es

module _ (url : String) where
  pub emit_all : List Emission → Process → Process
  emit_all [] p = p
  emit_all (e ∷ es) p = emit_all es (publish_then_close (some url) e.loop e.answers p).1

  -- One task on an idle process leaves it idle.
  publish_then_close-session :
      (loop : ℕ) (answers : Bool) (p : Process)
      → is_empty url ≡ false
      → IsIdle p
      → let q = (publish_then_close (some url) loop answers p).1 in
        IsIdle q
        × (q.uses
            ≡ ((p.uses ++ made loop ∷ []) ++ published loop loop ∷ []) ++ closed loop loop ∷ [])
  unfolding publish_then_close require_redis_url
  publish_then_close-session loop answers p configured idle =
      (record { no_client = ground arith; no_cache_read_client = ground arith }, ground arith)

  -- With a Redis that is configured, and on a process that keeps no client: however many tasks publish, each on an
  -- event loop of its own, and whether or not Redis answers, each of them makes its client, publishes with it and
  -- closes it on its own loop, in this order, and none of them leaves a client behind.
  pub emit_all-sessions :
      (es : List Emission) (p : Process)
      → is_empty url ≡ false
      → IsIdle p
      → IsIdle (emit_all es p) × ((emit_all es p).uses ≡ p.uses ++ sessions es)
  unfolding emit_all sessions
  emit_all-sessions [] p configured idle = (idle, sym (append-nil p.uses))
  emit_all-sessions (e ∷ es) p configured idle =
      let (after, uses) = publish_then_close-session e.loop e.answers p configured idle in
      let (last, rest) =
        emit_all-sessions es (publish_then_close (some url) e.loop e.answers p).1 configured
          after in
      (last, rest ∙ rw uses (simp append_assoc))
