-- ===== src/Redis/Client/Tests.antt =====
-- Two tasks of one worker process, of which the first one is refused by Redis.
use pid_docs.Prelude.{true, false, none, [], ◌∷◌, ◌++◌, ◌≡◌, refl}
use mathlib.Core.List.{List}
use pid_docs.Redis.Client.{Process}
use pid_docs.Redis.Client.Loops.{Emission, IsIdle, sessions, emit_all, emit_all-sessions}

abbrev tasks : List Emission
tasks = record { loop = 1; answers = false } ∷ record { loop = 2; answers = true } ∷ []

abbrev fresh : Process
fresh = record { client = none; cache_read_client = none; uses = [] }

emit_all-sessions_example :
    IsIdle (emit_all "redis://r" tasks fresh)
    × (Process.uses (emit_all "redis://r" tasks fresh) ≡ [] ++ sessions tasks)
emit_all-sessions_example =
    emit_all-sessions "redis://r" tasks fresh refl
      (record { no_client = refl; no_cache_read_client = refl })
