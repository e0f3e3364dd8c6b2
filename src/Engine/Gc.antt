-- ===== src/Engine/Gc.antt =====
-- The background thread of src/core/memory_engine.cpp: `RunGcLoop`, its start in the constructor and its
-- end in `Shutdown`, interleaved with the calls of the engine. A call and a round are one step each.
use poorguy_mem.Common.{Bool, true, false, List, [], ◌∷◌, text, if◌then◌else◌, is_empty}
use poorguy_mem.Engine.State.{Env, Engine}
use poorguy_mem.Engine.Compact.{compact_internal}
use poorguy_mem.Engine.Accounting.Preserved.{State, Holds, IsPreserved}
use poorguy_mem.Engine.Accounting.Batches.{compact_internal-IsPreserved}
use poorguy_mem.Engine.Accounting.Requests.{Request, handle, handle-IsPreserved}

-- `wake` is a round of the loop: the wait ends, by a request, the end of the thread or the time.
pub data Step : Type 0 where
  call : Request → Step
  wake : Step
  shutdown : Step

module _ (env : Env) where
  -- The constructor, over the state of a new engine.
  unfoldable pub start_engine : Engine env → Engine env
  start_engine e =
      let backend =
        if is_empty e.options.effective_backend
        then text "unknown"
        else e.options.effective_backend in
      record e {
        options = record e.options { effective_backend = backend };
        gc_running = e.options.enable_tombstone_gc;
      }

  -- A round of `RunGcLoop`, given whether the thread is to stop.
  unfoldable pub gc_round : Bool → Engine env → Engine env
  gc_round true e = e
  gc_round false e = (compact_internal env (record e { gc_requested = false }) [] false).1

  -- A wake-up, given whether the thread was started.
  unfoldable pub gc_wake : Bool → Engine env → Engine env
  gc_wake true e = gc_round e.gc_stop e
  gc_wake false e = e

  unfoldable pub step : Engine env → Step → Engine env
  step e (call r) = handle env e r
  step e wake = gc_wake e.gc_running e
  step e shutdown = record e { gc_stop = true }

  unfoldable pub run : Engine env → List Step → Engine env
  run e [] = e
  run e (s ∷ steps) = run (step e s) steps

module _ (env : Env) (Q : State env → Type 0) (k : IsPreserved env Q) where
  gc_round-IsPreserved :
      (stop : Bool) (e : Engine env) → Holds env Q e → Holds env Q (gc_round env stop e)
  unfolding gc_round
  gc_round-IsPreserved true e a = a
  gc_round-IsPreserved false e a =
      compact_internal-IsPreserved env Q k (record e { gc_requested = false }) [] false a

  gc_wake-IsPreserved :
      (on : Bool) (e : Engine env) → Holds env Q e → Holds env Q (gc_wake env on e)
  unfolding gc_wake
  gc_wake-IsPreserved true e a = gc_round-IsPreserved e.gc_stop e a
  gc_wake-IsPreserved false e a = a

  step-IsPreserved : (e : Engine env) (s : Step) → Holds env Q e → Holds env Q (step env e s)
  unfolding step
  step-IsPreserved e (call r) a = handle-IsPreserved env Q k e r a
  step-IsPreserved e wake a = gc_wake-IsPreserved e.gc_running e a
  step-IsPreserved e shutdown a = a

  pub run-IsPreserved :
      (steps : List Step) (e : Engine env) → Holds env Q e → Holds env Q (run env e steps)
  unfolding run
  run-IsPreserved [] e a = a
  run-IsPreserved (s ∷ steps) e a = run-IsPreserved steps (step env e s) (step-IsPreserved e s a)
