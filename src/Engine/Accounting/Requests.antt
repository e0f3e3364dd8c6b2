-- ===== src/Engine/Accounting/Requests.antt =====
-- The public operations of `MemoryEngine` (include/pgmem/core/memory_engine.h) in any order, and the
-- accounting of the resident bytes through them.
use poorguy_mem.Common.{Bool, List, [], ◌∷◌, Text, Double}
use poorguy_mem.Types.{WriteInput, QueryInput}
use poorguy_mem.Retriever.{QueryClock}
use poorguy_mem.Engine.State.{Env, Engine}
use poorguy_mem.Engine.Memory.Charges.{Charged}
use poorguy_mem.Engine.Write.{write}
use poorguy_mem.Engine.Query.{query}
use poorguy_mem.Engine.Pin.{pin}
use poorguy_mem.Engine.Compact.{compact}
use poorguy_mem.Engine.Warmup.{warmup}
use poorguy_mem.Engine.Accounting.Preserved.{State, Holds, IsPreserved}
use poorguy_mem.Engine.Accounting.Writes.{write-IsPreserved}
use poorguy_mem.Engine.Accounting.Pins.{pin-IsPreserved}
use poorguy_mem.Engine.Accounting.Batches.{compact-IsPreserved, warmup-IsPreserved}
use poorguy_mem.Engine.Accounting.Charging.{Charges, charged}

-- The calls that change the state of the engine, with what each takes from the clocks.
pub data Request : Type 0 where
  write_request : WriteInput → Double → Request
  query_request : QueryInput → QueryClock → Double → Request
  pin_request : (workspace_id memory_id : Text) (on : Bool) → Request
  compact_request : (workspace_id : Text) → Request
  warmup_request : Request

module _ (env : Env) where
  unfoldable pub handle : Engine env → Request → Engine env
  handle e (write_request input ms) = (write env e input ms).1
  handle e (query_request input phases ms) = (query env e input phases ms).1
  handle e (pin_request workspace_id memory_id on) = (pin env e workspace_id memory_id on).1
  handle e (compact_request workspace_id) = (compact env e workspace_id).1
  handle e warmup_request = (warmup env e).1

  unfoldable pub handle_all : Engine env → List Request → Engine env
  handle_all e [] = e
  handle_all e (r ∷ rs) = handle_all (handle e r) rs

module _ (env : Env) (Q : State env → Type 0) (k : IsPreserved env Q) where
  pub handle-IsPreserved :
      (e : Engine env) (r : Request) → Holds env Q e → Holds env Q (handle env e r)
  unfolding handle
  handle-IsPreserved e (write_request input ms) a = write-IsPreserved env Q k e input ms a
  handle-IsPreserved e (query_request input phases ms) a = k.answer e input phases ms a
  handle-IsPreserved e (pin_request workspace_id memory_id on) a =
      pin-IsPreserved env Q k e workspace_id memory_id on a
  handle-IsPreserved e (compact_request workspace_id) a =
      compact-IsPreserved env Q k e workspace_id a
  handle-IsPreserved e warmup_request a = warmup-IsPreserved env Q k e a

  handle_all-IsPreserved :
      (requests : List Request) (e : Engine env)
      → Holds env Q e
      → Holds env Q (handle_all env e requests)
  unfolding handle_all
  handle_all-IsPreserved [] e a = a
  handle_all-IsPreserved (r ∷ rs) e a =
      handle_all-IsPreserved rs (handle env e r) (handle-IsPreserved e r a)

module _ (env : Env) where
  -- Whatever calls are made of an engine whose charges are accounted, and whichever of them fail:
  -- afterwards the resident records are still stored once each under their own keys, only resident
  -- records are charged, once each, and `resident_used_bytes` is the sum of the charges modulo 2^64.
  pub handle_all-IsAccounted :
      (requests : List Request) (e : Engine env) → Charged e → Charged (handle_all env e requests)
  handle_all-IsAccounted requests e a =
      handle_all-IsPreserved env (Charges env) (charged env) requests e a
