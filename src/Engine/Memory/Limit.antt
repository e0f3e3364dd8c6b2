-- ===== src/Engine/Memory/Limit.antt =====
-- `EnforceResidentHardLimit` of src/core/memory_engine.cpp, as the operations call it.
use poorguy_mem.Common.{◌≤◌, ◌≡◌, refl, none, some, Text, find, true, All, ◌⊎◌}
use poorguy_mem.Types.{MemoryRecord}
use poorguy_mem.Engine.State.{Env, Engine, resident_limit_bytes}
use poorguy_mem.Engine.Memory.{enforce_resident_hard_limit}
use poorguy_mem.Engine.Memory.Charges.{Charged}
use poorguy_mem.Engine.Memory.Evicts.{IsPinned, enforce_lem}
use poorguy_mem.Engine.Write.{enforce_limit}

module _ (env : Env) where
  -- In an engine whose charges are accounted, the enforcement of the limit comes to an end, and
  -- there the charges are accounted, and the resident bytes are within the limit, or every record
  -- that is left is pinned, or the limit is 0, which means that there is none.
  pub enforce_within :
      (e : Engine env)
      → Charged e
      → (enforce_resident_hard_limit env none e ≡ some (enforce_limit env e))
        × Charged (enforce_limit env e)
        × ((resident_limit_bytes env e.options ≡ 0)
            ⊎ ((enforce_limit env e).resident_used_bytes ≤ resident_limit_bytes env e.options)
            ⊎ All IsPinned (enforce_limit env e).records)
  unfolding enforce_limit
  enforce_within e a =
      let (e', runs, accounted, within, _, _, _, _) = enforce_lem env none e a in
      rw (runs, enforce_limit) (refl, accounted, within)

  -- In an engine whose charges are accounted, a pinned record stands unchanged under its key after
  -- the enforcement of the limit.
  pub enforce_keeps_pinned :
      (e : Engine env) (k : Text) (r : MemoryRecord)
      → Charged e
      → find k e.records ≡ some r
      → r.pinned ≡ true
      → find k (enforce_limit env e).records ≡ some r
  unfolding enforce_limit
  enforce_keeps_pinned e k r a there pinned =
      let (e', runs, _, _, kept, _, _, _) = enforce_lem env none e a in
      rw (runs, enforce_limit) (kept k r there pinned)

  -- In an engine whose charges are accounted, what stands under a key after the enforcement of the
  -- limit stood there before, unchanged: records are only evicted.
  pub enforce_only_evicts :
      (e : Engine env) (k : Text) (r : MemoryRecord)
      → Charged e
      → find k (enforce_limit env e).records ≡ some r
      → find k e.records ≡ some r
  unfolding enforce_limit
  enforce_only_evicts e k r a left =
      let (e', runs, _, _, _, only, _, _) = enforce_lem env none e a in
      only k r (rw (runs, enforce_limit) at left)
