-- ===== src/Engine/Compact/Keeps.antt =====
-- `CompactInternal` of src/core/memory_engine.cpp: what a compaction leaves alone, and the bound on
-- its batch.
use poorguy_mem.Common.{
  ℕ, ◌+◌, ◌≤◌, ◌≡◌, Bool, true, false, ◌||◌, List, [], ◌∷◌, Text, arith, Bool-cases, inl, inr, leb,
  if◌then◌else◌,
}
use poorguy_mem.Types.{MemoryRecord}
use poorguy_mem.Engine.State.{Env, Engine, now_ms}
use poorguy_mem.Engine.Compact.{
  Batch, compact, compact_internal, plan_batch, tombstone_loop, tombstone_one, delete_loop,
  delete_one, too_young, batch_limit, sort_by_rank, values_in_scope,
}

module _ (env : Env) where
  -- The actions are the tombstones and the deletions, and no more than the batch allows.
  abbrev IsBounded : ℕ → Batch env → Type 0
  IsBounded max_batch s =
      (s.actions ≡ s.tombstoned_count + s.deleted_count) × (s.actions ≤ max_batch)

  tombstone_loop-IsBounded :
      (now max_batch : ℕ) (rs : List MemoryRecord) (s : Batch env)
      → IsBounded max_batch s
      → IsBounded max_batch (tombstone_loop env now max_batch rs s)
  unfolding tombstone_loop tombstone_one
  tombstone_loop-IsBounded now max_batch [] s b = b
  tombstone_loop-IsBounded now max_batch (r ∷ rs) s b =
      elim (Bool-cases (leb max_batch s.actions || (r.pinned || r.tombstone))) [
        | inl e ↦ rw (tombstone_loop, e) (tombstone_loop-IsBounded now max_batch rs s b)
        | inr e ↦
            rw (tombstone_loop, e)
              (tombstone_loop-IsBounded now max_batch rs (tombstone_one env now r s)
                (ground (arith, e, b)))
      ]

  delete_loop-IsBounded :
      (now max_batch retention : ℕ) (rs : List MemoryRecord) (s : Batch env)
      → IsBounded max_batch s
      → IsBounded max_batch (delete_loop env now max_batch retention rs s)
  unfolding delete_loop delete_one
  delete_loop-IsBounded now max_batch retention [] s b = b
  delete_loop-IsBounded now max_batch retention (r ∷ rs) s b =
      elim (Bool-cases (leb max_batch s.actions || too_young env now retention r)) [
        | inl e ↦ rw (delete_loop, e) (delete_loop-IsBounded now max_batch retention rs s b)
        | inr e ↦
            rw (delete_loop, e)
              (delete_loop-IsBounded now max_batch retention rs (delete_one env now r s)
                (ground (arith, e, b)))
      ]

  plan_batch-IsBounded :
      (e : Engine env) (workspace_id : Text) (now : ℕ)
      → IsBounded (batch_limit env e.options) (plan_batch env e workspace_id now)
  unfolding plan_batch
  plan_batch-IsBounded e workspace_id now =
      either (e.options.enable_tombstone_gc) _ _ (delete_loop-IsBounded now _ _ _ _ first) first
    where
      first : IsBounded (batch_limit env e.options) (
          tombstone_loop env now
            (batch_limit env e.options)
            (sort_by_rank env now (values_in_scope workspace_id false e.records))
            (record {
              engine = e;
              writes = [];
              upserted = [];
              deleted = [];
              tombstoned_count = 0;
              deleted_count = 0;
              actions = 0;
            }))
      first = tombstone_loop-IsBounded now _ _ _ (omega arith, omega arith)

      either :
          (on : Bool) (s s' : Batch env)
          → IsBounded (batch_limit env e.options) s
          → IsBounded (batch_limit env e.options) s'
          → IsBounded (batch_limit env e.options) (if on then s else s')
      either true s s' h h' = h
      either false s s' h h' = h'

  -- A compaction reports at most as many tombstones and deletions together as the batch size of the
  -- options allows, 256 where that is zero.
  pub compact_within :
      (e : Engine env) (workspace_id : Text)
      → (compact env e workspace_id).0.tombstoned_count
          + (compact env e workspace_id).0.deleted_count
        ≤ batch_limit env e.options
  unfolding compact compact_internal now_ms
  compact_within e workspace_id =
      let b = plan_batch-IsBounded (now_ms env e).1 workspace_id (now_ms env e).0 in
      omega (arith, b)
