-- ===== src/Engine/Compact.antt =====
-- `CompactInternal` of src/core/memory_engine.cpp.
pub mod Keeps
pub mod Pinned
use poorguy_mem.Common.{
  ℕ, zero, suc, ◌+◌, ◌-◌, max, Bool, true, false, ◌&&◌, ◌||◌, not, Option, none, some, List, [],
  ◌∷◌, ◌++◌, Text, text, text_eq, if◌then◌else◌, ltb, leb, ◌==◌, Map, is_empty, add64, insert_by,
  filter_by, length,
}
use poorguy_mem.Types.{MemoryRecord, OpType, WriteEntry, StoreUsage}
use poorguy_mem.Engine.State.{
  Env, Options, Engine, now_ms, compute_record_size_bytes, eviction_rank, is_over_high_watermark,
  pinned_ratio,
}
use poorguy_mem.Engine.Persist.{
  persist_record, delete_record_storage, append_projection_event, append_projection_checkpoint,
  Appended,
}
use poorguy_mem.Engine.Memory.{upsert_all, remove_record_in_memory}
use poorguy_mem.Engine.Write.{persist_batch_now}

-- `CompactOutput`
pub record CompactOutput : Type 0 where
  pub triggered : Bool
  pub capacity_blocked : Bool
  pub mem_before_bytes : ℕ
  pub disk_before_bytes : ℕ
  pub mem_after_bytes : ℕ
  pub disk_after_bytes : ℕ
  pub summarized_count : ℕ
  pub tombstoned_count : ℕ
  pub deleted_count : ℕ
  pub segments_before : ℕ
  pub segments_after : ℕ
  pub postings_reclaimed : ℕ
  pub vectors_reclaimed : ℕ

-- Whether a record is in the scope of a compaction; no workspace means all.
unfoldable pub in_scope : Text → MemoryRecord → Bool
in_scope workspace_id r = is_empty workspace_id || text_eq r.workspace_id workspace_id

unfoldable pub values_in_scope : Text → Bool → Map MemoryRecord → List MemoryRecord
values_in_scope workspace_id tombstone [] = []
values_in_scope workspace_id tombstone ((k, r) ∷ records) =
    let rest = values_in_scope workspace_id tombstone records in
    if in_scope workspace_id r && (if tombstone then r.tombstone else not r.tombstone)
    then r ∷ rest
    else rest

-- The counts of the last loop.
pub record Activity : Type 0 where
  pub pinned_count : ℕ
  pub active_count : ℕ
  pub has_evictable : Bool

unfoldable pub count_activity : Text → Map MemoryRecord → Activity
count_activity workspace_id [] = record {
  pinned_count = 0;
  active_count = 0;
  has_evictable = false;
}
count_activity workspace_id ((k, r) ∷ records) =
    let a = count_activity workspace_id records in
    if not (in_scope workspace_id r) || r.tombstone
    then a
    else if r.pinned
    then record a { pinned_count = a.pinned_count + 1; active_count = a.active_count + 1 }
    else record a { active_count = a.active_count + 1; has_evictable = true }

module _ (env : Env) where
  open env use {store, fpu}

  -- The comparator of the sort: the lowest rank first, and among equal ranks the oldest.
  unfoldable pub ranks_before : ℕ → MemoryRecord → MemoryRecord → Bool
  ranks_before now lhs rhs =
      let lhs_rank = eviction_rank fpu lhs now in
      let rhs_rank = eviction_rank fpu rhs now in
      if fpu.eq lhs_rank rhs_rank
      then ltb lhs.updated_at_ms rhs.updated_at_ms
      else fpu.lt lhs_rank rhs_rank

  unfoldable pub sort_by_rank : ℕ → List MemoryRecord → List MemoryRecord
  sort_by_rank now [] = []
  sort_by_rank now (r ∷ rs) = insert_by (ranks_before now) r (sort_by_rank now rs)

  unfoldable pub tombstone_of : Text → ℕ → MemoryRecord → MemoryRecord
  tombstone_of node_id now candidate =
      let r : MemoryRecord = record candidate {
        tombstone = true;
        tier = text "cold";
        updated_at_ms = now;
        last_access_ms = now;
        version = add64 (max candidate.version 1) 1;
        node_id = node_id;
      } in
      record r { size_bytes = compute_record_size_bytes r }

  -- The variables of the two loops over the candidates.
  pub record Batch : Type 0 where
    pub engine : Engine env
    pub writes : List WriteEntry
    pub upserted : List MemoryRecord
    pub deleted : List MemoryRecord
    pub tombstoned_count : ℕ
    pub deleted_count : ℕ
    pub actions : ℕ

  unfoldable pub tombstone_one : ℕ → MemoryRecord → Batch → Batch
  tombstone_one now candidate s =
      let tomb = tombstone_of s.engine.node_id now candidate in
      let appended =
        append_projection_event env s.engine tomb OpType.delete (text "compact_tombstone") in
      record s {
        engine = appended.engine;
        writes =
            s.writes
            ++ (persist_record env s.engine.records tomb
                ++ (appended.entry
                    ∷ append_projection_checkpoint env tomb.workspace_id appended.event_key now));
        upserted = s.upserted ++ tomb ∷ [];
        tombstoned_count = s.tombstoned_count + 1;
        actions = s.actions + 1;
      }

  -- The `break` on the batch size leaves the rest of the loop without effect.
  unfoldable pub tombstone_loop : ℕ → ℕ → List MemoryRecord → Batch → Batch
  tombstone_loop now max_batch [] s = s
  tombstone_loop now max_batch (candidate ∷ rest) s = tombstone_loop now max_batch rest (
      if leb max_batch s.actions || (candidate.pinned || candidate.tombstone)
      then s
      else tombstone_one now candidate s)

  unfoldable pub delete_one : ℕ → MemoryRecord → Batch → Batch
  delete_one now candidate s =
      let (entries, e1) = delete_record_storage env s.engine candidate in
      let appended =
        append_projection_event env e1 candidate OpType.delete (text "compact_delete") in
      record s {
        engine = appended.engine;
        writes =
            s.writes
            ++ (entries
                ++ (appended.entry
                    ∷ append_projection_checkpoint env candidate.workspace_id appended.event_key
                        now));
        deleted = s.deleted ++ candidate ∷ [];
        deleted_count = s.deleted_count + 1;
        actions = s.actions + 1;
      }

  abbrev pub too_young : ℕ → ℕ → MemoryRecord → Bool
  too_young now retention r =
      ltb (if ltb r.updated_at_ms now then now - r.updated_at_ms else 0) retention

  unfoldable pub delete_loop : ℕ → ℕ → ℕ → List MemoryRecord → Batch → Batch
  delete_loop now max_batch retention [] s = s
  delete_loop now max_batch retention (candidate ∷ rest) s =
      delete_loop now max_batch retention rest (
        if leb max_batch s.actions || too_young now retention candidate
        then s
        else delete_one now candidate s)

  unfoldable pub remove_all : Engine env → List MemoryRecord → Engine env
  remove_all e [] = e
  remove_all e (r ∷ rs) = remove_all (remove_record_in_memory env e r) rs

  abbrev pub batch_limit : Options → ℕ
  batch_limit options = if options.gc_batch_size == 0 then 256 else options.gc_batch_size

  -- Both loops, over the records as they stand at the start.
  unfoldable pub plan_batch : Engine env → Text → ℕ → Batch
  plan_batch e workspace_id now =
      let max_batch = batch_limit e.options in
      let active = sort_by_rank now (values_in_scope workspace_id false e.records) in
      let tombstones = values_in_scope workspace_id true e.records in
      let s0 : Batch = record {
        engine = e;
        writes = [];
        upserted = [];
        deleted = [];
        tombstoned_count = 0;
        deleted_count = 0;
        actions = 0;
      } in
      let s1 = tombstone_loop now max_batch active s0 in
      if e.options.enable_tombstone_gc
      then delete_loop now max_batch e.options.tombstone_retention_ms tombstones s1
      else s1

  -- The batch is written, and applied to the resident state if the store takes it. The flag says
  -- whether it was applied.
  unfoldable pub apply_batch : Batch → Bool × Engine env
  apply_batch s =
      if is_empty s.writes
      then (false, s.engine)
      else (let (res, e1) = persist_batch_now env s.engine s.writes in
          if res.ok
          then (let e2 = remove_all (upsert_all env e1 s.upserted) s.deleted in
              (
                true,
                if ltb 0 s.deleted_count
                    then record e2 { gc_evicted_count = add64 e2.gc_evicted_count s.deleted_count }
                    else e2,
              ))
          else (false, e1))

  unfoldable pub is_blocked : Options → StoreUsage → Activity → Bool
  is_blocked options usage a =
      let none_evictable = ltb 0 a.active_count && not a.has_evictable in
      (is_over_high_watermark fpu options usage && none_evictable)
      || (none_evictable
          && fpu.le options.max_pinned_ratio (pinned_ratio fpu a.pinned_count a.active_count))

  unfoldable pub compact_internal : Engine env → Text → Bool → CompactOutput × Engine env
  compact_internal e workspace_id force =
      let usage = store.approximate_usage e.store in
      if not force && not (is_over_high_watermark fpu e.options usage)
      then (
        record {
          triggered = false;
          capacity_blocked = false;
          mem_before_bytes = usage.mem_used_bytes;
          disk_before_bytes = usage.disk_used_bytes;
          mem_after_bytes = usage.mem_used_bytes;
          disk_after_bytes = usage.disk_used_bytes;
          summarized_count = 0;
          tombstoned_count = 0;
          deleted_count = 0;
          segments_before = 1;
          segments_after = 1;
          postings_reclaimed = 0;
          vectors_reclaimed = 0;
        },
        e,
      )
      else (let (now, e1) = now_ms env e in
          let s = plan_batch e1 workspace_id now in
          let (applied, e2) = apply_batch s in
          let after = store.approximate_usage e2.store in
          let blocked = is_blocked e2.options after (count_activity workspace_id e2.records) in
          let reclaimed = if applied then length s.deleted else 0 in
          (
            record {
              triggered = true;
              capacity_blocked = blocked;
              mem_before_bytes = usage.mem_used_bytes;
              disk_before_bytes = usage.disk_used_bytes;
              mem_after_bytes = after.mem_used_bytes;
              disk_after_bytes = after.disk_used_bytes;
              summarized_count = 0;
              tombstoned_count = s.tombstoned_count;
              deleted_count = s.deleted_count;
              segments_before = 1;
              segments_after = 1;
              postings_reclaimed = reclaimed;
              vectors_reclaimed = reclaimed;
            },
            record e2 { gc_last_run_ms = now; capacity_blocked = blocked },
          ))

  unfoldable pub compact : Engine env → Text → CompactOutput × Engine env
  compact e workspace_id = compact_internal e workspace_id true
