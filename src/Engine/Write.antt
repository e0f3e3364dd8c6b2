-- ===== src/Engine/Write.antt =====
-- `MemoryEngine::Write` of src/core/memory_engine.cpp, with `PersistBatchNow`, `NextMemoryId` and
-- `MaybeScheduleGc`. The duration that the metrics record is an argument.
pub mod Failures
pub mod Governance
pub mod Returns
use poorguy_mem.Common.{
  ℕ, zero, suc, ◌+◌, Bool, true, false, ◌&&◌, ◌||◌, not, Option, none, some, List, [], ◌∷◌, ◌++◌,
  Text, text, text_eq, if◌then◌else◌, ltb, Map, find, is_empty, add64, Double,
}
use poorguy_mem.Types.{
  MemoryRecord, OpType, WriteEntry, WriteInput, WriteOutput, WriteRecordInput, StoreResult,
}
use poorguy_mem.Json.{put_uint64}
use poorguy_mem.Tokens.{estimate_token_count}
use poorguy_mem.Metrics.{record_token_reduction, record_write_latency}
use poorguy_mem.Engine.Keys.{record_map_key, zero_pad_uint64, route_meta_ns, build_route_meta_key}
use poorguy_mem.Engine.State.{
  Env, Options, Engine, now_ms, compute_record_size_bytes, compute_workspace_pin_stats,
  is_pin_blocked_by_ratio, is_over_high_watermark,
}
use poorguy_mem.Engine.Codec.{serializes}
use poorguy_mem.Engine.Persist.{
  persist_record, append_projection_event, append_projection_checkpoint, Appended, upsert_entry,
}
use poorguy_mem.Engine.Memory.{upsert_all, enforce_resident_hard_limit}

abbrev or_default : Text → Text → Text
or_default t fallback = if is_empty t then fallback else t

-- The value of a metadata key, or what stood there before.
abbrev metadata_or : Map Text → Text → Text → Text
metadata_or metadata key before = elim (find key metadata) [ none ↦ before | some v ↦ v ]

unfoldable pub token_total : List WriteRecordInput → ℕ
token_total [] = 0
token_total (r ∷ rs) = estimate_token_count r.content + token_total rs

unfoldable pub stored_token_total : List MemoryRecord → ℕ
stored_token_total [] = 0
stored_token_total (r ∷ rs) = estimate_token_count r.content + stored_token_total rs

module _ (env : Env) where
  open env use {store, tree, fpu}

  unfoldable pub persist_batch_now : Engine env → List WriteEntry → StoreResult × Engine env
  persist_batch_now e writes =
      let (res, s) = store.batch_write e.store writes in (res, record e { store = s })

  unfoldable pub next_memory_id : Engine env → Text × Engine env
  next_memory_id e =
      let (now, e') = now_ms env e in
      (
        text "m-" ++ (zero_pad_uint64 now ++ (text "-" ++ zero_pad_uint64 e'.local_seq)),
        record e' { local_seq = add64 e'.local_seq 1 },
      )

  -- `EnforceResidentHardLimit()`; its loop always ends (Engine.Memory.Evicts), so the fallback is
  -- never taken.
  unfoldable pub enforce_limit : Engine env → Engine env
  enforce_limit e = elim (enforce_resident_hard_limit env none e) [ none ↦ e | some e' ↦ e' ]

  unfoldable pub maybe_schedule_gc : Engine env → Engine env
  maybe_schedule_gc e =
      if not e.gc_running
      then e
      else if is_over_high_watermark fpu e.options (store.approximate_usage e.store)
      then record e { gc_requested = true }
      else e

  -- The variables of the loop of `Write`.
  pub record WriteLoop : Type 0 where
    pub engine : Engine env
    pub writes : List WriteEntry
    pub upserts : List MemoryRecord
    pub stored_ids : List Text
    pub deduped_ids : List Text
    pub warnings : List Text
    pub projected_active : ℕ
    pub projected_pinned : ℕ
    -- an exception of `SerializeRecord` has left the loop
    pub thrown : Bool

  abbrev pub warn : Text → WriteLoop → WriteLoop
  warn w s = record s { warnings = s.warnings ++ w ∷ [] }

  -- Pin governance: whether the record is pinned, and the warning if it is not although asked.
  unfoldable pub govern_pin : Options → ℕ → ℕ → Text → Bool → Bool × List Text
  govern_pin options active pinned id pin =
      if not pin
      then (false, [])
      else if ltb options.pin_quota_per_workspace (pinned + 1)
      then (false, (text "pin governance: quota exceeded for record " ++ id) ∷ [])
      else if is_pin_blocked_by_ratio fpu (pinned + 1) (active + 1) options.max_pinned_ratio
      then (false, (text "pin governance: pinned ratio exceeded for record " ++ id) ∷ [])
      else (true, [])

  -- The record that `Write` builds from an input.
  unfoldable pub build_record :
      Options → Text → WriteInput → WriteRecordInput → ℕ → Text → Bool → MemoryRecord
  build_record options node_id input rec_in now id pinned =
      let zero_d = fpu.literal 0 0 in
      let r : MemoryRecord = record {
        id = id;
        workspace_id = input.workspace_id;
        session_id = or_default input.session_id (text "default");
        source = or_default rec_in.source (text "turn");
        content = rec_in.content;
        tags = rec_in.tags;
        metadata = rec_in.metadata;
        dedup_key = rec_in.dedup_key;
        pinned = pinned;
        tombstone = false;
        created_at_ms = now;
        updated_at_ms = now;
        version = 1;
        size_bytes = 0;
        last_access_ms = now;
        hit_count = 0;
        importance_score = if fpu.lt zero_d rec_in.importance then rec_in.importance else zero_d;
        tier = text "hot";
        node_id = node_id;
        ttl_s =
            if pinned && ltb 0 options.pin_ttl_override_s
            then options.pin_ttl_override_s
            else rec_in.ttl_s;
        shard_id = metadata_or rec_in.metadata (text "shard_id") [];
        replica_role = metadata_or rec_in.metadata (text "replica_role") [];
        routing_epoch = 0;
        shard_hint = metadata_or rec_in.metadata (text "shard_hint") [];
      } in
      record r { size_bytes = compute_record_size_bytes r }

  abbrev pub dedup_hit : WriteInput → WriteRecordInput → WriteLoop → Option Text
  dedup_hit input rec_in s =
      if is_empty rec_in.dedup_key || text_eq input.write_mode (text "append")
      then none
      else find (record_map_key input.workspace_id rec_in.dedup_key) s.engine.dedup_index

  -- The end of a round: the entries of an accepted record.
  unfoldable pub accept_record : ℕ → MemoryRecord → WriteLoop → WriteLoop
  accept_record now r s =
      let appended = append_projection_event env s.engine r OpType.upsert (text "write") in
      record {
        engine = appended.engine;
        writes =
            s.writes
            ++ (persist_record env s.engine.records r
                ++ (appended.entry
                    ∷ append_projection_checkpoint env r.workspace_id appended.event_key now));
        upserts = s.upserts ++ r ∷ [];
        stored_ids = s.stored_ids ++ r.id ∷ [];
        deduped_ids = s.deduped_ids;
        warnings = s.warnings;
        projected_active = s.projected_active + 1;
        projected_pinned = if r.pinned then s.projected_pinned + 1 else s.projected_pinned;
        thrown = s.thrown;
      }

  -- A round from the point where the id is known.
  unfoldable pub write_with_id : WriteInput → WriteRecordInput → ℕ → Text → WriteLoop → WriteLoop
  write_with_id input rec_in now id s =
      let options = s.engine.options in
      let (pinned, pin_warnings) =
        govern_pin options s.projected_active s.projected_pinned id rec_in.pin in
      let s' = record s { warnings = s.warnings ++ pin_warnings } in
      let r = build_record options s.engine.node_id input rec_in now id pinned in
      if ltb options.max_record_bytes r.size_bytes
      then warn (text "skip oversized record: " ++ id) s'
      else if serializes env r
      then accept_record now r s'
      else record s' { thrown = true }

  -- One round of the loop.
  unfoldable pub write_record : WriteInput → ℕ → WriteRecordInput → WriteLoop → WriteLoop
  write_record input now rec_in s =
      if is_empty rec_in.content
      then warn (text "skip empty content record") s
      else elim (dedup_hit input rec_in s) [
        | some id ↦ record s { deduped_ids = s.deduped_ids ++ id ∷ [] }
        | none ↦
            if is_empty rec_in.record_id
            then (let (id, e) = next_memory_id s.engine in
                write_with_id input rec_in now id (record s { engine = e }))
            else write_with_id input rec_in now rec_in.record_id s
      ]

  -- The variables, given whether an exception has left the loop, and those after the next round.
  abbrev pub unless_thrown : Bool → WriteLoop → WriteLoop → WriteLoop
  unless_thrown true s next = s
  unless_thrown false s next = next

  unfoldable pub write_records : WriteInput → ℕ → List WriteRecordInput → WriteLoop → WriteLoop
  write_records input now [] s = s
  write_records input now (rec_in ∷ rest) s =
      write_records input now rest (unless_thrown s.thrown s (write_record input now rec_in s))

  unfoldable pub start_write : WriteInput → Engine env → ℕ × WriteLoop
  start_write input e =
      let (now, e') = now_ms env e in
      let stats = compute_workspace_pin_stats e'.records input.workspace_id in
      (
        now,
        record {
          engine = e';
          writes = [];
          upserts = [];
          stored_ids = [];
          deduped_ids = [];
          warnings = [];
          projected_active = stats.active;
          projected_pinned = stats.pinned;
          thrown = false;
        },
      )

  unfoldable pub route_meta : WriteInput → ℕ → WriteEntry
  route_meta input now =
      let r1 = put_uint64 tree tree.empty (text "bucket_count") 1 in
      let r2 = tree.put r1 (text "hot_level") (text "normal") in
      let route = tree.put r2 (text "shard_hint") (text "workspace") in
      upsert_entry route_meta_ns (build_route_meta_key input.workspace_id) (tree.write_json route)
        now

  abbrev loop_output : Bool → ℕ → List Text → WriteLoop → WriteOutput
  loop_output ok generation extra s = record {
    ok = ok;
    stored_ids = s.stored_ids;
    deduped_ids = s.deduped_ids;
    index_generation = generation;
    warnings = s.warnings ++ extra;
  }

  -- What follows a batch that the store has taken.
  unfoldable pub commit_write : WriteInput → ℕ → Double → Engine env → WriteLoop → Engine env
  commit_write input now ms e s =
      let e1 = upsert_all env e s.upserts in
      let e2 = (persist_batch_now e1 (route_meta input now ∷ [])).1 in
      let e3 = maybe_schedule_gc (enforce_limit e2) in
      let m1 =
        record_token_reduction fpu e3.metrics (token_total input.records)
          (stored_token_total s.upserts) in
      record e3 {
        metrics = record_write_latency fpu m1 ms;
        index_generation = add64 e3.index_generation 1;
      }

  abbrev refused : Bool → Text → WriteOutput
  refused ok w = record {
    ok = ok;
    stored_ids = [];
    deduped_ids = [];
    index_generation = 0;
    warnings = w ∷ [];
  }

  -- No output stands for the exception of `SerializeRecord`, which leaves `Write`.
  unfoldable pub write : Engine env → WriteInput → Double → Option WriteOutput × Engine env
  write e input ms =
      if is_empty input.workspace_id
      then (some (refused false (text "workspace_id is required")), e)
      else if is_empty input.records
      then (some (refused true (text "records is empty")), e)
      else (let (now, s0) = start_write input e in
          let s = write_records input now input.records s0 in
          if s.thrown
          then (none, s.engine)
          else if is_empty s.writes
          then (
            some (
                loop_output
                  (not (is_empty s.stored_ids)
                    || not (is_empty s.deduped_ids)
                    || not (is_empty s.warnings))
                  0 [] s),
            s.engine,
          )
          else (let (res, e1) = persist_batch_now s.engine s.writes in
              if not res.ok
              then (some (loop_output false 0 (res.error ∷ []) s), e1)
              else (let e2 = commit_write input now ms e1 s in
                  (some (loop_output true e2.index_generation [] s), e2))))
