-- ===== src/Engine/Pin.antt =====
-- `LoadRecord` and `MemoryEngine::Pin` of src/core/memory_engine.cpp.
use poorguy_mem.Common.{
  ℕ, ◌+◌, max, Bool, ◌&&◌, not, Option, none, some, List, ◌∷◌, ◌++◌, Text, text, if◌then◌else◌, ltb,
  find, is_empty, add64,
}
use poorguy_mem.Types.{MemoryRecord, OpType, WriteEntry}
use poorguy_mem.Engine.Keys.{record_map_key, doc_ns, build_doc_key}
use poorguy_mem.Engine.State.{
  Env, Options, Engine, now_ms, compute_record_size_bytes, compute_workspace_pin_stats,
  is_pin_blocked_by_ratio,
}
use poorguy_mem.Engine.Codec.{deserialize_record}
use poorguy_mem.Engine.Persist.{
  persist_record, append_projection_event, append_projection_checkpoint,
}
use poorguy_mem.Engine.Memory.{upsert_record_in_memory}
use poorguy_mem.Engine.Write.{persist_batch_now, enforce_limit, maybe_schedule_gc}

-- A value, or the text that the error parameter receives.
pub data Outcome (A : Type 0) : Type 0 where
  done : A → Outcome A
  fail : Text → Outcome A

module _ (env : Env) where
  open env use {store, tree, fpu}

  unfoldable pub load_record : Engine env → Text → Text → Outcome MemoryRecord
  load_record e workspace_id memory_id =
      elim (find (record_map_key workspace_id memory_id) e.records) [
        | some r ↦ done r
        | none ↦
            let got = store.get e.store doc_ns (build_doc_key workspace_id memory_id) in
            if not got.found
            then fail (if is_empty got.error then text "record not found" else got.error)
            else elim (deserialize_record env got.value) [
              | none ↦ fail (tree.read_error got.value)
              | some r ↦ done r
            ]
      ]

  -- The refusals of a pin: the quota of the workspace, then the ratio.
  unfoldable pub pin_refusal : Engine env → Text → MemoryRecord → Bool → Option Text
  pin_refusal e workspace_id r pin =
      if pin && not r.pinned
      then (let stats = compute_workspace_pin_stats e.records workspace_id in
          if ltb e.options.pin_quota_per_workspace (stats.pinned + 1)
          then some (text "pin quota exceeded")
          else if is_pin_blocked_by_ratio fpu (stats.pinned + 1) (stats.active + 1)
              e.options.max_pinned_ratio
          then some (text "pin ratio exceeded")
          else none)
      else none

  unfoldable pub pinned_record : Options → Text → ℕ → MemoryRecord → Bool → MemoryRecord
  pinned_record options node_id now r pin =
      let five = fpu.literal 5 0 in
      let r1 : MemoryRecord = record r {
        pinned = pin;
        updated_at_ms = now;
        version = add64 r.version 1;
        importance_score =
            if pin
            then fpu.literal 100 0
            else if fpu.lt five r.importance_score
            then five
            else r.importance_score;
        ttl_s =
            if pin && ltb 0 options.pin_ttl_override_s then options.pin_ttl_override_s else r.ttl_s;
      } in
      record r1 { size_bytes = compute_record_size_bytes r1; node_id = node_id }

  -- The batch of a pin, and what follows it if the store takes it.
  unfoldable pub commit_pin :
      Engine env → List WriteEntry → MemoryRecord → Outcome (Unit {0}) × Engine env
  commit_pin e writes r =
      let (res, e1) = persist_batch_now env e writes in
      if not res.ok
      then (fail res.error, e1)
      else (done tt, maybe_schedule_gc env (enforce_limit env (upsert_record_in_memory env e1 r)))

  -- What follows the checks.
  unfoldable pub apply_pin : Engine env → MemoryRecord → Bool → Outcome (Unit {0}) × Engine env
  apply_pin e r0 pin =
      let (now, e1) = now_ms env e in
      let r = pinned_record e.options e.node_id now r0 pin in
      let appended = append_projection_event env e1 r OpType.pin (text "pin") in
      let (read, e2) = now_ms env appended.engine in
      let writes =
        persist_record env e.records r
        ++ (appended.entry
            ∷ append_projection_checkpoint env r.workspace_id appended.event_key
                (max r.updated_at_ms read)) in
      commit_pin e2 writes r

  unfoldable pub pin : Engine env → Text → Text → Bool → Outcome (Unit {0}) × Engine env
  pin e workspace_id memory_id on = elim (load_record e workspace_id memory_id) [
    | fail error ↦ (fail error, e)
    | done r ↦ elim (pin_refusal e workspace_id r on) [
      | some error ↦ (fail error, e)
      | none ↦ apply_pin e r on
    ]
  ]
