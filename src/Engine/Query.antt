-- ===== src/Engine/Query.antt =====
-- `MemoryEngine::Query` of src/core/memory_engine.cpp: the retriever's hits, cut to the token budget
-- and without the expired records, and the access statistics of what is returned.
pub mod Budget
use poorguy_mem.Common.{
  ℕ, zero, suc, ◌+◌, Bool, true, false, ◌&&◌, Option, none, some, List, [], ◌∷◌, ◌++◌, Text,
  if◌then◌else◌, ltb, Map, find, insert, is_empty, add64, Double,
}
use poorguy_mem.Types.{MemoryRecord, QueryInput, QueryOutput, QueryHit, QueryDebugStats}
use poorguy_mem.Tokens.{estimate_token_count}
use poorguy_mem.Metrics.{record_fallback, record_read_latency}
use poorguy_mem.Retriever.{QueryClock}
use poorguy_mem.Engine.Keys.{record_map_key}
use poorguy_mem.Engine.State.{Env, Engine, now_ms, is_expired}

-- Whether the record of a hit is resident and expired.
unfoldable pub hit_expired : Map MemoryRecord → Text → ℕ → QueryHit → Bool
hit_expired records workspace_id now hit =
    elim (find (record_map_key workspace_id hit.memory_id) records) [
      | none ↦ false
      | some r ↦ is_expired r now
    ]

-- The loop over the hits. The budget test comes first and ends the loop; an expired hit is skipped
-- and takes nothing of the budget.
unfoldable pub select_hits : Map MemoryRecord → Text → ℕ → ℕ → ℕ → List QueryHit → List QueryHit
select_hits records workspace_id now budget used [] = []
select_hits records workspace_id now budget used (hit ∷ hits) =
    let hit_tokens = estimate_token_count hit.content in
    let skipped = select_hits records workspace_id now budget used hits in
    let taken = select_hits records workspace_id now budget (used + hit_tokens) hits in
    if ltb 0 budget && ltb budget (used + hit_tokens)
    then []
    else if hit_expired records workspace_id now hit
    then skipped
    else hit ∷ taken

-- The second loop: a resident record that is no tombstone is marked as accessed.
unfoldable pub touch_hit : Text → ℕ → QueryHit → Map MemoryRecord → Map MemoryRecord
touch_hit workspace_id now hit records =
    let key = record_map_key workspace_id hit.memory_id in
    elim (find key records) [
      | none ↦ records
      | some r ↦
          if r.tombstone
          then records
          else insert key (record r { last_access_ms = now; hit_count = add64 r.hit_count 1 })
              records
    ]

unfoldable pub touch_hits : Text → ℕ → List QueryHit → Map MemoryRecord → Map MemoryRecord
touch_hits workspace_id now [] records = records
touch_hits workspace_id now (hit ∷ hits) records =
    touch_hits workspace_id now hits (touch_hit workspace_id now hit records)

module _ (env : Env) where
  open env use {retriever, fpu}

  abbrev zero_stats : QueryDebugStats
  zero_stats =
      let zero_d = fpu.literal 0 0 in
      record {
        sparse_candidates = 0;
        dense_candidates = 0;
        merged_candidates = 0;
        sparse_ms = zero_d;
        dense_ms = zero_d;
        rerank_ms = zero_d;
        total_ms = zero_d;
      }

  -- The retriever reads the clock first; `phases` are the durations that it measures.
  unfoldable pub query : Engine env → QueryInput → QueryClock → Double → QueryOutput × Engine env
  query e input phases ms =
      if is_empty input.workspace_id
      then (record { hits = []; debug_stats = zero_stats }, e)
      else (let (retriever_now, e1) = now_ms env e in
          let retrieved =
            retriever.query e1.retriever (record phases { now_ms = retriever_now }) input in
          let (now, e2) = now_ms env e1 in
          let hits =
            select_hits e2.records input.workspace_id now input.token_budget 0 retrieved.hits in
          let m = record_fallback fpu e2.metrics false in
          (
            record { hits = hits; debug_stats = retrieved.debug_stats },
            record e2 {
              records = touch_hits input.workspace_id now hits e2.records;
              query_cache_total = add64 e2.query_cache_total 1;
              dense_probe_query_count = add64 e2.dense_probe_query_count 1;
              dense_probe_count_total =
                  add64 e2.dense_probe_count_total retrieved.debug_stats.dense_candidates;
              metrics = record_read_latency fpu m ms;
            },
          ))
