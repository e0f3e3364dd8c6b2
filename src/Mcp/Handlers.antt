-- ===== src/Mcp/Handlers.antt =====
-- The handlers of src/mcp/mcp_dispatcher.cpp: each reads its input, calls the engine and writes the
-- result.
use poorguy_mem.Common.{Option, none, some, true, false, List, [], ◌∷◌, Text, text, Map, Double}
use poorguy_mem.Types.{WriteOutput, QueryOutput, QueryHit, StoreCompactTriggerResult}
use poorguy_mem.Json.{make_array, get_string_or, get_bool_or, put_uint64, put_bool, put_double}
use poorguy_mem.Retriever.{QueryClock}
use poorguy_mem.Engine.State.{Env, Engine, now_ms}
use poorguy_mem.Engine.Write.{write}
use poorguy_mem.Engine.Query.{query}
use poorguy_mem.Engine.Pin.{Outcome, pin}
use poorguy_mem.Engine.Stats.{StatsSnapshot, stats}
use poorguy_mem.Engine.Compact.{CompactOutput, compact}
use poorguy_mem.Mcp.Describe.{describe}
use poorguy_mem.Mcp.Inputs.{write_input_of, query_input_of}

-- What a call takes from the clocks for its latencies.
pub record Timing : Type 0 where
  pub elapsed_ms : Double
  pub phases : QueryClock

module _ (env : Env) where
  open env use {store, tree, fpu}
  open tree use {Json}

  unfoldable pub write_result : WriteOutput → Json
  write_result out =
      let result = put_bool tree tree.empty (text "ok") out.ok in
      let result = tree.add_child result (text "stored_ids") (make_array tree out.stored_ids) in
      let result = tree.add_child result (text "deduped_ids") (make_array tree out.deduped_ids) in
      let result = put_uint64 tree result (text "index_generation") out.index_generation in
      tree.add_child result (text "warnings") (make_array tree out.warnings)

  abbrev pub written : Option WriteOutput → Option Json
  written none = none
  written (some out) = some (write_result out)

  -- The exception of `Write` leaves the handler.
  unfoldable pub handle_write : Engine env → Timing → Json → Option Json × Engine env
  handle_write e timing params =
      let (out, e1) = write env e (write_input_of env params) timing.elapsed_ms in (written out, e1)

  unfoldable pub put_all : Json → Map Text → Json
  put_all json [] = json
  put_all json ((key, value) ∷ rest) = put_all (tree.put json key value) rest

  unfoldable pub hit_node : QueryHit → Json
  hit_node hit =
      let node = tree.put tree.empty (text "memory_id") hit.memory_id in
      let node = tree.put node (text "source") hit.source in
      let node = tree.put node (text "content") hit.content in
      let node = tree.add_child node (text "tags") (make_array tree hit.tags) in
      let node = tree.add_child node (text "metadata") (put_all tree.empty hit.metadata) in
      let scores = put_double tree tree.empty (text "sparse") hit.scores.sparse in
      let scores = put_double tree scores (text "dense") hit.scores.dense in
      let scores = put_double tree scores (text "freshness") hit.scores.freshness in
      let scores = put_double tree scores (text "pin") hit.scores.pin in
      let scores = put_double tree scores (text "final") hit.scores.final in
      let node = tree.add_child node (text "scores") scores in
      let node = put_uint64 tree node (text "updated_at_ms") hit.updated_at_ms in
      put_bool tree node (text "pinned") hit.pinned

  unfoldable pub hit_nodes : Json → List QueryHit → Json
  hit_nodes hits [] = hits
  hit_nodes hits (hit ∷ rest) = hit_nodes (tree.push_back hits [] (hit_node hit)) rest

  unfoldable pub query_result : QueryOutput → Json
  query_result out =
      let result = tree.add_child tree.empty (text "hits") (hit_nodes tree.empty out.hits) in
      let debug_stats =
        put_uint64 tree tree.empty (text "sparse_candidates") out.debug_stats.sparse_candidates in
      let debug_stats =
        put_uint64 tree debug_stats (text "dense_candidates") out.debug_stats.dense_candidates in
      let debug_stats =
        put_uint64 tree debug_stats (text "merged_candidates") out.debug_stats.merged_candidates in
      let latency = put_double tree tree.empty (text "sparse") out.debug_stats.sparse_ms in
      let latency = put_double tree latency (text "dense") out.debug_stats.dense_ms in
      let latency = put_double tree latency (text "rerank") out.debug_stats.rerank_ms in
      let latency = put_double tree latency (text "total") out.debug_stats.total_ms in
      let debug_stats = tree.add_child debug_stats (text "latency_ms") latency in
      tree.add_child result (text "debug_stats") debug_stats

  unfoldable pub handle_query : Engine env → Timing → Json → Json × Engine env
  handle_query e timing params =
      let (out, e1) = query env e (query_input_of env params) timing.phases timing.elapsed_ms in
      (query_result out, e1)

  unfoldable pub pin_result : Outcome (Unit {0}) → Json
  pin_result (Outcome.done u) = put_bool tree tree.empty (text "ok") true
  pin_result (Outcome.fail error) =
      tree.put (put_bool tree tree.empty (text "ok") false) (text "error") error

  unfoldable pub handle_pin : Engine env → Json → Json × Engine env
  handle_pin e params =
      let workspace_id = get_string_or tree params (text "workspace_id") [] in
      let memory_id = get_string_or tree params (text "memory_id") [] in
      let on = get_bool_or tree params (text "pin") true in
      let (out, e1) = pin env e workspace_id memory_id on in (pin_result out, e1)

  unfoldable pub stats_result : StatsSnapshot → Json
  stats_result out =
      let result = put_double tree tree.empty (text "p95_read_ms") out.metrics.p95_read_ms in
      let result = put_double tree result (text "p95_write_ms") out.metrics.p95_write_ms in
      let result =
        put_double tree result (text "token_reduction_ratio") out.metrics.token_reduction_ratio in
      let result = put_double tree result (text "fallback_rate") out.metrics.fallback_rate in
      let result = put_uint64 tree result (text "mem_used_bytes") out.mem_used_bytes in
      let result = put_uint64 tree result (text "disk_used_bytes") out.disk_used_bytes in
      let result = put_uint64 tree result (text "resident_used_bytes") out.resident_used_bytes in
      let result = put_uint64 tree result (text "resident_limit_bytes") out.resident_limit in
      let result =
        put_uint64 tree result (text "resident_evicted_count") out.resident_evicted_count in
      let result =
        put_uint64 tree result (text "disk_fallback_search_count") out.disk_fallback_search_count in
      let result = put_uint64 tree result (text "item_count") out.item_count in
      let result = put_uint64 tree result (text "tombstone_count") out.tombstone_count in
      let result = put_uint64 tree result (text "gc_last_run_ms") out.gc_last_run_ms in
      let result = put_uint64 tree result (text "gc_evicted_count") out.gc_evicted_count in
      let result = put_bool tree result (text "capacity_blocked") out.capacity_blocked in
      let result = tree.put result (text "write_ack_mode") out.write_ack_mode in
      let result = tree.put result (text "effective_backend") out.effective_backend in
      let index_stats =
        put_uint64 tree tree.empty (text "segment_count") out.index_stats.segment_count in
      let index_stats =
        put_uint64 tree index_stats (text "posting_terms") out.index_stats.posting_terms in
      let index_stats =
        put_uint64 tree index_stats (text "vector_count") out.index_stats.vector_count in
      let index_stats =
        put_double tree index_stats (text "query_cache_hit_rate")
          out.index_stats.query_cache_hit_rate in
      let index_stats =
        put_double tree index_stats (text "dense_probe_count_p95")
          out.index_stats.dense_probe_count_p95 in
      let index_stats =
        put_uint64 tree index_stats (text "cold_rehydrate_count")
          out.index_stats.cold_rehydrate_count in
      let result = tree.add_child result (text "index_stats") index_stats in result

  -- `window` is read, and has no effect.
  unfoldable pub handle_stats : Engine env → Json → Json
  handle_stats e params =
      stats_result (stats env e (get_string_or tree params (text "workspace_id") []))

  unfoldable pub compact_result : CompactOutput → Json
  compact_result out =
      let result = put_bool tree tree.empty (text "triggered") out.triggered in
      let result = put_bool tree result (text "capacity_blocked") out.capacity_blocked in
      let result = put_uint64 tree result (text "mem_before_bytes") out.mem_before_bytes in
      let result = put_uint64 tree result (text "disk_before_bytes") out.disk_before_bytes in
      let result = put_uint64 tree result (text "mem_after_bytes") out.mem_after_bytes in
      let result = put_uint64 tree result (text "disk_after_bytes") out.disk_after_bytes in
      let result = put_uint64 tree result (text "summarized_count") out.summarized_count in
      let result = put_uint64 tree result (text "tombstoned_count") out.tombstoned_count in
      let result = put_uint64 tree result (text "deleted_count") out.deleted_count in
      let result = put_uint64 tree result (text "segments_before") out.segments_before in
      let result = put_uint64 tree result (text "segments_after") out.segments_after in
      let result = put_uint64 tree result (text "postings_reclaimed") out.postings_reclaimed in
      let result = put_uint64 tree result (text "vectors_reclaimed") out.vectors_reclaimed in result

  unfoldable pub handle_compact : Engine env → Json → Json × Engine env
  handle_compact e params =
      let (out, e1) = compact env e (get_string_or tree params (text "workspace_id") []) in
      (compact_result out, e1)

  -- `MemoryEngine::StoreCompact`
  unfoldable pub store_compact : Engine env → StoreCompactTriggerResult × Engine env
  store_compact e =
      let (out, s) = store.trigger_store_compact_async e.store in (out, record e { store = s })

  unfoldable pub store_compact_result : StoreCompactTriggerResult → Json
  store_compact_result out =
      let result = put_bool tree tree.empty (text "triggered") out.triggered in
      let result = put_bool tree result (text "noop") out.noop in
      let result = put_bool tree result (text "busy") out.busy in
      let result = put_bool tree result (text "async") out.async in
      let result = put_uint64 tree result (text "partition_count") out.partition_count in
      let result = tree.put result (text "message") out.message in result

  unfoldable pub handle_store_compact : Engine env → Json × Engine env
  handle_store_compact e = let (out, e1) = store_compact e in (store_compact_result out, e1)

  unfoldable pub handle_describe : Engine env → Json → Json × Engine env
  handle_describe e params =
      let (now, e1) = now_ms env e in
      (describe tree fpu now (get_bool_or tree params (text "include_examples") false), e1)
