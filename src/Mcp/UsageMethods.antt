-- ===== src/Mcp/UsageMethods.antt =====
-- The contracts of `memory.stats` and `memory.compact` in `Describe` of src/mcp/mcp_dispatcher.cpp.
use poorguy_mem.Common.{Bool, false, [], ◌∷◌, text, if◌then◌else◌, Fpu}
use poorguy_mem.Json.{Ptree, make_array}
use poorguy_mem.Mcp.Schema.{json_schema, set_required, set_default}
use poorguy_mem.Mcp.Examples.{build_stats_examples, build_compact_examples}

module _ (tree : Ptree) (fpu : Fpu) where
  open tree use {Json}

  unfoldable pub build_stats_method : Bool → Json
  build_stats_method with_examples =
      let method = tree.empty in
      let method =
        tree.put method (text "summary") (text "Return runtime usage and index counters.") in
      let input_props = tree.empty in
      let input_props =
        tree.add_child input_props (text "workspace_id")
          (json_schema tree (text "string") (text "Optional workspace scope.")) in
      let window = json_schema tree (text "string") (text "Window hint.") in
      let window = set_default tree window (text "5m") in
      let input_props = tree.add_child input_props (text "window") window in
      let input_schema = json_schema tree (text "object") (text "memory.stats input.") in
      let input_schema =
        tree.put input_schema (text "additionalProperties") (tree.print_bool false) in
      let input_schema = tree.add_child input_schema (text "properties") input_props in
      let index_props = tree.empty in
      let index_props =
        tree.add_child index_props (text "segment_count") (json_schema tree (text "integer") []) in
      let index_props =
        tree.add_child index_props (text "posting_terms") (json_schema tree (text "integer") []) in
      let index_props =
        tree.add_child index_props (text "vector_count") (json_schema tree (text "integer") []) in
      let index_props =
        tree.add_child index_props (text "query_cache_hit_rate")
          (json_schema tree (text "number") []) in
      let index_props =
        tree.add_child index_props (text "dense_probe_count_p95")
          (json_schema tree (text "number") []) in
      let index_props =
        tree.add_child index_props (text "cold_rehydrate_count")
          (json_schema tree (text "integer") []) in
      let index_schema = json_schema tree (text "object") (text "Index statistics.") in
      let index_schema =
        tree.put index_schema (text "additionalProperties") (tree.print_bool false) in
      let index_schema = tree.add_child index_schema (text "properties") index_props in
      let index_schema = set_required tree index_schema (
        text "segment_count"
        ∷ text "posting_terms"
        ∷ text "vector_count"
        ∷ text "query_cache_hit_rate"
        ∷ text "dense_probe_count_p95"
        ∷ text "cold_rehydrate_count"
        ∷ []) in
      let output_props = tree.empty in
      let output_props =
        tree.add_child output_props (text "p95_read_ms") (json_schema tree (text "number") []) in
      let output_props =
        tree.add_child output_props (text "p95_write_ms") (json_schema tree (text "number") []) in
      let output_props =
        tree.add_child output_props (text "token_reduction_ratio")
          (json_schema tree (text "number") []) in
      let output_props =
        tree.add_child output_props (text "fallback_rate") (json_schema tree (text "number") []) in
      let output_props =
        tree.add_child output_props (text "mem_used_bytes")
          (json_schema tree (text "integer") []) in
      let output_props =
        tree.add_child output_props (text "disk_used_bytes")
          (json_schema tree (text "integer") []) in
      let output_props =
        tree.add_child output_props (text "resident_used_bytes")
          (json_schema tree (text "integer") []) in
      let output_props =
        tree.add_child output_props (text "resident_limit_bytes")
          (json_schema tree (text "integer") []) in
      let output_props =
        tree.add_child output_props (text "resident_evicted_count")
          (json_schema tree (text "integer") []) in
      let output_props =
        tree.add_child output_props (text "disk_fallback_search_count")
          (json_schema tree (text "integer") []) in
      let output_props =
        tree.add_child output_props (text "item_count") (json_schema tree (text "integer") []) in
      let output_props =
        tree.add_child output_props (text "tombstone_count")
          (json_schema tree (text "integer") []) in
      let output_props =
        tree.add_child output_props (text "gc_last_run_ms")
          (json_schema tree (text "integer") []) in
      let output_props =
        tree.add_child output_props (text "gc_evicted_count")
          (json_schema tree (text "integer") []) in
      let output_props =
        tree.add_child output_props (text "capacity_blocked")
          (json_schema tree (text "boolean") []) in
      let output_props =
        tree.add_child output_props (text "write_ack_mode") (json_schema tree (text "string") []) in
      let output_props =
        tree.add_child output_props (text "effective_backend")
          (json_schema tree (text "string") []) in
      let output_props = tree.add_child output_props (text "index_stats") index_schema in
      let output_schema = json_schema tree (text "object") (text "memory.stats output.") in
      let output_schema =
        tree.put output_schema (text "additionalProperties") (tree.print_bool false) in
      let output_schema = tree.add_child output_schema (text "properties") output_props in
      let output_schema = set_required tree output_schema (
        text "p95_read_ms"
        ∷ text "p95_write_ms"
        ∷ text "token_reduction_ratio"
        ∷ text "fallback_rate"
        ∷ text "mem_used_bytes"
        ∷ text "disk_used_bytes"
        ∷ text "resident_used_bytes"
        ∷ text "resident_limit_bytes"
        ∷ text "resident_evicted_count"
        ∷ text "disk_fallback_search_count"
        ∷ text "item_count"
        ∷ text "tombstone_count"
        ∷ text "gc_last_run_ms"
        ∷ text "gc_evicted_count"
        ∷ text "capacity_blocked"
        ∷ text "write_ack_mode"
        ∷ text "effective_backend"
        ∷ text "index_stats"
        ∷ []) in
      let semantics = tree.empty in
      let semantics =
        tree.put semantics (text "scope") (text "workspace_id omitted means global snapshot.") in
      let semantics =
        tree.put semantics (text "mode") (text "write_ack_mode is fixed to durable.") in
      let method = tree.add_child method (text "input_schema") input_schema in
      let method = tree.add_child method (text "output_schema") output_schema in
      let method = tree.add_child method (text "semantics") semantics in
      let method =
        tree.add_child method (text "errors")
          (make_array tree (text "jsonrpc.invalid_params" ∷ [])) in
      if with_examples
      then tree.add_child method (text "examples") (build_stats_examples tree)
      else method

  unfoldable pub build_compact_method : Bool → Json
  build_compact_method with_examples =
      let method = tree.empty in
      let method =
        tree.put method (text "summary") (text "Run compaction and return reclamation counters.") in
      let input_props = tree.empty in
      let input_props =
        tree.add_child input_props (text "workspace_id")
          (json_schema tree (text "string") (text "Optional workspace scope.")) in
      let input_schema = json_schema tree (text "object") (text "memory.compact input.") in
      let input_schema =
        tree.put input_schema (text "additionalProperties") (tree.print_bool false) in
      let input_schema = tree.add_child input_schema (text "properties") input_props in
      let output_props = tree.empty in
      let output_props =
        tree.add_child output_props (text "triggered") (json_schema tree (text "boolean") []) in
      let output_props =
        tree.add_child output_props (text "capacity_blocked")
          (json_schema tree (text "boolean") []) in
      let output_props =
        tree.add_child output_props (text "mem_before_bytes")
          (json_schema tree (text "integer") []) in
      let output_props =
        tree.add_child output_props (text "disk_before_bytes")
          (json_schema tree (text "integer") []) in
      let output_props =
        tree.add_child output_props (text "mem_after_bytes")
          (json_schema tree (text "integer") []) in
      let output_props =
        tree.add_child output_props (text "disk_after_bytes")
          (json_schema tree (text "integer") []) in
      let output_props =
        tree.add_child output_props (text "summarized_count")
          (json_schema tree (text "integer") []) in
      let output_props =
        tree.add_child output_props (text "tombstoned_count")
          (json_schema tree (text "integer") []) in
      let output_props =
        tree.add_child output_props (text "deleted_count") (json_schema tree (text "integer") []) in
      let output_props =
        tree.add_child output_props (text "segments_before")
          (json_schema tree (text "integer") []) in
      let output_props =
        tree.add_child output_props (text "segments_after")
          (json_schema tree (text "integer") []) in
      let output_props =
        tree.add_child output_props (text "postings_reclaimed")
          (json_schema tree (text "integer") []) in
      let output_props =
        tree.add_child output_props (text "vectors_reclaimed")
          (json_schema tree (text "integer") []) in
      let output_schema = json_schema tree (text "object") (text "memory.compact output.") in
      let output_schema =
        tree.put output_schema (text "additionalProperties") (tree.print_bool false) in
      let output_schema = tree.add_child output_schema (text "properties") output_props in
      let output_schema = set_required tree output_schema (
        text "triggered"
        ∷ text "capacity_blocked"
        ∷ text "mem_before_bytes"
        ∷ text "disk_before_bytes"
        ∷ text "mem_after_bytes"
        ∷ text "disk_after_bytes"
        ∷ text "summarized_count"
        ∷ text "tombstoned_count"
        ∷ text "deleted_count"
        ∷ text "segments_before"
        ∷ text "segments_after"
        ∷ text "postings_reclaimed"
        ∷ text "vectors_reclaimed"
        ∷ []) in
      let semantics = tree.empty in
      let semantics =
        tree.put semantics (text "effect")
          (text "Compaction may create tombstones and reclaim storage asynchronously.") in
      let method = tree.add_child method (text "input_schema") input_schema in
      let method = tree.add_child method (text "output_schema") output_schema in
      let method = tree.add_child method (text "semantics") semantics in
      let method =
        tree.add_child method (text "errors")
          (make_array tree (text "jsonrpc.invalid_params" ∷ [])) in
      if with_examples
      then tree.add_child method (text "examples") (build_compact_examples tree)
      else method
