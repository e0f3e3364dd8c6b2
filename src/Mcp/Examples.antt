-- ===== src/Mcp/Examples.antt =====
-- The examples that `Describe` of src/mcp/mcp_dispatcher.cpp adds to the contracts of the methods.
use poorguy_mem.Common.{true, false, [], ◌∷◌, text}
use poorguy_mem.Json.{Ptree, make_array}
use poorguy_mem.Mcp.Schema.{make_example}

module _ (tree : Ptree) where
  open tree use {Json}

  unfoldable pub build_describe_examples : Json
  build_describe_examples =
      let examples = tree.empty in
      let request = tree.empty in
      let request = tree.put request (text "method") (text "memory.describe") in
      let params = tree.empty in
      let params = tree.put params (text "include_examples") (tree.print_bool true) in
      let request = tree.add_child request (text "params") params in
      let response = tree.empty in
      let result = tree.empty in
      let result = tree.put result (text "describe_version") (text "2.0.0") in
      let result = tree.put result (text "schema_revision") (text "2026-02-19.1") in
      let response = tree.add_child response (text "result") result in
      let examples =
        tree.push_back examples []
          (make_example tree (text "describe_with_examples") request response) in
      examples

  unfoldable pub build_write_examples : Json
  build_write_examples =
      let examples = tree.empty in
      let request = tree.empty in
      let request = tree.put request (text "method") (text "memory.write") in
      let params = tree.empty in
      let params = tree.put params (text "workspace_id") (text "demo") in
      let params = tree.put params (text "session_id") (text "s1") in
      let records = tree.empty in
      let record' = tree.empty in
      let record' = tree.put record' (text "source") (text "turn") in
      let record' =
        tree.put record' (text "content") (text "remember retry with exponential backoff") in
      let records = tree.push_back records [] record' in
      let params = tree.add_child params (text "records") records in
      let request = tree.add_child request (text "params") params in
      let response = tree.empty in
      let result = tree.empty in
      let result = tree.put result (text "ok") (tree.print_bool true) in
      let result =
        tree.add_child result (text "stored_ids") (make_array tree (text "m-demo-1" ∷ [])) in
      let result = tree.add_child result (text "deduped_ids") tree.empty in
      let result = tree.put result (text "index_generation") (tree.print_int 1) in
      let result = tree.add_child result (text "warnings") tree.empty in
      let response = tree.add_child response (text "result") result in
      let examples =
        tree.push_back examples [] (make_example tree (text "write_success") request response) in
      let request = tree.empty in
      let request = tree.put request (text "method") (text "memory.write") in
      let params = tree.empty in
      let records = tree.empty in
      let record' = tree.empty in
      let record' = tree.put record' (text "content") (text "invalid without workspace") in
      let records = tree.push_back records [] record' in
      let params = tree.add_child params (text "records") records in
      let request = tree.add_child request (text "params") params in
      let response = tree.empty in
      let result = tree.empty in
      let result = tree.put result (text "ok") (tree.print_bool false) in
      let result = tree.add_child result (text "stored_ids") tree.empty in
      let result = tree.add_child result (text "deduped_ids") tree.empty in
      let result = tree.put result (text "index_generation") (tree.print_int 0) in
      let result =
        tree.add_child result (text "warnings")
          (make_array tree (text "workspace_id is required" ∷ [])) in
      let response = tree.add_child response (text "result") result in
      let examples =
        tree.push_back examples []
          (make_example tree (text "write_validation_error") request response) in
      examples

  unfoldable pub build_query_examples : Json
  build_query_examples =
      let examples = tree.empty in
      let request = tree.empty in
      let request = tree.put request (text "method") (text "memory.query") in
      let params = tree.empty in
      let params = tree.put params (text "workspace_id") (text "demo") in
      let params = tree.put params (text "query") (text "retry backoff") in
      let params = tree.put params (text "top_k") (tree.print_int 3) in
      let params = tree.put params (text "token_budget") (tree.print_int 1200) in
      let request = tree.add_child request (text "params") params in
      let response = tree.empty in
      let result = tree.empty in
      let hits = tree.empty in
      let hit = tree.empty in
      let hit = tree.put hit (text "memory_id") (text "m-demo-1") in
      let hit = tree.put hit (text "content") (text "remember retry with exponential backoff") in
      let hits = tree.push_back hits [] hit in
      let result = tree.add_child result (text "hits") hits in
      let debug = tree.empty in
      let debug = tree.put debug (text "merged_candidates") (tree.print_int 1) in
      let result = tree.add_child result (text "debug_stats") debug in
      let response = tree.add_child response (text "result") result in
      let examples =
        tree.push_back examples [] (make_example tree (text "query_success") request response) in
      let request = tree.empty in
      let request = tree.put request (text "method") (text "memory.query") in
      let params = tree.empty in
      let params = tree.put params (text "workspace_id") (text "demo") in
      let params = tree.put params (text "query") (text "retry backoff") in
      let request = tree.add_child request (text "params") params in
      let response = tree.empty in
      let result = tree.empty in
      let result = tree.add_child result (text "hits") tree.empty in
      let result = tree.add_child result (text "debug_stats") tree.empty in
      let response = tree.add_child response (text "result") result in
      let examples =
        tree.push_back examples []
          (make_example tree (text "query_empty_result") request response) in
      examples

  unfoldable pub build_pin_examples : Json
  build_pin_examples =
      let examples = tree.empty in
      let request = tree.empty in
      let request = tree.put request (text "method") (text "memory.pin") in
      let params = tree.empty in
      let params = tree.put params (text "workspace_id") (text "demo") in
      let params = tree.put params (text "memory_id") (text "m-demo-1") in
      let params = tree.put params (text "pin") (tree.print_bool true) in
      let request = tree.add_child request (text "params") params in
      let response = tree.empty in
      let result = tree.empty in
      let result = tree.put result (text "ok") (tree.print_bool true) in
      let response = tree.add_child response (text "result") result in
      let examples =
        tree.push_back examples [] (make_example tree (text "pin_success") request response) in
      let request = tree.empty in
      let request = tree.put request (text "method") (text "memory.pin") in
      let params = tree.empty in
      let params = tree.put params (text "workspace_id") (text "demo") in
      let params = tree.put params (text "memory_id") (text "m-not-exist") in
      let params = tree.put params (text "pin") (tree.print_bool true) in
      let request = tree.add_child request (text "params") params in
      let response = tree.empty in
      let result = tree.empty in
      let result = tree.put result (text "ok") (tree.print_bool false) in
      let result = tree.put result (text "error") (text "record not found") in
      let response = tree.add_child response (text "result") result in
      let examples =
        tree.push_back examples [] (make_example tree (text "pin_not_found") request response) in
      examples

  unfoldable pub build_stats_examples : Json
  build_stats_examples =
      let examples = tree.empty in
      let request = tree.empty in
      let request = tree.put request (text "method") (text "memory.stats") in
      let params = tree.empty in
      let params = tree.put params (text "workspace_id") (text "demo") in
      let params = tree.put params (text "window") (text "5m") in
      let request = tree.add_child request (text "params") params in
      let response = tree.empty in
      let result = tree.empty in
      let result = tree.put result (text "write_ack_mode") (text "durable") in
      let result = tree.put result (text "effective_backend") (text "eloqstore") in
      let index_stats = tree.empty in
      let index_stats = tree.put index_stats (text "segment_count") (tree.print_int 1) in
      let result = tree.add_child result (text "index_stats") index_stats in
      let response = tree.add_child response (text "result") result in
      let examples =
        tree.push_back examples [] (make_example tree (text "stats_snapshot") request response) in
      examples

  unfoldable pub build_compact_examples : Json
  build_compact_examples =
      let examples = tree.empty in
      let request = tree.empty in
      let request = tree.put request (text "method") (text "memory.compact") in
      let params = tree.empty in
      let params = tree.put params (text "workspace_id") (text "demo") in
      let request = tree.add_child request (text "params") params in
      let response = tree.empty in
      let result = tree.empty in
      let result = tree.put result (text "triggered") (tree.print_bool true) in
      let result = tree.put result (text "capacity_blocked") (tree.print_bool false) in
      let result = tree.put result (text "deleted_count") (tree.print_int 0) in
      let response = tree.add_child response (text "result") result in
      let examples =
        tree.push_back examples [] (make_example tree (text "compact_success") request response) in
      examples
