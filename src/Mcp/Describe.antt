-- ===== src/Mcp/Describe.antt =====
-- `McpDispatcher::Describe` of src/mcp/mcp_dispatcher.cpp.
use poorguy_mem.Common.{Bool, false, [], ◌∷◌, Text, text, Fpu, ℕ, List}
use poorguy_mem.Json.{Ptree, make_array, negative}
use poorguy_mem.Mcp.Schema.{http_error, json_rpc_error_entry}
use poorguy_mem.Mcp.WriteMethod.{build_write_method}
use poorguy_mem.Mcp.QueryMethod.{build_query_method}
use poorguy_mem.Mcp.Methods.{build_describe_method, build_pin_method}
use poorguy_mem.Mcp.UsageMethods.{build_stats_method, build_compact_method}

-- The methods that the contract names.
abbrev pub method_names : List Text
method_names =
    text "memory.describe"
    ∷ text "memory.write"
    ∷ text "memory.query"
    ∷ text "memory.pin"
    ∷ text "memory.stats"
    ∷ text "memory.compact"
    ∷ []

module _ (tree : Ptree) (fpu : Fpu) where
  open tree use {Json}

  unfoldable pub describe : ℕ → Bool → Json
  describe generated_at_ms with_examples =
      let result = tree.empty in
      let result = tree.put result (text "describe_version") (text "2.0.0") in
      let result = tree.put result (text "schema_revision") (text "2026-02-19.1") in
      let result = tree.put result (text "generated_at_ms") (tree.print_uint64 generated_at_ms) in
      let result = tree.put result (text "server.name") (text "poorguy-mem") in
      let result = tree.put result (text "server.kind") (text "memory-server") in
      let result = tree.put result (text "server.protocol") (text "jsonrpc-2.0") in
      let result = tree.put result (text "server.transport") (text "http") in
      let result = tree.put result (text "server.endpoint") (text "/mcp") in
      let result = tree.put result (text "server.describe_endpoint") (text "/mcp/describe") in
      let result = tree.put result (text "server.sync_routes_available") (tree.print_bool false) in
      let result = tree.put result (text "server.write_ack_mode") (text "durable") in
      let result =
        tree.add_child result (text "server.supported_backends")
          (make_array tree (text "eloqstore" ∷ text "inmemory" ∷ [])) in
      let result = tree.add_child result (text "method_names") (make_array tree method_names) in
      let methods = tree.empty in
      let methods =
        tree.push_back methods (text "memory.describe")
          (build_describe_method tree fpu with_examples) in
      let methods =
        tree.push_back methods (text "memory.write") (build_write_method tree fpu with_examples) in
      let methods =
        tree.push_back methods (text "memory.query") (build_query_method tree fpu with_examples) in
      let methods =
        tree.push_back methods (text "memory.pin") (build_pin_method tree fpu with_examples) in
      let methods =
        tree.push_back methods (text "memory.stats") (build_stats_method tree fpu with_examples) in
      let methods =
        tree.push_back methods (text "memory.compact")
          (build_compact_method tree fpu with_examples) in
      let result = tree.add_child result (text "methods") methods in
      let errors = tree.empty in
      let http_errors = tree.empty in
      let http_errors = tree.push_back http_errors [] (
        http_error tree (text "invalid_json_http") 400 (text "invalid JSON")
          (text "malformed request body")) in
      let http_errors = tree.push_back http_errors [] (
        http_error tree (text "route_not_found_http") 404 (text "route not found")
          (text "unsupported path such as /sync/push or /sync/pull")) in
      let jsonrpc_errors = tree.empty in
      let jsonrpc_errors = tree.push_back jsonrpc_errors [] (
        json_rpc_error_entry tree (text "invalid_request") (negative 32600) (text "invalid request")
          (text "invalid jsonrpc envelope")) in
      let jsonrpc_errors = tree.push_back jsonrpc_errors [] (
        json_rpc_error_entry tree (text "method_not_found") (negative 32601)
          (text "method not found") (text "unknown method on POST /mcp")) in
      let jsonrpc_errors = tree.push_back jsonrpc_errors [] (
        json_rpc_error_entry tree (text "invalid_params") (negative 32602) (text "invalid params")
          (text "params or arguments shape mismatch")) in
      let jsonrpc_errors = tree.push_back jsonrpc_errors [] (
        json_rpc_error_entry tree (text "store_compact_busy") (negative 32001)
          (text "store compact is busy") (text "store.compact async task already running")) in
      let errors = tree.add_child errors (text "http") http_errors in
      let errors = tree.add_child errors (text "jsonrpc") jsonrpc_errors in
      let result = tree.add_child result (text "errors") errors in result
