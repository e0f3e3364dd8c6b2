-- ===== src/Mcp/QueryMethod.antt =====
-- The contract of `memory.query` in `Describe` of src/mcp/mcp_dispatcher.cpp.
use poorguy_mem.Common.{Bool, false, [], ◌∷◌, text, if◌then◌else◌, Fpu}
use poorguy_mem.Json.{Ptree, make_array}
use poorguy_mem.Mcp.Schema.{json_schema, set_required, set_default}
use poorguy_mem.Mcp.Examples.{build_query_examples}

module _ (tree : Ptree) (fpu : Fpu) where
  open tree use {Json}

  unfoldable pub build_query_method : Bool → Json
  build_query_method with_examples =
      let method = tree.empty in
      let method =
        tree.put method (text "summary") (text "Query memory via sparse+dense hybrid retrieval.") in
      let filter_props = tree.empty in
      let filter_props =
        tree.add_child filter_props (text "session_id")
          (json_schema tree (text "string") (text "Filter by session.")) in
      let sources = json_schema tree (text "array") (text "Allowed source values.") in
      let sources = tree.add_child sources (text "items") (json_schema tree (text "string") []) in
      let filter_props = tree.add_child filter_props (text "sources") sources in
      let tags_any = json_schema tree (text "array") (text "Match any tag.") in
      let tags_any = tree.add_child tags_any (text "items") (json_schema tree (text "string") []) in
      let filter_props = tree.add_child filter_props (text "tags_any") tags_any in
      let filter_props =
        tree.add_child filter_props (text "updated_after_ms")
          (json_schema tree (text "integer") (text "Lower update-time bound.")) in
      let filter_props =
        tree.add_child filter_props (text "updated_before_ms")
          (json_schema tree (text "integer") (text "Upper update-time bound.")) in
      let filter_props =
        tree.add_child filter_props (text "pinned_only")
          (json_schema tree (text "boolean") (text "Return pinned records only.")) in
      let filter_schema = json_schema tree (text "object") (text "Query filters.") in
      let filter_schema =
        tree.put filter_schema (text "additionalProperties") (tree.print_bool false) in
      let filter_schema = tree.add_child filter_schema (text "properties") filter_props in
      let recall_props = tree.empty in
      let sparse_k = json_schema tree (text "integer") (text "Sparse candidate count.") in
      let sparse_k = set_default tree sparse_k (tree.print_int 200) in
      let recall_props = tree.add_child recall_props (text "sparse_k") sparse_k in
      let dense_k = json_schema tree (text "integer") (text "Dense candidate count.") in
      let dense_k = set_default tree dense_k (tree.print_int 200) in
      let recall_props = tree.add_child recall_props (text "dense_k") dense_k in
      let oversample = json_schema tree (text "integer") (text "Candidate oversampling factor.") in
      let oversample = set_default tree oversample (tree.print_int 4) in
      let recall_props = tree.add_child recall_props (text "oversample") oversample in
      let recall_schema = json_schema tree (text "object") (text "Recall options.") in
      let recall_schema =
        tree.put recall_schema (text "additionalProperties") (tree.print_bool false) in
      let recall_schema = tree.add_child recall_schema (text "properties") recall_props in
      let rerank_props = tree.empty in
      let w_sparse = json_schema tree (text "number") (text "Sparse score weight.") in
      let w_sparse = set_default tree w_sparse (tree.print_double (fpu.literal 55 2)) in
      let rerank_props = tree.add_child rerank_props (text "w_sparse") w_sparse in
      let w_dense = json_schema tree (text "number") (text "Dense score weight.") in
      let w_dense = set_default tree w_dense (tree.print_double (fpu.literal 30 2)) in
      let rerank_props = tree.add_child rerank_props (text "w_dense") w_dense in
      let w_freshness = json_schema tree (text "number") (text "Freshness score weight.") in
      let w_freshness = set_default tree w_freshness (tree.print_double (fpu.literal 10 2)) in
      let rerank_props = tree.add_child rerank_props (text "w_freshness") w_freshness in
      let w_pin = json_schema tree (text "number") (text "Pin score weight.") in
      let w_pin = set_default tree w_pin (tree.print_double (fpu.literal 5 2)) in
      let rerank_props = tree.add_child rerank_props (text "w_pin") w_pin in
      let rerank_schema = json_schema tree (text "object") (text "Rerank options.") in
      let rerank_schema =
        tree.put rerank_schema (text "additionalProperties") (tree.print_bool false) in
      let rerank_schema = tree.add_child rerank_schema (text "properties") rerank_props in
      let input_props = tree.empty in
      let input_props =
        tree.add_child input_props (text "workspace_id")
          (json_schema tree (text "string") (text "Workspace id.")) in
      let input_props =
        tree.add_child input_props (text "query")
          (json_schema tree (text "string") (text "Query text.")) in
      let top_k = json_schema tree (text "integer") (text "Returned hit count.") in
      let top_k = set_default tree top_k (tree.print_int 8) in
      let input_props = tree.add_child input_props (text "top_k") top_k in
      let budget = json_schema tree (text "integer") (text "Token budget; 0 means unlimited.") in
      let budget = set_default tree budget (tree.print_int 2048) in
      let input_props = tree.add_child input_props (text "token_budget") budget in
      let input_props = tree.add_child input_props (text "filters") filter_schema in
      let input_props = tree.add_child input_props (text "recall") recall_schema in
      let input_props = tree.add_child input_props (text "rerank") rerank_schema in
      let debug = json_schema tree (text "boolean") (text "Include debug stats.") in
      let debug = set_default tree debug (tree.print_bool false) in
      let input_props = tree.add_child input_props (text "debug") debug in
      let input_schema = json_schema tree (text "object") (text "memory.query input.") in
      let input_schema =
        tree.put input_schema (text "additionalProperties") (tree.print_bool false) in
      let input_schema = tree.add_child input_schema (text "properties") input_props in
      let input_schema = set_required tree input_schema (text "workspace_id" ∷ text "query" ∷ []) in
      let score_props = tree.empty in
      let score_props =
        tree.add_child score_props (text "sparse") (json_schema tree (text "number") []) in
      let score_props =
        tree.add_child score_props (text "dense") (json_schema tree (text "number") []) in
      let score_props =
        tree.add_child score_props (text "freshness") (json_schema tree (text "number") []) in
      let score_props =
        tree.add_child score_props (text "pin") (json_schema tree (text "number") []) in
      let score_props =
        tree.add_child score_props (text "final") (json_schema tree (text "number") []) in
      let score_schema = json_schema tree (text "object") (text "Score breakdown.") in
      let score_schema =
        tree.put score_schema (text "additionalProperties") (tree.print_bool false) in
      let score_schema = tree.add_child score_schema (text "properties") score_props in
      let score_schema =
        set_required tree score_schema
          (text "sparse" ∷ text "dense" ∷ text "freshness" ∷ text "pin" ∷ text "final" ∷ []) in
      let hit_props = tree.empty in
      let hit_props =
        tree.add_child hit_props (text "memory_id") (json_schema tree (text "string") []) in
      let hit_props =
        tree.add_child hit_props (text "source") (json_schema tree (text "string") []) in
      let hit_props =
        tree.add_child hit_props (text "content") (json_schema tree (text "string") []) in
      let tags = json_schema tree (text "array") [] in
      let tags = tree.add_child tags (text "items") (json_schema tree (text "string") []) in
      let hit_props = tree.add_child hit_props (text "tags") tags in
      let hit_props =
        tree.add_child hit_props (text "metadata") (json_schema tree (text "object") []) in
      let hit_props = tree.add_child hit_props (text "scores") score_schema in
      let hit_props =
        tree.add_child hit_props (text "updated_at_ms") (json_schema tree (text "integer") []) in
      let hit_props =
        tree.add_child hit_props (text "pinned") (json_schema tree (text "boolean") []) in
      let hit_schema = json_schema tree (text "object") (text "Query hit.") in
      let hit_schema = tree.put hit_schema (text "additionalProperties") (tree.print_bool false) in
      let hit_schema = tree.add_child hit_schema (text "properties") hit_props in
      let hit_schema = set_required tree hit_schema (
        text "memory_id"
        ∷ text "source"
        ∷ text "content"
        ∷ text "tags"
        ∷ text "metadata"
        ∷ text "scores"
        ∷ text "updated_at_ms"
        ∷ text "pinned"
        ∷ []) in
      let debug_latency_props = tree.empty in
      let debug_latency_props =
        tree.add_child debug_latency_props (text "sparse") (json_schema tree (text "number") []) in
      let debug_latency_props =
        tree.add_child debug_latency_props (text "dense") (json_schema tree (text "number") []) in
      let debug_latency_props =
        tree.add_child debug_latency_props (text "rerank") (json_schema tree (text "number") []) in
      let debug_latency_props =
        tree.add_child debug_latency_props (text "total") (json_schema tree (text "number") []) in
      let debug_latency = json_schema tree (text "object") [] in
      let debug_latency =
        tree.put debug_latency (text "additionalProperties") (tree.print_bool false) in
      let debug_latency = tree.add_child debug_latency (text "properties") debug_latency_props in
      let debug_latency =
        set_required tree debug_latency
          (text "sparse" ∷ text "dense" ∷ text "rerank" ∷ text "total" ∷ []) in
      let debug_props = tree.empty in
      let debug_props =
        tree.add_child debug_props (text "sparse_candidates")
          (json_schema tree (text "integer") []) in
      let debug_props =
        tree.add_child debug_props (text "dense_candidates")
          (json_schema tree (text "integer") []) in
      let debug_props =
        tree.add_child debug_props (text "merged_candidates")
          (json_schema tree (text "integer") []) in
      let debug_props = tree.add_child debug_props (text "latency_ms") debug_latency in
      let debug_schema = json_schema tree (text "object") (text "Debug stats.") in
      let debug_schema =
        tree.put debug_schema (text "additionalProperties") (tree.print_bool false) in
      let debug_schema = tree.add_child debug_schema (text "properties") debug_props in
      let debug_schema = set_required tree debug_schema (
        text "sparse_candidates"
        ∷ text "dense_candidates"
        ∷ text "merged_candidates"
        ∷ text "latency_ms"
        ∷ []) in
      let output_props = tree.empty in
      let hits = json_schema tree (text "array") (text "Ranked hits.") in
      let hits = tree.add_child hits (text "items") hit_schema in
      let output_props = tree.add_child output_props (text "hits") hits in
      let output_props = tree.add_child output_props (text "debug_stats") debug_schema in
      let output_schema = json_schema tree (text "object") (text "memory.query output.") in
      let output_schema =
        tree.put output_schema (text "additionalProperties") (tree.print_bool false) in
      let output_schema = tree.add_child output_schema (text "properties") output_props in
      let output_schema = set_required tree output_schema (text "hits" ∷ text "debug_stats" ∷ []) in
      let semantics = tree.empty in
      let semantics =
        tree.put semantics (text "ranking") (text "Hits are ordered by final score descending.") in
      let semantics =
        tree.put semantics (text "token_budget")
          (text "Results are truncated when cumulative token estimate exceeds token_budget.") in
      let semantics =
        tree.put semantics (text "expiry")
          (text "Expired records are filtered before final output.") in
      let method = tree.add_child method (text "input_schema") input_schema in
      let method = tree.add_child method (text "output_schema") output_schema in
      let method = tree.add_child method (text "semantics") semantics in
      let method =
        tree.add_child method (text "errors")
          (make_array tree (text "jsonrpc.invalid_params" ∷ [])) in
      if with_examples
      then tree.add_child method (text "examples") (build_query_examples tree)
      else method
