-- ===== src/Mcp/Inputs.antt =====
-- The inputs that the handlers of src/mcp/mcp_dispatcher.cpp read from the parameters of a call. An
-- `int` that is negative sets no token budget.
use poorguy_mem.Common.{
  ◌^◌, false, Option, none, some, List, [], ◌∷◌, Text, text, if◌then◌else◌, ltb, Map,
  insert_ordered,
}
use poorguy_mem.Types.{
  WriteInput, WriteRecordInput, QueryInput, QueryFilter, RecallOptions, RerankWeights,
}
use poorguy_mem.Json.{
  get_string_or, get_uint64_or, get_int_or, get_bool_or, get_double_or, read_string_array,
  size_of_int,
}
use poorguy_mem.Engine.State.{Env}

module _ (env : Env) where
  open env use {store, tree, fpu}
  open tree use {Json}

  unfoldable pub metadata_from : Map Text → List (Text × Json) → Map Text
  metadata_from m [] = m
  metadata_from m ((key, child) ∷ rest) =
      metadata_from (insert_ordered key (tree.get_value child) m) rest

  unfoldable pub write_record_input : Json → WriteRecordInput
  write_record_input rec_json = record {
    record_id = get_string_or tree rec_json (text "record_id") [];
    source = get_string_or tree rec_json (text "source") (text "turn");
    content = get_string_or tree rec_json (text "content") [];
    tags = read_string_array tree rec_json (text "tags");
    importance = get_double_or tree rec_json (text "importance") (fpu.literal 1 0);
    ttl_s = get_uint64_or tree rec_json (text "ttl_s") 0;
    pin = get_bool_or tree rec_json (text "pin") false;
    dedup_key = get_string_or tree rec_json (text "dedup_key") [];
    metadata = elim (tree.get_child_optional rec_json (text "metadata")) [
      | none ↦ []
      | some metadata ↦ metadata_from [] (tree.children metadata)
    ];
  }

  unfoldable pub write_record_inputs : List (Text × Json) → List WriteRecordInput
  write_record_inputs [] = []
  write_record_inputs ((key, node) ∷ rest) = write_record_input node ∷ write_record_inputs rest

  unfoldable pub write_input_of : Json → WriteInput
  write_input_of params = record {
    workspace_id = get_string_or tree params (text "workspace_id") [];
    session_id = get_string_or tree params (text "session_id") (text "default");
    write_mode = get_string_or tree params (text "write_mode") (text "upsert");
    records = elim (tree.get_child_optional params (text "records")) [
      | none ↦ []
      | some records ↦ write_record_inputs (tree.children records)
    ];
  }

  unfoldable pub filters_of : Option Json → QueryFilter
  filters_of none = record {
    session_id = [];
    sources = [];
    tags_any = [];
    updated_after_ms = 0;
    updated_before_ms = 0;
    pinned_only = false;
  }
  filters_of (some filter) = record {
    session_id = get_string_or tree filter (text "session_id") [];
    sources = read_string_array tree filter (text "sources");
    tags_any = read_string_array tree filter (text "tags_any");
    updated_after_ms = get_uint64_or tree filter (text "updated_after_ms") 0;
    updated_before_ms = get_uint64_or tree filter (text "updated_before_ms") 0;
    pinned_only = get_bool_or tree filter (text "pinned_only") false;
  }

  unfoldable pub recall_of : Option Json → RecallOptions
  recall_of none = record { sparse_k = 200; dense_k = 200; oversample = 4 }
  recall_of (some recall) = record {
    sparse_k = size_of_int (get_int_or tree recall (text "sparse_k") 200);
    dense_k = size_of_int (get_int_or tree recall (text "dense_k") 200);
    oversample = size_of_int (get_int_or tree recall (text "oversample") 4);
  }

  unfoldable pub rerank_of : Option Json → RerankWeights
  rerank_of none = record {
    w_sparse = fpu.literal 55 2;
    w_dense = fpu.literal 30 2;
    w_freshness = fpu.literal 10 2;
    w_pin = fpu.literal 5 2;
  }
  rerank_of (some rerank) = record {
    w_sparse = get_double_or tree rerank (text "w_sparse") (fpu.literal 55 2);
    w_dense = get_double_or tree rerank (text "w_dense") (fpu.literal 30 2);
    w_freshness = get_double_or tree rerank (text "w_freshness") (fpu.literal 10 2);
    w_pin = get_double_or tree rerank (text "w_pin") (fpu.literal 5 2);
  }

  unfoldable pub query_input_of : Json → QueryInput
  query_input_of params =
      let budget = get_int_or tree params (text "token_budget") 2048 in
      record {
        workspace_id = get_string_or tree params (text "workspace_id") [];
        query = get_string_or tree params (text "query") [];
        top_k = size_of_int (get_int_or tree params (text "top_k") 8);
        token_budget = if ltb budget (2 ^ 31) then budget else 0;
        debug = get_bool_or tree params (text "debug") false;
        filters = filters_of (tree.get_child_optional params (text "filters"));
        recall = recall_of (tree.get_child_optional params (text "recall"));
        rerank = rerank_of (tree.get_child_optional params (text "rerank"));
      }
