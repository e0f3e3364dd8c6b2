-- ===== src/Examples/Calls.antt =====
-- Worked examples on the dispatcher of src/mcp, the background thread and the retriever of src/core, the
-- routes of src/net and the command lines of src/apps and src/install.
use poorguy_mem.Common.{
  insert_ordered, ℕ, ◌+◌, ◌≡◌, refl, false, none, Option, List, [], ◌∷◌, Text, text, text_eq, find,
  length, drop,
}
use poorguy_mem.Types.{MemoryRecord}
use poorguy_mem.Json.{get_string_or, negative}
use poorguy_mem.Tokens.Terms.{contains}
use poorguy_mem.Engine.State.{Env, Engine}
use poorguy_mem.Engine.Query.{query}
use poorguy_mem.Engine.Hybrid.{hybrid_env, run-IsAnswer}
use poorguy_mem.Store.InMemory.{no_shards}
use poorguy_mem.Engine.Accounting.Requests.{write_request, pin_request}
use poorguy_mem.Engine.Gc.{Step, call, wake, run}
use poorguy_mem.Retriever.Index.{HybridRetriever, snapshot_of}
use poorguy_mem.Retriever.Search
use poorguy_mem.Retriever.Docs.{
  Change, index_record, remove_record, changes, Catalog, change_catalogs, Describes,
  changes-Describes,
}
use poorguy_mem.Retriever.Counted.{IsIndexed, changes-IsIndexed}
use poorguy_mem.Retriever.Hits.{IsAnswer, query-IsAnswer}
use poorguy_mem.Mcp
use poorguy_mem.Mcp.Inputs.{write_input_of, write_record_inputs, write_record_input, metadata_from}
use poorguy_mem.Mcp.Replies.{
  Replies, IsResponse, handle-IsResponse, handle-HasResult, handle-HasError, HasResult, HasError,
}
use poorguy_mem.Net.{HttpRequest}
use poorguy_mem.Net.Server
use poorguy_mem.Net.Server.{Handler, responded, run_handler}
use poorguy_mem.Net.Routes.{Registration, register_all, route_from, IsReply, dispatch-register_all}
use poorguy_mem.Summary.{full_summary, update_summary, IsSettled, update_summary-IsSettled}
use poorguy_mem.Samples.{
  with_child, node_children, engine_over, sample_env, sample_fpu, sample_record, write_input,
  query_input, no_time, no_phases, Node, leaf, node_child, node_text, node_get, node_tree, node_env,
  node_engine, call_of, sample_timing,
}
use poorguy_mem.Examples.Trees.{node_tree-IsTree, one_entry-IsWritable}

abbrev id_1 : Node
id_1 = leaf (text "1")

abbrev reply_to : Text → Option Node × Engine node_env
reply_to method = Mcp.handle node_env node_engine sample_timing (call_of method)

-- A write of one record with one entry of metadata.
abbrev write_call : Node
write_call =
    with_child (text "params")
      (with_child (text "workspace_id") (leaf (text "w")) (
        with_child (text "records")
          (with_child []
            (with_child (text "content") (leaf (text "hello")) (
              with_child (text "metadata") (with_child (text "k") (leaf (text "v")) (leaf []))
                (leaf [])))
            (leaf []))
          (leaf [])))
      (call_of (text "memory.write"))

handle-IsResponse_example :
    Replies node_tree id_1
      (IsResponse node_env node_tree-IsTree)
      (Mcp.handle node_env node_engine sample_timing write_call).0
unfolding node_child text_eq get_string_or node_get node_text node_children write_input_of
    write_record_inputs write_record_input metadata_from insert_ordered
handle-IsResponse_example =
    handle-IsResponse node_env node_tree-IsTree node_engine sample_timing write_call
      (λ m. (λ r h. one_entry-IsWritable r (text "v") h, tt))

handle-HasResult_example :
    Replies node_tree id_1 (HasResult node_tree) (reply_to (text "memory.pin")).0
unfolding node_child text_eq node_get get_string_or contains node_text
handle-HasResult_example =
    handle-HasResult node_env node_tree-IsTree node_engine sample_timing
      (call_of (text "memory.pin")) refl (λ m. cc m)

handle-HasError_example :
    Replies node_tree id_1
      (HasError node_tree (negative 32601) (text "method not found"))
      (reply_to (text "memory.forget")).0
    × ((reply_to (text "memory.forget")).1 ≡ node_engine)
unfolding node_child text_eq node_get get_string_or contains node_text
handle-HasError_example =
    handle-HasError node_env node_tree-IsTree node_engine sample_timing
      (call_of (text "memory.forget")) refl refl

abbrev empty_hybrid : HybridRetriever
empty_hybrid = record { embedding_dim = 2; vector_index = []; snapshots = [] }

abbrev live_record : MemoryRecord
live_record = record sample_record { id = text "b"; content = text "hello again" }

abbrev sample_changes : List Change
sample_changes =
    index_record sample_record
    ∷ index_record live_record
    ∷ index_record sample_record
    ∷ remove_record (text "w") (text "c")
    ∷ []

abbrev no_records : Catalog
no_records ws id = none

abbrev changed : HybridRetriever
changed = changes length sample_fpu sample_fpu (λ x. x) empty_hybrid sample_changes

changes-Describes_example :
    Describes length sample_fpu sample_fpu
      (λ x. x)
      2
      changed
      (change_catalogs no_records sample_changes)
unfolding find
changes-Describes_example =
    changes-Describes length sample_fpu sample_fpu (λ x. x) 2 sample_changes empty_hybrid no_records
      (record { dim_is = refl; docs_are = λ ws id. refl; vectors_are = λ ws id. refl })

empty-IsIndexed : IsIndexed empty_hybrid.snapshots
empty-IsIndexed = record { workspaces_unique = tt; counted = tt; not_empty = tt }

changes-IsIndexed_example : IsIndexed changed.snapshots
changes-IsIndexed_example =
    changes-IsIndexed length sample_fpu sample_fpu (λ x. x) sample_changes empty_hybrid
      empty-IsIndexed

query-IsAnswer_example :
    IsAnswer
      (snapshot_of (text "w") changed.snapshots).docs
      query_input
      (Search.query length sample_fpu sample_fpu (λ x. x) changed no_phases query_input).hits
query-IsAnswer_example =
    query-IsAnswer length sample_fpu sample_fpu (λ x. x) changed no_phases query_input
      (changes-IsIndexed length sample_fpu sample_fpu (λ x. x) sample_changes empty_hybrid
        empty-IsIndexed)

abbrev sample_handler : Text → Handler ℕ
sample_handler body request n = (
  responded (record {
    status_code = 200;
    content_type = text "application/json";
    headers = [];
    body = body;
  }),
  n + 1,
)

abbrev sample_routes : List (Registration ℕ)
sample_routes =
    record { method = text "GET"; path = text "/health"; handler = sample_handler (text "one") }
    ∷ record { method = text "post"; path = text "/mcp"; handler = sample_handler (text "two") }
    ∷ record { method = text "get"; path = text "/health"; handler = sample_handler (text "three") }
    ∷ []

abbrev sample_http : HttpRequest
sample_http = record {
  method = text "Get";
  path = text "/health";
  version = text "HTTP/1.1";
  headers = [];
  body = [];
}

dispatch-register_all_example :
    IsReply ℕ
      (route_from ℕ none sample_routes (text "Get") (text "/health"))
      sample_http
      0
      (Server.dispatch ℕ (register_all ℕ [] sample_routes) sample_http 0)
dispatch-register_all_example =
    dispatch-register_all ℕ sample_routes sample_http 0 (refl, (refl, (refl, tt))) refl

update_summary-IsSettled_example :
    let whole =
      full_summary (text "earlier") (text "question") (text "answer") (text "code" ∷ []) [] in
    let kept =
      update_summary (text "earlier") (text "question") (text "answer") (text "code" ∷ []) [] 5 in
    IsSettled 5 kept × ((n : ℕ) × (kept ≡ drop n whole))
update_summary-IsSettled_example =
    update_summary-IsSettled (text "earlier") (text "question") (text "answer") (text "code" ∷ [])
      [] 5

abbrev searching : Env
searching = hybrid_env sample_env (λ x. x) 2

abbrev sample_steps : List Step
sample_steps =
    call (write_request write_input no_time)
    ∷ wake
    ∷ call (pin_request (text "w") (text "a") false)
    ∷ []

run-IsAnswer_example :
    let e = run searching (engine_over searching no_shards empty_hybrid) sample_steps in
    IsAnswer
      (snapshot_of (text "w") e.retriever.snapshots).docs
      query_input
      (query searching e query_input no_phases no_time).0.hits
run-IsAnswer_example =
    run-IsAnswer sample_env (λ x. x) 2 sample_steps (engine_over searching no_shards empty_hybrid)
      query_input no_phases no_time empty-IsIndexed
