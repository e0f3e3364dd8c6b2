-- ===== src/Samples.antt =====
-- Sample data for the examples: an engine over the store of src/store/in_memory_store_adapter.cpp, with
-- a retriever that finds nothing and small stand-ins for the third-party parts.
use poorguy_mem.Common.{
  ◌&&◌, ℕ, ◌+◌, ◌*◌, ◌/◌, Bool, true, false, none, some, List, [], ◌∷◌, Text, text, length, ltb,
  leb, ◌==◌, Double, Fpu, Option, text_eq, is_empty, if◌then◌else◌,
}
use poorguy_mem.Types.{MemoryRecord, WriteInput, WriteRecordInput, QueryInput, QueryHit}
use poorguy_mem.Store.InMemory.{in_memory, no_shards}
use poorguy_mem.Json.{Ptree}
use poorguy_mem.Retriever.{Retriever, QueryClock}
use poorguy_mem.Metrics.{cleared}
use poorguy_mem.Engine.State.{Env, Engine, Options}
use poorguy_mem.Mcp.Handlers.{Timing}

-- Numbers of the machine stood in for by their bit patterns.
abbrev pub sample_fpu : Fpu
sample_fpu = record {
  add = λ x y. record { bits = x.bits + y.bits };
  sub = λ x y. x;
  mul = λ x y. record { bits = x.bits * y.bits };
  div = λ x y. record { bits = x.bits / y.bits };
  lt = λ x y. ltb x.bits y.bits;
  le = λ x y. leb x.bits y.bits;
  eq = λ x y. x.bits == y.bits;
  of_ℕ = λ n. record { bits = n };
  literal = λ m k. record { bits = m };
  neg = λ x. x;
  log = λ x. x;
  log1p = λ x. x;
  sqrt = λ x. x;
  ceil = λ x. x.bits;
  epsilon = record { bits = 0 };
  print = λ x. text "x";
}

-- A tree that is one text, which every path reads.
abbrev pub sample_tree : Ptree
sample_tree = record {
  Json = Text;
  empty = [];
  put = λ json path v. v;
  add_child = λ json path child. json;
  push_back = λ json key child. json;
  get = λ json path. some json;
  get_child_optional = λ json path. none;
  children = λ json. [];
  get_value = λ json. json;
  can_write = λ json. true;
  write_json = λ json. json;
  read_json = λ t. some t;
  read_error = λ t. text "no JSON";
  print_uint64 = λ n. text "7";
  parse_uint64 = λ t. some 7;
  print_int = λ n. text "7";
  parse_int = λ t. some 7;
  print_bool = λ b. text "false";
  parse_bool = λ t. some false;
  print_double = λ x. text "1";
  parse_double = λ t. none;
}

-- A tree as its children in order, each with its key, and its own text behind them. A path is one key.
pub data Node : Type 0 where
  leaf : Text → Node
  with_child : Text → Node → Node → Node

unfoldable pub node_child : Node → Text → Option Node
node_child (leaf v) k = none
node_child (with_child j c rest) k = if text_eq j k then some c else node_child rest k

unfoldable pub node_add : Node → Text → Node → Node
node_add (leaf v) k c = with_child k c (leaf v)
node_add (with_child j d rest) k c = with_child j d (node_add rest k c)

unfoldable pub node_text : Node → Text
node_text (leaf v) = v
node_text (with_child j c rest) = node_text rest

unfoldable pub node_set : Node → Text → Node
node_set (leaf v) t = leaf t
node_set (with_child j c rest) t = with_child j c (node_set rest t)

unfoldable pub node_put : Node → Text → Text → Node
unfolding node_set
node_put (leaf v) k t = with_child k (leaf t) (leaf v)
node_put (with_child j c rest) k t =
    let rest' = node_put rest k t in
    if text_eq j k then with_child j (node_set c t) rest else with_child j c rest'

unfoldable pub node_children : Node → List (Text × Node)
node_children (leaf v) = []
node_children (with_child j c rest) = (j, c) ∷ node_children rest

unfoldable pub node_get : Node → Text → Option Text
unfolding node_child node_text
node_get n k = elim (node_child n k) [ none ↦ none | some c ↦ some (node_text c) ]

-- No node has both a text and children.
unfoldable pub node_writes : Node → Bool
unfolding node_text
node_writes (leaf v) = true
node_writes (with_child j c rest) = node_writes c && is_empty (node_text rest) && node_writes rest

abbrev pub first_byte : Text → Option ℕ
first_byte [] = none
first_byte (n ∷ t) = some n

abbrev pub node_tree : Ptree
node_tree = record sample_tree {
  Json = Node;
  empty = leaf [];
  put = λ n k t. if is_empty k then node_set n t else node_put n k t;
  add_child = node_add;
  push_back = node_add;
  get = node_get;
  get_child_optional = node_child;
  children = node_children;
  get_value = node_text;
  can_write = node_writes;
  write_json = node_text;
  read_json = λ t. some (leaf t);
  print_int = λ n. n ∷ [];
  print_uint64 = λ n. n ∷ [];
  parse_uint64 = first_byte;
  print_bool = λ b. (if b then 1 else 0) ∷ [];
  parse_bool = λ t. elim (first_byte t) [ none ↦ none | some n ↦ some (n == 1) ];
  print_double = λ x. x.bits ∷ [];
  parse_double = λ t. elim (first_byte t) [ none ↦ none | some n ↦ some (record { bits = n }) ];
}

abbrev pub sample_hit : Text → QueryHit
sample_hit content' = record {
  memory_id = text "a";
  source = text "turn";
  content = content';
  tags = [];
  metadata = [];
  scores = record {
    sparse = record { bits = 0 };
    dense = record { bits = 0 };
    freshness = record { bits = 0 };
    pin = record { bits = 0 };
    final = record { bits = 0 };
  };
  updated_at_ms = 5;
  pinned = false;
}

abbrev pub two_hits : List QueryHit
two_hits = sample_hit (text "hello world") ∷ sample_hit (text "again") ∷ []

abbrev pub sample_retriever : Retriever
sample_retriever = record {
  State = ℕ;
  index = λ s r. s + 1;
  remove = λ s workspace_id id. s;
  query = λ s phases input. record {
    hits = two_hits;
    debug_stats = record {
      sparse_candidates = 2;
      dense_candidates = 0;
      merged_candidates = 2;
      sparse_ms = phases.sparse_ms;
      dense_ms = phases.dense_ms;
      rerank_ms = phases.rerank_ms;
      total_ms = phases.total_ms;
    };
  };
  estimate_doc_bytes = λ r. 64;
}

abbrev pub sample_env : Env
sample_env = record {
  store = in_memory length 40;
  retriever = sample_retriever;
  tree = sample_tree;
  fpu = sample_fpu;
  float = sample_fpu;
  hash = length;
  clock = λ n. 1000 + n;
}

abbrev pub sample_options : Options
sample_options = record {
  mem_budget_mb = 1;
  disk_budget_gb = 1;
  gc_high_watermark = record { bits = 9 };
  gc_low_watermark = record { bits = 8 };
  gc_batch_size = 2;
  max_record_bytes = 4096;
  enable_tombstone_gc = true;
  tombstone_retention_ms = 0;
  max_pinned_ratio = record { bits = 1 };
  pin_ttl_override_s = 0;
  pin_quota_per_workspace = 1;
  effective_backend = text "inmemory";
}

abbrev pub engine_over : (env : Env) → env.store.State → env.retriever.State → Engine env
engine_over env store retriever = record {
  store = store;
  retriever = retriever;
  metrics = cleared;
  options = sample_options;
  node_id = text "node";
  local_seq = 0;
  index_generation = 0;
  records = [];
  dedup_index = [];
  resident_charge_bytes = [];
  resident_used_bytes = 0;
  resident_evicted_count = 0;
  disk_fallback_search_count = 0;
  cold_rehydrate_count = 0;
  dense_probe_count_total = 0;
  dense_probe_query_count = 0;
  query_cache_hit = 0;
  query_cache_total = 0;
  gc_running = false;
  gc_stop = false;
  gc_requested = false;
  gc_last_run_ms = 0;
  gc_evicted_count = 0;
  capacity_blocked = false;
  clock_reads = 0;
}

abbrev pub empty_engine : Engine sample_env
empty_engine = engine_over sample_env no_shards 0

abbrev pub sample_record : MemoryRecord
sample_record = record {
  id = text "a";
  workspace_id = text "w";
  session_id = text "s";
  source = text "turn";
  content = text "hello";
  tags = [];
  metadata = [];
  dedup_key = [];
  pinned = true;
  tombstone = false;
  created_at_ms = 5;
  updated_at_ms = 5;
  version = 1;
  size_bytes = 400;
  last_access_ms = 5;
  hit_count = 0;
  importance_score = record { bits = 1 };
  tier = text "hot";
  node_id = text "node";
  ttl_s = 0;
  shard_id = [];
  replica_role = [];
  routing_epoch = 0;
  shard_hint = [];
}

abbrev pub record_input : Bool → Text → WriteRecordInput
record_input pin content' = record {
  record_id = [];
  source = text "turn";
  content = content';
  tags = [];
  importance = record { bits = 1 };
  ttl_s = 0;
  pin = pin;
  dedup_key = [];
  metadata = [];
}

abbrev pub write_input : WriteInput
write_input = record {
  workspace_id = text "w";
  session_id = text "s";
  records = record_input true (text "hello") ∷ record_input true (text "world") ∷ [];
  write_mode = text "upsert";
}

abbrev pub query_input : QueryInput
query_input = record {
  workspace_id = text "w";
  query = text "hello";
  top_k = 5;
  token_budget = 2;
  filters = record {
    session_id = [];
    sources = [];
    tags_any = [];
    updated_after_ms = 0;
    updated_before_ms = 0;
    pinned_only = false;
  };
  recall = record { sparse_k = 5; dense_k = 5; oversample = 2 };
  rerank = record {
    w_sparse = record { bits = 1 };
    w_dense = record { bits = 1 };
    w_freshness = record { bits = 1 };
    w_pin = record { bits = 1 };
  };
  debug = false;
}

abbrev pub no_time : Double
no_time = record { bits = 0 }

abbrev pub no_phases : QueryClock
no_phases = record {
  now_ms = 0;
  sparse_ms = no_time;
  dense_ms = no_time;
  rerank_ms = no_time;
  total_ms = no_time;
}

abbrev pub node_env : Env
node_env = record sample_env { tree = node_tree }

abbrev pub node_engine : Engine node_env
node_engine = engine_over node_env no_shards 0

abbrev pub sample_timing : Timing
sample_timing = record { elapsed_ms = no_time; phases = no_phases }

-- A request of a method, with an id.
abbrev pub call_of : Text → Node
call_of method =
    with_child (text "id") (leaf (text "1")) (with_child (text "method") (leaf method) (leaf []))
